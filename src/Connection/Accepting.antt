-- ===== src/Connection/Accepting.antt =====
-- Which credentials the handshake accepts.
use xrnetwork.Base.{ℕ, ◌≤◌, ◌≡◌, refl, ap₂, ◌∙◌, Bool, true, false, not, ◌&&◌, ◌||◌, codes, arith}
use xrnetwork.Base.Memory.{strcmp_eq, strcmp_eq_agree}
use xrnetwork.XrMessage.RoundTrip.{built}
use xrnetwork.Protocol.Structs.{HandshakeCredentialsAck, credentials_ack_object}
use xrnetwork.Protocol.Offsets.{read_credentials_ack-sent}
use xrnetwork.Connection.Handshake.{are_accepted}

both : (a b : Bool) → not (not a || not b) ≡ (a && b)
both true true = refl
both true false = refl
both false true = refl
both false false = refl

-- A message that carries the credentials' struct up to its password at least is accepted exactly
-- where the login is the text "login" and the password the text "password", each ended by a NUL;
-- the sizes in the struct, the identifier and the certificate play no part.
pub are_accepted-sent :
    (hd n : ℕ) (s : HandshakeCredentialsAck)
    → 2060 ≤ n
    → are_accepted (built hd (credentials_ack_object s) n) ≡ (
        strcmp_eq s.login_buffer 0 (codes "login")
        && strcmp_eq s.password_buffer 0 (codes "password"))
unfolding are_accepted
are_accepted-sent hd n s room =
    let sent = read_credentials_ack-sent hd n s room in
    both _ _
    ∙ ap₂ ◌&&◌ (strcmp_eq_agree _ s.login_buffer (codes "login") λ k hk. sent.0 k (omega arith))
        (strcmp_eq_agree _ s.password_buffer (codes "password") λ k hk. sent.1 k (omega arith))
