-- ===== src/Connection/Reaching.antt =====
-- The handlers of both read loops keep the room in order.
use xrnetwork.Base.{
  ℕ, ◌≡◌, refl, ap, ◌∙◌, Bool, List, [], ◌∷◌, ◌++◌, Outcome, ok, fault, threw, ◌>>=◌, arith,
}
use xrnetwork.Base.Memory.{Block}
use xrnetwork.XrMessage.{read_header, from_raw}
use xrnetwork.Session.{
  Session, Reader, handshake_reader, byte_reader, do_read_byte, do_read_handshake,
}
use xrnetwork.Room.State.{Env, Room, put, modify, sessions-put_self}
use xrnetwork.Room.Members.{join}
use xrnetwork.Room.Invariant.{IsOutside, put-IsValid}
use xrnetwork.Connection.Handshake.{
  are_accepted, invite, check_handshake_hello_ack, check_handshake_credentials_ack,
  dispatch_handshake, read_handshake_ended,
}
use xrnetwork.Connection.Byte.{dispatch_byte, read_byte_ended}
use xrnetwork.Connection.Credentials.{checked_session, check-form, checked-reads, checked-m_id}
use xrnetwork.Connection.Loop.{take_read}
use xrnetwork.Connection.Frame.{OnReturn, OnReturn->>=, OnReturn-then, Quiet}
use xrnetwork.Connection.Handlers.{hello_ack-Quiet, invite-Quiet, dispatch_byte-Quiet}
use xrnetwork.Connection.Serving.{
  Phase, silent, greeted, served, IsServing, Quiet-IsServing, put-IsServing, join-IsServing,
}

pub greeted-Phase :
    (r : Room) (h : ℕ) (rest : List Reader)
    → Phase r h
    → (r.sessions h).reads ≡ handshake_reader ∷ rest
    → (rest ≡ []) × IsOutside h r
greeted-Phase r h rest (silent a) e = cc
greeted-Phase r h rest (greeted a out) e = (ground arith, out)
greeted-Phase r h rest (served a) e = cc

pub served-Phase :
    (r : Room) (h : ℕ) (rest : List Reader)
    → Phase r h
    → (r.sessions h).reads ≡ byte_reader ∷ rest
    → rest ≡ []
served-Phase r h rest (silent a) e = cc
served-Phase r h rest (greeted a out) e = cc
served-Phase r h rest (served a) e = ground arith

pub taken_silent :
    (r : Room) (h : ℕ) (rest : List Reader)
    → rest ≡ []
    → ((take_read h rest r).sessions h).reads ≡ []
taken_silent r h rest e =
    ap (λ (s : Session). s.reads) (sessions-put_self r h (record (r.sessions h) { reads = rest }))
    ∙ e

pub take_read-IsServing :
    (r : Room) (h : ℕ) (rest : List Reader)
    → rest ≡ []
    → IsServing r
    → IsServing (take_read h rest r)
take_read-IsServing r h rest e a =
    put-IsServing r h (record (r.sessions h) { reads = rest })
      (put-IsValid r h (record (r.sessions h) { reads = rest }) refl a.valid)
      (silent (taken_silent r h rest e)) a

-- A silent session may arm a read: outside the room for its handshake, anywhere for what follows.
pub await_handshake-IsServing :
    (h : ℕ) (r : Room)
    → (r.sessions h).reads ≡ []
    → IsOutside h r
    → IsServing r
    → IsServing (modify h do_read_handshake r)
unfolding do_read_handshake put
await_handshake-IsServing h r quiet outside a =
    put-IsServing r h (do_read_handshake (r.sessions h))
      (put-IsValid r h (do_read_handshake (r.sessions h)) refl a.valid)
      (greeted
        (ap (λ (s : Session). s.reads) (sessions-put_self r h (do_read_handshake (r.sessions h)))
          ∙ ap (λ l. l ++ handshake_reader ∷ []) quiet)
        outside)
      a

await_byte-IsServing :
    (h : ℕ) (r : Room)
    → (r.sessions h).reads ≡ []
    → IsServing r
    → IsServing (modify h do_read_byte r)
unfolding do_read_byte
await_byte-IsServing h r quiet a =
    put-IsServing r h (do_read_byte (r.sessions h))
      (put-IsValid r h (do_read_byte (r.sessions h)) refl a.valid)
      (served (
        ap (λ (s : Session). s.reads) (sessions-put_self r h (do_read_byte (r.sessions h)))
        ∙ ap (λ l. l ++ byte_reader ∷ []) quiet))
      a

-- A quiet call keeps the room serving.
pub settled-Quiet :
    (r : Room) (m : Outcome Room) → IsServing r → OnReturn (Quiet r) m → OnReturn IsServing m
settled-Quiet r (ok r') a q = Quiet-IsServing r r' q a
settled-Quiet r (fault e) a q = tt
settled-Quiet r threw a q = tt

credentials-IsServing :
    (env : Env) (h : ℕ) (msg : Block) (r : Room) (answer : Bool)
    → are_accepted msg ≡ answer
    → (r.sessions h).reads ≡ []
    → IsOutside h r
    → IsServing r
    → OnReturn IsServing (check_handshake_credentials_ack env h msg r)
unfolding put
credentials-IsServing env h msg r answer answered quiet outside a =
    let s = checked_session answer (r.sessions h) in
    let armed : ((put r h s).sessions h).reads ≡ byte_reader ∷ [] =
      ap (λ (t : Session). t.reads) (sessions-put_self r h s)
      ∙ checked-reads answer (r.sessions h)
      ∙ ap (λ l. l ++ byte_reader ∷ []) quiet in
    let ready =
      put-IsServing r h s (put-IsValid r h s (checked-m_id answer (r.sessions h)) a.valid)
        (served armed) a in
    rw (check-form env h msg r answer answered) (
      OnReturn-then IsServing IsServing (join env h (put r h s)) (invite h)
        (join-IsServing env h (put r h s) armed outside ready)
        (λ r' a'. settled-Quiet r' (invite h r') a' (invite-Quiet h r')))

dispatched-IsServing :
    (env : Env) (h hd : ℕ) (msg : Block) (r : Room)
    → (r.sessions h).reads ≡ []
    → IsOutside h r
    → IsServing r
    → OnReturn IsServing (dispatch_handshake env h hd msg r)
unfolding dispatch_handshake
dispatched-IsServing env h hd msg r quiet outside a = ground (
  arith,
  OnReturn-then IsServing (Quiet r) (check_handshake_hello_ack h msg r)
      (λ r'. ok (modify h do_read_handshake r')) (hello_ack-Quiet h msg r)
      (λ r' q.
        await_handshake-IsServing h r' (q.reads h ∙ quiet) (q.stays h outside)
          (Quiet-IsServing r r' q a)),
  credentials-IsServing env h msg r (are_accepted msg) refl quiet outside a,
  await_handshake-IsServing h r quiet outside a,
)

pub handshake-IsServing :
    (env : Env) (h : ℕ) (buffer : Block) (n : ℕ) (r : Room)
    → (r.sessions h).reads ≡ []
    → IsOutside h r
    → IsServing r
    → OnReturn IsServing (read_handshake_ended env h buffer n r)
unfolding read_handshake_ended
handshake-IsServing env h buffer n r quiet outside a =
    OnReturn->>= IsServing (from_raw buffer n)
      (λ msg. dispatch_handshake env h (read_header msg.at).head msg r)
      (λ msg. dispatched-IsServing env h (read_header msg.at).head msg r quiet outside a)

pub byte-IsServing :
    (env : Env) (h : ℕ) (buffer : Block) (n : ℕ) (r : Room)
    → (r.sessions h).reads ≡ []
    → IsServing r
    → OnReturn IsServing (read_byte_ended env h buffer n r)
unfolding read_byte_ended
byte-IsServing env h buffer n r quiet a =
    OnReturn->>= IsServing (from_raw buffer n)
      (λ msg.
        dispatch_byte env h (read_header msg.at).head msg r >>= λ r'. ok (modify h do_read_byte r'))
      (λ msg.
        OnReturn-then IsServing (Quiet r) (dispatch_byte env h (read_header msg.at).head msg r)
          (λ r'. ok (modify h do_read_byte r'))
          (dispatch_byte-Quiet env h (read_header msg.at).head msg r)
          (λ r' q. await_byte-IsServing h r' (q.reads h ∙ quiet) (Quiet-IsServing r r' q a)))
