-- ===== src/Connection/Unended.antt =====
-- When the prints of the handshake stay inside their buffers, and when they do not.
use xrnetwork.Base.{
  Ends, Ends-bind, Ends-if, returned, ℕ, ◌+◌, ◌-◌, ◌≤◌, ◌<◌, ◌≡◌, ◌≢◌, refl, ap, ◌∙◌, List, [], ◌∷◌,
  ◌++◌, codes, Outcome, ok, fault, threw, out_of_bounds, ◌>>=◌, ◌==◌, arith,
}
use xrnetwork.Base.Memory.{Block}
use xrnetwork.Base.Layout.{word}
use xrnetwork.XrMessage.{message_size, read_header, from_raw}
use xrnetwork.XrMessage.RoundTrip.{from_head-built}
use xrnetwork.Protocol.Heads.{
  code, handshake_hello_ack, handshake_credentials, handshake_credentials_ack,
}
use xrnetwork.Protocol.Structs.{kb10, credentials_object, join_object}
use xrnetwork.Protocol.Builders.{build_handshake_credentials}
use xrnetwork.Printing.{Item, text, endl, c_text}
use xrnetwork.Printing.Digits.{digits}
use xrnetwork.Printing.Structs.{show_hello_ack, show_credentials_ack, show_join}
use xrnetwork.Printing.Terminated.{c_text-ends, c_text_runs, array-Ends}
use xrnetwork.Room.State.{Env, Room, id_of}
use xrnetwork.Connection.Handshake.{
  invitation, welcome_message, dispatch_handshake, read_handshake_ended,
}
use xrnetwork.Connection.Shown.{case_shown, answer_shown, read_handshake_shown}

answered :
    {A : Type 0} (m : Outcome Room) (f : Room → Outcome A) (g : Room → A → Room × List Item)
    (lines : Room → List Item)
    → ((r : Room) → (f r >>= λ a. ok (g r a)) ≡ ok (r, lines r))
    → (m >>= λ r. f r >>= λ a. ok (g r a)) ≡ (m >>= λ r. ok (r, lines r))
answered (ok r) f g lines e = e r
answered (fault x) f g lines e = refl
answered threw f g lines e = refl

pub raw_size : (buffer msg : Block) (n : ℕ) → from_raw buffer n ≡ ok msg → msg.size ≡ message_size
unfolding from_raw
raw_size buffer msg n e = ground (arith, e)

module _ (msg : Block) (whole : msg.size ≡ message_size) (ended : msg.at 65535 ≡ 0) where
  pub text-Ends : (off : ℕ) → off < message_size → Ends (c_text msg off)
  text-Ends off inside =
      let last : off + (65535 - off) ≡ 65535 = omega arith in
      c_text-ends msg off (65535 - off) (omega (arith, whole)) (ap msg.at last ∙ ended)

  case_shown-Ends : (hd : ℕ) (buffer : Block) → Ends (case_shown hd buffer msg)
  unfolding case_shown show_hello_ack show_credentials_ack
  case_shown-Ends hd buffer =
      Ends-if (hd == code handshake_hello_ack) _ _
        (Ends-bind _ _ (Ends-bind _ _ (text-Ends 28 (omega arith)) (λ t. returned _))
          (λ is. returned _))
        (Ends-if (hd == code handshake_credentials_ack) _ _
          (Ends-bind _ _
            (Ends-bind _ _ (text-Ends 18 (omega arith)) λ name.
              Ends-bind _ _ (text-Ends 1044 (omega arith))
                λ word. Ends-bind _ _ (text-Ends 2070 (omega arith)) λ cert. returned _)
            (λ is. returned _))
          (returned []))

invitation-Ends : (id : ℕ) → Ends (show_join (join_object (invitation id)))
unfolding show_join
invitation-Ends id =
    Ends-bind _ _
      (array-Ends (word 8 id ∷ word 2 1 ∷ word 2 0xFFFF ∷ word 4 16 ∷ []) kb10 welcome_message [] 16
        refl (omega arith) (join_object (invitation id)) (omega arith) refl)
      (λ t. returned _)

answer_shown-Ends : (hd id : ℕ) → Ends (answer_shown hd id)
unfolding answer_shown
answer_shown-Ends hd id =
    Ends-if (hd == code handshake_hello_ack) _ _
      (Ends-bind _ _
        (
          _,
          from_head-built (code handshake_credentials)
              (credentials_object build_handshake_credentials) 20484 (omega arith) (omega arith),
        )
        (λ m. returned _))
      (Ends-if (hd == code handshake_credentials_ack) _ _
        (Ends-bind _ _ (invitation-Ends id) (λ is. returned _)) (returned []))

-- While a message of the handshake ends in a NUL byte, its prints stay inside their buffers, and the
-- handler with its prints does to the room what it does without them, on every outcome.
pub ended_message_shown :
    (env : Env) (h n : ℕ) (buffer msg : Block) (r : Room)
    → from_raw buffer n ≡ ok msg
    → msg.at 65535 ≡ 0
    → (lines : Room → List Item) × (read_handshake_shown env h buffer n r
        ≡ (read_handshake_ended env h buffer n r >>= λ r'. ok (r', lines r')))
unfolding read_handshake_shown read_handshake_ended
ended_message_shown env h n buffer msg r received ended =
    let hd = (read_header msg.at).head in
    let shown = case_shown-Ends msg (raw_size buffer msg n received) ended hd buffer in
    let answers : (r' : Room) → Ends (answer_shown hd (id_of r' h)) =
      λ r'. answer_shown-Ends hd (id_of r' h) in
    (
      λ r'.
          endl ∷ text (codes "receiving ") ∷ text (digits 10 20 n) ∷ endl ∷ shown.0
          ++ (answers r').0,
      rw (received, shown.1)
          (answered (dispatch_handshake env h hd msg r) (λ r'. answer_shown hd (id_of r' h)) _ _
            (λ r'.
              ap
                (λ o. o >>= λ answer. ok (
                  r',
                  endl ∷ text (codes "receiving ") ∷ text (digits 10 20 n) ∷ endl ∷ shown.0
                      ++ answer,
                ))
                (answers r').1)),
    )

-- The client's login may lack a NUL, up to the last byte of the message: then the print of it reads
-- past the message before anything is checked, whatever the room and whoever sends it.
pub unended_login_faults :
    (env : Env) (h : ℕ) (buffer msg : Block) (r : Room)
    → from_raw buffer message_size ≡ ok msg
    → (read_header msg.at).head ≡ code handshake_credentials_ack
    → ((k : ℕ) → 18 ≤ k → k < message_size → msg.at k ≢ 0)
    → read_handshake_shown env h buffer message_size r ≡ fault out_of_bounds
unfolding read_handshake_shown case_shown show_credentials_ack
unended_login_faults env h buffer msg r received named endless =
    let size = raw_size buffer msg message_size received in
    rw
      (
        received,
        named,
        c_text_runs msg 18 (λ k hk. endless (18 + k) (omega arith) (omega (arith, hk, size))),
      )
      refl
