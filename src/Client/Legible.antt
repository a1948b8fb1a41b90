-- ===== src/Client/Legible.antt =====
-- The client's prints of a handshake stay inside their buffers.
use xrnetwork.Base.{
  ℕ, ◌+◌, ◌^◌, ◌≤◌, ◌<◌, ◌≡◌, refl, ap, ◌∙◌, true, List, [], ◌∷◌, ◌++◌, length, Outcome, ok,
  ok-injective, fault, threw, ◌>>=◌, Ends, Ends-bind, returned, arith,
}
use xrnetwork.Base.Memory.{Block, Memory, zeros, copy, bytes_of}
use xrnetwork.Base.Layout.{word, array, array-layout}
use xrnetwork.XrMessage.{header_size, message_size, read_header}
use xrnetwork.XrMessage.RoundTrip.{
  built, from_head-built, from_raw-built, from_head-built, head-built, zeros-message_bytes,
  payload-message_bytes,
}
use xrnetwork.Protocol.Heads.{
  code, handshake_hello, handshake_hello_ack, handshake_credentials, participant_join,
}
use xrnetwork.Protocol.Structs.{
  kb, kb10, kb20, kb, HandshakeHello, hello_object, hello_ack_object, credentials_object,
  credentials_ack_object, join_object,
}
use xrnetwork.Protocol.Builders.{build_handshake_credentials}
use xrnetwork.Printing.{Item, c_text}
use xrnetwork.Printing.Structs.{
  show_join, show_hello, show_hello_ack, show_credentials, show_credentials_ack,
}
use xrnetwork.Printing.Terminated.{c_text-ends, text_behind, array-Ends}
use xrnetwork.Connection.Unended.{text-Ends}
use xrnetwork.Connection.Handshake.{invitation, welcome_message}
use xrnetwork.Client.{
  Client, hello_reply, configuration, client_credentials, login, password, dispatch, read_ended,
}
use xrnetwork.Client.Shown.{
  by_value, receiving, hello_shown, credentials_shown, case_shown, read_shown,
}

shown_after :
    (m : Outcome Client) (c' : Client) (lines : List Item)
    → (m >>= λ d. ok (record d { reading = true })) ≡ ok c'
    → ◌>>=◌ {B = Client × List Item} m (λ d. ok (record d { reading = true }, lines))
      ≡ ok (c', lines)
shown_after (ok d) c' lines e = ap (λ (x : Client). ok (x, lines)) (ok-injective _ c' e)
shown_after (fault x) c' lines e = absurd (ground arith)
shown_after threw c' lines e = absurd (ground arith)

-- Where the print of its case ends, the handler does with it what it does without.
pub read_shown-ended :
    (now hd n : ℕ) (src : Block) (c c' : Client) (lines : List Item)
    → hd < 2 ^ 16
    → n ≤ src.size
    → header_size + n ≤ message_size
    → case_shown now hd (built hd src n) (built hd src n) ≡ ok lines
    → read_ended now (built hd src n) message_size c ≡ ok c'
    → read_shown now (built hd src n) message_size c
      ≡ ok (c', receiving message_size (built hd src n) ++ lines)
unfolding read_shown read_ended
read_shown-ended now hd n src c c' lines hh hs hn shown e =
    let msg = built hd src n in
    let named : (read_header msg.at).head ≡ hd = head-built hd src n hh (omega arith) in
    let received = from_raw-built hd src n hs hn in
    rw (received, ap (λ (i : ℕ). case_shown now i msg msg) named ∙ shown)
      (shown_after (dispatch now (read_header msg.at).head msg c) c'
        (receiving message_size msg ++ lines) (rw received at e))

-- The text at an offset of a message that was built.
built-Ends :
    (hd n off : ℕ) (src : Block)
    → header_size + n ≤ 65535
    → off < message_size
    → Ends (c_text (built hd src n) off)
built-Ends hd n off src hn inside =
    text-Ends (built hd src n) refl (zeros-message_bytes hd src.at n 65535 hn) off inside

-- The client's own structs are printed whole.
configuration-Ends : (id now : ℕ) → Ends (c_text (hello_ack_object (hello_reply id now)) 20)
configuration-Ends id now =
    array-Ends (word 8 id ∷ word 8 now ∷ word 4 20 ∷ []) kb20 configuration [] 20 refl (omega arith)
      (hello_ack_object (hello_reply id now)) (omega arith) refl

credentials-Ends : Ends (show_credentials_ack (credentials_ack_object client_credentials) 0)
unfolding client_credentials show_credentials_ack
credentials-Ends =
    let own = credentials_ack_object client_credentials in
    let texts : List ℕ → Memory = λ name. copy zeros 0 (bytes_of name) (length name) in
    let to_login = word 8 0 ∷ word 2 5 ∷ [] in
    let to_password = to_login ++ array kb (texts login) ∷ word 2 8 ∷ [] in
    let to_certificate = to_password ++ array kb (texts password) ∷ word 2 0 ∷ [] in
    Ends-bind _ _ (array-Ends to_login kb login _ 10 refl (omega arith) own (omega arith) refl)
      λ name.
        Ends-bind _ _
          (array-Ends to_password kb password _ 1036 refl (omega arith) own (omega arith) refl)
          λ word.
            Ends-bind _ _
              (c_text-ends own 2062 0 (omega arith)
                (array-layout to_certificate kb20 zeros [] 2062 0 refl (omega arith)))
              λ cert. returned _

-- Each case of the handshake is printed whole.
pub hello_case :
    (now : ℕ) (s : HandshakeHello)
    → let msg = built (code handshake_hello) (hello_object s) 1052 in
      Ends (case_shown now (code handshake_hello) msg msg)
unfolding case_shown hello_shown show_hello show_hello_ack
hello_case now s =
    Ends-bind _ _
      (Ends-bind _ _
        (built-Ends (code handshake_hello) 1052 36 (hello_object s) (omega arith) (omega arith))
        (λ t. returned _))
      λ hello. Ends-bind _ _ (Ends-bind _ _ (configuration-Ends _ now) (λ t. returned _)) λ answer.
        Ends-bind _ _
          (
            _,
            from_head-built (code handshake_hello_ack) (hello_ack_object (hello_reply _ now)) 20500
                (omega arith) (omega arith),
          )
          λ sent. returned _

pub credentials_case :
    (now : ℕ)
    → let msg =
        built (code handshake_credentials) (credentials_object build_handshake_credentials) 20484 in
      Ends (case_shown now (code handshake_credentials) msg msg)
unfolding case_shown credentials_shown show_credentials
credentials_case now =
    Ends-bind _ _
      (Ends-bind _ _
        (built-Ends (code handshake_credentials) 20484 12
          (credentials_object build_handshake_credentials) (omega arith) (omega arith))
        (λ t. returned _))
      λ asked. Ends-bind _ _ credentials-Ends (λ given. returned _)

pub join_case :
    (now id : ℕ)
    → let msg = built (code participant_join) (join_object (invitation id)) 10256 in
      Ends (case_shown now (code participant_join) msg msg)
unfolding case_shown show_join
join_case now id =
    let object = join_object (invitation id) in
    let msg = built (code participant_join) object 10256 in
    let own =
      text_behind (word 8 id ∷ word 2 1 ∷ word 2 0xFFFF ∷ word 4 16 ∷ []) kb10 welcome_message [] 16
        refl (omega arith) in
    Ends-bind _ _
      (Ends-bind _ _
        (c_text-ends (by_value 10256 msg) 16 16 (omega arith)
          (payload-message_bytes (code participant_join) object.at 10256 32 (omega arith) ∙ own))
        (λ t. returned _))
      (λ is. returned _)
