-- ===== src/Client/Shown.antt =====
-- nr_client.cpp: what the handler of a read prints, beside what it does. A struct behind `operator<<`
-- by value is copied out of the message first; the others are read where they stand. What `printf`
-- writes stands in the order in which it is written.
use xrnetwork.Base.{ℕ, true, List, [], ◌∷◌, ◌++◌, codes, Outcome, ok, ◌>>=◌, ◌==◌, if◌then◌else◌}
use xrnetwork.Base.Memory.{Block}
use xrnetwork.XrMessage.{header_size, read_header, from_raw, from_head}
use xrnetwork.Protocol.Heads.{
  code, handshake_hello, handshake_hello_ack, handshake_credentials, participant_join,
  participant_new, participant_update_ack,
}
use xrnetwork.Protocol.Structs.{hello_ack_object, credentials_ack_object}
use xrnetwork.Protocol.Readers.{from, read_hello}
use xrnetwork.Printing.{first_bytes, Item, text, endl, show_header}
use xrnetwork.Printing.Digits.{digits}
use xrnetwork.Printing.Structs.{
  show_join, show_new, show_update_ack, show_hello, show_hello_ack, show_credentials,
  show_credentials_ack,
}
use xrnetwork.Client.{Client, hello_reply, client_credentials, dispatch}

-- The struct of `size` bytes that a message carries, as a copy.
abbrev pub by_value : ℕ → Block → Block
by_value size msg = record { size = size; at = from msg.at header_size }

-- Before the `switch`.
unfoldable pub receiving : ℕ → Block → List Item
receiving n msg =
    endl
      ∷ text (codes "receiving ")
      ∷ text (digits 10 20 n)
      ∷ endl
      ∷ show_header (read_header msg.at)
    ++ endl ∷ []

unfoldable pub hello_shown : ℕ → Block → Block → Outcome (List Item)
unfolding show_hello show_hello_ack read_hello
hello_shown now buffer msg =
    let reply = hello_ack_object (hello_reply (read_hello msg.at header_size).service_id now) in
    show_hello msg header_size >>= λ hello. show_hello_ack reply 0 >>= λ answer.
    from_head (code handshake_hello_ack) reply reply.size >>= λ sent. ok (
      text (codes "<< HANDSHAKE_HELLO: ") ∷ endl ∷ first_bytes buffer ∷ endl ∷ hello
      ++ endl ∷ endl ∷ text (codes ">> HANDSHAKE_HELLO_ACK") ∷ endl ∷ answer
      ++ endl ∷ first_bytes sent ∷ [])

-- `sizeof(ST_HANDSHAKE_CREDENTIALS_ACK)`.
abbrev pub credentials_ack_size : ℕ
credentials_ack_size = 22542

unfoldable pub credentials_shown : Block → Outcome (List Item)
unfolding show_credentials show_credentials_ack
credentials_shown msg = show_credentials msg header_size >>= λ asked.
    show_credentials_ack (credentials_ack_object client_credentials) 0 >>= λ given. ok (
      text (codes "<< HANDSHAKE_CREDENTIALS ") ∷ endl ∷ asked
      ++ endl
        ∷ text (codes ">> HANDSHAKE_CREDENTIALS_ACK (")
        ∷ text (digits 10 20 credentials_ack_size)
        ∷ text (codes ")")
        ∷ endl
        ∷ given
      ++ endl ∷ [])

-- A title, the struct and the end of the line.
abbrev titled : List ℕ → Outcome (List Item) → Outcome (List Item)
titled title shown = shown >>= λ is. ok (text title ∷ endl ∷ is ++ endl ∷ [])

-- The cases of the `switch`; the others print nothing.
unfoldable pub case_shown : ℕ → ℕ → Block → Block → Outcome (List Item)
unfolding hello_shown credentials_shown show_join show_new show_update_ack
case_shown now head buffer msg =
    if head == code handshake_hello
    then hello_shown now buffer msg
    else if head == code handshake_credentials
    then credentials_shown msg
    else if head == code participant_join
    then titled (codes "<< PARTICIPANT_JOIN") (show_join (by_value 10256 msg))
    else if head == code participant_new
    then titled (codes "<< NEW PARtICIPANT") (show_new (by_value 20492 msg))
    else if head == code participant_update_ack
    then titled (codes "<< PARTICIPANT_UPCATE_ACK ") (show_update_ack (by_value 20500 msg))
    else ok []

-- `do_read_byte`: the handler of a read that ended well, with what it prints. A print that leaves
-- its buffer ends the program before the state changes.
unfoldable pub read_shown : ℕ → Block → ℕ → Client → Outcome (Client × List Item)
unfolding receiving case_shown read_header dispatch
read_shown now buffer bytes_transferred c = from_raw buffer bytes_transferred >>= λ msg.
    case_shown now (read_header msg.at).head buffer msg >>= λ shown.
    dispatch now (read_header msg.at).head msg c >>= λ c'.
    ok (record c' { reading = true }, receiving bytes_transferred msg ++ shown)
