-- ===== src/Connection/Shown.antt =====
-- handshake.hpp: what the handlers of the handshake print, beside what they do. The structs are read
-- where they stand. What `printf` writes stands in the order in which it is written; the line of
-- `do_close` is left out.
use xrnetwork.Base.{ℕ, List, [], ◌∷◌, ◌++◌, codes, Outcome, ok, ◌>>=◌, ◌==◌, if◌then◌else◌}
use xrnetwork.Base.Memory.{Block}
use xrnetwork.XrMessage.{header_size, read_header, from_raw, from_head}
use xrnetwork.Protocol.Heads.{
  code, handshake_hello, handshake_hello_ack, handshake_credentials, handshake_credentials_ack,
}
use xrnetwork.Protocol.Structs.{hello_object, credentials_object, join_object}
use xrnetwork.Protocol.Builders.{build_handshake_hello, build_handshake_credentials}
use xrnetwork.Printing.{first_bytes, Item, text, endl}
use xrnetwork.Printing.Digits.{digits}
use xrnetwork.Printing.Structs.{show_hello, show_hello_ack, show_credentials_ack, show_join}
use xrnetwork.Room.State.{Env, Room, id_of}
use xrnetwork.Connection.Handshake.{Service, invitation, start, dispatch_handshake}

-- What the start prints, of the greeting's own text and of its message.
abbrev pub opening : List Item → Block → List Item
opening hello msg =
    text (codes "starting handshake") ∷ endl ∷ text (codes ">> ST_HANDSHAKE_HELLO :") ∷ endl ∷ hello
    ++ endl ∷ first_bytes msg ∷ []

-- `do_start_handshake`: the greeting is printed before it is sent.
unfoldable pub start_shown : Env → Service → ℕ → ℕ → Room → Outcome (Room × List Item)
unfolding build_handshake_hello show_hello start
start_shown env service timestamp h r =
    build_handshake_hello service.service_id (id_of r h) timestamp service.server_name >>= λ hh.
    show_hello (hello_object hh) 0 >>= λ hello.
    from_head (code handshake_hello) (hello_object hh) (hello_object hh).size >>= λ msg.
    start env service timestamp h r >>= λ r'. ok (r', opening hello msg)

-- The two cases of the `switch` that print what has come.
unfoldable pub case_shown : ℕ → Block → Block → Outcome (List Item)
unfolding show_hello_ack show_credentials_ack
case_shown head buffer msg =
    if head == code handshake_hello_ack
    then (show_hello_ack msg header_size >>= λ is. ok (
        text (codes "<< HANDSHAKE_HELLO_ACK: ") ∷ endl ∷ first_bytes buffer ∷ endl ∷ is
        ++ endl ∷ []))
    else if head == code handshake_credentials_ack
    then (show_credentials_ack msg header_size >>= λ is. ok (
        text (codes "<< HANDSHAKE_CREDENTIALS_ACK") ∷ endl ∷ first_bytes buffer ∷ endl ∷ is
        ++ endl ∷ []))
    else ok []

-- And what they print of the answer, with the identifier that the session has by then.
unfoldable pub answer_shown : ℕ → ℕ → Outcome (List Item)
unfolding build_handshake_credentials show_join
answer_shown head id =
    let demand = credentials_object build_handshake_credentials in
    if head == code handshake_hello_ack
    then (from_head (code handshake_credentials) demand demand.size >>= λ msg.
        ok (text (codes ">> HANDSHAKE_CREDENTIALS") ∷ endl ∷ first_bytes msg ∷ endl ∷ []))
    else if head == code handshake_credentials_ack
    then (show_join (join_object (invitation id)) >>= λ is.
        ok (text (codes ">> PARTICIPANT_JOIN") ∷ endl ∷ is ++ endl ∷ []))
    else ok []

-- `do_read_handshake`: the handler of a read that ended well, with what it prints. A print that
-- leaves its buffer ends the program.
unfoldable pub read_handshake_shown : Env → ℕ → Block → ℕ → Room → Outcome (Room × List Item)
unfolding case_shown answer_shown dispatch_handshake read_header
read_handshake_shown env h buffer bytes_transferred r = from_raw buffer bytes_transferred >>= λ msg.
    case_shown (read_header msg.at).head buffer msg >>= λ shown.
    dispatch_handshake env h (read_header msg.at).head msg r >>= λ r'.
    answer_shown (read_header msg.at).head (id_of r' h) >>= λ answer. ok (
      r',
      endl ∷ text (codes "receiving ") ∷ text (digits 10 20 bytes_transferred) ∷ endl ∷ shown
          ++ answer,
    )
