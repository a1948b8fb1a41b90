-- ===== src/Connection/Handshake.antt =====
-- handshake.hpp: the handlers of a session before it joins.
use xrnetwork.Base.{
  ℕ, ◌+◌, Bool, not, ◌||◌, List, ◌++◌, length, codes, Outcome, ok, fault, out_of_bounds, ◌>>=◌, ltb,
  ◌==◌, if◌then◌else◌,
}
use xrnetwork.Base.Memory.{Block, zeros, copy, bytes_of, slice, strcmp_eq}
use xrnetwork.XrMessage.{header_size, read_header, from_raw, from_head}
use xrnetwork.Protocol.Heads.{
  code, handshake_hello, handshake_hello_ack, handshake_credentials, handshake_credentials_ack,
  participant_join,
}
use xrnetwork.Protocol.Structs.{ParticipantJoin, hello_object, credentials_object, join_object}
use xrnetwork.Protocol.Builders.{build_handshake_hello, build_handshake_credentials}
use xrnetwork.Protocol.Readers.{read_hello_ack, read_credentials_ack}
use xrnetwork.Session.{do_close, do_read_byte, do_read_handshake}
use xrnetwork.Room.State.{Env, Room, id_of, modify}
use xrnetwork.Room.Deliver.{deliver_byte}
use xrnetwork.Room.Members.{join, draw_id}

-- What the server gives to each session: its identifier and its name.
pub record Service : Type 0 where
  pub service_id : ℕ
  pub server_name : List ℕ

-- The greeting is sent after the first read is armed.
unfoldable pub do_start_handshake : Service → ℕ → ℕ → Room → Outcome Room
unfolding build_handshake_hello
do_start_handshake service timestamp h r =
    let armed = modify h do_read_handshake r in
    build_handshake_hello service.service_id (id_of armed h) timestamp service.server_name >>= λ hh.
    from_head (code handshake_hello) (hello_object hh) (hello_object hh).size >>= λ msg.
    ok (deliver_byte msg h armed)

unfoldable pub start : Env → Service → ℕ → ℕ → Room → Outcome Room
unfolding do_start_handshake
start env service timestamp h r =
    do_start_handshake service timestamp h (modify h (λ s. record s { ip = env.endpoint h }) r)

-- The configuration is appended to the descriptor, as many bytes as the client says.
unfoldable pub check_handshake_hello_ack : ℕ → Block → Room → Outcome Room
unfolding read_hello_ack build_handshake_credentials
check_handshake_hello_ack h msg r =
    let ack = read_hello_ack msg.at header_size in
    let configuration = slice ack.configuration_buffer 0 ack.configuration_buffersize in
    let hc = credentials_object build_handshake_credentials in
    if ltb msg.size (header_size + 20 + ack.configuration_buffersize)
    then fault out_of_bounds
    else from_head (code handshake_credentials) hc hc.size >>= λ reply. ok (
        deliver_byte reply h
          (modify h (λ s. record s { m_descriptor = s.m_descriptor ++ configuration }) r))

-- The two texts that the code compares with.
unfoldable pub are_accepted : Block → Bool
unfolding read_credentials_ack
are_accepted msg =
    let ack = read_credentials_ack msg.at header_size in
    not (
      not (strcmp_eq ack.login_buffer 0 (codes "login"))
      || not (strcmp_eq ack.password_buffer 0 (codes "password")))

abbrev pub welcome_message : List ℕ
welcome_message = codes "accepted in room"

abbrev pub invitation : ℕ → ParticipantJoin
invitation id = record {
  participant_id = id;
  max_data_rate = 1;
  allow_asynchronous_messages = 0xFFFF;
  message_buffersize = length welcome_message;
  message_buffer = copy zeros 0 (bytes_of welcome_message) (length welcome_message);
}

-- The invitation, sent with the identifier that the session has by then.
unfoldable pub invite : ℕ → Room → Outcome Room
invite h r =
    let object = join_object (invitation (id_of r h)) in
    from_head (code participant_join) object object.size >>= λ msg. ok (deliver_byte msg h r)

-- A refusal closes the socket, and the rest is done all the same.
unfoldable pub check_handshake_credentials_ack : Env → ℕ → Block → Room → Outcome Room
unfolding are_accepted invite
check_handshake_credentials_ack env h msg r =
    let checked = if not (are_accepted msg) then modify h do_close r else r in
    join env h (modify h do_read_byte checked) >>= invite h

-- The room as the exception of a refused option leaves it: the socket may be closed, the read of a
-- joined session is armed, and an identifier is drawn; the session is not in the room.
unfoldable pub credentials_thrown : Env → ℕ → Block → Room → Room
unfolding are_accepted draw_id
credentials_thrown env h msg r =
    let checked = if not (are_accepted msg) then modify h do_close r else r in
    draw_id env h (modify h do_read_byte checked)

-- The `switch` on the head. Only the credentials end the reading of the handshake.
unfoldable pub dispatch_handshake : Env → ℕ → ℕ → Block → Room → Outcome Room
unfolding check_handshake_hello_ack check_handshake_credentials_ack
dispatch_handshake env h head msg r =
    if head == code handshake_hello_ack
    then (check_handshake_hello_ack h msg r >>= λ r'. ok (modify h do_read_handshake r'))
    else if head == code handshake_credentials_ack
    then check_handshake_credentials_ack env h msg r
    else ok (modify h do_read_handshake r)

-- `do_read_handshake`: the handler of a read that ended well.
unfoldable pub read_handshake_ended : Env → ℕ → Block → ℕ → Room → Outcome Room
unfolding dispatch_handshake read_header
read_handshake_ended env h buffer bytes_transferred r = from_raw buffer bytes_transferred >>= λ msg.
    dispatch_handshake env h (read_header msg.at).head msg r

-- And of one that failed.
unfoldable pub handshake_failed : ℕ → Room → Room
handshake_failed h r = modify h do_close r
