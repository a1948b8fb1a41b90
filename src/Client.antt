-- ===== src/Client.antt =====
-- nr_client.cpp: the console client. `posted` holds what `write_byte` has posted and the context has
-- not run; the time of day is an argument. What the handler of a read prints is in Client/Shown.
pub mod Writes
pub mod Admission
pub mod Shown
pub mod Legible
pub mod Main
use xrnetwork.Base.{
  ℕ, suc, ◌+◌, Bool, true, false, not, List, [], ◌∷◌, ◌++◌, length, codes, Outcome, ok, ◌>>=◌, ◌==◌,
  if◌then◌else◌,
}
use xrnetwork.Base.Memory.{Memory, Block, zeros, copy, bytes_of}
use xrnetwork.XrMessage.{header_size, read_header, from_raw, from_head}
use xrnetwork.Protocol.Heads.{
  code, handshake_hello, handshake_hello_ack, handshake_credentials, handshake_credentials_ack,
  participant_join, participant_update_ack,
}
use xrnetwork.Protocol.Structs.{
  HandshakeHello, HandshakeHelloAck, HandshakeCredentialsAck, ParticipantUpdateAck,
  hello_ack_object, credentials_ack_object, update_ack_object,
}
use xrnetwork.Protocol.Builders.{new_hello_ack, new_credentials_ack, new_update_ack}
use xrnetwork.Protocol.Readers.{read_hello, read_join}
use xrnetwork.Session.{is_empty}

pub record Client : Type 0 where
  pub participant_id : ℕ
  pub service_id : ℕ
  pub is_open : Bool
  pub reading : Bool
  pub timer_armed : Bool
  pub posted : List Block
  pub queue : List Block
  -- the write under way, if any
  pub in_flight : List Block

-- `do_write_byte`: the front is written, and stays in the queue until its write has ended. An empty
-- queue has no front; both callers have looked.
unfoldable pub start_write : List Block → Client → Client
start_write [] c = c
start_write (m ∷ rest) c = record c { in_flight = c.in_flight ++ m ∷ [] }

unfoldable pub do_write_byte : Client → Client
unfolding start_write
do_write_byte c = start_write c.queue c

unfoldable pub write_byte : Block → Client → Client
write_byte m c = record c { posted = c.posted ++ m ∷ [] }

-- The task that `write_byte` posts.
unfoldable pub run_write : Block → Client → Client
unfolding do_write_byte
run_write m c =
    let write_in_progress = not (is_empty c.queue) in
    let pushed = record c { queue = c.queue ++ m ∷ [] } in
    if not write_in_progress then do_write_byte pushed else pushed

abbrev pub tail {ℓ} : {A : Type ℓ} → List A → List A
tail [] = []
tail (x ∷ xs) = xs

-- The handler of a write that ended well.
unfoldable pub write_done : Client → Client
unfolding do_write_byte
write_done c =
    let popped = record c { in_flight = tail c.in_flight; queue = tail c.queue } in
    if not (is_empty popped.queue) then do_write_byte popped else popped

-- A failed read, write or connection.
unfoldable pub close : Client → Client
close c = record c { is_open = false }

abbrev pub configuration : List ℕ
configuration = codes "ABCDEFGHIJKLMNOPQRST"

-- The reply to a greeting.
abbrev pub hello_reply : ℕ → ℕ → HandshakeHelloAck
hello_reply id now = record new_hello_ack {
  participant_id = id;
  client_timestamp = now;
  configuration_buffersize = length configuration;
  configuration_buffer = copy zeros 0 (bytes_of configuration) (length configuration);
}

-- Both identifiers are taken from the service's.
unfoldable pub on_hello : ℕ → Block → Client → Outcome Client
unfolding write_byte read_hello
on_hello now msg c =
    let hello = read_hello msg.at header_size in
    let c1 = record c { participant_id = hello.service_id; service_id = hello.service_id } in
    let hhack = hello_reply c1.participant_id now in
    from_head (code handshake_hello_ack) (hello_ack_object hhack) (hello_ack_object hhack).size
    >>= λ reply. ok (write_byte reply c1)

abbrev pub login : List ℕ
login = codes "login"

abbrev pub password : List ℕ
password = codes "password"

unfoldable pub client_credentials : HandshakeCredentialsAck
unfolding new_credentials_ack
client_credentials = record (new_credentials_ack 0) {
  login_buffersize = length login;
  login_buffer = copy zeros 0 (bytes_of login) (length login);
  password_buffersize = length password;
  password_buffer = copy zeros 0 (bytes_of password) (length password);
}

-- The reply carries as many bytes as the server's struct has, 20484 of the 22542 of its own.
abbrev pub credentials_size : ℕ
credentials_size = 20484

unfoldable pub on_credentials : Client → Outcome Client
unfolding client_credentials write_byte
on_credentials c =
    from_head (code handshake_credentials_ack) (credentials_ack_object client_credentials)
      credentials_size
    >>= λ reply. ok (write_byte reply c)

unfoldable pub begin_participant_update : Client → Client
begin_participant_update c = record c { timer_armed = true }

-- The size that the message is built with is the one of `ST_PARTICIPANT_UPDATE`.
abbrev pub update_size : ℕ
update_size = 20512

-- The text that every update carries.
abbrev pub update_json : List ℕ
update_json =
    codes
      "{\"m_position\":{\"x\":0.0,\"y\":0.0,\"z\":0.0},\"m_rotation\":{\"x\":0.0,\"y\":0.0,\"z\":0.0,\"w\":0.0},\"m_name\":\"Pedro Urdemales\",\"m_id\":14514284786278117030,\"m_id_hex\":\"C96D191CF6F6AEA6\",\"m_prefab_path\":\"Assets/Resources/XRNetwork/Characters/MarkerMan.fbx\",\"m_auto_update\":false,\"objectType\":4,\"m_devices\":[],\"m_prefab\":{\"instanceID\":13558}}"

-- The timer's handler. The text is copied with its NUL.
unfoldable pub timer_fired : ℕ → Client → Outcome Client
unfolding new_update_ack write_byte begin_participant_update
timer_fired now c =
    let json = update_json in
    let c1 = record c { timer_armed = false } in
    let puack = record (new_update_ack c1.participant_id) {
      origin_timestamp = now;
      buffersize = length json;
      buffer = copy zeros 0 (bytes_of json) (length json + 1);
    } in
    from_head (code participant_update_ack) (update_ack_object puack) update_size >>= λ msg.
    ok (begin_participant_update (write_byte msg c1))

unfoldable pub on_join : Block → Client → Client
unfolding begin_participant_update read_join
on_join msg c =
    begin_participant_update
      (record c { participant_id = (read_join msg.at header_size).participant_id })

-- The `switch` on the head; the other cases only print.
unfoldable pub dispatch : ℕ → ℕ → Block → Client → Outcome Client
unfolding on_hello on_credentials on_join
dispatch now head msg c =
    if head == code handshake_hello
    then on_hello now msg c
    else if head == code handshake_credentials
    then on_credentials c
    else if head == code participant_join
    then ok (on_join msg c)
    else ok c

-- `do_read_byte`: the handler of a read that ended well, which reads on.
unfoldable pub read_ended : ℕ → Block → ℕ → Client → Outcome Client
unfolding dispatch read_header
read_ended now buffer bytes_transferred c = from_raw buffer bytes_transferred >>= λ msg.
    dispatch now (read_header msg.at).head msg c >>= λ c'. ok (record c' { reading = true })

-- The constructor: the identifiers are left uninitialised.
unfoldable pub new_client : ℕ → ℕ → Client
new_client participant_id service_id = record {
  participant_id = participant_id;
  service_id = service_id;
  is_open = true;
  reading = false;
  timer_armed = false;
  posted = [];
  queue = [];
  in_flight = [];
}

-- `do_connect`: the handler of a connection made, and of one that failed.
unfoldable pub connected : Client → Client
connected c = record c { reading = true }

unfoldable pub connect_failed : Client → Client
unfolding close
connect_failed c = close c

-- The handler of a read that failed.
unfoldable pub read_failed : Client → Client
unfolding close
read_failed c = close c
