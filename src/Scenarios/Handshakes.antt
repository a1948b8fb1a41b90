-- ===== src/Scenarios/Handshakes.antt =====
-- A client that comes to the room of two, with the right credentials and with others.
use xrnetwork.Base.{
  threw, fault, none, null_pointer, ℕ, ◌≡◌, refl, true, false, ◌&&◌, some, List, [], ◌∷◌, length,
  codes, ok, arith,
}
use xrnetwork.Base.Memory.{Block, zeros, copy, bytes_of, strcmp_eq}
use xrnetwork.XrMessage.{message_size}
use xrnetwork.XrMessage.RoundTrip.{built}
use xrnetwork.Protocol.Heads.{
  code, handshake_hello_ack, handshake_credentials_ack, participant_leave_ack,
}
use xrnetwork.Protocol.Structs.{HandshakeCredentialsAck, credentials_ack_object, hello_ack_object}
use xrnetwork.Session.{new_session, byte_reader}
use xrnetwork.Room.OrderedSet.{find}
use xrnetwork.Room.State.{put, Room, get_participant_ptr}
use xrnetwork.Connection.Handshake.{
  credentials_thrown, Service, are_accepted, check_handshake_credentials_ack,
}
use xrnetwork.Connection.Accepting.{are_accepted-sent}
use xrnetwork.Connection.Deciding.{credentials_decide}
use xrnetwork.Connection.Credentials.{invitation_message, check_full}
use xrnetwork.Connection.Greeting.{greeting, greeting_message, start-greets}
use xrnetwork.Connection.Byte.{read_byte_ended}
use xrnetwork.Connection.Relaying.{leave_twice_faults}
use xrnetwork.Room.Queries
use xrnetwork.Server.{new_room}
use xrnetwork.Connection.Loop.{Reachable, begins, goes_on, accepts}
use xrnetwork.Connection.Serving.{IsServing}
use xrnetwork.Connection.Steps.{Reachable-IsServing}
use xrnetwork.Client.{hello_reply, Client, read_ended}
use xrnetwork.Client.Admission.{client_takes_service_id}
use xrnetwork.Scenarios.{outsider, nobody, platform, room_of_two, full_room, console}

abbrev pub login_as : List ℕ → HandshakeCredentialsAck
login_as name = record {
  participant_id = 0;
  login_buffersize = length name;
  login_buffer = copy zeros 0 (bytes_of name) (length name);
  password_buffersize = 8;
  password_buffer = copy zeros 0 (bytes_of (codes "password")) 8;
  participant_certificate_buffersize = 0;
  participant_certificate_buffer = zeros;
}

abbrev pub credentials_of : List ℕ → Block
credentials_of name =
    built (code handshake_credentials_ack) (credentials_ack_object (login_as name)) 20484

right : are_accepted (credentials_of (codes "login")) ≡ true
unfolding strcmp_eq copy
right =
    are_accepted-sent (code handshake_credentials_ack) 20484 (login_as (codes "login"))
      (omega arith)

pub wrong : are_accepted (credentials_of (codes "guest")) ≡ false
unfolding strcmp_eq copy
wrong =
    are_accepted-sent (code handshake_credentials_ack) 20484 (login_as (codes "guest"))
      (omega arith)

-- What a client that guesses leaves of the room.
abbrev guessed_room : Room
guessed_room = credentials_thrown platform 2 (credentials_of (codes "guest")) room_of_two

credentials_decide_example :
    (are_accepted (credentials_of (codes "guest")) ≡ true
      → (r' : Room) × (check_handshake_credentials_ack platform 2
            (credentials_of (codes "guest"))
            room_of_two
          ≡ ok r')
        × (get_participant_ptr r' 20 ≡ some 2)
        × (length r'.participants ≡ 3)
        × ((r'.sessions 2).is_open ≡ true)
        × ((r'.sessions 2).reads ≡ byte_reader ∷ [])
        × (r'.posted ≡ (2, invitation_message 20) ∷ []))
    × (are_accepted (credentials_of (codes "guest")) ≡ false
        → (check_handshake_credentials_ack platform 2 (credentials_of (codes "guest")) room_of_two
            ≡ threw)
          × (guessed_room.participants ≡ 0 ∷ 1 ∷ [])
          × ((guessed_room.sessions 2).is_open ≡ false)
          × (guessed_room.posted ≡ []))
credentials_decide_example =
    credentials_decide platform 2 (credentials_of (codes "guest")) room_of_two (λ s. refl) refl
      (omega arith) (omega arith) outsider nobody

check_full_example :
    (r' : Room) × (check_handshake_credentials_ack platform 2
        (credentials_of (codes "login"))
        full_room
      ≡ ok r')
    × (r'.participants ≡ 0 ∷ 1 ∷ [])
    × ((r'.sessions 2).is_open ≡ false)
    × (r'.posted ≡ (2, invitation_message 0) ∷ [])
check_full_example =
    check_full platform 2 (credentials_of (codes "login")) full_room true right (omega arith)

are_accepted-sent_example : are_accepted (credentials_of (codes "guest")) ≡ (
    strcmp_eq (login_as (codes "guest")).login_buffer 0 (codes "login")
    && strcmp_eq (login_as (codes "guest")).password_buffer 0 (codes "password"))
are_accepted-sent_example =
    are_accepted-sent (code handshake_credentials_ack) 20484 (login_as (codes "guest"))
      (omega arith)

abbrev demo : Service
demo = record { service_id = 77; server_name = codes "demo" }

client_takes_service_id_example :
    (c' : Client) × (read_ended 1001 (greeting_message (greeting demo 20 1000)) message_size console
      ≡ ok c')
    × (c'.participant_id ≡ 77)
    × (c'.service_id ≡ 77)
    × (c'.posted
        ≡ built (code handshake_hello_ack) (hello_ack_object (hello_reply 77 1001)) 20500 ∷ [])
    × (c'.reading ≡ true)
client_takes_service_id_example =
    client_takes_service_id 1001 (greeting demo 20 1000) console (omega arith) (omega arith)
      (omega arith) (omega arith)

abbrev said : Block
said = record { size = 2; at = bytes_of (codes "hi") }

somebody : get_participant_ptr room_of_two 9 ≡ some 1
unfolding get_participant_ptr find
somebody = refl

leave_twice_faults_example :
    (r' : Room) × (read_byte_ended platform 1
        (built (code participant_leave_ack) said 2)
        message_size
        room_of_two
      ≡ ok r')
    × (get_participant_ptr r' 9 ≡ none)
    × ((r'.sessions 1).reads ≡ byte_reader ∷ [])
    × (read_byte_ended platform 1 (built (code participant_leave_ack) said 2) message_size r'
        ≡ fault null_pointer)
leave_twice_faults_example =
    leave_twice_faults platform 1 said 2 (omega arith) (omega arith) room_of_two somebody

-- A room for three, and the same room after a first connection.
abbrev begun : Room
begun = Queries.set_max_participants 3 (new_room false 0)

abbrev connected : Room
connected = (start-greets platform demo 1000 0 (put begun 0 new_session) (omega arith)).0

connected-Reachable : Reachable platform demo connected
unfolding Queries.set_max_participants new_room
connected-Reachable = goes_on begun connected (begins 3 false 0) (
    accepts 0 1000 begun connected tt
      (start-greets platform demo 1000 0 (put begun 0 new_session) (omega arith)).1)

Reachable-IsServing_example : IsServing connected
Reachable-IsServing_example = Reachable-IsServing platform demo connected connected-Reachable
