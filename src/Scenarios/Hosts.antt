-- ===== src/Scenarios/Hosts.antt =====
-- A service that runs: its first client, a client with other credentials, and a new start; and one
-- whose port is taken.
use xrnetwork.Base.{
  ◌+◌, ◌<◌, ◌≡◌, refl, ap, true, false, none, some, [], ◌∷◌, ◌++◌, codes, length, ok, fault,
  terminated, dangling, ◌>>=◌, ◌==◌, if◌then◌else◌, arith,
}
use xrnetwork.XrMessage.{message_size}
use xrnetwork.XrMessage.RoundTrip.{from_raw-built, head-built}
use xrnetwork.Protocol.Heads.{code, handshake_credentials_ack}
use xrnetwork.Protocol.Structs.{credentials_ack_object}
use xrnetwork.Session.{new_session, handshake_reader, byte_reader, do_read_handshake}
use xrnetwork.Room.State.{Room, put, get_participant_ptr}
use xrnetwork.Room.Deliver.{deliver_byte}
use xrnetwork.Room.Queries
use xrnetwork.Connection.Credentials.{invitation_message}
use xrnetwork.Client.Admission.{credentials_reply}
use xrnetwork.Exchange.Turns.{greeted, start-greeted}
use xrnetwork.Server
use xrnetwork.Server.{Server, new_room, new_server}
use xrnetwork.Lobby
use xrnetwork.Lobby.{Lobby, new_lobby}
use xrnetwork.Lobby.Running.{start, stop, thread_begins, thread_unbound, thread_ends, apply}
use xrnetwork.Hosting.{
  Handler, accepted, read_ended, Host, run_handler, thrown, caught, handles, calls, former_fails,
  new_host,
}
use xrnetwork.Hosting.Outage.{refusal_ends_service, taken_port_ends_service}
use xrnetwork.Hosting.Restart.{restart_reads_destroyed}
use xrnetwork.Hosting.Calls.{LobbySound}
use xrnetwork.Hosting.Sound.{Reached, begins, called, handled, Reached-IsSound}
use xrnetwork.Hosting.Welcome.{Reached-welcomes}
use xrnetwork.Scenarios.{platform, room_of_two, seat}
use xrnetwork.Scenarios.Handshakes.{login_as, credentials_of, wrong}
use xrnetwork.Scenarios.Journeys.{platform-IsNew}

abbrev idle : Host
idle = new_host (new_lobby (codes "demo") 1 5)

abbrev started : Host
started = record idle { lobby = record (idle.lobby) { starting = 1; joinable = true } }

abbrev first_server : Server
first_server = record (new_server platform false 0) {
  room = record (Queries.set_max_participants 5 (new_room false 0)) {
    keep_alive = true;
    broadcast_messages = false;
  };
  service_name = codes "demo";
}

abbrev serving : Host
serving = record started {
  lobby = record (started.lobby) { running = true; server = some first_server; starting = 0 };
  accepting = true;
}

starts : calls platform start idle ≡ ok started
unfolding calls apply Lobby.start new_host new_lobby
starts = refl

runs : calls platform thread_begins started ≡ ok serving
unfolding calls apply Lobby.thread_begins new_host new_lobby new_server new_room
    Server.set_service_name Server.set_broadcasting_all_messages Server.set_max_participants
    Server.set_keep_alive Queries.set_broadcast_messages Queries.set_max_participants
    Queries.set_room_keep_alive
runs = refl

abbrev greeted_room : Room
greeted_room =
    greeted platform (record { service_id = 20; server_name = codes "demo" }) 1000 0
      (put first_server.room 0 new_session)

abbrev greeting_server : Server
greeting_server = record first_server { room = greeted_room }

abbrev greeting_host : Host
greeting_host = record serving { lobby = record (serving.lobby) { server = some greeting_server } }

connects : handles platform (accepted 0 1000) serving ≡ ok greeting_host
unfolding handles run_handler caught thrown Server.accepted new_server new_room
    Queries.set_max_participants
connects =
    ap (λ m. caught serving first_server (m >>= λ r. ok (record first_server { room = r })))
      (start-greeted platform (record { service_id = 20; server_name = codes "demo" }) 1000 0
        (put first_server.room 0 new_session) (omega arith))

greeted_awaits : (greeted_room.sessions 0).reads ≡ handshake_reader ∷ []
unfolding deliver_byte put do_read_handshake new_session
greeted_awaits = refl

greeted_open : (greeted_room.sessions 0).is_open ≡ true
unfolding deliver_byte put do_read_handshake new_session
greeted_open = refl

greeted_address : (greeted_room.sessions 0).ip ≡ codes "::1"
unfolding deliver_byte put do_read_handshake new_session
greeted_address = refl

greeted_drawn : greeted_room.drawn ≡ 0
unfolding deliver_byte put Queries.set_max_participants new_room
greeted_drawn = refl

greeted_place : length greeted_room.participants < greeted_room.max_participants
unfolding deliver_byte put Queries.set_max_participants new_room
greeted_place = omega arith

serves : Reached platform greeting_host
serves =
    handled (accepted 0 1000) serving greeting_host
      (called thread_begins started serving
        (called start idle started (begins (codes "demo") 1 5) tt starts) tt runs)
      connects

Reached-IsSound_example : LobbySound platform greeting_host.lobby
Reached-IsSound_example = Reached-IsSound platform greeting_host serves

Reached-welcomes_example :
    (c' : Host) × (handles platform (read_ended 0 credentials_reply message_size) greeting_host
      ≡ ok c')
    × (c'.lobby.running ≡ true)
    × (r : Room) × (c'.lobby.server ≡ some (record greeting_server { room = r }))
    × (get_participant_ptr r (platform.rng greeted_room.drawn) ≡ some 0)
    × (length r.participants ≡ length greeted_room.participants + 1)
    × (r.posted
        ≡ greeted_room.posted ++ (0, invitation_message (platform.rng greeted_room.drawn)) ∷ [])
Reached-welcomes_example =
    Reached-welcomes platform 0 [] greeting_server greeting_host
      (platform-IsNew greeted_room.drawn (omega (arith, greeted_drawn))) (λ s e. e) serves refl refl
      greeted_awaits greeted_open (rw greeted_address (omega arith)) greeted_place

-- Somebody who guesses.
refusal_ends_service_example :
    (c' : Host) × (handles platform
        (read_ended 0 (credentials_of (codes "guest")) message_size)
        greeting_host
      ≡ ok c')
    × (c'.lobby.running ≡ false)
    × ((x : Handler) → handles platform x c' ≡ ok c')
    × (calls platform stop c' ≡ ok c')
    × (calls platform start c' ≡ fault terminated)
    × (Lobby.destroy c'.lobby ≡ fault terminated)
unfolding new_host new_lobby
refusal_ends_service_example =
    refusal_ends_service platform 0 message_size (credentials_of (codes "guest"))
      (credentials_of (codes "guest")) [] greeting_server greeting_host (λ s e. e) refl refl refl
      refl greeted_awaits
      (from_raw-built (code handshake_credentials_ack)
        (credentials_ack_object (login_as (codes "guest"))) 20484 (omega arith) (omega arith))
      (head-built (code handshake_credentials_ack)
        (credentials_ack_object (login_as (codes "guest"))) 20484 (omega arith) (omega arith))
      wrong greeted_place

taken_port_ends_service_example :
    (c' : Host) × ((calls platform start idle >>= calls platform thread_unbound) ≡ ok c')
    × (c'.lobby.running ≡ false)
    × (c'.lobby.server ≡ none)
    × ((x : Handler) → handles platform x c' ≡ ok c')
    × (calls platform stop c' ≡ ok c')
    × (calls platform start c' ≡ fault terminated)
    × (Lobby.destroy c'.lobby ≡ fault terminated)
unfolding new_host new_lobby
taken_port_ends_service_example = taken_port_ends_service platform idle refl refl refl

-- Both participants' sessions await a message.
abbrev awaited_server : Server
awaited_server = record first_server {
  room = record room_of_two {
    sessions = λ h. record (seat (if h == 0 then 5 else 9)) { reads = byte_reader ∷ [] };
  };
}

restart_reads_destroyed_example :
    (c' : Host) × ((calls platform stop
          (record serving { lobby = record (serving.lobby) { server = some awaited_server } })
        >>= calls platform thread_ends
        >>= calls platform start
        >>= calls platform thread_begins)
      ≡ ok c')
    × (c'.lobby.running ≡ true)
    × (former : Room) × (c'.former ≡ some former)
    × ((former.sessions 1).is_open ≡ false)
    × (former_fails 1 c' ≡ fault dangling)
restart_reads_destroyed_example =
    restart_reads_destroyed platform 1 [] awaited_server
      (record serving { lobby = record (serving.lobby) { server = some awaited_server } }) refl refl
      refl refl
