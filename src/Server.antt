-- ===== src/Server.antt =====
-- nr_server.hpp: the server, which owns the room and accepts connections. Most of its operations
-- pass a call on to the room.
pub mod Credentials
use xrnetwork.Base.{
  ℕ, zero, suc, Bool, true, false, ◌&&◌, List, [], ◌∷◌, Outcome, ok, ◌>>=◌, ◌==◌, if◌then◌else◌,
}
use xrnetwork.Base.Words.{u16}
use xrnetwork.Session.{Session, Info, new_session}
use xrnetwork.Room.State.{Env, Room, Slots, put}
use xrnetwork.Room.Members.{disconnect_all_participants, disconnect_participant}
use xrnetwork.Room.Queries
use xrnetwork.Connection.Handshake.{Service, start}

pub record Login : Type 0 where
  pub login : List ℕ
  pub password : List ℕ

pub record Server : Type 0 where
  pub room : Room
  pub acceptor_open : Bool
  pub has_started : Bool
  pub credentials : Login
  pub service_id : ℕ
  pub service_name : List ℕ

-- A room before anybody came; the flags that the source leaves uninitialised are arguments.
unfoldable pub new_room : Bool → ℕ → Room
new_room flag size = record {
  sessions = λ h. new_session;
  participants = [];
  drawn = 0;
  max_participants = 0;
  keep_alive = false;
  broadcast_messages = flag;
  auto_update = flag;
  max_recent_msgs = 100;
  max_participant_buffer_size = size;
  slots = record {
    new_participant = [];
    new_message = [];
    broadcast_message = [];
    participant_leave = [];
  };
  rx_queue = [];
  posted = [];
  calls = [];
}

abbrev pub default_max_participants : ℕ
default_max_participants = 10

-- The constructor: the room's limit, then the identifier of the service, the first output of an
-- engine of the server's own; `do_accept` marks the start.
unfoldable pub new_server : Env → Bool → ℕ → Server
unfolding new_room
new_server env flag size = record {
  room = Queries.set_max_participants default_max_participants (new_room flag size);
  acceptor_open = true;
  has_started = true;
  credentials = record { login = []; password = [] };
  service_id = env.rng 0;
  service_name = [];
}

unfoldable pub set_credentials : Login → Server → Server
set_credentials c s = record s { credentials = c }

-- `compare(...) == 0`.
unfoldable pub same_text : List ℕ → List ℕ → Bool
same_text [] [] = true
same_text [] (y ∷ ys) = false
same_text (x ∷ xs) [] = false
same_text (x ∷ xs) (y ∷ ys) = (x == y) && same_text xs ys

unfoldable pub verify_credentials : Login → Server → Bool
unfolding same_text
verify_credentials c s =
    if same_text s.credentials.login c.login && same_text s.credentials.password c.password
    then true
    else false

unfoldable pub set_service_name : List ℕ → Server → Server
set_service_name name s = record s { service_name = name }

abbrev in_room : (Room → Room) → Server → Server
in_room f s = record s { room = f s.room }

unfoldable pub set_keep_alive : Bool → Server → Server
set_keep_alive b s = in_room (Queries.set_room_keep_alive b) s

-- A count of a `size_t`, returned as a `uint16_t`.
unfoldable pub participants_count : Server → ℕ
participants_count s = u16 (Queries.participants_count s.room)

unfoldable pub set_max_participants : ℕ → Server → Server
set_max_participants n s = in_room (Queries.set_max_participants n) s

-- The limit for handshakes is stored as the limit for participants.
unfoldable pub set_max_handshake_connections : ℕ → Server → Server
set_max_handshake_connections n s = in_room (Queries.set_max_participants n) s

unfoldable pub register_callback_new_participant : ℕ → Server → Server
register_callback_new_participant slot s =
    in_room (Queries.register_callback_new_participant slot) s

unfoldable pub register_callback_new_message : ℕ → Server → Server
register_callback_new_message slot s = in_room (Queries.register_callback_new_message slot) s

unfoldable pub register_callback_participant_leave : ℕ → Server → Server
register_callback_participant_leave slot s =
    in_room (Queries.register_callback_participant_leave slot) s

unfoldable pub server_disconnect_participant : ℕ → Server → Outcome Server
server_disconnect_participant id s =
    disconnect_participant id s.room >>= λ r. ok (record s { room = r })

unfoldable pub server_disconnect_all : Server → Server
server_disconnect_all s = in_room disconnect_all_participants s

unfoldable pub get_participant_info : ℕ → Info → Server → Outcome Info
get_participant_info id out s = Queries.get_participant_info id out s.room

unfoldable pub set_broadcasting_all_messages : Bool → Server → Server
set_broadcasting_all_messages b s = in_room (Queries.set_broadcast_messages b) s

unfoldable pub disconnect_all_callbacks : Server → Server
disconnect_all_callbacks s = in_room Queries.disconnect_all_callbacks s

unfoldable pub stop : Server → Server
unfolding server_disconnect_all
stop s =
    let emptied = server_disconnect_all s in
    if emptied.acceptor_open then record emptied { acceptor_open = false } else emptied

unfoldable pub set_participant_deaf : ℕ → Bool → Server → Server
set_participant_deaf id deaf s =
    let (r, status) = Queries.set_participant_deaf id deaf s.room in record s { room = r }

unfoldable pub get_participant_deaf : ℕ → Server → Bool
get_participant_deaf id s = Queries.get_participant_deaf id s.room

unfoldable pub set_auto_update_participants : Bool → Server → Server
set_auto_update_participants au s = in_room (Queries.set_auto_update_participants au) s

-- The handler of an accepted connection: a session in a fresh place of the store starts its
-- handshake, and the next connection is awaited.
unfoldable pub accepted : Env → ℕ → ℕ → Server → Outcome Server
accepted env timestamp h s =
    start env (record { service_id = s.service_id; server_name = s.service_name }) timestamp h
      (put s.room h new_session)
    >>= λ r. ok (record s { room = r })

abbrev pub get_service_name : Server → List ℕ
get_service_name s = s.service_name

abbrev pub get_kep_alive : Server → Bool
get_kep_alive s = Queries.get_room_keep_alive s.room

abbrev pub get_max_participants : Server → ℕ
get_max_participants s = Queries.get_max_participants s.room

abbrev pub get_broadcasintg_all_messages : Server → Bool
get_broadcasintg_all_messages s = Queries.get_broadcast_messages s.room

abbrev pub get_auto_update_participants : Server → Bool
get_auto_update_participants s = Queries.get_auto_update_participants s.room
