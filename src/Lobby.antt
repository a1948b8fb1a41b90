-- ===== src/Lobby.antt =====
-- XRNetworkLobbyService.hpp: the service as its user sees it. The thread that runs the server is
-- two steps, `thread_begins` and `thread_ends`, with the server's handlers in between, or the one
-- step `thread_unbound`; `running` is `b_thread_running_`. Calls through `server` fault where no
-- server was made.
--
-- A slot of a signal is a number; what a slot that is called does is up to its owner.
pub mod Getters
mod Naming
pub mod Running
pub mod Console
pub mod Announced
pub mod Thread
use xrnetwork.Base.{
  ℕ, ◌+◌, ◌-◌, ◌*◌, ◌^◌, codes, Bool, true, false, Option, none, some, List, [], ◌∷◌, ◌++◌, Outcome,
  ok, fault, null_pointer, terminated, ◌>>=◌, ◌==◌, if◌then◌else◌,
}
use xrnetwork.Base.Words.{u16}
use xrnetwork.Session.{Info}
use xrnetwork.Room.State.{Env}
use xrnetwork.Room.Queries.{Status, nr_ok, nr_fail}
use xrnetwork.Server
use xrnetwork.Server.{Server}

pub data Protocol : Type 0 where
  tcp udp : Protocol

pub data ProtocolVersion : Type 0 where
  v4 v6 : ProtocolVersion

pub record Lobby : Type 0 where
  pub running : Bool
  pub server : Option Server
  pub service_name : List ℕ
  pub port : ℕ  -- uint16_t
  pub max_participants : ℕ
  pub handshake_max : ℕ
  pub socket_no_delay : Bool
  pub keep_alive : Bool
  pub broadcast : Bool
  pub message_buffer_size : ℕ
  pub id : ℕ
  pub protocol : Protocol
  pub protocol_version : ProtocolVersion
  pub on_running : List ℕ
  pub on_stopping : List ℕ
  -- threads that were started and have not begun
  pub starting : ℕ
  -- whether `service_thread_ptr_` holds a thread that nobody has joined, and whether `stop` waits
  -- to join it
  pub joinable : Bool
  pub joining : Bool
  -- the slots that were called
  pub calls : List ℕ

-- The default constructor: the name ends in a random number, and the identifier is random.
unfoldable pub new_lobby : List ℕ → ℕ → ℕ → Lobby
new_lobby name id handshake_max = record {
  running = false;
  server = none;
  service_name = name;
  port = 1080;
  max_participants = 5;
  handshake_max = handshake_max;
  socket_no_delay = true;
  keep_alive = true;
  broadcast = false;
  message_buffer_size = 100;
  id = id;
  protocol = tcp;
  protocol_version = v4;
  on_running = [];
  on_stopping = [];
  starting = 0;
  joinable = false;
  joining = false;
  calls = [];
}

-- The new thread takes the place of the old one. The destructor of a thread that nobody has joined
-- ends the program.
unfoldable pub start : Lobby → Outcome Lobby
start s =
    if s.running
    then ok s
    else if s.joinable
    then fault terminated
    else ok (record s { starting = s.starting + 1; joinable = true })

-- A call through the pointer `server`.
abbrev pub with_server : (Server → Server) → Lobby → Outcome Lobby
with_server f s = elim s.server [
  | none ↦ fault null_pointer
  | some server ↦ ok (record s { server = some (f server) })
]

-- The same where the thread runs, and nothing where it does not.
abbrev pub if_running : (Server → Server) → Lobby → Outcome Lobby
if_running f s = if s.running then with_server f s else ok s

-- Up to the join of the thread, which returns at `thread_ends`.
unfoldable pub stop : Lobby → Outcome Lobby
stop s =
    if s.running
    then with_server Server.stop (record s { calls = s.calls ++ s.on_stopping; joining = true })
    else ok s

unfoldable pub set_port : ℕ → Lobby → Lobby
set_port port s = if s.running then s else record s { port = u16 port }

unfoldable pub set_protocol : Protocol → Lobby → Lobby
set_protocol p s = record s { protocol = p }

unfoldable pub set_protocol_version : ℕ → Lobby → Lobby
set_protocol_version prot s = record s { protocol_version = if prot == 4 then v4 else v6 }

-- The limit is stored in any case; the status says whether a server got it.
unfoldable pub set_max_participants : ℕ → Lobby → Outcome (Lobby × Status)
set_max_participants n s =
    let stored = record s { max_participants = n } in
    if s.running
    then (with_server (Server.set_max_participants n) stored >>= λ s'. ok (s', nr_ok))
    else ok (stored, nr_fail)

unfoldable pub set_max_handshake_connections : ℕ → Lobby → Outcome (Lobby × Status)
set_max_handshake_connections n s =
    let stored = record s { handshake_max = n } in
    if s.running
    then (with_server (Server.set_max_handshake_connections n) stored >>= λ s'. ok (s', nr_ok))
    else ok (stored, nr_fail)

unfoldable pub set_socket_no_delay : Bool → Lobby → Lobby
set_socket_no_delay b s = record s { socket_no_delay = b }

unfoldable pub set_keep_alive : Bool → Lobby → Lobby × Status
set_keep_alive b s = (record s { keep_alive = b }, nr_ok)

unfoldable pub set_broadcasting_all_messages : Bool → Lobby → Lobby × Status
set_broadcasting_all_messages b s = (record s { broadcast = b }, nr_ok)

unfoldable pub set_service_name : List ℕ → Lobby → Lobby
set_service_name name s = record s { service_name = name }

unfoldable pub register_callback_new_participant : ℕ → Lobby → Outcome Lobby
register_callback_new_participant slot s =
    if_running (Server.register_callback_new_participant slot) s

unfoldable pub register_callback_new_message : ℕ → Lobby → Outcome Lobby
register_callback_new_message slot s = if_running (Server.register_callback_new_message slot) s

unfoldable pub register_callback_participant_leave : ℕ → Lobby → Outcome Lobby
register_callback_participant_leave slot s =
    if_running (Server.register_callback_participant_leave slot) s

unfoldable pub register_callback_on_running : ℕ → Lobby → Lobby
register_callback_on_running slot s = record s { on_running = s.on_running ++ slot ∷ [] }

unfoldable pub register_callback_on_stopping : ℕ → Lobby → Lobby
register_callback_on_stopping slot s = record s { on_stopping = s.on_stopping ++ slot ∷ [] }

unfoldable pub disconnect_all_callbacks : Lobby → Outcome Lobby
disconnect_all_callbacks s = if_running Server.disconnect_all_callbacks s

unfoldable pub disconnect_all_participants : Lobby → Outcome Lobby
disconnect_all_participants s = if_running Server.server_disconnect_all s

-- The room's own status is dropped.
unfoldable pub set_participant_deaf : ℕ → Bool → Lobby → Outcome (Lobby × Status)
set_participant_deaf id deaf s =
    if s.running
    then (with_server (Server.set_participant_deaf id deaf) s >>= λ s'. ok (s', nr_ok))
    else ok (s, nr_fail)

unfoldable pub set_auto_update_participants : Bool → Lobby → Outcome (Lobby × Status)
set_auto_update_participants au s =
    if s.running
    then (with_server (Server.set_auto_update_participants au) s >>= λ s'. ok (s', nr_ok))
    else ok (s, nr_fail)

-- The settings that a new server gets.
unfoldable pub configure : Lobby → Server → Server
configure s server = Server.set_service_name s.service_name (
    Server.set_broadcasting_all_messages s.broadcast
      (Server.set_max_participants s.max_participants (Server.set_keep_alive s.keep_alive server)))

-- The two statements of `thread_function` that its user's thread can tell apart: the server is made,
-- and then the thread is marked as running. The slots of `OnRunning` are called behind the mark.
abbrev pub make_server : Env → Bool → ℕ → Lobby → Lobby
make_server env flag size s = record s {
  server = some (Server.new_server env flag size);
  starting = s.starting - 1;
}

abbrev pub mark_running : Lobby → Lobby
mark_running s = record s { running = true; calls = s.calls ++ s.on_running }

-- `thread_function` up to `io_context_.run()`, with no call of a user in between; `slots` is what
-- the slots of `OnRunning` do to the service.
unfoldable pub thread_begins : Env → Bool → ℕ → (Lobby → Outcome Lobby) → Lobby → Outcome Lobby
unfolding configure
thread_begins env flag size slots s =
    slots (mark_running (make_server env flag size s)) >>= λ s'. with_server (configure s') s'

-- Behind `io_context_.run()`, or behind the handler of an exception that left it. A `stop` that
-- waits then joins the thread.
unfoldable pub thread_ends : Lobby → Lobby
thread_ends s = record s {
  running = false;
  joinable = if s.joining then false else s.joinable;
  joining = false;
}

-- Where the port cannot be bound, the server's constructor throws: no server takes the place of the
-- old one, and the thread goes on behind the handler of the exception.
unfoldable pub thread_unbound : Lobby → Lobby
unfolding thread_ends
thread_unbound s = thread_ends (record s { starting = s.starting - 1 })

-- The other constructor. The members that it does not name are arguments.
unfoldable pub named_lobby : Lobby → List ℕ → ℕ → ℕ → ℕ → ℕ → Lobby
named_lobby unset name port max_participants message_buffer_size id = record unset {
  running = false;
  server = none;
  service_name = name;
  port = u16 port;
  max_participants = u16 max_participants;
  message_buffer_size = message_buffer_size;
  keep_alive = false;
  id = id;
  protocol = tcp;
  protocol_version = v4;
  on_running = [];
  on_stopping = [];
  starting = 0;
  joinable = false;
  joining = false;
  calls = [];
}

-- The destructor. A `stop` that returns has joined the thread; a thread that nobody has joined ends
-- the program.
unfoldable pub destroy : Lobby → Outcome Lobby
unfolding stop thread_ends
destroy s =
    if s.running
    then (stop s >>= λ s'. ok (thread_ends s'))
    else if s.joinable
    then fault terminated
    else ok s
