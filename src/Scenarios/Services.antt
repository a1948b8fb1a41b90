-- ===== src/Scenarios/Services.antt =====
-- A service, before and while its thread runs, and its server.
use xrnetwork.Base.{
  ◌>>=◌, List, ◌≡◌, refl, true, false, some, [], ◌∷◌, codes, ok, fault, terminated,
}
use xrnetwork.Server.{Server}
use xrnetwork.Lobby
use xrnetwork.Lobby.{Lobby, tcp, v4, new_lobby}
use xrnetwork.Lobby.Running.{start, set_max_participants, start_again}
use xrnetwork.Lobby.Thread.{waits, Event, calls, thread_goes}
use xrnetwork.Lobby.Thread.Progress.{Ending, thread-Ending}
use xrnetwork.Server
use xrnetwork.Scenarios.{platform, room_of_two}

abbrev server_of_two : Server
server_of_two = record {
  room = room_of_two;
  acceptor_open = true;
  has_started = true;
  credentials = record { login = []; password = [] };
  service_id = 77;
  service_name = codes "demo";
}

abbrev serving : Lobby
serving = record {
  running = true;
  server = some server_of_two;
  service_name = codes "demo";
  port = 1080;
  max_participants = 5;
  handshake_max = 5;
  socket_no_delay = true;
  keep_alive = true;
  broadcast = false;
  message_buffer_size = 100;
  id = 1;
  protocol = tcp;
  protocol_version = v4;
  on_running = [];
  on_stopping = [];
  starting = 0;
  joinable = true;
  joining = false;
  calls = [];
}

-- The limit is set as soon as the thread's server is made, and a second start comes too early.
abbrev early : List Event
early = calls start ∷ thread_goes ∷ calls (set_max_participants 12) ∷ calls start ∷ thread_goes ∷ []

thread-Ending_example :
    Ending platform early (record { lobby = new_lobby (codes "demo") 1 5; stage = waits })
thread-Ending_example = thread-Ending platform early (codes "demo") 1 5

start_again_example :
    (Lobby.start serving ≡ ok serving)
    × ((s' : Lobby) × ((Lobby.stop serving >>= λ s1. Lobby.start (Lobby.thread_ends s1)) ≡ ok s')
        × (s'.running ≡ false)
        × (s'.starting ≡ 1)
        × (s'.server ≡ some (Server.stop server_of_two))
        × (s'.calls ≡ [])
        × (Lobby.start s' ≡ fault terminated))
    × (Lobby.start (Lobby.thread_ends serving) ≡ fault terminated)
start_again_example = start_again serving server_of_two refl refl refl refl
