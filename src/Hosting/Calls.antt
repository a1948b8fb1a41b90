-- ===== src/Hosting/Calls.antt =====
-- The calls of the service's user, and the steps of its thread, on a room that is in order.
use xrnetwork.Base.{
  ℕ, ◌≤◌, ◌≡◌, refl, sym, subst, ◌∙◌, Bool, true, false, Option, none, some, length, ◌++◌, Outcome,
  ok, fault, null_pointer, threw, ◌>>=◌, if◌then◌else◌, arith,
}
use xrnetwork.Room.State.{Env}
use xrnetwork.Room.Queries
use xrnetwork.Room.Queries.{nr_ok, nr_fail}
use xrnetwork.Connection.Frame.{Quiet}
use xrnetwork.Server
use xrnetwork.Server.{Server, new_room}
use xrnetwork.Lobby
use xrnetwork.Lobby.{Lobby}
use xrnetwork.Lobby.Running.{
  Op, start, stop, set_port, set_max_participants, set_max_handshake_connections, set_auto_update,
  set_participant_deaf, on_new_participant, on_new_message, on_participant_leave,
  disconnect_all_callbacks, disconnect_all_participants, thread_begins, drop_status, apply,
}
use xrnetwork.Hosting.Settings.{
  IsSound, Quiet-IsSound, limited-IsSound, begun-IsSound, Quiet-stop, Quiet-auto, Quiet-deaf,
  Quiet-new_participant, Quiet-new_message, Quiet-participant_leave, Quiet-no_callbacks,
  Quiet-nobody,
}

abbrev pub ServerSound : Env → Option Server → Type 0
ServerSound env none = Unit {0}
ServerSound env (some server) = IsSound env server.room

-- What holds of the lobby that the call returns, if it returns.
abbrev pub OnLobby : (Lobby → Type 0) → Outcome Lobby → Type 0
OnLobby P (ok s) = P s
OnLobby P _ = Unit {0}

abbrev pub LobbySound : Env → Lobby → Type 0
LobbySound env s = ServerSound env s.server

with_server-Sound :
    (env : Env) (f : Server → Server) (s : Lobby)
    → ((server : Server)
        → s.server ≡ some server
        → IsSound env server.room
        → IsSound env (f server).room)
    → LobbySound env s
    → OnLobby (LobbySound env) (Lobby.with_server f s)
with_server-Sound env f s k sound = found s.server refl sound
  where
    found :
        (o : Option Server)
        → s.server ≡ o
        → ServerSound env o
        → OnLobby (LobbySound env) (elim o [
          | none ↦ fault null_pointer
          | some server ↦ ok (record s { server = some (f server) })
        ])
    found none e sound = tt
    found (some server) e sound = k server e sound

kept_call-Sound :
    (env : Env) (f : Server → Server) (s : Lobby)
    → ((server : Server) → Quiet server.room (f server).room)
    → LobbySound env s
    → OnLobby (LobbySound env) (Lobby.with_server f s)
kept_call-Sound env f s q =
    with_server-Sound env f s λ server _. Quiet-IsSound env server.room (f server).room (q server)

if-OnLobby :
    (P : Lobby → Type 0) (b : Bool) (m : Outcome Lobby) (s : Lobby)
    → (b ≡ true → OnLobby P m)
    → P s
    → OnLobby P (if b then m else ok s)
if-OnLobby P true m s k p = k refl
if-OnLobby P false m s k p = p

if_status-OnLobby :
    (P : Lobby → Type 0) (b : Bool) (m : Outcome Lobby) (s : Lobby)
    → (b ≡ true → OnLobby P m)
    → P s
    → OnLobby P (drop_status (if b then (m >>= λ s'. ok (s', nr_ok)) else ok (s, nr_fail)))
if_status-OnLobby P true (ok s') s k p = k refl
if_status-OnLobby P true (fault e) s k p = tt
if_status-OnLobby P true threw s k p = tt
if_status-OnLobby P false m s k p = p

-- A limit that is set while the service runs is no less than the number of those in the room.
abbrev pub KeepsLimit : Op → Lobby → Type 0
KeepsLimit (set_max_participants n) s =
    s.running ≡ true
    → (server : Server) → s.server ≡ some server
    → length server.room.participants ≤ n
KeepsLimit (set_max_handshake_connections n) s =
    s.running ≡ true
    → (server : Server) → s.server ≡ some server
    → length server.room.participants ≤ n
KeepsLimit _ s = Unit {0}

limit-Sound :
    (env : Env) (n : ℕ) (s stored : Lobby) (f : Server → Server)
    → stored.server ≡ s.server
    → ((server : Server) → (f server).room ≡ Queries.set_max_participants n server.room)
    → (s.running ≡ true
        → (server : Server) → s.server ≡ some server
        → length server.room.participants ≤ n)
    → LobbySound env s
    → OnLobby (LobbySound env) (
        drop_status (
          if s.running
          then (Lobby.with_server f stored >>= λ s'. ok (s', nr_ok))
          else ok (stored, nr_fail)))
limit-Sound env n s stored f same limits fits sound =
    if_status-OnLobby (LobbySound env) s.running (Lobby.with_server f stored) stored
      (λ runs.
        with_server-Sound env f stored
          (λ server served sound.
            subst (IsSound env) (sym (limits server))
              (limited-IsSound env n server.room (fits runs server (sym same ∙ served)) sound))
          (subst (ServerSound env) (sym same) sound))
      (subst (ServerSound env) (sym same) sound)

thread_begins-Sound :
    (env : Env) (s : Lobby) → OnLobby (LobbySound env) (Lobby.thread_begins env false 0 ok s)
unfolding Lobby.thread_begins Server.new_server Server.set_service_name
    Server.set_broadcasting_all_messages Server.set_max_participants Server.set_keep_alive
    Queries.set_broadcast_messages Queries.set_max_participants Queries.set_room_keep_alive new_room
thread_begins-Sound env s = begun-IsSound env s.max_participants s.keep_alive s.broadcast false 0

pub apply-Sound :
    (env : Env) (op : Op) (s : Lobby)
    → KeepsLimit op s
    → LobbySound env s
    → OnLobby (LobbySound env) (apply env op s)
unfolding apply Lobby.start Lobby.stop Lobby.set_port Lobby.set_max_participants
    Lobby.set_max_handshake_connections Lobby.set_protocol_version Lobby.set_socket_no_delay
    Lobby.set_keep_alive Lobby.set_broadcasting_all_messages Lobby.set_auto_update_participants
    Lobby.set_participant_deaf Lobby.set_service_name Lobby.set_protocol
    Lobby.register_callback_new_participant Lobby.register_callback_new_message
    Lobby.register_callback_participant_leave Lobby.register_callback_on_running
    Lobby.register_callback_on_stopping Lobby.disconnect_all_callbacks
    Lobby.disconnect_all_participants Lobby.thread_unbound Lobby.thread_ends
apply-Sound env start s fits sound = ground arith
apply-Sound env stop s fits sound =
    if-OnLobby (LobbySound env) s.running _ s
      (λ runs.
        kept_call-Sound env Server.stop
          (record s { calls = s.calls ++ s.on_stopping; joining = true }) Quiet-stop sound)
      sound
apply-Sound env (set_max_participants n) s fits sound =
    limit-Sound env n s (record s { max_participants = n }) (Server.set_max_participants n) refl
      (λ server. (unfold Server.set_max_participants in refl)) fits sound
apply-Sound env (set_max_handshake_connections n) s fits sound =
    limit-Sound env n s (record s { handshake_max = n }) (Server.set_max_handshake_connections n)
      refl (λ server. (unfold Server.set_max_handshake_connections in refl)) fits sound
apply-Sound env (set_auto_update au) s fits sound =
    if_status-OnLobby (LobbySound env) s.running
      (Lobby.with_server (Server.set_auto_update_participants au) s) s
      (λ _. kept_call-Sound env (Server.set_auto_update_participants au) s (Quiet-auto au) sound)
      sound
apply-Sound env (set_participant_deaf id deaf) s fits sound =
    if_status-OnLobby (LobbySound env) s.running
      (Lobby.with_server (Server.set_participant_deaf id deaf) s) s
      (λ _. kept_call-Sound env (Server.set_participant_deaf id deaf) s (Quiet-deaf id deaf) sound)
      sound
apply-Sound env (on_new_participant slot) s fits sound =
    if-OnLobby (LobbySound env) s.running _ s
      (λ _.
        kept_call-Sound env (Server.register_callback_new_participant slot) s
          (Quiet-new_participant slot) sound)
      sound
apply-Sound env (on_new_message slot) s fits sound =
    if-OnLobby (LobbySound env) s.running _ s
      (λ _.
        kept_call-Sound env (Server.register_callback_new_message slot) s (Quiet-new_message slot)
          sound)
      sound
apply-Sound env (on_participant_leave slot) s fits sound =
    if-OnLobby (LobbySound env) s.running _ s
      (λ _.
        kept_call-Sound env (Server.register_callback_participant_leave slot) s
          (Quiet-participant_leave slot) sound)
      sound
apply-Sound env disconnect_all_callbacks s fits sound =
    if-OnLobby (LobbySound env) s.running _ s
      (λ _. kept_call-Sound env Server.disconnect_all_callbacks s Quiet-no_callbacks sound) sound
apply-Sound env disconnect_all_participants s fits sound =
    if-OnLobby (LobbySound env) s.running _ s
      (λ _. kept_call-Sound env Server.server_disconnect_all s Quiet-nobody sound) sound
apply-Sound env thread_begins s fits sound = thread_begins-Sound env s
apply-Sound env (set_port port) s fits sound = ground arith
apply-Sound env _ s fits sound = sound
