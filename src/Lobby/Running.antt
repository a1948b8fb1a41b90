-- ===== src/Lobby/Running.antt =====
-- When the service has a server, and what reaches it.
use xrnetwork.Base.{
  some, ◌++◌, ℕ, ◌+◌, ◌≡◌, ◌≢◌, ◌⊎◌, refl, Bool, true, false, none, List, Outcome, ok, fault,
  terminated, ◌>>=◌, arith, inl, inr, Bool-cases,
}
use xrnetwork.Room.State.{Env}
use xrnetwork.Room.Queries.{Status}
use xrnetwork.Server
use xrnetwork.Server.{Server}
use xrnetwork.Lobby
use xrnetwork.Lobby.{Lobby, Protocol, new_lobby}

-- While the thread is marked as running there is a server.
abbrev pub HasServer : Lobby → Type 0
HasServer s = (s.running ≡ false) ⊎ (s.server ≢ none)

-- The calls that a user makes, and the steps of the thread.
pub data Op : Type 0 where
  start stop : Op
  set_port set_max_participants set_max_handshake_connections set_protocol_version : ℕ → Op
  set_socket_no_delay set_keep_alive set_broadcasting_all_messages set_auto_update : Bool → Op
  set_participant_deaf : ℕ → Bool → Op
  set_service_name : List ℕ → Op
  set_protocol : Protocol → Op
  on_new_participant on_new_message on_participant_leave on_running on_stopping : ℕ → Op
  disconnect_all_callbacks disconnect_all_participants : Op
  thread_begins thread_unbound thread_ends : Op

abbrev pub drop_status : Outcome (Lobby × Status) → Outcome Lobby
drop_status m = m >>= λ p. ok p.0

-- The slots of `OnRunning` do nothing here.
unfoldable pub apply : Env → Op → Lobby → Outcome Lobby
apply env start s = Lobby.start s
apply env stop s = Lobby.stop s
apply env (set_port port) s = ok (Lobby.set_port port s)
apply env (set_max_participants n) s = drop_status (Lobby.set_max_participants n s)
apply env (set_max_handshake_connections n) s =
    drop_status (Lobby.set_max_handshake_connections n s)
apply env (set_protocol_version prot) s = ok (Lobby.set_protocol_version prot s)
apply env (set_socket_no_delay b) s = ok (Lobby.set_socket_no_delay b s)
apply env (set_keep_alive b) s = ok (Lobby.set_keep_alive b s).0
apply env (set_broadcasting_all_messages b) s = ok (Lobby.set_broadcasting_all_messages b s).0
apply env (set_auto_update au) s = drop_status (Lobby.set_auto_update_participants au s)
apply env (set_participant_deaf id deaf) s = drop_status (Lobby.set_participant_deaf id deaf s)
apply env (set_service_name name) s = ok (Lobby.set_service_name name s)
apply env (set_protocol p) s = ok (Lobby.set_protocol p s)
apply env (on_new_participant slot) s = Lobby.register_callback_new_participant slot s
apply env (on_new_message slot) s = Lobby.register_callback_new_message slot s
apply env (on_participant_leave slot) s = Lobby.register_callback_participant_leave slot s
apply env (on_running slot) s = ok (Lobby.register_callback_on_running slot s)
apply env (on_stopping slot) s = ok (Lobby.register_callback_on_stopping slot s)
apply env disconnect_all_callbacks s = Lobby.disconnect_all_callbacks s
apply env disconnect_all_participants s = Lobby.disconnect_all_participants s
apply env thread_begins s = Lobby.thread_begins env false 0 ok s
apply env thread_unbound s = ok (Lobby.thread_unbound s)
apply env thread_ends s = ok (Lobby.thread_ends s)

-- The call returns, with a state of that kind, or a `start` has ended the program.
abbrev pub Returns : (Lobby → Type 0) → Outcome Lobby → Type 0
Returns P (ok s) = P s
Returns P (fault terminated) = Unit {0}
Returns P _ = ⊥

pub apply-Returns :
    (env : Env) (op : Op) (s : Lobby) → HasServer s → Returns HasServer (apply env op s)
unfolding apply Lobby.start Lobby.stop Lobby.set_port Lobby.set_max_participants
    Lobby.set_max_handshake_connections Lobby.set_protocol_version Lobby.set_socket_no_delay
    Lobby.set_keep_alive Lobby.set_broadcasting_all_messages Lobby.set_auto_update_participants
    Lobby.set_participant_deaf Lobby.set_service_name Lobby.set_protocol
    Lobby.register_callback_new_participant Lobby.register_callback_new_message
    Lobby.register_callback_participant_leave Lobby.register_callback_on_running
    Lobby.register_callback_on_stopping Lobby.disconnect_all_callbacks
    Lobby.disconnect_all_participants Lobby.thread_begins Lobby.thread_unbound Lobby.thread_ends
apply-Returns env start s h = ground arith
apply-Returns env _ s h = ground arith

-- No call takes the server away.
pub apply-keeps_server :
    (env : Env) (op : Op) (s : Lobby)
    → s.server ≢ none
    → Returns (λ s'. s'.server ≢ none) (apply env op s)
unfolding apply Lobby.start Lobby.stop Lobby.set_port Lobby.set_max_participants
    Lobby.set_max_handshake_connections Lobby.set_protocol_version Lobby.set_socket_no_delay
    Lobby.set_keep_alive Lobby.set_broadcasting_all_messages Lobby.set_auto_update_participants
    Lobby.set_participant_deaf Lobby.set_service_name Lobby.set_protocol
    Lobby.register_callback_new_participant Lobby.register_callback_new_message
    Lobby.register_callback_participant_leave Lobby.register_callback_on_running
    Lobby.register_callback_on_stopping Lobby.disconnect_all_callbacks
    Lobby.disconnect_all_participants Lobby.thread_begins Lobby.thread_unbound Lobby.thread_ends
apply-keeps_server env start s h = ground arith
apply-keeps_server env _ s h = ground arith

-- Only a start ends the program, of a service that does not run while a thread is there.
pub terminates-start :
    (env : Env) (op : Op) (s : Lobby)
    → HasServer s
    → apply env op s ≡ fault terminated
    → (op ≡ start) × (s.running ≡ false) × (s.joinable ≡ true)
unfolding apply Lobby.start Lobby.stop Lobby.set_port Lobby.set_max_participants
    Lobby.set_max_handshake_connections Lobby.set_protocol_version Lobby.set_socket_no_delay
    Lobby.set_keep_alive Lobby.set_broadcasting_all_messages Lobby.set_auto_update_participants
    Lobby.set_participant_deaf Lobby.set_service_name Lobby.set_protocol
    Lobby.register_callback_new_participant Lobby.register_callback_new_message
    Lobby.register_callback_participant_leave Lobby.register_callback_on_running
    Lobby.register_callback_on_stopping Lobby.disconnect_all_callbacks
    Lobby.disconnect_all_participants Lobby.thread_begins Lobby.thread_unbound Lobby.thread_ends
terminates-start env start s h e = (refl, ground (arith, e), ground (arith, e))
terminates-start env _ s h e = absurd (ground (arith, e, h))

-- What a service goes through from one start to the next. While it runs, `start` does nothing; `stop`,
-- the end of its thread and a new start leave a service whose next thread begins, and that does not
-- run before it has. A thread that ends by itself, as an exception makes it end, leaves a thread
-- that nobody has joined: the next start ends the program.
pub start_again :
    (s : Lobby) (server : Server)
    → s.running ≡ true
    → s.server ≡ some server
    → s.joinable ≡ true
    → s.joining ≡ false
    → (Lobby.start s ≡ ok s)
      × ((s' : Lobby) × ((Lobby.stop s >>= λ s1. Lobby.start (Lobby.thread_ends s1)) ≡ ok s')
          × (s'.running ≡ false)
          × (s'.starting ≡ s.starting + 1)
          × (s'.server ≡ some (Server.stop server))
          × (s'.calls ≡ s.calls ++ s.on_stopping)
          × (Lobby.start s' ≡ fault terminated))
      × (Lobby.start (Lobby.thread_ends s) ≡ fault terminated)
unfolding Lobby.start Lobby.stop Lobby.thread_ends
start_again s server runs served held alone = (
  rw runs refl,
  (
    record s {
      running = false;
      server = some (Server.stop server);
      starting = s.starting + 1;
      joinable = true;
      joining = false;
      calls = s.calls ++ s.on_stopping;
    },
    rw (runs, served) refl,
    refl,
    refl,
    refl,
    refl,
    refl,
  ),
  rw (alone, held) refl,
)

-- A service that is not running cannot be started and then destroyed before its thread has marked
-- itself as running: the program ends in `std::terminate`, whether an earlier thread was joined or
-- not.
pub start-destroy_terminates :
    (s : Lobby) → s.running ≡ false → (Lobby.start s >>= Lobby.destroy) ≡ fault terminated
unfolding Lobby.start Lobby.destroy
start-destroy_terminates s stopped = elim (Bool-cases s.joinable) [
  | inl waits ↦ rw (stopped, waits) refl
  | inr joined ↦ rw (stopped, joined) refl
]
