-- ===== src/Hosting.antt =====
-- XRNetworkLobbyService.hpp with nr_server.hpp: the service as a whole. Its thread runs the handlers
-- of the io_context one after the other, its user makes calls in between, and what the handlers end
-- with reaches the thread.
pub mod Outage
pub mod Restart
pub mod Steps
pub mod Settings
pub mod Calls
pub mod Thrown
pub mod Sound
pub mod Welcome
use xrnetwork.Base.{
  ℕ, Bool, true, false, Option, none, some, List, [], ◌∷◌, not, ◌&&◌, ◌||◌, Outcome, ok, fault,
  threw, dangling, ◌>>=◌, ◌==◌, if◌then◌else◌,
}
use xrnetwork.Base.Memory.{Block}
use xrnetwork.XrMessage.{from_raw}
use xrnetwork.Session.{Reader, handshake_reader, byte_reader, do_close, run_deliver, write_done}
use xrnetwork.Room.State.{Env, Room, modify}
use xrnetwork.Connection.Handshake.{read_handshake_ended, credentials_thrown, handshake_failed}
use xrnetwork.Connection.Byte.{read_byte_ended, transfer_failed}
use xrnetwork.Connection.Loop.{take_read}
use xrnetwork.Server
use xrnetwork.Server.{Server}
use xrnetwork.Lobby
use xrnetwork.Lobby.{Lobby}
use xrnetwork.Lobby.Running.{Op, thread_begins, apply}

-- The handlers that the context may run: a connection accepted under a handle of the store, at a
-- time; a session's read ended, with a buffer and its length, or failed; a delivery that was posted;
-- a session's write ended, by its number, or failed.
pub data Handler : Type 0 where
  accepted : ℕ → ℕ → Handler
  read_ended : ℕ → Block → ℕ → Handler
  read_failed : ℕ → Handler
  delivered : ℕ → Block → Handler
  write_ended : ℕ → ℕ → Handler
  write_failed : ℕ → Handler

abbrev pub is_in : ℕ → List ℕ → Bool
is_in h [] = false
is_in h (g ∷ gs) = g == h || is_in h gs

-- The first armed read of the session ends; where none is armed, nothing happens.
unfoldable pub run_read : Env → ℕ → Block → ℕ → List Reader → Room → Outcome Room
run_read env h buffer n [] r = ok r
run_read env h buffer n (handshake_reader ∷ rest) r =
    read_handshake_ended env h buffer n (take_read h rest r)
run_read env h buffer n (byte_reader ∷ rest) r = read_byte_ended env h buffer n (take_read h rest r)

unfoldable pub run_failed_read : ℕ → List Reader → Room → Outcome Room
run_failed_read h [] r = ok r
run_failed_read h (handshake_reader ∷ rest) r = ok (handshake_failed h (take_read h rest r))
run_failed_read h (byte_reader ∷ rest) r = transfer_failed h (take_read h rest r)

abbrev pub in_server : Server → Outcome Room → Outcome Server
in_server server m = m >>= λ r. ok (record server { room = r })

-- A new session has a place of its own, so a handle that a participant has is none that is
-- accepted.
unfoldable pub run_handler : Env → Handler → Server → Outcome Server
unfolding run_read run_failed_read
run_handler env (accepted h timestamp) server =
    if is_in h server.room.participants then ok server else Server.accepted env timestamp h server
run_handler env (read_ended h buffer n) server =
    in_server server (run_read env h buffer n (server.room.sessions h).reads server.room)
run_handler env (read_failed h) server =
    in_server server (run_failed_read h (server.room.sessions h).reads server.room)
run_handler env (delivered h m) server =
    in_server server (ok (modify h (run_deliver m) server.room))
run_handler env (write_ended h i) server =
    in_server server (ok (modify h (write_done i) server.room))
run_handler env (write_failed h) server = in_server server (transfer_failed h server.room)

-- The service, whether its acceptor awaits a connection, and the room of the server before the
-- present one, which was destroyed with it while handlers of its sessions may still wait.
pub record Host : Type 0 where
  pub lobby : Lobby
  pub accepting : Bool
  pub former : Option Room

-- What a handler that throws has done by then. Only the option that `join` sets throws, behind the
-- credentials of a handshake.
unfoldable pub read_thrown : Env → ℕ → Block → ℕ → List Reader → Room → Room
unfolding credentials_thrown
read_thrown env h buffer n (handshake_reader ∷ rest) r = elim (from_raw buffer n) [
  | ok msg ↦ credentials_thrown env h msg (take_read h rest r)
  | fault e ↦ r
  | threw ↦ r
]
read_thrown env h buffer n _ r = r

unfoldable pub thrown : Env → Handler → Server → Server
unfolding read_thrown
thrown env (read_ended h buffer n) server = record server {
  room = read_thrown env h buffer n (server.room.sessions h).reads server.room;
}
thrown env _ server = server

-- `io_context_.run()` with the handler of exceptions round it: an exception ends the thread, with
-- the server as the exception leaves it.
unfoldable pub caught : Host → Server → Outcome Server → Outcome Host
caught c left (ok server) = ok (record c { lobby = record (c.lobby) { server = some server } })
caught c left (fault e) = fault e
caught c left threw =
    ok (record c { lobby = Lobby.thread_ends (record (c.lobby) { server = some left }) })

abbrev pub with_thread : (Server → Outcome Host) → Host → Outcome Host
with_thread f c =
    if c.lobby.running then (elim c.lobby.server [ none ↦ ok c | some server ↦ f server ]) else ok c

abbrev pub needs_acceptor : Handler → Bool
needs_acceptor (accepted h timestamp) = true
needs_acceptor _ = false

-- A handler runs while the thread does. A connection comes only to an acceptor that awaits it.
unfoldable pub handles : Env → Handler → Host → Outcome Host
unfolding caught thrown run_handler
handles env x c =
    if needs_acceptor x && not c.accepting
    then ok c
    else with_thread (λ server. caught c (thrown env x server) (run_handler env x server)) c

-- A failed accept is printed, and no other connection is awaited.
unfoldable pub accept_failed : Host → Host
accept_failed c = if c.lobby.running then record c { accepting = false } else c

-- A read of a session of the former server fails now: that session's handler goes to a room that is
-- no more, where its handshake was over, and closes its socket, where it was not.
unfoldable pub former_read_failed : ℕ → List Reader → Room → Host → Outcome Host
former_read_failed h [] r c = ok c
former_read_failed h (byte_reader ∷ rest) r c = fault dangling
former_read_failed h (handshake_reader ∷ rest) r c =
    ok (record c { former = some (handshake_failed h (take_read h rest r)) })

unfoldable pub former_fails : ℕ → Host → Outcome Host
unfolding former_read_failed
former_fails h c = elim c.former [
  | none ↦ ok c
  | some r ↦ if c.lobby.running then former_read_failed h (r.sessions h).reads r c else ok c
]

abbrev pub former_room : Lobby → Option Room
former_room s = elim s.server [ none ↦ none | some server ↦ some server.room ]

-- A call or a step of the thread. The new server takes the place of the former one, which goes with
-- its room, and awaits a connection.
unfoldable pub calls : Env → Op → Host → Outcome Host
calls env thread_begins c = apply env thread_begins c.lobby >>= λ s.
    ok (record { lobby = s; accepting = true; former = former_room c.lobby })
calls env op c = apply env op c.lobby >>= λ s. ok (record c { lobby = s })

unfoldable pub new_host : Lobby → Host
new_host s = record { lobby = s; accepting = false; former = none }
