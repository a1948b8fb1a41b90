-- ===== src/Hosting/Outage.antt =====
-- How one client ends the service, and how a taken port does.
use xrnetwork.Base.{
  ap, ◌+◌, ◌>>=◌, ℕ, ◌<◌, ◌≡◌, refl, true, false, some, List, ◌∷◌, length, ok, fault, threw,
  terminated, ◌∙◌, arith,
}
use xrnetwork.Base.Memory.{Block}
use xrnetwork.XrMessage.{from_raw, read_header}
use xrnetwork.Protocol.Heads.{code, handshake_credentials_ack}
use xrnetwork.Session.{Session, Reader, handshake_reader}
use xrnetwork.Room.State.{Env, Room, put}
use xrnetwork.Connection.Handshake.{are_accepted, dispatch_handshake, read_handshake_ended}
use xrnetwork.Connection.Credentials.{check_refused_throws}
use xrnetwork.Connection.Loop.{take_read}
use xrnetwork.Server.{Server}
use xrnetwork.Lobby
use xrnetwork.Lobby.{Lobby}
use xrnetwork.Lobby.Running.{start, stop, thread_unbound, apply}
use xrnetwork.Hosting.{
  Handler, read_ended, Host, run_read, run_handler, in_server, thrown, caught, handles, calls,
}

refused_read :
    (env : Env) (h n : ℕ) (buffer msg : Block) (rest : List Reader) (r : Room)
    → ((s : Session) → s.is_open ≡ false → env.accepts_option s ≡ false)
    → from_raw buffer n ≡ ok msg
    → (read_header msg.at).head ≡ code handshake_credentials_ack
    → are_accepted msg ≡ false
    → length r.participants < r.max_participants
    → run_read env h buffer n (handshake_reader ∷ rest) r ≡ threw
unfolding run_read read_handshake_ended dispatch_handshake put
refused_read env h n buffer msg rest r closed_refuse received named refused room =
    rw (received, named)
      (check_refused_throws env h msg (take_read h rest r) closed_refuse refused
        (unfold put in room))

pub handles_serving :
    (env : Env) (h n : ℕ) (buffer : Block) (server : Server) (c : Host)
    → c.lobby.running ≡ true
    → c.lobby.server ≡ some server
    → handles env (read_ended h buffer n) c
      ≡ caught c
          (thrown env (read_ended h buffer n) server)
          (in_server server (run_read env h buffer n (server.room.sessions h).reads server.room))
unfolding handles run_handler
handles_serving env h n buffer server c runs served = simp (runs, served)

-- The thread is over: no handler runs.
ended_rests :
    (env : Env) (x : Handler) (c : Host) → c.lobby.running ≡ false → handles env x c ≡ ok c
unfolding handles
ended_rests env x c ended = ground arith

-- On a platform where a closed socket refuses its options: one client that sends other credentials
-- while the room has a place ends the whole service. Its thread stops, no handler runs any more,
-- for no client; a call of `stop` does nothing; and to start the service again, or to destroy it,
-- ends the program.
pub refusal_ends_service :
    (env : Env) (h n : ℕ) (buffer msg : Block) (rest : List Reader) (server : Server) (c : Host)
    → ((s : Session) → s.is_open ≡ false → env.accepts_option s ≡ false)
    → c.lobby.running ≡ true
    → c.lobby.server ≡ some server
    → c.lobby.joinable ≡ true
    → c.lobby.joining ≡ false
    → (server.room.sessions h).reads ≡ handshake_reader ∷ rest
    → from_raw buffer n ≡ ok msg
    → (read_header msg.at).head ≡ code handshake_credentials_ack
    → are_accepted msg ≡ false
    → length server.room.participants < server.room.max_participants
    → (c' : Host) × (handles env (read_ended h buffer n) c ≡ ok c')
      × (c'.lobby.running ≡ false)
      × ((x : Handler) → handles env x c' ≡ ok c')
      × (calls env stop c' ≡ ok c')
      × (calls env start c' ≡ fault terminated)
      × (Lobby.destroy c'.lobby ≡ fault terminated)
unfolding handles run_handler caught calls apply Lobby.stop Lobby.start Lobby.destroy
    Lobby.thread_ends
refusal_ends_service env h n buffer msg rest server c closed_refuse runs served held alone armed
      received named refused room =
    let left = thrown env (read_ended h buffer n) server in
    let ended : Host = record c {
      lobby = Lobby.thread_ends (record (c.lobby) { server = some left });
    } in
    let throws =
      refused_read env h n buffer msg rest server.room closed_refuse received named refused room in
    (
      ended,
      handles_serving env h n buffer server c runs served
          ∙ ap (λ m. caught c left (in_server server m))
              (ap (λ rs. run_read env h buffer n rs server.room) armed ∙ throws),
      refl,
      λ x. ended_rests env x ended refl,
      refl,
      rw (alone, held) refl,
      rw (alone, held) refl,
    )

-- Where the port is taken, the first start is lost, and there is no second one: on a service that
-- does not run and whose thread nobody has to join, `start` returns, the thread ends without a
-- server of its own, no handler runs; a call of `stop` does nothing; and to start the service again,
-- or to destroy it, ends the program.
pub taken_port_ends_service :
    (env : Env) (c : Host)
    → c.lobby.running ≡ false
    → c.lobby.joinable ≡ false
    → c.lobby.joining ≡ false
    → (c' : Host) × ((calls env start c >>= calls env thread_unbound) ≡ ok c')
      × (c'.lobby.running ≡ false)
      × (c'.lobby.server ≡ c.lobby.server)
      × ((x : Handler) → handles env x c' ≡ ok c')
      × (calls env stop c' ≡ ok c')
      × (calls env start c' ≡ fault terminated)
      × (Lobby.destroy c'.lobby ≡ fault terminated)
unfolding calls apply Lobby.stop Lobby.start Lobby.destroy Lobby.thread_unbound Lobby.thread_ends
taken_port_ends_service env c idle fresh alone =
    let started = record (c.lobby) { starting = c.lobby.starting + 1; joinable = true } in
    let ended : Host = record c { lobby = Lobby.thread_unbound started } in
    (
      ended,
      rw (idle, fresh) refl,
      refl,
      refl,
      λ x. ended_rests env x ended refl,
      refl,
      rw alone refl,
      rw alone refl,
    )
