-- ===== src/Hosting/Restart.antt =====
-- What a stopped service leaves behind when it is started again.
use xrnetwork.Base.{
  ℕ, ◌≡◌, ◌≢◌, refl, sym, ap, ◌∙◌, true, false, some, List, [], ◌∷◌, ok, fault, dangling, ◌>>=◌,
  ◌==◌, arith, Bool-cases, inl, inr,
}
use xrnetwork.Session.{Session, Reader, byte_reader, do_close}
use xrnetwork.Room.State.{Env, Room, modify, sessions-put_self, sessions-put_ne}
use xrnetwork.Room.Members.{close_each, disconnect_all_participants}
use xrnetwork.Room.Invariant.{is_open-do_close}
use xrnetwork.Server
use xrnetwork.Server.{Server}
use xrnetwork.Lobby
use xrnetwork.Lobby.{Lobby}
use xrnetwork.Lobby.Running.{start, stop, thread_begins, thread_ends, apply}
use xrnetwork.Hosting.{Host, is_in, calls, former_fails, former_read_failed}

reads-do_close : (s : Session) → (do_close s).reads ≡ s.reads
unfolding do_close
reads-do_close s = ground arith

closed_again : (s : Session) → s.is_open ≡ false → (do_close s).is_open ≡ false
closed_again s e = is_open-do_close s

closing_one :
    (h g : ℕ) (r : Room)
    → (((modify g do_close r).sessions h).reads ≡ (r.sessions h).reads)
      × ((r.sessions h).is_open ≡ false → ((modify g do_close r).sessions h).is_open ≡ false)
      × (g ≡ h → ((modify g do_close r).sessions h).is_open ≡ false)
closing_one h g r = elim (Bool-cases (h == g)) [
  | inl here ↦
      let there : h ≡ g = ground arith in
      rw (there, sessions-put_self r g (do_close (r.sessions g)))
        (
          reads-do_close (r.sessions g),
          closed_again (r.sessions g),
          λ _. is_open-do_close (r.sessions g),
        )
  | inr other ↦
      let apart : h ≢ g = λ there. ground arith in
      rw (sessions-put_ne r g h (do_close (r.sessions g)) apart)
        (refl, λ e. e, λ there. absurd (apart (sym there)))
]

-- A session that is closed with the others, or was, is closed, and its reads stay armed.
closing_each :
    (h : ℕ) (hs : List ℕ) (r : Room)
    → (((close_each hs r).sessions h).reads ≡ (r.sessions h).reads)
      × ((r.sessions h).is_open ≡ false → ((close_each hs r).sessions h).is_open ≡ false)
      × (is_in h hs ≡ true → ((close_each hs r).sessions h).is_open ≡ false)
unfolding close_each
closing_each h [] r = (refl, λ e. e, λ e. absurd (ground arith))
closing_each h (g ∷ gs) r =
    let one = closing_one h g r in
    let rest = closing_each h gs (modify g do_close r) in
    (
      rest.0 ∙ one.0,
      λ e. rest.1 (one.1 e),
      λ e. elim (Bool-cases (g == h)) [
        | inl here ↦ rest.1 (one.2 (ground arith))
        | inr other ↦ rest.2 (ground arith)
      ],
    )

-- A service whose thread runs a server, and the same after a stop and a start, when the new thread
-- stands.
abbrev pub standing : Server → Host → Host
standing server c = record c { lobby = record (c.lobby) { running = true; server = some server } }

standing_again :
    (server : Server) (c : Host)
    → c.lobby.running ≡ true
    → c.lobby.server ≡ some server
    → c ≡ standing server c
standing_again server c runs served =
    λ i. record c { lobby = record (c.lobby) { running = runs i; server = served i } }

restarted :
    (env : Env) (server : Server) (c : Host)
    → (c' : Host) × ((calls env stop (standing server c)
          >>= calls env thread_ends
          >>= calls env start
          >>= calls env thread_begins)
        ≡ ok c')
      × (c'.lobby.running ≡ true)
      × (c'.former ≡ some (close_each server.room.participants server.room))
unfolding calls apply Lobby.stop Lobby.start Lobby.thread_begins Lobby.thread_ends Server.stop
    Server.server_disconnect_all disconnect_all_participants Lobby.configure
restarted env server c = (_, refl, refl, ground arith)

former_dangles :
    (h : ℕ) (rest : List Reader) (r : Room) (c : Host)
    → c.lobby.running ≡ true
    → c.former ≡ some r
    → (r.sessions h).reads ≡ byte_reader ∷ rest
    → former_fails h c ≡ fault dangling
unfolding former_fails former_read_failed
former_dangles h rest r c runs kept armed = rw (former_fails, kept) (rw runs (rw armed refl))

-- A service that runs, is stopped and is started again: the new thread stands, in the service's own
-- room. A participant of the former room, whose read is armed, has had its socket closed by `stop`.
-- That its read has therefore failed reaches it on the new thread, where its handler goes to the
-- room that was destroyed.
pub restart_reads_destroyed :
    (env : Env) (h : ℕ) (rest : List Reader) (server : Server) (c : Host)
    → c.lobby.running ≡ true
    → c.lobby.server ≡ some server
    → is_in h server.room.participants ≡ true
    → (server.room.sessions h).reads ≡ byte_reader ∷ rest
    → (c' : Host) × ((calls env stop c
          >>= calls env thread_ends
          >>= calls env start
          >>= calls env thread_begins)
        ≡ ok c')
      × (c'.lobby.running ≡ true)
      × (former : Room) × (c'.former ≡ some former)
      × ((former.sessions h).is_open ≡ false)
      × (former_fails h c' ≡ fault dangling)
restart_reads_destroyed env h rest server c runs served inside armed =
    let closed = closing_each h server.room.participants server.room in
    let again = restarted env server c in
    (
      again.0,
      ap
            (λ x.
              calls env stop x
              >>= calls env thread_ends
              >>= calls env start
              >>= calls env thread_begins)
            (standing_again server c runs served)
          ∙ again.1,
      again.2,
      close_each server.room.participants server.room,
      again.3,
      closed.2 inside,
      former_dangles h rest (close_each server.room.participants server.room) again.0 again.2
          again.3 (closed.0 ∙ armed),
    )
