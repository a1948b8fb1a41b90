-- ===== src/Hosting/Welcome.antt =====
-- That whoever brings the right credentials is let in, whatever the service has been through.
use xrnetwork.Base.{
  ℕ, ◌<◌, ◌≤◌, ◌+◌, ◌≡◌, refl, subst, ◌∙◌, true, some, List, [], ◌∷◌, ◌++◌, length, ok,
}
use xrnetwork.XrMessage.{message_size}
use xrnetwork.Session.{Session, Reader, handshake_reader}
use xrnetwork.Room.State.{Env, Room, get_participant_ptr}
use xrnetwork.Room.Keeping.{IsNew, fresh_draw}
use xrnetwork.Connection.Credentials.{invitation_message}
use xrnetwork.Connection.Reaching.{greeted-Phase}
use xrnetwork.Client.Admission.{credentials_reply}
use xrnetwork.Exchange.Welcomes.{greeted_enters}
use xrnetwork.Server.{Server}
use xrnetwork.Hosting.{Host, read_ended, run_read, caught, handles}
use xrnetwork.Hosting.Calls.{ServerSound}
use xrnetwork.Hosting.Outage.{handles_serving}
use xrnetwork.Hosting.Sound.{Reached, Reached-IsSound}

-- Whatever the service has been through, with its user's calls, exceptions and new starts: while its
-- thread runs and the room of its server has a place, a session that awaits a message of its
-- handshake on an open socket, and gets the client's credentials, enters as its handler runs. The
-- service goes on; the session is found under the identifier drawn, it is one participant more, and
-- its invitation is posted to it. The output that the engine gives next is none of those before it,
-- an open socket takes its options, and the session's address has at most 512 bytes.
pub Reached-welcomes :
    (env : Env) (h : ℕ) (rest : List Reader) (server : Server) (c : Host)
    → IsNew env server.room.drawn
    → ((s : Session) → s.is_open ≡ true → env.accepts_option s ≡ true)
    → Reached env c
    → c.lobby.running ≡ true
    → c.lobby.server ≡ some server
    → (server.room.sessions h).reads ≡ handshake_reader ∷ rest
    → (server.room.sessions h).is_open ≡ true
    → length (server.room.sessions h).ip ≤ 512
    → length server.room.participants < server.room.max_participants
    → (c' : Host) × (handles env (read_ended h credentials_reply message_size) c ≡ ok c')
      × (c'.lobby.running ≡ true)
      × (r : Room) × (c'.lobby.server ≡ some (record server { room = r }))
      × (get_participant_ptr r (env.rng server.room.drawn) ≡ some h)
      × (length r.participants ≡ length server.room.participants + 1)
      × (r.posted ≡ server.room.posted ++ (h, invitation_message (env.rng server.room.drawn)) ∷ [])
unfolding caught run_read
Reached-welcomes env h rest server c new open_take_options reached runs served armed is_open short
      room =
    let sound = subst (ServerSound env) served (Reached-IsSound env c reached) in
    let phase = greeted-Phase server.room h rest (sound.serving.phases h) armed in
    let entered =
      greeted_enters env h rest server.room open_take_options phase.1
        (fresh_draw env server.room new sound.kept) is_open short room in
    (
      record c { lobby = record (c.lobby) { server = some (record server { room = entered.0 }) } },
      handles_serving env h message_size credentials_reply server c runs served
          ∙ rw (armed, entered.1) refl,
      runs,
      entered.0,
      refl,
      entered.2,
      entered.3,
      entered.4,
    )
