-- ===== src/Exchange/Welcomes.antt =====
-- That a client is let into a room that the service has come to.
use xrnetwork.Base.{
  ℕ, ok, none, ◌≤◌, ◌<◌, ◌+◌, ◌≡◌, refl, ap, ◌∙◌, true, some, List, [], ◌∷◌, ◌++◌, length, arith,
}
use xrnetwork.XrMessage.{message_size}
use xrnetwork.Protocol.Heads.{code, handshake_credentials_ack}
use xrnetwork.Protocol.Structs.{credentials_ack_object}
use xrnetwork.Session.{Session, Reader, handshake_reader, do_read_byte}
use xrnetwork.Room.State.{Env, Room, put, sessions-put_self, get_participant_ptr}
use xrnetwork.Room.Invariant.{IsOutside, get_participant_ptr-put}
use xrnetwork.Room.Keeping.{IsNew, fresh_draw}
use xrnetwork.Connection.Handshake.{Service, read_handshake_ended, dispatch_handshake}
use xrnetwork.Connection.Credentials.{asked_session, check_enters, invitation_message}
use xrnetwork.Connection.Loop.{take_read, Step, handshake_ends, Reachable}
use xrnetwork.Connection.Reaching.{greeted-Phase}
use xrnetwork.Connection.Steps.{Reachable-IsServing}
use xrnetwork.Connection.Drawn.{Reachable-IsKept}
use xrnetwork.Client.{client_credentials, credentials_size}
use xrnetwork.Client.Admission.{credentials_reply, reply-are_accepted, read_handshake-built}

-- A session outside the room, on an open socket, whose read of the client's credentials has ended.
module _ (env : Env) (h : ℕ) (rest : List Reader) (r : Room)
    (open_take_options : (s : Session) → s.is_open ≡ true → env.accepts_option s ≡ true)
    (outside : IsOutside h r) (fresh : get_participant_ptr r (env.rng r.drawn) ≡ none)
    (is_open : (r.sessions h).is_open ≡ true) (short : length (r.sessions h).ip ≤ 512)
    (room : length r.participants < r.max_participants) where
  pub greeted_enters :
      (r' : Room) × (read_handshake_ended env h credentials_reply message_size (take_read h rest r)
        ≡ ok r')
      × (get_participant_ptr r' (env.rng r.drawn) ≡ some h)
      × (length r'.participants ≡ length r.participants + 1)
      × (r'.posted ≡ r.posted ++ (h, invitation_message (env.rng r.drawn)) ∷ [])
  unfolding dispatch_handshake put do_read_byte
  greeted_enters =
      let taken = record (r.sessions h) { reads = rest } in
      let q = take_read h rest r in
      let self : q.sessions h ≡ taken = sessions-put_self r h taken in
      let entered =
        check_enters env h credentials_reply q reply-are_accepted room
          (open_take_options (asked_session env h q true)
            (ap (λ (s : Session). s.is_open) self ∙ is_open))
          (rw self short) outside
          (get_participant_ptr-put r h taken (env.rng r.drawn) refl ∙ fresh) in
      (
        entered.0,
        read_handshake-built env h (code handshake_credentials_ack)
              (credentials_ack_object client_credentials) credentials_size q (omega arith)
              (omega arith) (omega arith)
            ∙ entered.1,
        entered.2,
        entered.3,
        entered.6,
      )

-- In whatever room the service has come to, if it has a place: a session that awaits a message of its
-- handshake, on an open socket, and gets the client's credentials, enters by one step of the
-- service. It is found under the identifier drawn, it is one participant more, and its invitation
-- is posted to it. The output that the engine gives next is none of those before it, an open socket
-- takes its options, and the session's address has at most 512 bytes.
pub Reachable-welcomes :
    (env : Env) (service : Service) (h : ℕ) (rest : List Reader) (r : Room)
    → IsNew env r.drawn
    → ((s : Session) → s.is_open ≡ true → env.accepts_option s ≡ true)
    → Reachable env service r
    → (r.sessions h).reads ≡ handshake_reader ∷ rest
    → (r.sessions h).is_open ≡ true
    → length (r.sessions h).ip ≤ 512
    → length r.participants < r.max_participants
    → (r' : Room) × Step env service r r'
      × (get_participant_ptr r' (env.rng r.drawn) ≡ some h)
      × (length r'.participants ≡ length r.participants + 1)
      × (r'.posted ≡ r.posted ++ (h, invitation_message (env.rng r.drawn)) ∷ [])
Reachable-welcomes env service h rest r new open_take_options reached armed is_open short room =
    let phase =
      greeted-Phase r h rest ((Reachable-IsServing env service r reached).phases h) armed in
    let entered =
      greeted_enters env h rest r open_take_options phase.1
        (fresh_draw env r new (Reachable-IsKept env service r reached)) is_open short room in
    (
      entered.0,
      handshake_ends h rest credentials_reply message_size r entered.0 armed entered.1,
      entered.2,
      entered.3,
      entered.4,
    )
