-- ===== src/Lobby/Announced.antt =====
-- What the console says of a newcomer.
use xrnetwork.Base.{
  ℕ, ◌+◌, ◌≤◌, ◌<◌, ◌≡◌, ◌≢◌, refl, ◌∙◌, true, none, some, [], ◌∷◌, length, codes, All, ok,
  le→ltb-false, arith,
}
use xrnetwork.Base.Memory.{zeros, copy, bytes_of}
use xrnetwork.Session.{Info}
use xrnetwork.Room.State.{Env, Room, get_participant_ptr}
use xrnetwork.Room.Members.{join, new_info}
use xrnetwork.Room.Queries
use xrnetwork.Room.Invariant.{IsOutside}
use xrnetwork.Room.Joining.{drawn_session, joined_session, join_enters}
use xrnetwork.Printing.{text, number, endl, c_text}
use xrnetwork.Printing.Greetings.{buffer_byte}
use xrnetwork.Printing.Terminated.{c_text-reads}
use xrnetwork.Server
use xrnetwork.Server.{Server}
use xrnetwork.Lobby.{Lobby}
use xrnetwork.Lobby.Getters.{get_participant_info}
use xrnetwork.Lobby.Console.{new_participant_line}

abbrev joined_info : Env → ℕ → Room → Info
joined_info env h r = record (new_info env) {
  id = env.rng r.drawn;
  ipv4_ip = copy zeros 0 (bytes_of (r.sessions h).ip) (length (r.sessions h).ip);
}

-- The room's answer about a session that has joined.
info-joined :
    (env : Env) (h : ℕ) (r r' : Room)
    → get_participant_ptr r' (env.rng r.drawn) ≡ some h
    → r'.sessions h ≡ joined_session env h r
    → length (r.sessions h).m_name ≤ 1024
    → (info : Info) × (Queries.get_participant_info (env.rng r.drawn) (new_info env) r' ≡ ok info)
      × (info.ipv4_ip ≡ copy zeros 0 (bytes_of (r.sessions h).ip) (length (r.sessions h).ip))
unfolding Queries.get_participant_info
info-joined env h r r' found there short = (
  record (joined_info env h r) {
    name = copy zeros 0 (bytes_of (r.sessions h).m_name) (length (r.sessions h).m_name);
  },
  rw (Queries.get_participant_info, found)
      (rw there (rw (le→ltb-false 1024 (length (r.sessions h).m_name) short) refl)),
  refl,
)

-- While the service runs, what the console's callback prints about a session that `join` took into
-- the room is the identifier drawn and the session's whole address: where the room has a place, the socket takes
-- its option, the session is outside and the identifier is new, and where the address has no NUL and
-- fewer than 512 bytes and the session's name at most 1024.
pub join-new_participant_line :
    (env : Env) (h : ℕ) (r : Room) (server : Server) (s : Lobby)
    → length r.participants < r.max_participants
    → env.accepts_option (drawn_session env h r) ≡ true
    → length (r.sessions h).ip < 512
    → IsOutside h r
    → get_participant_ptr r (env.rng r.drawn) ≡ none
    → All (λ (c : ℕ). c ≢ 0) (r.sessions h).ip
    → length (r.sessions h).m_name ≤ 1024
    → s.running ≡ true
    → (r' : Room) × (join env h r ≡ ok r')
      × (new_participant_line env
            (env.rng r.drawn)
            (record s { server = some (record server { room = r' }) })
          ≡ ok (
              text (codes "----- New Participant event ID: ")
              ∷ number (env.rng r.drawn)
              ∷ text (codes ", IP: ")
              ∷ text (r.sessions h).ip
              ∷ endl
              ∷ []))
unfolding new_participant_line get_participant_info Server.get_participant_info
join-new_participant_line env h r server s room accepted short outside fresh solid named runs =
    let entered = join_enters env h r room accepted (omega (arith, short)) outside fresh in
    let found = entered.4 (env.rng r.drawn) ∙ ground arith in
    let info = info-joined env h r entered.0 found entered.2 named in
    let ip = (r.sessions h).ip in
    let address : c_text (record { size = 512; at = info.0.ipv4_ip }) 0 ≡ ok ip =
      c_text-reads (record { size = 512; at = info.0.ipv4_ip }) 0 ip solid
        (λ k hk. let e : 0 + k ≡ k = omega arith in rw (e, info.2) (buffer_byte ip k hk))
        (omega (arith, short)) in
    (entered.0, entered.1, rw (runs, info.1) (rw address refl))
