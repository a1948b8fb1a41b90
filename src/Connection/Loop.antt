-- ===== src/Connection/Loop.antt =====
-- What may happen to the room while the service runs, one handler after the other.
use xrnetwork.Base.{ℕ, ◌≡◌, Bool, List, ◌∷◌, ok}
use xrnetwork.Base.Memory.{Block}
use xrnetwork.Session.{Reader, handshake_reader, byte_reader, new_session, run_deliver, write_done}
use xrnetwork.Room.State.{Env, Room, put, modify}
use xrnetwork.Room.Queries
use xrnetwork.Room.Invariant.{IsOutside}
use xrnetwork.Connection.Handshake.{Service, start, read_handshake_ended, handshake_failed}
use xrnetwork.Connection.Byte.{read_byte_ended, transfer_failed}
use xrnetwork.Server.{new_room}

-- The first armed read of a session is over, and `rest` stays armed.
abbrev pub take_read : ℕ → List Reader → Room → Room
take_read h rest r = modify h (λ s. record s { reads = rest }) r

-- One handler runs to its end. A read can end only where its reader is armed; the handle of an
-- accepted session is none of a participant's.
pub data Step (env : Env) (service : Service) : Room → Room → Type 0 where
  accepts :
      (h timestamp : ℕ) (r r' : Room)
      → IsOutside h r
      → start env service timestamp h (put r h new_session) ≡ ok r'
      → Step env service r r'
  handshake_ends :
      (h : ℕ) (rest : List Reader) (buffer : Block) (n : ℕ) (r r' : Room)
      → (r.sessions h).reads ≡ handshake_reader ∷ rest
      → read_handshake_ended env h buffer n (take_read h rest r) ≡ ok r'
      → Step env service r r'
  handshake_fails :
      (h : ℕ) (rest : List Reader) (r : Room)
      → (r.sessions h).reads ≡ handshake_reader ∷ rest
      → Step env service r (handshake_failed h (take_read h rest r))
  read_ends :
      (h : ℕ) (rest : List Reader) (buffer : Block) (n : ℕ) (r r' : Room)
      → (r.sessions h).reads ≡ byte_reader ∷ rest
      → read_byte_ended env h buffer n (take_read h rest r) ≡ ok r'
      → Step env service r r'
  read_fails :
      (h : ℕ) (rest : List Reader) (r r' : Room)
      → (r.sessions h).reads ≡ byte_reader ∷ rest
      → transfer_failed h (take_read h rest r) ≡ ok r'
      → Step env service r r'
  delivers : (h : ℕ) (m : Block) (r : Room) → Step env service r (modify h (run_deliver m) r)
  write_ends : (h i : ℕ) (r : Room) → Step env service r (modify h (write_done i) r)
  write_fails : (h : ℕ) (r r' : Room) → transfer_failed h r ≡ ok r' → Step env service r r'

-- What the room can be, from a new room with any limit.
pub data Reachable (env : Env) (service : Service) : Room → Type 0 where
  begins :
      (limit : ℕ) (flag : Bool) (size : ℕ)
      → Reachable env service (Queries.set_max_participants limit (new_room flag size))
  goes_on :
      (r r' : Room) → Reachable env service r → Step env service r r' → Reachable env service r'
