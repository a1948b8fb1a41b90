-- ===== src/Connection/Drawn.antt =====
-- Every identifier in a reachable room was drawn for it.
use xrnetwork.Base.{ℕ, Bool, arith}
use xrnetwork.Session.{new_session, run_deliver, write_done}
use xrnetwork.Room.OrderedSet.{find}
use xrnetwork.Room.State.{Env, Room, put, modify, get_participant_ptr}
use xrnetwork.Room.Queries
use xrnetwork.Connection.Drawing.{
  Quiet-IsKept, replaced-IsKept, start-IsKept, handshake-IsKept, byte-IsKept, failed-IsKept,
  taken-IsKept,
}
use xrnetwork.Room.Keeping.{IsKept}
use xrnetwork.Server.{new_room}
use xrnetwork.Connection.Handshake.{Service, start, read_handshake_ended, handshake_failed}
use xrnetwork.Connection.Byte.{read_byte_ended}
use xrnetwork.Connection.Loop.{
  take_read, Step, accepts, handshake_ends, handshake_fails, read_ends, read_fails, delivers,
  write_ends, write_fails, Reachable, begins, goes_on,
}
use xrnetwork.Connection.Frame.{OnReturn-ok, Quiet-do_close, Quiet-run_deliver, Quiet-write_done}
use xrnetwork.Connection.Serving.{IsServing}
use xrnetwork.Connection.Reaching.{greeted-Phase}
use xrnetwork.Connection.Steps.{Reachable-IsServing}

module _ (env : Env) where
  pub Step-IsKept :
      (service : Service) (r r' : Room)
      → Step env service r r'
      → IsServing r
      → IsKept env r
      → IsKept env r'
  unfolding put handshake_failed
  Step-IsKept service r r' (accepts h timestamp _ _ outside e) a kept =
      OnReturn-ok (IsKept env) (start env service timestamp h (put r h new_session)) r'
        (start-IsKept env service timestamp h (put r h new_session)
          (replaced-IsKept env r h new_session outside kept))
        e
  Step-IsKept service r r' (handshake_ends h rest buffer n _ _ armed e) a kept =
      let phase = greeted-Phase r h rest (a.phases h) armed in
      OnReturn-ok (IsKept env) (read_handshake_ended env h buffer n (take_read h rest r)) r'
        (handshake-IsKept env h buffer n (take_read h rest r) phase.1
          (taken-IsKept env h rest r kept))
        e
  Step-IsKept service r _ (handshake_fails h rest _ armed) a kept =
      Quiet-IsKept env (take_read h rest r) (handshake_failed h (take_read h rest r))
        (Quiet-do_close h (take_read h rest r)) (taken-IsKept env h rest r kept)
  Step-IsKept service r r' (read_ends h rest buffer n _ _ armed e) a kept =
      OnReturn-ok (IsKept env) (read_byte_ended env h buffer n (take_read h rest r)) r'
        (byte-IsKept env h buffer n (take_read h rest r) (taken-IsKept env h rest r kept)) e
  Step-IsKept service r r' (read_fails h rest _ _ armed e) a kept =
      failed-IsKept env h (take_read h rest r) r' (taken-IsKept env h rest r kept) e
  Step-IsKept service r _ (delivers h m _) a kept =
      Quiet-IsKept env r (modify h (run_deliver m) r) (Quiet-run_deliver h m r) kept
  Step-IsKept service r _ (write_ends h i _) a kept =
      Quiet-IsKept env r (modify h (write_done i) r) (Quiet-write_done h i r) kept
  Step-IsKept service r r' (write_fails h _ _ e) a kept = failed-IsKept env h r r' kept e

  pub begins-IsKept :
      (limit : ℕ) (flag : Bool) (size : ℕ)
      → IsKept env (Queries.set_max_participants limit (new_room flag size))
  unfolding Queries.set_max_participants new_room get_participant_ptr find
  begins-IsKept limit flag size = record {
    valid = record { ordered = tt; bounded = omega arith };
    drawn_before = λ k h e. absurd (ground arith);
  }

  -- Whatever connects, arrives, fails and is written: whoever is found in the room is found under an
  -- output that was drawn before.
  pub Reachable-IsKept : (service : Service) (r : Room) → Reachable env service r → IsKept env r
  Reachable-IsKept service _ (begins limit flag size) = begins-IsKept limit flag size
  Reachable-IsKept service r (goes_on p _ before step) =
      Step-IsKept service p r step (Reachable-IsServing env service p before)
        (Reachable-IsKept service p before)
