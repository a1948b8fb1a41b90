-- ===== src/Connection/Steps.antt =====
-- Every room that the service can reach is in order.
use xrnetwork.Base.{ℕ, ◌≡◌, refl, ap, ◌∙◌, Bool, [], ok, ◌>>=◌, arith}
use xrnetwork.XrMessage.{from_head}
use xrnetwork.Protocol.Heads.{code, handshake_hello}
use xrnetwork.Protocol.Structs.{hello_object}
use xrnetwork.Protocol.Builders.{build_handshake_hello}
use xrnetwork.Session.{Session, new_session, do_read_handshake, run_deliver, write_done}
use xrnetwork.Room.State.{Env, Room, id_of, put, modify, sessions-put_self}
use xrnetwork.Room.Deliver.{deliver_byte}
use xrnetwork.Room.Members.{leave}
use xrnetwork.Room.Queries
use xrnetwork.Room.Invariant.{IsOutside}
use xrnetwork.Server.{new_room}
use xrnetwork.Connection.Handshake.{
  Service, start, do_start_handshake, read_handshake_ended, handshake_failed,
}
use xrnetwork.Connection.Byte.{read_byte_ended, transfer_failed}
use xrnetwork.Connection.Loop.{
  take_read, Step, accepts, handshake_ends, handshake_fails, read_ends, read_fails, delivers,
  write_ends, write_fails, Reachable, begins, goes_on,
}
use xrnetwork.Connection.Frame.{
  OnReturn, OnReturn->>=, OnReturn-ok, Quiet-put, Quiet-do_close, Quiet-run_deliver,
  Quiet-write_done, Quiet-deliver_byte, leave-Quiet,
}
use xrnetwork.Connection.Serving.{
  silent, IsServing, Quiet-IsServing, put-IsServing, replaced-IsValid,
}
use xrnetwork.Connection.Reaching.{
  greeted-Phase, served-Phase, taken_silent, take_read-IsServing, await_handshake-IsServing,
  settled-Quiet, handshake-IsServing, byte-IsServing,
}

start-IsServing :
    (env : Env) (service : Service) (timestamp h : ℕ) (r : Room)
    → (r.sessions h).reads ≡ []
    → IsOutside h r
    → IsServing r
    → OnReturn IsServing (start env service timestamp h r)
unfolding start do_start_handshake put
start-IsServing env service timestamp h r quiet outside a =
    let noted = modify h (λ s. record s { ip = env.endpoint h }) r in
    let q = Quiet-put r h (record (r.sessions h) { ip = env.endpoint h }) refl refl in
    let armed = modify h do_read_handshake noted in
    let ready =
      await_handshake-IsServing h noted (q.reads h ∙ quiet) outside (Quiet-IsServing r noted q a) in
    OnReturn->>= IsServing
      (build_handshake_hello service.service_id (id_of armed h) timestamp service.server_name)
      (λ hh. from_head (code handshake_hello) (hello_object hh) (hello_object hh).size >>= λ msg.
        ok (deliver_byte msg h armed))
      (λ hh.
        OnReturn->>= IsServing
          (from_head (code handshake_hello) (hello_object hh) (hello_object hh).size)
          (λ msg. ok (deliver_byte msg h armed))
          (λ msg.
            Quiet-IsServing armed (deliver_byte msg h armed) (Quiet-deliver_byte msg h armed)
              ready))

accepted-IsServing :
    (h : ℕ) (r : Room) → IsOutside h r → IsServing r → IsServing (put r h new_session)
unfolding new_session
accepted-IsServing h r outside a =
    put-IsServing r h new_session (replaced-IsValid r h new_session outside a.valid)
      (silent (ap (λ (s : Session). s.reads) (sessions-put_self r h new_session))) a

failed-IsServing : (h : ℕ) (r r' : Room) → IsServing r → transfer_failed h r ≡ ok r' → IsServing r'
unfolding transfer_failed
failed-IsServing h r r' a e =
    OnReturn-ok IsServing (leave h r) r' (settled-Quiet r (leave h r) a (leave-Quiet h r)) e

-- One handler, run to its end, keeps the room in order and every session in a phase.
pub Step-IsServing :
    (env : Env) (service : Service) (r r' : Room)
    → Step env service r r'
    → IsServing r
    → IsServing r'
unfolding put handshake_failed new_session
Step-IsServing env service r r' (accepts h timestamp _ _ outside e) a =
    OnReturn-ok IsServing (start env service timestamp h (put r h new_session)) r'
      (start-IsServing env service timestamp h (put r h new_session)
        (ap (λ (s : Session). s.reads) (sessions-put_self r h new_session)) outside
        (accepted-IsServing h r outside a))
      e
Step-IsServing env service r r' (handshake_ends h rest buffer n _ _ armed e) a =
    let phase = greeted-Phase r h rest (a.phases h) armed in
    OnReturn-ok IsServing (read_handshake_ended env h buffer n (take_read h rest r)) r'
      (handshake-IsServing env h buffer n (take_read h rest r) (taken_silent r h rest phase.0)
        phase.1 (take_read-IsServing r h rest phase.0 a))
      e
Step-IsServing env service r _ (handshake_fails h rest _ armed) a =
    let phase = greeted-Phase r h rest (a.phases h) armed in
    Quiet-IsServing (take_read h rest r) (handshake_failed h (take_read h rest r))
      (Quiet-do_close h (take_read h rest r)) (take_read-IsServing r h rest phase.0 a)
Step-IsServing env service r r' (read_ends h rest buffer n _ _ armed e) a =
    let last = served-Phase r h rest (a.phases h) armed in
    OnReturn-ok IsServing (read_byte_ended env h buffer n (take_read h rest r)) r'
      (byte-IsServing env h buffer n (take_read h rest r) (taken_silent r h rest last)
        (take_read-IsServing r h rest last a))
      e
Step-IsServing env service r r' (read_fails h rest _ _ armed e) a =
    let last = served-Phase r h rest (a.phases h) armed in
    failed-IsServing h (take_read h rest r) r' (take_read-IsServing r h rest last a) e
Step-IsServing env service r _ (delivers h m _) a =
    Quiet-IsServing r (modify h (run_deliver m) r) (Quiet-run_deliver h m r) a
Step-IsServing env service r _ (write_ends h i _) a =
    Quiet-IsServing r (modify h (write_done i) r) (Quiet-write_done h i r) a
Step-IsServing env service r r' (write_fails h _ _ e) a = failed-IsServing h r r' a e

pub begins-IsServing :
    (limit : ℕ) (flag : Bool) (size : ℕ)
    → IsServing (Queries.set_max_participants limit (new_room flag size))
unfolding Queries.set_max_participants new_room new_session
begins-IsServing limit flag size = record {
  valid = record { ordered = tt; bounded = omega arith };
  phases = λ h. silent refl;
}

-- From a new room with any limit, whatever connects, arrives, fails and is written, in any order:
-- the set stays ordered by identifier, with no identifier twice and within the limit; each session
-- has at most one read armed; and one whose handshake is read is not in the room.
pub Reachable-IsServing :
    (env : Env) (service : Service) (r : Room) → Reachable env service r → IsServing r
Reachable-IsServing env service _ (begins limit flag size) = begins-IsServing limit flag size
Reachable-IsServing env service r (goes_on p _ before step) =
    Step-IsServing env service p r step (Reachable-IsServing env service p before)
