-- ===== src/Room/Ordered.antt =====
-- That `join` keeps the set of participants in order.
use xrnetwork.Base.{ℕ, ◌<◌, ◌≡◌, sym, ◌∙◌, length, ok, ltb, arith, Bool-cases, inl, inr}
use xrnetwork.Session.{do_close}
use xrnetwork.Room.OrderedSet.{insert-Ascends, Ascends-agree, length-insert-le}
use xrnetwork.Room.Invariant.{IsValid, IsOutside, put-IsValid, m_id-do_close}
use xrnetwork.Room.State.{Env, Room, id_of, put}
use xrnetwork.Room.Members.{enter, join, signal_new_participant}
use xrnetwork.Room.Joining.{settled, agrees, join_form, join_full}

closed-IsValid : (h : ℕ) (r : Room) → IsValid r → IsValid (put r h (do_close (r.sessions h)))
closed-IsValid h r = put-IsValid r h (do_close (r.sessions h)) (m_id-do_close (r.sessions h))

pub entered-IsValid :
    (env : Env) (h : ℕ) (r : Room)
    → length r.participants < r.max_participants
    → IsOutside h r
    → IsValid r
    → IsValid (enter h (settled env h r))
unfolding enter signal_new_participant put
entered-IsValid env h r room outside v = record {
  ordered = insert-Ascends (id_of (settled env h r)) h r.participants (
      Ascends-agree (id_of r) (id_of (settled env h r)) r.participants (agrees env h r outside)
        v.ordered);
  bounded = omega (arith, length-insert-le (id_of (settled env h r)) h r.participants);
}

-- A room that is in order stays so when a session outside joins it, whatever identifier is drawn.
pub join-IsValid :
    (env : Env) (h : ℕ) (r r' : Room)
    → IsOutside h r
    → IsValid r
    → join env h r ≡ ok r'
    → IsValid r'
join-IsValid env h r r' outside v e =
    elim (Bool-cases (ltb (length r.participants) r.max_participants)) [
      | inl room ↦
          let form = sym (join_form env h r (ground arith)) ∙ e in
          ground (arith, entered-IsValid env h r (ground arith) outside v)
      | inr full ↦
          let form = sym (join_full env h r (ground arith)) ∙ e in
          ground (arith, closed-IsValid h r v)
    ]
