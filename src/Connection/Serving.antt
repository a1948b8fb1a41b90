-- ===== src/Connection/Serving.antt =====
-- What holds of the room and of every session's armed reads, whatever the handlers do.
use xrnetwork.Base.{
  ℕ, suc, ◌≡◌, ◌≢◌, sym, subst, ap, ◌∙◌, [], ◌∷◌, length, ltb, ◌==◌, All-mono, arith, Bool-cases,
  inl, inr,
}
use xrnetwork.Session.{Session, handshake_reader, byte_reader, do_close}
use xrnetwork.Room.OrderedSet.{Ascends-agree, insert-All}
use xrnetwork.Room.State.{Env, Room, id_of, put, modify, sessions-put_ne}
use xrnetwork.Room.Members.{join, enter, signal_new_participant}
use xrnetwork.Room.Invariant.{IsValid, IsOutside}
use xrnetwork.Room.Joining.{joined_session, settled, settled_self, join_branches, join_form}
use xrnetwork.Room.Ordered.{entered-IsValid}
use xrnetwork.Connection.Frame.{OnReturn, Quiet, Quiet-do_close}

-- A session awaits nothing, or a message of its handshake, outside the room, or one of the messages
-- that come after; in each case with at most one read armed.
pub data Phase (r : Room) (h : ℕ) : Type 0 where
  silent : (r.sessions h).reads ≡ [] → Phase r h
  greeted : (r.sessions h).reads ≡ handshake_reader ∷ [] → IsOutside h r → Phase r h
  served : (r.sessions h).reads ≡ byte_reader ∷ [] → Phase r h

-- The room is in order, and each session is in one of the phases.
pub record IsServing (r : Room) : Type 0 where
  pub valid : IsValid r
  pub phases : (h : ℕ) → Phase r h

pub Phase-carry :
    (r r' : Room) (g : ℕ)
    → (r'.sessions g).reads ≡ (r.sessions g).reads
    → (IsOutside g r → IsOutside g r')
    → Phase r g
    → Phase r' g
Phase-carry r r' g e o (silent a) = silent (e ∙ a)
Phase-carry r r' g e o (greeted a out) = greeted (e ∙ a) (o out)
Phase-carry r r' g e o (served a) = served (e ∙ a)

pub Quiet-IsServing : (r r' : Room) → Quiet r r' → IsServing r → IsServing r'
Quiet-IsServing r r' q s = record {
  valid = q.valid s.valid;
  phases = λ g. Phase-carry r r' g (q.reads g) (q.stays g) (s.phases g);
}

-- One session is replaced, and the room stays in order.
pub put-IsServing :
    (r : Room) (h : ℕ) (s : Session)
    → IsValid (put r h s)
    → Phase (put r h s) h
    → IsServing r
    → IsServing (put r h s)
unfolding put
put-IsServing r h s v phase a = record {
  valid = v;
  phases = λ g. elim (Bool-cases (g == h)) [
    | inl here ↦ let there : g ≡ h = ground arith in subst (Phase (put r h s)) (sym there) phase
    | inr other ↦
        Phase-carry r (put r h s) g
          (ap (λ (t : Session). t.reads) (sessions-put_ne r h g s (λ there. ground arith))) (λ o. o)
          (a.phases g)
  ];
}

-- A session outside the room may be replaced by any other.
pub replaced-IsValid :
    (r : Room) (h : ℕ) (s : Session) → IsOutside h r → IsValid r → IsValid (put r h s)
unfolding put
replaced-IsValid r h s outside v = record {
  ordered =
      Ascends-agree (id_of r) (id_of (put r h s)) r.participants
        (All-mono (λ g. g ≢ h) (λ g. id_of r g ≡ id_of (put r h s) g)
          (λ g ne. ap (λ (t : Session). t.m_id) (sym (sessions-put_ne r h g s ne))) r.participants
          outside)
        v.ordered;
  bounded = v.bounded;
}

entered-Phase :
    (env : Env) (h : ℕ) (r : Room) (g : ℕ)
    → (r.sessions h).reads ≡ byte_reader ∷ []
    → IsServing r
    → Phase (enter h (settled env h r)) g
unfolding enter signal_new_participant put
entered-Phase env h r g armed a = elim (Bool-cases (g == h)) [
  | inl here ↦
      let there : g ≡ h = ground arith in
      subst (Phase (enter h (settled env h r))) (sym there)
        (served (ap (λ (s : Session). s.reads) (settled_self env h r) ∙ armed))
  | inr other ↦
      Phase-carry r (enter h (settled env h r)) g
        (ap (λ (s : Session). s.reads)
          (sessions-put_ne (record r { drawn = suc r.drawn }) h g (joined_session env h r)
            (λ there. ground arith)))
        (λ o.
          insert-All (id_of (settled env h r)) (λ x. x ≢ g) h r.participants (λ there. ground arith)
            o)
        (a.phases g)
]

-- A session joins with its read armed.
pub join-IsServing :
    (env : Env) (h : ℕ) (r : Room)
    → (r.sessions h).reads ≡ byte_reader ∷ []
    → IsOutside h r
    → IsServing r
    → OnReturn IsServing (join env h r)
join-IsServing env h r armed outside a =
    elim (Bool-cases (ltb (length r.participants) r.max_participants)) [
      | inl room ↦
          let entered : IsServing (enter h (settled env h r)) = record {
            valid = entered-IsValid env h r (ground arith) outside a.valid;
            phases = λ g. entered-Phase env h r g armed a;
          } in
          rw (join_form env h r (ground arith)) (ground (arith, entered))
      | inr full ↦
          rw ((join_branches env h r).0 (ground arith))
            (Quiet-IsServing r (modify h do_close r) (Quiet-do_close h r) a)
    ]
