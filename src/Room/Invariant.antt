-- ===== src/Room/Invariant.antt =====
-- The invariant of the room, and the changes that cannot break it.
use xrnetwork.Base.{
  ℕ, ◌≤◌, ◌≡◌, ◌≢◌, false, sym, subst, ap, fun_ext, ◌∙◌, ◌==◌, All, length, arith, Bool-cases, inl,
  inr,
}
use xrnetwork.Session.{Session, do_close}
use xrnetwork.Room.OrderedSet.{Ascends, find}
use xrnetwork.Room.State.{Room, id_of, put, sessions-put_self, sessions-put_ne, get_participant_ptr}

-- The set is ordered by identifier, with no identifier twice, and within the limit.
pub record IsValid (r : Room) : Type 0 where
  pub ordered : Ascends (id_of r) r.participants
  pub bounded : length r.participants ≤ r.max_participants

-- The handle is in no place of the set.
abbrev pub IsOutside : ℕ → Room → Type 0
IsOutside h r = All (λ g. g ≢ h) r.participants

pub id_of-put : (r : Room) (h : ℕ) (s : Session) → s.m_id ≡ id_of r h → id_of (put r h s) ≡ id_of r
id_of-put r h s e = fun_ext λ g. elim (Bool-cases (g == h)) [
  | inl same ↦
      let there : g ≡ h = ground arith in
      rw there (ap (λ (t : Session). t.m_id) (sessions-put_self r h s) ∙ e)
  | inr other ↦ ap (λ (t : Session). t.m_id) (sessions-put_ne r h g s (λ there. ground arith))
]

pub get_participant_ptr-put :
    (r : Room) (h : ℕ) (s : Session) (k : ℕ)
    → s.m_id ≡ id_of r h
    → get_participant_ptr (put r h s) k ≡ get_participant_ptr r k
unfolding put get_participant_ptr
get_participant_ptr-put r h s k e =
    ap (λ (key : ℕ → ℕ). find key k r.participants) (id_of-put r h s e)

-- A change of one session that leaves its identifier alone.
pub put-IsValid :
    (r : Room) (h : ℕ) (s : Session) → s.m_id ≡ id_of r h → IsValid r → IsValid (put r h s)
unfolding put
put-IsValid r h s e v = record {
  ordered = subst (λ key. Ascends key r.participants) (sym (id_of-put r h s e)) v.ordered;
  bounded = v.bounded;
}

pub m_id-do_close : (s : Session) → (do_close s).m_id ≡ s.m_id
unfolding do_close
m_id-do_close s = ground arith

pub is_open-do_close : (s : Session) → (do_close s).is_open ≡ false
unfolding do_close
is_open-do_close s = ground arith
