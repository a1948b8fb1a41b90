-- ===== src/Room/Refinement.antt =====
-- That the room keeps its promises: what its operations do to it, they do to its directory.
use xrnetwork.Base.{◌≤◌, ap, ℕ, ◌≡◌, sym, ◌∙◌, ok, ok-injective, Option-cases, inl, inr, arith}
use xrnetwork.Room.State.{Env, Room, id_of, get_participant_ptr}
use xrnetwork.Room.Members.{join, leave, disconnect_participant, signal_participant_leave}
use xrnetwork.Room.Invariant.{IsOutside}
use xrnetwork.Room.Leaving.{remove_and_tell-without}
use xrnetwork.Room.Directory.{directory, Change, Changes, none_yet, and_then}
use xrnetwork.Room.Keeping.{
  IsKept, IsDistinct, join-Change, join-IsKept, join-drawn_le, gone-Change,
}

-- What happens to the members of a room. A session joins once, from outside.
pub data Move (env : Env) : Room → Room → Type 0 where
  joins : {r r' : Room} (h : ℕ) → IsOutside h r → join env h r ≡ ok r' → Move env r r'
  goes : {r r' : Room} (h : ℕ) → leave h r ≡ ok r' → Move env r r'
  is_disconnected : {r r' : Room} (id : ℕ) → disconnect_participant id r ≡ ok r' → Move env r r'

pub data Moves (env : Env) : Room → Room → Type 0 where
  stays : {r : Room} → Moves env r r
  moves_on : {r r' r'' : Room} → Moves env r r' → Move env r' r'' → Moves env r r''

leave-Change :
    (env : Env) (h : ℕ) (r r' : Room)
    → IsKept env r
    → leave h r ≡ ok r'
    → Change (directory r) (directory r') × IsKept env r'
unfolding leave signal_participant_leave get_participant_ptr
leave-Change env h r r' kept e =
    gone-Change env (id_of r h) (signal_participant_leave (id_of r h) r) r'
      (record {
        valid = record { ordered = kept.valid.ordered; bounded = kept.valid.bounded };
        drawn_before = kept.drawn_before;
      })
      (ok-injective _ _
        (sym (remove_and_tell-without (id_of r h) (signal_participant_leave (id_of r h) r)) ∙ e))

pub leave-drawn : (h : ℕ) (r r' : Room) → leave h r ≡ ok r' → r'.drawn ≡ r.drawn
unfolding leave signal_participant_leave
leave-drawn h r r' e =
    let after = signal_participant_leave (id_of r h) r in
    ap (λ (x : Room). x.drawn)
      (sym (ok-injective _ r' (sym (remove_and_tell-without (id_of r h) after) ∙ e)))

disconnect_participant-drawn :
    (id : ℕ) (r r' : Room) → disconnect_participant id r ≡ ok r' → r'.drawn ≡ r.drawn
unfolding disconnect_participant
disconnect_participant-drawn id r r' e = elim (Option-cases (get_participant_ptr r id)) [
  | inl nobody ↦ absurd (ground (arith, nobody, e))
  | inr (h, found) ↦
      ap (λ (x : Room). x.drawn)
        (sym (ok-injective _ r' (sym (remove_and_tell-without (id_of r h) r) ∙ (rw found at e))))
]

disconnect_participant-Change :
    (env : Env) (id : ℕ) (r r' : Room)
    → IsKept env r
    → disconnect_participant id r ≡ ok r'
    → Change (directory r) (directory r') × IsKept env r'
unfolding disconnect_participant
disconnect_participant-Change env id r r' kept e = elim (Option-cases (get_participant_ptr r id)) [
  | inl nobody ↦ absurd (ground (arith, nobody, e))
  | inr (h, found) ↦
      gone-Change env (id_of r h) r r' kept
        (ok-injective _ _ (sym (remove_and_tell-without (id_of r h) r) ∙ (rw found at e)))
]

-- A move of the members: no output is drawn back, and where the outputs drawn differ, it is one of
-- the changes that a directory allows.
Move-Change :
    (env : Env) (r r' : Room)
    → IsKept env r
    → Move env r r'
    → (r.drawn ≤ r'.drawn)
      × IsKept env r'
      × (IsDistinct env r'.drawn → Change (directory r) (directory r'))
Move-Change env r r' kept (joins h outside e) = (
  join-drawn_le env h r kept outside r' e,
  join-IsKept env h r kept outside r' e,
  λ distinct. join-Change env h r kept outside r' distinct e,
)
Move-Change env r r' kept (goes h e) =
    let gone = leave-Change env h r r' kept e in
    (omega (arith, leave-drawn h r r' e), gone.1, λ distinct. gone.0)
Move-Change env r r' kept (is_disconnected id e) =
    let gone = disconnect_participant-Change env id r r' kept e in
    (omega (arith, disconnect_participant-drawn id r r' e), gone.1, λ distinct. gone.0)

moved :
    (env : Env) (r r' : Room)
    → IsKept env r
    → Moves env r r'
    → IsKept env r' × (IsDistinct env r'.drawn → Changes (directory r) (directory r'))
moved env r r' kept stays = (kept, λ distinct. none_yet)
moved env r r' kept (moves_on {r' = mid} before last) =
    let first = moved env r mid kept before in
    let next = Move-Change env mid r' first.0 last in
    (
      next.1,
      λ distinct.
          and_then (first.1 (λ i j less below. distinct i j less (omega (arith, below, next.0))))
            (next.2 distinct),
    )

-- Whatever sequence of joins, leaves and disconnections a room goes through that is kept to begin
-- with, its directory goes through a sequence of the changes that a directory allows, where the
-- outputs that the engine has given by then differ from each other: sessions enter only free
-- places, under identifiers that nobody has; and the room is kept at the end.
pub Moves-refine :
    (env : Env) (r r' : Room)
    → IsDistinct env r'.drawn
    → IsKept env r
    → Moves env r r'
    → Changes (directory r) (directory r') × IsKept env r'
Moves-refine env r r' distinct kept moves =
    let all = moved env r r' kept moves in (all.1 distinct, all.0)
