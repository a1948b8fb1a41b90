-- ===== src/Room/OrderedSet.antt =====
-- The `std::set` of participants, ordered by identifier: the handles in ascending order of their
-- key. Lookup and erasure go by key, as the comparisons of participant.hpp make them.
use xrnetwork.Base.{
  ℕ, ◌+◌, ◌≤◌, ◌<◌, ◌≡◌, refl, Option, none, some, List, [], ◌∷◌, arith, ltb, ◌==◌, if◌then◌else◌,
  All, length, ◌⊎◌,
}

module _ (key : ℕ → ℕ) where
  -- `insert`: an element with an equal key keeps the new one out.
  unfoldable pub insert : ℕ → List ℕ → List ℕ
  insert h [] = h ∷ []
  insert h (g ∷ gs) =
      if ltb (key h) (key g)
      then h ∷ g ∷ gs
      else if ltb (key g) (key h)
      then g ∷ insert h gs
      else g ∷ gs

  unfoldable pub erase : ℕ → List ℕ → List ℕ
  erase k [] = []
  erase k (g ∷ gs) = let rest = erase k gs in if key g == k then rest else g ∷ rest

  unfoldable pub find : ℕ → List ℕ → Option ℕ
  find k [] = none
  find k (g ∷ gs) = let rest = find k gs in if key g == k then some g else rest

  -- The keys ascend strictly.
  abbrev pub Ascends : List ℕ → Type 0
  Ascends [] = Unit {0}
  Ascends (g ∷ gs) = All (λ x. key g < key x) gs × Ascends gs

module _ (key : ℕ → ℕ) where
  pub insert-All {ℓ} :
      (P : ℕ → Type ℓ) (h : ℕ) (l : List ℕ) → P h → All P l → All P (insert key h l)
  unfolding insert
  insert-All P h [] p a = (p, tt)
  insert-All P h (g ∷ gs) p a = ground (arith, insert-All P h gs p a.1)

  pub erase-All {ℓ} : (P : ℕ → Type ℓ) (k : ℕ) (l : List ℕ) → All P l → All P (erase key k l)
  unfolding erase
  erase-All P k [] a = tt
  erase-All P k (g ∷ gs) a = ground (arith, erase-All P k gs a.1)

  above : (n m : ℕ) (l : List ℕ) → n < m → All (λ x. m < key x) l → All (λ x. n < key x) l
  above n m [] h a = tt
  above n m (g ∷ gs) h a = (omega (arith, a.0), above n m gs h a.1)

  pub insert-Ascends : (h : ℕ) (l : List ℕ) → Ascends key l → Ascends key (insert key h l)
  unfolding insert
  insert-Ascends h [] a = (tt, tt)
  insert-Ascends h (g ∷ gs) a = ground (
    arith,
    insert-Ascends h gs a.1,
    λ (p : key g < key h). insert-All (λ x. key g < key x) h gs p a.0,
    λ (p : key h < key g). above (key h) (key g) gs p a.0,
  )

  pub erase-Ascends : (k : ℕ) (l : List ℕ) → Ascends key l → Ascends key (erase key k l)
  unfolding erase
  erase-Ascends k [] a = tt
  erase-Ascends k (g ∷ gs) a =
      ground (arith, erase-Ascends k gs a.1, erase-All (λ x. key g < key x) k gs a.0)

  pub find-insert :
      (k h : ℕ) (l : List ℕ)
      → find key (key h) l ≡ none
      → find key k (insert key h l) ≡ (if key h == k then some h else find key k l)
  unfolding insert find
  find-insert k h [] e = refl
  find-insert k h (g ∷ gs) e = ground (arith, find-insert k h gs)

  pub found-insert :
      (k h x : ℕ) (l : List ℕ)
      → find key k (insert key h l) ≡ some x
      → (k ≡ key h) ⊎ (find key k l ≡ some x)
  unfolding insert find
  found-insert k h x [] e = ground arith
  found-insert k h x (g ∷ gs) e = ground (arith, found-insert k h x gs)

  pub find-erase :
      (k k' : ℕ) (l : List ℕ)
      → find key k (erase key k' l) ≡ (if k' == k then none else find key k l)
  unfolding erase find
  find-erase k k' [] = ground arith
  find-erase k k' (g ∷ gs) = ground (arith, find-erase k k' gs)

  pub length-insert :
      (h : ℕ) (l : List ℕ) → find key (key h) l ≡ none → length (insert key h l) ≡ length l + 1
  unfolding insert find
  length-insert h [] e = omega arith
  length-insert h (g ∷ gs) e = ground (arith, length-insert h gs)

  pub length-insert-le : (h : ℕ) (l : List ℕ) → length (insert key h l) ≤ length l + 1
  unfolding insert
  length-insert-le h [] = omega arith
  length-insert-le h (g ∷ gs) = ground (arith, length-insert-le h gs)

  pub length-erase-le : (k : ℕ) (l : List ℕ) → length (erase key k l) ≤ length l
  unfolding erase
  length-erase-le k [] = omega arith
  length-erase-le k (g ∷ gs) = ground (arith, length-erase-le k gs)

-- Two key functions that agree on a list.
module _ (key key' : ℕ → ℕ) where
  pub find_agree : (k : ℕ) (l : List ℕ) → All (λ g. key g ≡ key' g) l → find key k l ≡ find key' k l
  unfolding find
  find_agree k [] a = refl
  find_agree k (g ∷ gs) a = ground (arith, find_agree k gs a.1)

  All-agree :
      (n n' : ℕ) (l : List ℕ)
      → n ≡ n'
      → All (λ g. key g ≡ key' g) l
      → All (λ x. n < key x) l
      → All (λ x. n' < key' x) l
  All-agree n n' [] e a b = tt
  All-agree n n' (g ∷ gs) e a b = (omega (arith, a.0, b.0), All-agree n n' gs e a.1 b.1)

  pub Ascends-agree : (l : List ℕ) → All (λ g. key g ≡ key' g) l → Ascends key l → Ascends key' l
  Ascends-agree [] a b = tt
  Ascends-agree (g ∷ gs) a b = (All-agree (key g) (key' g) gs a.0 a.1 b.0, Ascends-agree gs a.1 b.1)
