-- ===== src/Room/Counting.antt =====
-- How many are left after an erasure.
use xrnetwork.Base.{
  ℕ, ◌+◌, ◌<◌, ◌≡◌, refl, none, some, List, [], ◌∷◌, arith, ◌==◌, All, All-mono, length, Bool-cases,
  inl, inr,
}
use xrnetwork.Room.OrderedSet.{insert, erase, find, Ascends}

module _ (key : ℕ → ℕ) where
  pub key_found : (k h : ℕ) (l : List ℕ) → find key k l ≡ some h → key h ≡ k
  unfolding find
  key_found k h [] e = absurd (ground arith)
  key_found k h (g ∷ gs) e = ground (arith, key_found k h gs)

  pub find_below : (k : ℕ) (l : List ℕ) → All (λ x. k < key x) l → find key k l ≡ none
  unfolding find
  find_below k [] a = refl
  find_below k (g ∷ gs) a = ground (arith, a.0, find_below k gs a.1)

  pub length-erase_absent :
      (k : ℕ) (l : List ℕ) → find key k l ≡ none → length (erase key k l) ≡ length l
  unfolding find erase
  length-erase_absent k [] e = refl
  length-erase_absent k (g ∷ gs) e = ground (arith, length-erase_absent k gs)

  pub length-erase_found :
      (k h : ℕ) (l : List ℕ)
      → Ascends key l
      → find key k l ≡ some h
      → length (erase key k l) + 1 ≡ length l
  unfolding find erase
  length-erase_found k h [] a e = absurd (ground arith)
  length-erase_found k h (g ∷ gs) a e = elim (Bool-cases (key g == k)) [
    | inl here ↦
        let same : key g ≡ k = ground arith in
        let gone =
          find_below k gs
            (All-mono (λ x. key g < key x) (λ x. k < key x) (λ x p. omega arith) gs a.0) in
        rw here (omega (arith, length-erase_absent k gs gone))
    | inr there ↦ ground (arith, length-erase_found k h gs a.1)
  ]

module _ (key : ℕ → ℕ) where
  erase_absent : (k : ℕ) (l : List ℕ) → find key k l ≡ none → erase key k l ≡ l
  unfolding find erase
  erase_absent k [] e = refl
  erase_absent k (g ∷ gs) e = ground (arith, erase_absent k gs)

  -- Erasing the key of a new element takes the element out again.
  pub erase-insert :
      (h : ℕ) (l : List ℕ) → find key (key h) l ≡ none → erase key (key h) (insert key h l) ≡ l
  unfolding find erase insert
  erase-insert h [] e = ground arith
  erase-insert h (g ∷ gs) e = ground (arith, erase-insert h gs, erase_absent (key h) gs)
