-- ===== src/Printing/Terminated.antt =====
-- When a text ends inside its buffer.
use xrnetwork.Base.{
  ◌++◌, Ends, ℕ, zero, suc, ◌+◌, ◌-◌, ◌≤◌, ◌<◌, ◌≡◌, ◌≢◌, refl, ap, ◌∙◌, false, none, some, List,
  [], ◌∷◌, All, get_or, length, sym, ok, fault, out_of_bounds, arith, ◌==◌, Bool-cases, inl, inr,
}
use xrnetwork.Base.Memory.{Memory, Block, zeros, copy, copy_outside, bytes_of}
use xrnetwork.Base.Layout.{Member, array, layout, size_of, array-layout}
use xrnetwork.Printing.{c_string, c_text}

next_byte : (m : Memory) (off k : ℕ) → m (off + suc k) ≡ m (off + 1 + k)
next_byte m off k = ap m (omega arith)

first_byte : (m : Memory) (off : ℕ) → m (off + 0) ≡ m off
first_byte m off = ap m (omega arith)

-- A NUL among the bytes ends the text.
pub c_string-ends :
    (m : Memory) (off n k : ℕ)
    → k < n
    → m (off + k) ≡ 0
    → (t : List ℕ) × (c_string m off n ≡ some t)
unfolding c_string
c_string-ends m off zero k h e = absurd (omega arith)
c_string-ends m off (suc n) zero h e = ([], ground (arith, first_byte m off))
c_string-ends m off (suc n) (suc k) h e = elim (Bool-cases (m off == 0)) [
  | inl stop ↦ ([], rw stop)
  | inr more ↦
      let rest = c_string-ends m (off + 1) n k (omega arith) (ap m (omega arith) ∙ e) in
      (m off ∷ rest.0, rw more (rw rest.1))
]

-- Without one it does not.
pub c_string_runs :
    (m : Memory) (off n : ℕ) → ((k : ℕ) → k < n → m (off + k) ≢ 0) → c_string m off n ≡ none
unfolding c_string
c_string_runs m off zero h = refl
c_string_runs m off (suc n) h = ground (
  arith,
  h 0 (omega arith),
  first_byte m off,
  c_string_runs m (off + 1) n (λ k hk e. h (suc k) (omega arith) (next_byte m off k ∙ e)),
)

-- A text without a NUL of its own is read whole.
pub c_string-reads :
    (m : Memory) (name : List ℕ) (off n : ℕ)
    → All (λ (c : ℕ). c ≢ 0) name
    → ((k : ℕ) → k ≤ length name → m (off + k) ≡ get_or name k 0)
    → length name < n
    → c_string m off n ≡ some name
unfolding c_string
c_string-reads m name off zero solid same h = absurd (omega arith)
c_string-reads m [] off (suc n) solid same h =
    let stop : m off ≡ 0 = sym (first_byte m off) ∙ same 0 (omega arith) in rw stop refl
c_string-reads m (c ∷ name) off (suc n) solid same h =
    let here : m off ≡ c = sym (first_byte m off) ∙ same 0 (omega arith) in
    let goes_on : (c == 0) ≡ false = ground (arith, solid.0) in
    let rest =
      c_string-reads m name (off + 1) n solid.1
        (λ k hk. sym (next_byte m off k) ∙ same (suc k) (omega arith)) (omega arith) in
    rw (here, goes_on, rest) (ap (λ (a : ℕ). some (a ∷ name)) here)

pub get_or-solid :
    (name : List ℕ) (k : ℕ) → All (λ (c : ℕ). c ≢ 0) name → k < length name → get_or name k 0 ≢ 0
get_or-solid [] k solid h = absurd (omega arith)
get_or-solid (c ∷ name) zero solid h = solid.0
get_or-solid (c ∷ name) (suc k) solid h = get_or-solid name k solid.1 (omega arith)

module _ (b : Block) (off : ℕ) where
  pub c_text-ends :
      (k : ℕ) → off + k < b.size → b.at (off + k) ≡ 0 → (t : List ℕ) × (c_text b off ≡ ok t)
  unfolding c_text
  c_text-ends k h e =
      let found = c_string-ends b.at off (b.size - off) k (omega arith) e in
      (found.0, rw (c_text, found.1))

  pub c_text_runs :
      ((k : ℕ) → off + k < b.size → b.at (off + k) ≢ 0) → c_text b off ≡ fault out_of_bounds
  unfolding c_text
  c_text_runs h = rw (c_text, c_string_runs b.at off (b.size - off) (λ k hk. h k (omega arith)))

  pub c_text-reads :
      (name : List ℕ)
      → All (λ (c : ℕ). c ≢ 0) name
      → ((k : ℕ) → k ≤ length name → b.at (off + k) ≡ get_or name k 0)
      → off + length name < b.size
      → c_text b off ≡ ok name
  unfolding c_text
  c_text-reads name solid same h =
      rw (c_text, c_string-reads b.at name off (b.size - off) solid same (omega arith)) refl

-- An array of a struct that a text was copied into has a NUL behind the text.
module _ (front : List Member) (n : ℕ) (name : List ℕ) (fs : List Member) (off : ℕ)
    (e : off ≡ size_of front) (short : length name < n) where
  abbrev pub text_layout : Memory
  text_layout = layout (front ++ array n (copy zeros 0 (bytes_of name) (length name)) ∷ fs)

  pub text_behind : text_layout (off + length name) ≡ 0
  text_behind =
      array-layout front n (copy zeros 0 (bytes_of name) (length name)) fs off (length name) e short
      ∙ copy_outside zeros 0 (bytes_of name) (length name) (length name) (inr (omega arith))

  pub array-Ends : (b : Block) → off + n ≤ b.size → b.at ≡ text_layout → Ends (c_text b off)
  array-Ends b inside same =
      c_text-ends b off (length name) (omega (arith, short, inside))
        (ap (λ (m : Memory). m (off + length name)) same ∙ text_behind)
