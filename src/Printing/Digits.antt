-- ===== src/Printing/Digits.antt =====
-- The digits of a number, as a stream and `printf` write them, and that they are enough.
use native.Mathlib.Nat.{pow-suc, pow-zero}
use xrnetwork.Base.{
  ℕ, zero, suc, ◌+◌, ◌-◌, ◌*◌, ◌/◌, ◌%◌, ◌^◌, ◌<◌, ◌≡◌, refl, ap₂, ◌∙◌, true, false, List, [], ◌∷◌,
  ◌++◌, ltb, leb, if◌then◌else◌, arith, Bool-cases, inl, inr,
}

abbrev pub digit : ℕ → ℕ
digit d = if ltb d 10 then b'0' + d else b'a' + (d - 10)

-- The digits of a number to a base, highest first, no more than the fuel.
unfoldable pub digits : ℕ → ℕ → ℕ → List ℕ
digits base zero n = []
digits base (suc fuel) n =
    let front = digits base fuel (n / base) in
    (if ltb n base then [] else front) ++ digit (n % base) ∷ []

abbrev pub digit_value : ℕ → ℕ
digit_value c = if leb c b'9' then c - b'0' else c + 10 - b'a'

-- The number that a text of digits stands for, read from the left.
unfoldable pub value_from : ℕ → ℕ → List ℕ → ℕ
value_from base acc [] = acc
value_from base acc (c ∷ s) = value_from base (acc * base + digit_value c) s

pub value_from-append :
    (base acc : ℕ) (s t : List ℕ)
    → value_from base acc (s ++ t) ≡ value_from base (value_from base acc s) t
unfolding value_from
value_from-append base acc [] t = refl
value_from-append base acc (c ∷ s) t = value_from-append base (acc * base + digit_value c) s t

pub digit_value-digit : (d : ℕ) → d < 16 → digit_value (digit d) ≡ d
digit_value-digit d h = ground arith

-- Below the base there is one digit, and below its square there are at most two.
pub digits_one :
    (base fuel n : ℕ) → ltb n base ≡ true → digits base (suc fuel) n ≡ digit (n % base) ∷ []
unfolding digits
digits_one base fuel n h = rw h refl

pub digits_two :
    (base fuel n : ℕ)
    → ltb n base ≡ false
    → ltb (n / base) base ≡ true
    → digits base (suc (suc fuel)) n ≡ digit (n / base % base) ∷ digit (n % base) ∷ []
unfolding digits
digits_two base fuel n more two = rw (more, two) refl

-- One digit more stands at the end.
value_from-snoc :
    (base n q : ℕ) (s : List ℕ)
    → n % base < 16
    → value_from base 0 s ≡ q
    → value_from base 0 (s ++ digit (n % base) ∷ []) ≡ q * base + n % base
unfolding value_from
value_from-snoc base n q s h e =
    value_from-append base 0 s (digit (n % base) ∷ [])
    ∙ ap₂ (λ a b. a * base + b) e (digit_value-digit (n % base) h)

module _ (base : ℕ) (mod_small : (n : ℕ) → n % base < 16)
    (split_up : (n : ℕ) → n / base * base + n % base ≡ n)
    (quotient_below : (p n : ℕ) → n < p * base → n / base < p) where
  value-digits : (fuel n : ℕ) → n < base ^ fuel → value_from base 0 (digits base fuel n) ≡ n
  unfolding digits value_from
  value-digits zero n h = omega (arith, pow-zero base)
  value-digits (suc fuel) n h = elim (Bool-cases (ltb n base)) [
    | inl one ↦
        let small : n < base = ground arith in
        let below : n / base < 1 = quotient_below 1 n (omega arith) in
        let q : n / base ≡ 0 = omega arith in
        rw one (value_from-snoc base n (n / base) [] (mod_small n) (rw q refl) ∙ split_up n)
    | inr more ↦ rw more (
        value_from-snoc base n (n / base) (digits base fuel (n / base)) (mod_small n) (
          value-digits fuel (n / base)
            (quotient_below (base ^ fuel) n (rw (pow-suc base fuel) at h)))
        ∙ split_up n)
  ]

-- As many digits as the fuel are enough below the power of the base, and they are read back.
pub value-hex : (fuel n : ℕ) → n < 16 ^ fuel → value_from 16 0 (digits 16 fuel n) ≡ n
value-hex = value-digits 16 (λ n. omega arith) (λ n. omega arith) (λ p n h. omega arith)

pub value-dec : (fuel n : ℕ) → n < 10 ^ fuel → value_from 10 0 (digits 10 fuel n) ≡ n
value-dec = value-digits 10 (λ n. omega arith) (λ n. omega arith) (λ p n h. omega arith)
