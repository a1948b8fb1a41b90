-- ===== src/NrMessage/Reading.antt =====
-- What `sprintf("%4d")` writes, `atoi` reads.
use native.Mathlib.Nat.{pow-suc, pow-zero}
use xrnetwork.Base.{
  ℕ, zero, suc, ◌+◌, ◌-◌, ◌*◌, ◌/◌, ◌%◌, ◌^◌, ◌<◌, ◌≡◌, refl, ap, ◌∙◌, true, List, [], ◌∷◌, ◌++◌,
  length, All, All-append, ltb, lt→ltb, Bool-cases, inl, inr, arith,
}
use xrnetwork.NrMessage.Text.{is_digit, digits_value, signed_value, atoi, decimal, pad, int_text}

abbrev IsDigits : List ℕ → Type 0
IsDigits = All (λ c. is_digit c ≡ true)

digits_value-append :
    (s t : List ℕ) (acc : ℕ)
    → IsDigits s
    → digits_value acc (s ++ t) ≡ digits_value (digits_value acc s) t
unfolding digits_value
digits_value-append [] t acc h = refl
digits_value-append (c ∷ s) t acc h = rw (h.0) (digits_value-append s t (acc * 10 + (c - 48)) h.1)

digit_IsDigits : (n : ℕ) → IsDigits ((48 + n % 10) ∷ [])
digit_IsDigits n = (ground arith, tt)

decimal-IsDigits : (fuel n : ℕ) → IsDigits (decimal fuel n)
unfolding decimal
decimal-IsDigits zero n = tt
decimal-IsDigits (suc fuel) n = elim (Bool-cases (ltb n 10)) [
  | inl one ↦ rw one (digit_IsDigits n)
  | inr more ↦ rw more (
      All-append (λ c. is_digit c ≡ true) (decimal fuel (n / 10)) ((48 + n % 10) ∷ [])
        (decimal-IsDigits fuel (n / 10)) (digit_IsDigits n))
]

last_digit : (n acc : ℕ) → digits_value acc ((48 + n % 10) ∷ []) ≡ acc * 10 + n % 10
unfolding digits_value
last_digit n acc = ground (arith, (digit_IsDigits n).0)

digits_value-decimal : (fuel n : ℕ) → n < 10 ^ fuel → digits_value 0 (decimal fuel n) ≡ n
unfolding decimal digits_value
digits_value-decimal zero n h = omega (arith, pow-zero 10)
digits_value-decimal (suc fuel) n h = elim (Bool-cases (ltb n 10)) [
  | inl one ↦ rw one (last_digit n 0 ∙ ground arith)
  | inr more ↦ rw more (
      digits_value-append (decimal fuel (n / 10)) ((48 + n % 10) ∷ []) 0
        (decimal-IsDigits fuel (n / 10))
      ∙ last_digit n (digits_value 0 (decimal fuel (n / 10)))
      ∙ ap (λ (q : ℕ). q * 10 + n % 10)
          (digits_value-decimal fuel (n / 10) (omega (arith, pow-suc 10 fuel)))
      ∙ omega arith)
]

-- A text that begins with a digit is the number of its digits, blanks before it or not.
atoi_digits : (s : List ℕ) → IsDigits s → atoi s ≡ digits_value 0 s
unfolding atoi signed_value digits_value
atoi_digits [] h = refl
atoi_digits (c ∷ s) h = ground (arith, h.0)

atoi-pad : (n : ℕ) (s : List ℕ) → atoi (pad n s) ≡ atoi s
unfolding atoi pad
atoi-pad zero s = refl
atoi-pad (suc n) s = atoi-pad n s

int_text-form : (n : ℕ) → n < 2 ^ 31 → int_text n ≡ pad (4 - length (decimal 10 n)) (decimal 10 n)
unfolding int_text
int_text-form n h =
    let whole : n % 2 ^ 32 ≡ n = omega (arith, h) in
    let positive : ltb n (2 ^ 31) ≡ true = lt→ltb n (2 ^ 31) h in rw (whole, positive) refl

-- Every body length that an `int` holds is read back from the text that is written for it, in which
-- ten digits are enough.
atoi-int_text : (n : ℕ) → n < 2 ^ 31 → atoi (int_text n) ≡ n
atoi-int_text n h =
    ap atoi (int_text-form n h)
    ∙ atoi-pad (4 - length (decimal 10 n)) (decimal 10 n)
    ∙ atoi_digits (decimal 10 n) (decimal-IsDigits 10 n)
    ∙ digits_value-decimal 10 n (omega (arith, h))
