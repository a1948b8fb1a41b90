-- ===== src/NrMessage/Text.antt =====
-- The C library's `strncat`, `atoi` and `sprintf("%4d")`, as message.hpp calls them.
use xrnetwork.Base.{
  ℕ, zero, suc, ◌+◌, ◌-◌, ◌*◌, ◌/◌, ◌%◌, ◌^◌, Bool, ◌&&◌, ◌||◌, List, [], ◌∷◌, ◌++◌, length, ltb,
  leb, ◌==◌, if◌then◌else◌,
}
use xrnetwork.Base.Memory.{Memory}

-- The characters that `strncat(header, data + off, n)` appends to an empty text.
unfoldable pub strncat : Memory → ℕ → ℕ → List ℕ
strncat m off zero = []
strncat m off (suc n) = let rest = m off ∷ strncat m (off + 1) n in if m off == 0 then [] else rest

abbrev pub is_space : ℕ → Bool
is_space c = (c == 32) || (leb 9 c && leb c 13)

abbrev pub is_digit : ℕ → Bool
is_digit c = leb 48 c && leb c 57

unfoldable pub digits_value : ℕ → List ℕ → ℕ
digits_value acc [] = acc
digits_value acc (c ∷ s) =
    let rest = digits_value (acc * 10 + (c - 48)) s in if is_digit c then rest else acc

-- After the blanks: a sign, then digits. The value is an `int` converted to `size_t`.
unfoldable pub signed_value : List ℕ → ℕ
unfolding digits_value
signed_value [] = 0
signed_value (c ∷ s) =
    if c == 45
    then (2 ^ 64 - digits_value 0 s) % 2 ^ 64
    else if c == 43
    then digits_value 0 s
    else digits_value 0 (c ∷ s)

unfoldable pub atoi : List ℕ → ℕ
unfolding signed_value
atoi [] = 0
atoi (c ∷ s) = let rest = atoi s in if is_space c then rest else signed_value (c ∷ s)

-- Decimal digits; ten of them hold every `int`.
unfoldable pub decimal : ℕ → ℕ → List ℕ
decimal zero n = []
decimal (suc fuel) n =
    let front = decimal fuel (n / 10) in (if ltb n 10 then [] else front) ++ (48 + n % 10) ∷ []

unfoldable pub pad : ℕ → List ℕ → List ℕ
pad zero s = s
pad (suc n) s = 32 ∷ pad n s

-- `%4d` of a number cast to `int`.
unfoldable pub int_text : ℕ → List ℕ
unfolding decimal pad
int_text n =
    let word = n % 2 ^ 32 in
    let text = if ltb word (2 ^ 31) then decimal 10 word else 45 ∷ decimal 10 (2 ^ 32 - word) in
    pad (4 - length text) text
