-- ===== src/Printing/Dumps.antt =====
-- Numbers, bytes and buffers as they are printed (nr_base.hpp), and what is read back from them.
use mathlib.Core.List.{append_assoc, append-nil}
use xrnetwork.Base.{
  ℕ, ◌+◌, ◌-◌, ◌*◌, ◌/◌, ◌%◌, ◌<◌, ◌≡◌, refl, sym, ap, ap₂, ◌∙◌, true, List, [], ◌∷◌, ◌++◌, length,
  All, ltb, lt→ltb, arith, Bool-cases, inl, inr,
}
use xrnetwork.Printing.{Stream, put_item, put_padded, print, padding, print_buffer, show_bytes}
use xrnetwork.Printing.Digits.{
  digit, digits_one, digits_two, digits, digit_value, digit_value-digit,
}

-- The bytes of a dump, two digits and a blank each.
unfoldable pub read_buffer : List ℕ → List ℕ
read_buffer (high ∷ low ∷ blank ∷ rest) =
    (digit_value high * 16 + digit_value low) ∷ read_buffer rest
read_buffer _ = []

two_digits :
    (b : ℕ)
    → b < 256
    → padding (2 - length (digits 16 20 b)) b'0' ++ digits 16 20 b
      ≡ digit (b / 16) ∷ digit (b % 16) ∷ []
two_digits b h = elim (Bool-cases (ltb b 16)) [
  | inl one ↦ let high : b / 16 ≡ 0 = ground arith in rw (digits_one 16 19 b one, high) refl
  | inr two ↦
      let above : ltb (b / 16) 16 ≡ true = lt→ltb (b / 16) 16 (omega (arith, h)) in
      rw (digits_two 16 18 b two above)
        (ap (λ (x : ℕ). digit x ∷ digit (b % 16) ∷ []) (omega (arith, h)))
]

-- What `print_buffer` prints of bytes is read back as these bytes.
pub read_buffer-print_buffer :
    (bs : List ℕ) → All (λ (b : ℕ). b < 256) bs → read_buffer (print_buffer bs) ≡ bs
unfolding read_buffer print_buffer
read_buffer-print_buffer [] h = refl
read_buffer-print_buffer (b ∷ bs) h = rw (two_digits b h.0) (
    ap₂ (λ (a : ℕ) rest. a ∷ rest)
      (rw
        (digit_value-digit (b / 16) (omega (arith, h.0)), digit_value-digit (b % 16) (omega arith))
        (omega arith))
      (read_buffer-print_buffer bs h.1))

-- A byte behind its filling.
unfoldable pub raw_bytes : List ℕ → List ℕ
raw_bytes [] = []
raw_bytes (b ∷ bs) = b'0' ∷ b ∷ raw_bytes bs

-- A vector of bytes is not printed in hexadecimal, whatever the stream's format: each byte stands
-- there itself, behind a '0'.
pub print-show_bytes :
    (bs : List ℕ) (s : Stream) → (print (show_bytes bs) s).written ≡ s.written ++ raw_bytes bs
unfolding print show_bytes raw_bytes put_item put_padded
print-show_bytes [] s = sym (append-nil s.written)
print-show_bytes (b ∷ bs) s =
    let put = put_padded (b ∷ []) (record s { base = 16; fill = b'0'; width = 2 }) in
    print-show_bytes bs put ∙ append_assoc s.written (b'0' ∷ b ∷ []) (raw_bytes bs)

-- No width, no filling.
pub put_padded_unfilled :
    (t : List ℕ) (s : Stream) → s.width ≡ 0 → (put_padded t s).written ≡ s.written ++ t
unfolding put_padded
put_padded_unfilled t s none_set = let e : s.width - length t ≡ 0 = omega arith in rw e refl
