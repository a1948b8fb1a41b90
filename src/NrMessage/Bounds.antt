-- ===== src/NrMessage/Bounds.antt =====
-- What the header of a legacy message can say, and what becomes of it.
use xrnetwork.Base.{
  ℕ, zero, suc, ◌+◌, ◌*◌, ◌≤◌, ◌<◌, ◌≡◌, ◌⊎◌, true, false, arith, List, [], ◌∷◌, length, fault,
  out_of_bounds,
}
use xrnetwork.Base.Memory.{Memory}
use xrnetwork.NrMessage.Text.{strncat, digits_value, signed_value, atoi, pad, int_text}
use xrnetwork.NrMessage.{
  NrMessage, capacity, max_body_length, message_length, set_body_length, decode_header,
  encode_header,
}

length-pad : (n : ℕ) (s : List ℕ) → length (pad n s) ≡ n + length s
unfolding pad
length-pad zero s = omega arith
length-pad (suc n) s = omega (arith, length-pad n s)

four-le-int_text : (n : ℕ) → 4 ≤ length (int_text n)
unfolding int_text
four-le-int_text n = omega (arith, length-pad)

-- The text of `%4d` never fits the three bytes of `header`: every call of `encode_header` writes
-- past the end of that array, whatever the message.
pub encode_header_overflows : (m : NrMessage) → encode_header m ≡ fault out_of_bounds
unfolding encode_header
encode_header_overflows m = ground (arith, four-le-int_text m.body_length_)

digits_value-two : (a b : ℕ) → digits_value 0 (a ∷ b ∷ []) ≤ 99
unfolding digits_value
digits_value-two a b = ground arith

digits_value-one : (a : ℕ) → digits_value 0 (a ∷ []) ≤ 9
unfolding digits_value
digits_value-one a = ground arith

-- A small number, or the `size_t` of a small negative one.
abbrev IsShort : ℕ → Type 0
IsShort r = (r ≤ 99) ⊎ (max_body_length < r)

signed_value-IsShort : (a b : ℕ) → IsShort (signed_value (a ∷ b ∷ []))
unfolding signed_value
signed_value-IsShort a b = ground (arith, digits_value-two a b, digits_value-one b)

signed_value-IsShort_one : (a : ℕ) → IsShort (signed_value (a ∷ []))
unfolding signed_value
signed_value-IsShort_one a = ground (arith, digits_value-one a)

atoi-IsShort : (m : Memory) (off : ℕ) → IsShort (atoi (strncat m off 2))
unfolding atoi strncat
atoi-IsShort m off = ground (
  arith,
  signed_value-IsShort (m off) (m (off + 1)),
  signed_value-IsShort_one (m off),
  signed_value-IsShort_one (m (off + 1)),
)

-- Whatever bytes stand in the message, after `decode_header` the body length is at most 99, hence
-- in range; a refusal leaves the length 0; and the bytes and the owner are as they were.
pub decode_header_bounds :
    (m : NrMessage)
    → let (m', accepted) = decode_header m in
      (m'.body_length_ ≤ 99)
      × (accepted ≡ false → m'.body_length_ ≡ 0)
      × (m'.data_ ≡ m.data_)
      × (m'.participant_id ≡ m.participant_id)
unfolding decode_header
decode_header_bounds m = ground (arith, atoi-IsShort m.data_ 0)

-- Two decimal digits are read as the body length.
pub decode_header_digits :
    (m : NrMessage) (a b : ℕ)
    → a ≤ 9
    → b ≤ 9
    → m.data_ 0 ≡ 48 + a
    → m.data_ 1 ≡ 48 + b
    → decode_header m ≡ (record m { body_length_ = a * 10 + b }, true)
unfolding decode_header atoi strncat
decode_header_digits m a b ha hb ea eb = ground arith

-- The setter keeps a length that fits and cuts any other to the largest, so that header and body
-- stay within the array `data_`.
pub set_body_length_bounds :
    (m : NrMessage) (n : ℕ)
    → (message_length (set_body_length m n) ≤ capacity)
      × (n ≤ max_body_length → (set_body_length m n).body_length_ ≡ n)
      × (max_body_length < n → (set_body_length m n).body_length_ ≡ max_body_length)
unfolding message_length set_body_length
set_body_length_bounds m n = ground arith
