-- ===== src/Bytes/Swap.antt =====
-- Laws of the byte swaps of nr_base.hpp.
use mathlib.Core.List.{reverse-reverse}
use native.Mathlib.Nat.{pow-suc}
use xrnetwork.Base.{
  ℕ, zero, suc, ◌/◌, ◌^◌, ◌<◌, ◌≡◌, refl, ap, ap₂, ◌∙◌, List, [], ◌∷◌, reverse, arith, All,
  All-reverse, length, length-reverse,
}
use xrnetwork.Bytes.{ByteOrder, little, big, to_bytes, from_bytes, swap_endian, swap_byte_vector}

abbrev IsByte : ℕ → Type 0
IsByte b = b < 256

to_bytes-All : (w v : ℕ) → All IsByte (to_bytes w v)
unfolding to_bytes
to_bytes-All zero v = tt
to_bytes-All (suc w) v = (omega arith, to_bytes-All w (v / 256))

length-to_bytes : (w v : ℕ) → length (to_bytes w v) ≡ w
unfolding to_bytes
length-to_bytes zero v = refl
length-to_bytes (suc w) v = ap suc (length-to_bytes w (v / 256))

from_bytes-to_bytes : (w v : ℕ) → v < 256 ^ w → from_bytes (to_bytes w v) ≡ v
unfolding to_bytes from_bytes
from_bytes-to_bytes zero v h = omega arith
from_bytes-to_bytes (suc w) v h =
    omega (arith, from_bytes-to_bytes w (v / 256) (omega (arith, pow-suc 256 w)))

to_bytes-from_bytes : (bs : List ℕ) → All IsByte bs → to_bytes (length bs) (from_bytes bs) ≡ bs
unfolding to_bytes from_bytes
to_bytes-from_bytes [] h = refl
to_bytes-from_bytes (b ∷ bs) h =
    ap₂ ◌∷◌ (omega (arith, h.0))
      (ap (to_bytes (length bs)) (omega (arith, h.0)) ∙ to_bytes-from_bytes bs h.1)

from_bytes-lt : (bs : List ℕ) → All IsByte bs → from_bytes bs < 256 ^ length bs
unfolding from_bytes
from_bytes-lt [] h = omega arith
from_bytes-lt (b ∷ bs) h = omega (arith, h.0, from_bytes-lt bs h.1, pow-suc 256 (length bs))

-- The machine's byte order does not show in the result.
pub swap_endian-little :
    (order : ByteOrder) (w v : ℕ) → swap_endian order w v ≡ swap_endian little w v
unfolding swap_endian
swap_endian-little little w v = refl
swap_endian-little big w v = rw (reverse-reverse (reverse (to_bytes w v)))

swapped_bytes : (w v : ℕ) → to_bytes w (swap_endian little w v) ≡ reverse (to_bytes w v)
unfolding swap_endian
swapped_bytes w v =
    let bytes = reverse (to_bytes w v) in
    let width : length bytes ≡ w = length-reverse (to_bytes w v) ∙ length-to_bytes w v in
    rw width at (to_bytes-from_bytes bytes (All-reverse IsByte (to_bytes w v) (to_bytes-All w v)))

-- Swapping twice gives the number back, at every width and on machines of either byte order.
pub swap_endian-swap_endian :
    (order : ByteOrder) (w v : ℕ) → v < 256 ^ w → swap_endian order w (swap_endian order w v) ≡ v
swap_endian-swap_endian order w v h =
    swap_endian-little order w (swap_endian order w v)
    ∙ ap (swap_endian little w) (swap_endian-little order w v)
    ∙ unfold swap_endian in
      rw (swapped_bytes w v, reverse-reverse (to_bytes w v)) (from_bytes-to_bytes w v h)

-- The result fits the width, and its bytes in memory are those of the number in reverse, on
-- machines of either byte order.
pub swap_endian_bytes :
    (order : ByteOrder) (w v : ℕ)
    → (swap_endian order w v < 256 ^ w)
      × (to_bytes w (swap_endian order w v) ≡ swap_byte_vector (to_bytes w v))
unfolding swap_byte_vector
swap_endian_bytes order w v = rw (swap_endian-little order w v) (
  unfold swap_endian in
      let bytes = reverse (to_bytes w v) in
      let width : length bytes ≡ w = length-reverse (to_bytes w v) ∙ length-to_bytes w v in
      rw width at (from_bytes-lt bytes (All-reverse IsByte (to_bytes w v) (to_bytes-All w v))),
  swapped_bytes w v,
)
