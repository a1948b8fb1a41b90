-- ===== src/XrMessage/Swapping.antt =====
-- XRMessage.hpp: `swap_xr_message_header`, which swaps the two words of a header as 64-bit numbers
-- and stores the results in members of 16 and 32 bits.
use xrnetwork.Base.{ℕ, ◌^◌, ◌<◌, ◌≡◌, refl, arith, ap, ◌∙◌}
use xrnetwork.Base.Words.{u16, u32}
use xrnetwork.Bytes.{ByteOrder, little, swap_endian}
use xrnetwork.Bytes.Swap.{swap_endian-little}
use xrnetwork.XrMessage.{Header}
use xrnetwork.XrMessage.RoundTrip.{FitsHeader}

unfoldable pub swap_header : ByteOrder → Header → Header
swap_header order h = record h {
  head = u16 (swap_endian order 8 h.head);
  buffersize = u32 (swap_endian order 8 h.buffersize);
}

swapped_small : (v : ℕ) → v < 2 ^ 32 → u32 (swap_endian little 8 v) ≡ 0
unfolding swap_endian
swapped_small v h = omega arith

swapped_smaller : (v : ℕ) → v < 2 ^ 16 → u16 (swap_endian little 8 v) ≡ 0
unfolding swap_endian
swapped_smaller v h = omega arith

-- Every header, on machines of either byte order, comes out with head 0 and size 0: the bytes that
-- carry the values end up above the members' widths and are cut off. The flag is kept.
pub swap_header_erases :
    (order : ByteOrder) (h : Header)
    → FitsHeader h
    → ((swap_header order h).head ≡ 0)
      × ((swap_header order h).buffersize ≡ 0)
      × ((swap_header order h).payload_is_big_endian ≡ h.payload_is_big_endian)
unfolding swap_header
swap_header_erases order h fits = (
  ap u16 (swap_endian-little order 8 h.head) ∙ swapped_smaller h.head fits.head_fits,
  ap u32 (swap_endian-little order 8 h.buffersize)
      ∙ swapped_small h.buffersize fits.buffersize_fits,
  refl,
)
