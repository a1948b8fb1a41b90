-- ===== src/Bytes.antt =====
-- nr_base.hpp: the byte order of the machine and the swaps of byte order. An object of `w` bytes
-- is the list of its bytes in memory, which depends on the machine's order.
pub mod Swap
use xrnetwork.Base.{ℕ, zero, suc, ◌+◌, ◌*◌, ◌/◌, ◌%◌, Bool, List, [], ◌∷◌, reverse, get_or, ◌==◌}

pub data ByteOrder : Type 0 where
  little big : ByteOrder

-- The bytes of a number, the lowest first, and the number that they stand for.
pub to_bytes : ℕ → ℕ → List ℕ
to_bytes zero v = []
to_bytes (suc w) v = (v % 256) ∷ to_bytes w (v / 256)

pub from_bytes : List ℕ → ℕ
from_bytes [] = 0
from_bytes (b ∷ bs) = b + 256 * from_bytes bs

-- The member `raw` of the union in `swap_endian`, read after a write of `val`, and the reverse.
abbrev pub object_bytes : ByteOrder → ℕ → ℕ → List ℕ
object_bytes little w v = to_bytes w v
object_bytes big w v = reverse (to_bytes w v)

abbrev pub object_value : ByteOrder → List ℕ → ℕ
object_value little bs = from_bytes bs
object_value big bs = from_bytes (reverse bs)

-- `swap_endian<T>`, with `w` for `sizeof(T)`.
unfoldable pub swap_endian : ByteOrder → ℕ → ℕ → ℕ
unfolding to_bytes from_bytes
swap_endian order w v = object_value order (reverse (object_bytes order w v))

-- The first byte of an `int` that holds 1.
pub is_system_little_endian : ByteOrder → Bool
unfolding to_bytes
is_system_little_endian order = get_or (object_bytes order 4 0x01) 0 0 == 0x01

pub swap_byte_vector : List ℕ → List ℕ
swap_byte_vector origin = reverse origin
