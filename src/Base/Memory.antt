-- ===== src/Base/Memory.antt =====
-- C memory: a block of bytes by offset, with the copies and little-endian words that the code
-- reads and writes through pointers. Bounds are checked by the callers, which know the block.
use native.Mathlib.Nat.{pow-suc}
use Prim.Native.Nat.{ℕ, zero, suc, ◌+◌, ◌-◌, ◌*◌, ◌/◌, ◌%◌, ◌^◌, ◌≤◌, ◌<◌}
use mathlib.Core.Path.{◌≡◌, refl, sym, fun_ext, ap, ap₂, ◌∙◌}
use mathlib.Core.Bool.{Bool, ◌&&◌}
use mathlib.Core.List.{List, [], ◌∷◌}
use mathlib.Core.Logic.{◌⊎◌, inl, inr}
use native.Mathlib.Omega.{arith}
use xrnetwork.Base.Tests.{leb, ltb, ◌==◌, if◌then◌else◌, le→leb, lt→ltb, Bool-cases}
use xrnetwork.Base.Lists.{get_or, length}

abbrev pub Memory : Type 0
Memory = ℕ → ℕ

-- `memset` to 0.
abbrev pub zeros : Memory
zeros i = 0

-- `memcpy(dst + off, src, n)`.
unfoldable pub copy : Memory → ℕ → Memory → ℕ → Memory
copy dst off src n i = if leb off i && ltb i (off + n) then src (i - off) else dst i

-- The bytes of a text or vector, zero behind it.
abbrev pub bytes_of : List ℕ → Memory
bytes_of xs i = get_or xs i 0

-- The bytes at `off .. off + n`, as `std::copy` into a vector takes them.
unfoldable pub slice : Memory → ℕ → ℕ → List ℕ
slice m off zero = []
slice m off (suc n) = m off ∷ slice m (off + 1) n

-- Byte `k` of a number, the lowest first.
unfoldable pub le_byte : ℕ → ℕ → ℕ
le_byte v zero = v % 256
le_byte v (suc k) = le_byte (v / 256) k

-- The number in `w` bytes at `off`, the lowest first.
unfoldable pub get_le : ℕ → Memory → ℕ → ℕ
get_le zero m off = 0
get_le (suc w) m off = m off + 256 * get_le w m (off + 1)

-- `strcmp(p, s) == 0` for the text `s` of a literal: it reads up to the first difference.
unfoldable pub strcmp_eq : Memory → ℕ → List ℕ → Bool
strcmp_eq m off [] = m off == 0
strcmp_eq m off (c ∷ s) = (m off == c) && strcmp_eq m (off + 1) s

pub copy_inside :
    (dst : Memory) (off : ℕ) (src : Memory) (n k : ℕ) → k < n → copy dst off src n (off + k) ≡ src k
unfolding copy
copy_inside dst off src n k h =
    rw (le→leb off (off + k) (omega arith), lt→ltb (off + k) (off + n) (omega arith))
      (ap src (omega arith))

pub copy_outside :
    (dst : Memory) (off : ℕ) (src : Memory) (n i : ℕ)
    → (i < off) ⊎ (off + n ≤ i)
    → copy dst off src n i ≡ dst i
unfolding copy
copy_outside dst off src n i h = ground arith

-- Copying a block over zeros gives the block, where it is zero behind the copy.
pub copy_whole : (m : Memory) (n : ℕ) → ((k : ℕ) → n ≤ k → m k ≡ 0) → copy zeros 0 m n ≡ m
unfolding copy
copy_whole m n h = fun_ext λ k. elim (Bool-cases (ltb k n)) [
  | inl inside ↦
      let e : 0 + k ≡ k = omega arith in rw e at (copy_inside zeros 0 m n k (ground arith))
  | inr outside ↦ copy_outside zeros 0 m n k (inr (ground arith)) ∙ sym (h k (ground arith))
]

at_zero : (m m' : Memory) (a b : ℕ) → m (a + 0) ≡ m' (b + 0) → m a ≡ m' b
at_zero m m' a b h =
    let ea : a + 0 ≡ a = omega arith in let eb : b + 0 ≡ b = omega arith in rw (ea, eb) at h

at_suc :
    (m m' : Memory) (a b k : ℕ) → m (a + suc k) ≡ m' (b + suc k) → m (a + 1 + k) ≡ m' (b + 1 + k)
at_suc m m' a b k h =
    let ea : a + 1 + k ≡ a + suc k = omega arith in
    let eb : b + 1 + k ≡ b + suc k = omega arith in rw (ea, eb) h

pub get_le_ext :
    (w : ℕ) (m m' : Memory) (a b : ℕ)
    → ((k : ℕ) → k < w → m (a + k) ≡ m' (b + k))
    → get_le w m a ≡ get_le w m' b
unfolding get_le
get_le_ext zero m m' a b h = refl
get_le_ext (suc w) m m' a b h =
    ap₂ (λ x y. x + 256 * y) (at_zero m m' a b (h 0 (omega arith)))
      (get_le_ext w m m' (a + 1) (b + 1) λ k hk. at_suc m m' a b k (h (suc k) (omega arith)))

-- A word written byte by byte is read back.
pub get_le_of_bytes :
    (w v : ℕ) (m : Memory) (off : ℕ)
    → ((k : ℕ) → k < w → m (off + k) ≡ le_byte v k)
    → v < 256 ^ w
    → get_le w m off ≡ v
unfolding get_le le_byte
get_le_of_bytes zero v m off h b = omega arith
get_le_of_bytes (suc w) v m off h b =
    ap₂ (λ x y. x + 256 * y) here
      (get_le_of_bytes w (v / 256) m (off + 1) (λ k hk. shift_suc k (h (suc k) (omega arith)))
        (omega (arith, pow-suc 256 w)))
    ∙ omega arith
  where
    here : m off ≡ v % 256
    here = let e : off + 0 ≡ off = omega arith in rw e at (h 0 (omega arith))

    shift_suc :
        (k : ℕ) → m (off + suc k) ≡ le_byte (v / 256) k → m (off + 1 + k) ≡ le_byte (v / 256) k
    shift_suc k h = let e : off + 1 + k ≡ off + suc k = omega arith in rw e h

-- A word that lies inside what was copied, and one that lies outside it.
pub get_le-copy_inside :
    (w : ℕ) (dst : Memory) (off : ℕ) (src : Memory) (n k : ℕ)
    → k + w ≤ n
    → get_le w (copy dst off src n) (off + k) ≡ get_le w src k
get_le-copy_inside w dst off src n k h = get_le_ext w (copy dst off src n) src (off + k) k λ j hj.
    let e : off + k + j ≡ off + (k + j) = omega arith in
    rw e (copy_inside dst off src n (k + j) (omega arith))

pub get_le-copy_outside :
    (w : ℕ) (dst : Memory) (off : ℕ) (src : Memory) (n a : ℕ)
    → (a + w ≤ off) ⊎ (off + n ≤ a)
    → get_le w (copy dst off src n) a ≡ get_le w dst a
get_le-copy_outside w dst off src n a h =
    get_le_ext w (copy dst off src n) dst a a
      λ j hj. copy_outside dst off src n (a + j) (omega arith)

-- A word that was stored byte by byte is loaded again.
pub get_le-copy-le_byte :
    (w v : ℕ) (dst : Memory) (off : ℕ) → v < 256 ^ w → get_le w (copy dst off (le_byte v) w) off ≡ v
get_le-copy-le_byte w v dst off h =
    get_le_of_bytes w v (copy dst off (le_byte v) w) off
      (λ k hk. copy_inside dst off (le_byte v) w k hk) h

-- A comparison reads no further than the NUL of the literal.
strcmp_eq_ext :
    (m m' : Memory) (s : List ℕ) (a b : ℕ)
    → ((k : ℕ) → k < length s + 1 → m (a + k) ≡ m' (b + k))
    → strcmp_eq m a s ≡ strcmp_eq m' b s
unfolding strcmp_eq
strcmp_eq_ext m m' [] a b h = ap (λ (x : ℕ). x == 0) (at_zero m m' a b (h 0 (omega arith)))
strcmp_eq_ext m m' (c ∷ s) a b h =
    ap₂ (λ (x : ℕ) y. (x == c) && y) (at_zero m m' a b (h 0 (omega arith)))
      (strcmp_eq_ext m m' s (a + 1) (b + 1) λ k hk. at_suc m m' a b k (h (suc k) (omega arith)))

pub strcmp_eq_agree :
    (m m' : Memory) (s : List ℕ)
    → ((k : ℕ) → k < length s + 1 → m k ≡ m' k)
    → strcmp_eq m 0 s ≡ strcmp_eq m' 0 s
strcmp_eq_agree m m' s h =
    strcmp_eq_ext m m' s 0 0 λ k hk. let e : 0 + k ≡ k = omega arith in rw e (h k hk)

-- A block of memory whose extent is known: an object, an array or a vector of bytes.
pub record Block : Type 0 where
  pub size : ℕ
  pub at : Memory
