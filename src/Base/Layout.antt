-- ===== src/Base/Layout.antt =====
-- The memory of a packed struct, from its members in the order of declaration.
use Prim.Native.Nat.{ℕ, ◌+◌, ◌-◌, ◌^◌, ◌<◌}
use mathlib.Core.Path.{◌≡◌, ap, ◌∙◌}
use mathlib.Core.List.{List, [], ◌∷◌, ◌++◌}
use native.Mathlib.Omega.{arith}
use xrnetwork.Base.Tests.{ltb, if◌then◌else◌}
use xrnetwork.Base.Memory.{Memory, Block, le_byte, get_le, get_le_of_bytes}

-- An unsigned integer of `width` bytes, or an array of bytes.
pub data Member : Type 0 where
  word : ℕ → ℕ → Member
  array : ℕ → Memory → Member

abbrev pub member_size : Member → ℕ
member_size (word width v) = width
member_size (array n m) = n

abbrev pub member_bytes : Member → Memory
member_bytes (word width v) = le_byte v
member_bytes (array n m) = m

abbrev pub size_of : List Member → ℕ
size_of [] = 0
size_of (f ∷ fs) = member_size f + size_of fs

unfoldable pub layout : List Member → Memory
layout [] i = 0
layout (f ∷ fs) i =
    if ltb i (member_size f) then member_bytes f i else layout fs (i - member_size f)

-- A struct in memory: what `(std::byte*)&object` and `sizeof(object)` give.
abbrev pub object : List Member → Block
object fs = record { size = size_of fs; at = layout fs }

layout-front :
    (f : Member) (fs : List Member) (k : ℕ)
    → k < member_size f
    → layout (f ∷ fs) k ≡ member_bytes f k
unfolding layout
layout-front f fs k h = ground arith

layout-behind :
    (f : Member) (fs : List Member) (k : ℕ) → layout (f ∷ fs) (member_size f + k) ≡ layout fs k
unfolding layout
layout-behind f fs k =
    let e : member_size f + k - member_size f ≡ k = omega arith in ground (arith, ap (layout fs) e)

-- What stands behind the first members stands there in the rest of the struct.
pub layout-append :
    (front fs : List Member) (k : ℕ) → layout (front ++ fs) (size_of front + k) ≡ layout fs k
layout-append [] fs k = ap (layout fs) (omega arith)
layout-append (f ∷ front) fs k =
    ap (layout (f ∷ front ++ fs)) (omega arith)
    ∙ layout-behind f (front ++ fs) (size_of front + k)
    ∙ layout-append front fs k

-- A word is read at the offset of its member, whatever stands around it.
pub get_le-layout :
    (front : List Member) (w v : ℕ) (fs : List Member) (off : ℕ)
    → off ≡ size_of front
    → v < 256 ^ w
    → get_le w (layout (front ++ word w v ∷ fs)) off ≡ v
get_le-layout front w v fs off e h =
    get_le_of_bytes w v (layout (front ++ word w v ∷ fs)) off
      (λ k hk.
        ap (λ (o : ℕ). layout (front ++ word w v ∷ fs) (o + k)) e
        ∙ layout-append front (word w v ∷ fs) k
        ∙ layout-front (word w v) fs k hk)
      h

-- So is each byte of an array.
pub array-layout :
    (front : List Member) (n : ℕ) (m : Memory) (fs : List Member) (off k : ℕ)
    → off ≡ size_of front
    → k < n
    → layout (front ++ array n m ∷ fs) (off + k) ≡ m k
array-layout front n m fs off k e h =
    ap (λ (o : ℕ). layout (front ++ array n m ∷ fs) (o + k)) e
    ∙ layout-append front (array n m ∷ fs) k
    ∙ layout-front (array n m) fs k h
