-- ===== src/Base/Outcomes.antt =====
-- What a call ends with. `fault` is a memory error, which C++ leaves undefined, or a call of
-- `std::terminate`; `threw` is an exception that leaves the call.
use mathlib.Core.Path.{◌≡◌, refl, ap, ◌∙◌}
use mathlib.Core.Bool.{Bool, true, false}
use xrnetwork.Base.Tests.{if◌then◌else◌}
use native.Mathlib.Omega.{arith}

pub data Fault : Type 0 where
  null_pointer out_of_bounds terminated dangling : Fault

pub data Outcome {ℓ} (A : Type ℓ) : Type ℓ where
  ok : A → Outcome A
  fault : Fault → Outcome A
  threw : Outcome A

infixl 5 ◌>>=◌
abbrev pub ◌>>=◌ {ℓ κ} : {A : Type ℓ} {B : Type κ} → Outcome A → (A → Outcome B) → Outcome B
ok a >>= f = f a
fault e >>= f = fault e
threw >>= f = threw

pub ok-injective {ℓ} : {A : Type ℓ} (a b : A) → ok a ≡ ok b → a ≡ b
ok-injective a b e = ap (λ o. elim o [ ok x ↦ x | fault f ↦ a | threw ↦ a ]) e

-- A chain that ends well has a first call that does.
pub bind_ok {ℓ κ} :
    {A : Type ℓ} {B : Type κ} (o : Outcome A) (f : A → Outcome B) (b : B)
    → (o >>= f) ≡ ok b
    → (a : A) × (o ≡ ok a) × (f a ≡ ok b)
bind_ok (ok a) f b e = (a, refl, e)
bind_ok (fault x) f b e = absurd (ground arith)
bind_ok threw f b e = absurd (ground arith)

-- A call that returns.
abbrev pub Ends {ℓ} : {A : Type ℓ} → Outcome A → Type ℓ
Ends {A = A} m = (a : A) × (m ≡ ok a)

pub Ends-bind {ℓ κ} :
    {A : Type ℓ} {B : Type κ} (m : Outcome A) (f : A → Outcome B)
    → Ends m
    → ((a : A) → Ends (f a))
    → Ends (m >>= f)
Ends-bind m f e k = ((k e.0).0, ap (λ o. o >>= f) e.1 ∙ (k e.0).1)

pub Ends-if {ℓ} :
    {A : Type ℓ} (b : Bool) (m n : Outcome A) → Ends m → Ends n → Ends (if b then m else n)
Ends-if true m n x y = x
Ends-if false m n x y = y

pub returned {ℓ} : {A : Type ℓ} (a : A) → Ends (ok a)
returned a = (a, refl)
