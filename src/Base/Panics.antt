-- ===== src/Base/Panics.antt =====
-- The outcome of code that may panic.
use mathlib.Core.Path.{◌≡◌, refl, ap}
use mathlib.Core.Logic.{◌⊎◌, inl, inr}
use mathlib.Core.Bool.{Bool, true, false}
use os.Base.Tests.{if◌then◌else◌}
use native.Mathlib.Omega.{arith}

pub data Outcome {ℓ} (A : Type ℓ) : Type ℓ where
  ok : A → Outcome A
  panic : Outcome A

infixl 5 ◌>>=◌
abbrev pub ◌>>=◌ {ℓ κ} : {A : Type ℓ} {B : Type κ} → Outcome A → (A → Outcome B) → Outcome B
ok a >>= f = f a
panic >>= f = panic

pub Outcome-cases : {A : Type 0} (o : Outcome A) → (o ≡ panic) ⊎ ((a : A) × (o ≡ ok a))
Outcome-cases (ok a) = inr (a, refl)
Outcome-cases panic = inl refl

pub if_false :
    {A : Type 0} (test : Bool) (x y : A) {z : A}
    → test ≡ false
    → y ≡ z
    → (if test then x else y) ≡ z
if_false true x y e h = cc
if_false false x y e h = h

pub from_ok : {A : Type 0} {x y : A} → ok x ≡ ok y → x ≡ y
from_ok {x = x} e = ap (λ o. elim o [ ok r ↦ r | panic ↦ x ]) e

pub bind_ok :
    {A B : Type 0} (o : Outcome A) (f : A → Outcome B) {b : B}
    → (o >>= f) ≡ ok b
    → (a : A) × (o ≡ ok a) × (f a ≡ ok b)
bind_ok (ok a) f e = (a, refl, e)
bind_ok panic f e = absurd (ground arith)
