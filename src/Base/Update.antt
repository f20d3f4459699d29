-- ===== src/Base/Update.antt =====
-- Changing one element of a list.
use Prim.Native.Nat.{ℕ, zero, suc}
use mathlib.Core.Path.{◌≡◌, refl, ap, sym, ◌∙◌}
use mathlib.Core.Logic.{◌≢◌, ◌⊎◌, inl, inr}
use mathlib.Core.List.{List, [], ◌∷◌}
use mathlib.Core.Option.{some}
use native.Mathlib.Decide.{ℕ_discrete}
use native.Mathlib.Omega.{arith}
use os.Base.Lists.{get_elem?}

module _ {A : Type 0} where
  -- xs[i] = f(xs[i]); nothing changes out of bounds.
  abbrev pub modify : (A → A) → List A → ℕ → List A
  modify f [] i = []
  modify f (x ∷ xs) zero = f x ∷ xs
  modify f (x ∷ xs) (suc i) = x ∷ modify f xs i

  pub get_elem?-modify_self :
      (f : A → A) (xs : List A) (i : ℕ) {x : A}
      → get_elem? xs i ≡ some x
      → get_elem? (modify f xs i) i ≡ some (f x)
  get_elem?-modify_self f [] i h = cc
  get_elem?-modify_self f (x ∷ xs) zero h = ground arith
  get_elem?-modify_self f (x ∷ xs) (suc i) h = get_elem?-modify_self f xs i h

  pub get_elem?-modify_ne :
      (f : A → A) (xs : List A) (i j : ℕ) → i ≢ j → get_elem? (modify f xs i) j ≡ get_elem? xs j
  get_elem?-modify_ne f [] i j ne = refl
  get_elem?-modify_ne f (x ∷ xs) zero zero ne = absurd (ne refl)
  get_elem?-modify_ne f (x ∷ xs) zero (suc j) ne = refl
  get_elem?-modify_ne f (x ∷ xs) (suc i) zero ne = refl
  get_elem?-modify_ne f (x ∷ xs) (suc i) (suc j) ne =
      get_elem?-modify_ne f xs i j (λ e. ne (ap suc e))

  -- What a place holds after a change, it held before, or it is the changed one.
  pub get_elem?-modify :
      (f : A → A) (xs : List A) (i j : ℕ) {x y : A}
      → get_elem? xs i ≡ some x
      → get_elem? (modify f xs i) j ≡ some y
      → ((i ≡ j) × (some y ≡ some (f x))) ⊎ ((i ≢ j) × (get_elem? xs j ≡ some y))
  get_elem?-modify f xs i j {x} {y} h h' = elim (ℕ_discrete i j) [
    | yes e ↦
        let mine : get_elem? (modify f xs i) j ≡ some (f x) =
          rw (← e) (get_elem?-modify_self f xs i h) in
        inl (e, sym h' ∙ mine)
    | no ne ↦ inr (ne, sym (get_elem?-modify_ne f xs i j ne) ∙ h')
  ]
