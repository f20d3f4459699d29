-- ===== src/Proc/Lookup.antt =====
-- What the loops over the process table find and change, slot by slot.
use native.Mathlib.Decide.{ℕ_discrete}
use mathlib.Core.Option
use os.Base.{
  ℕ, zero, suc, ◌+◌, ◌-◌, ◌≤◌, ◌≡◌, ◌≢◌, ◌⊎◌, inl, inr, refl, ap, ◌∙◌, sym, Bool, true, false, none,
  some, [], ◌∷◌, get_elem?, arith, Bool-cases,
}
use os.Proc.{scan_children}
use os.Proc.Table.{Chan, Proc, Table, find_slot, wake, wakeup1, update, is_parent, is_zombie}

-- A slot that holds `p`.
abbrev pub Holds : Table → ℕ → Proc → Type 0
Holds t i p = get_elem? t i ≡ some p

pub get_elem?-update_self :
    (f : Proc → Proc) (t : Table) (i : ℕ) {p : Proc} → Holds t i p → Holds (update f t i) i (f p)
get_elem?-update_self f [] i h = cc
get_elem?-update_self f (x ∷ xs) zero h = ground arith
get_elem?-update_self f (x ∷ xs) (suc i) h = get_elem?-update_self f xs i h

pub get_elem?-update_ne :
    (f : Proc → Proc) (t : Table) (i j : ℕ) → i ≢ j → get_elem? (update f t i) j ≡ get_elem? t j
get_elem?-update_ne f [] i j ne = refl
get_elem?-update_ne f (x ∷ xs) zero zero ne = absurd (ne refl)
get_elem?-update_ne f (x ∷ xs) zero (suc j) ne = refl
get_elem?-update_ne f (x ∷ xs) (suc i) zero ne = refl
get_elem?-update_ne f (x ∷ xs) (suc i) (suc j) ne =
    get_elem?-update_ne f xs i j (λ e. ne (ap suc e))

-- What a slot holds after an update, it held before, or it is the updated one.
pub Holds-update :
    (f : Proc → Proc) (t : Table) (i j : ℕ) {p q : Proc}
    → Holds t i p
    → Holds (update f t i) j q
    → ((i ≡ j) × (q ≡ f p)) ⊎ ((i ≢ j) × Holds t j q)
Holds-update f t i j {p} {q} h h' = elim (ℕ_discrete i j) [
  | yes e ↦
      let mine : get_elem? (update f t i) j ≡ some (f p) =
        rw (← e) (get_elem?-update_self f t i h) in
      inl (e, ground (arith, mine))
  | no ne ↦ inr (ne, sym (get_elem?-update_ne f t i j ne) ∙ h')
]

pub get_elem?-wakeup1 :
    (c : Chan) (t : Table) (j : ℕ) → get_elem? (wakeup1 c t) j ≡ Option.map (wake c) (get_elem? t j)
unfolding wakeup1
get_elem?-wakeup1 c [] j = refl
get_elem?-wakeup1 c (x ∷ xs) zero = refl
get_elem?-wakeup1 c (x ∷ xs) (suc j) = get_elem?-wakeup1 c xs j

-- find_slot finds the first slot with the property, if there is one.
pub find_slot-some :
    (f : Proc → Bool) (i : ℕ) (t : Table) {j : ℕ} {p : Proc}
    → find_slot f i t ≡ some (j, p)
    → (i ≤ j) × Holds t (j - i) p × (f p ≡ true)
unfolding find_slot
find_slot-some f i [] h = cc
find_slot-some f i (x ∷ xs) {j} {p} h = elim (Bool-cases (f x)) [
  | inl yes_here ↦ ground arith
  | inr not_here ↦
      let (le, there, ok) = find_slot-some f (i + 1) xs {j = j} {p = p} (rw not_here at h) in
      let step : j - i ≡ suc (j - (i + 1)) = omega arith in (omega arith, rw step there, ok)
]

pub find_slot-none :
    (f : Proc → Bool) (i : ℕ) (t : Table)
    → find_slot f i t ≡ none
    → (j : ℕ) {p : Proc} → Holds t j p
    → f p ≡ false
unfolding find_slot
find_slot-none f i [] h j e = cc
find_slot-none f i (x ∷ xs) h zero e = ground arith
find_slot-none f i (x ∷ xs) h (suc j) e = elim (Bool-cases (f x)) [
  | inl yes_here ↦ ground arith
  | inr not_here ↦ find_slot-none f (i + 1) xs (rw not_here at h) j e
]

-- The scan of wait returns a zombie child, and says truly whether there are children.
pub scan_children-some :
    (cur : ℕ) (kids : Bool) (i : ℕ) (t : Table) {j : ℕ} {p : Proc}
    → (scan_children cur kids i t).0 ≡ some (j, p)
    → (i ≤ j) × Holds t (j - i) p × (is_parent p.parent cur ≡ true) × (is_zombie p.state ≡ true)
unfolding scan_children
scan_children-some cur kids i [] h = cc
scan_children-some cur kids i (x ∷ xs) {j} {p} h = elim (Bool-cases (is_parent x.parent cur)) [
  | inl mine ↦ elim (Bool-cases (is_zombie x.state)) [
    | inl dead ↦ ground arith
    | inr alive ↦
        let (le, there, child, dead) =
          scan_children-some cur true (i + 1) xs {j = j} {p = p} (rw (mine, alive) at h) in
        let step : j - i ≡ suc (j - (i + 1)) = omega arith in
        (omega arith, rw step there, child, dead)
  ]
  | inr other ↦
      let (le, there, child, dead) =
        scan_children-some cur kids (i + 1) xs {j = j} {p = p} (rw other at h) in
      let step : j - i ≡ suc (j - (i + 1)) = omega arith in
      (omega arith, rw step there, child, dead)
]

scan_children_kids : (cur i : ℕ) (t : Table) → (scan_children cur true i t).1 ≡ true
unfolding scan_children
scan_children_kids cur i [] = refl
scan_children_kids cur i (x ∷ xs) = ground (arith, scan_children_kids cur (i + 1) xs)

pub scan_children-none :
    (cur : ℕ) (kids : Bool) (i : ℕ) (t : Table)
    → (scan_children cur kids i t).0 ≡ none
    → (j : ℕ) {p : Proc} → Holds t j p
    → is_parent p.parent cur ≡ true
    → (is_zombie p.state ≡ false) × ((scan_children cur kids i t).1 ≡ true)
unfolding scan_children
scan_children-none cur kids i [] h j e mine = cc
scan_children-none cur kids i (x ∷ xs) h zero e mine =
    ground (arith, scan_children_kids cur (i + 1) xs)
scan_children-none cur kids i (x ∷ xs) h (suc j) e mine =
    elim (Bool-cases (is_parent x.parent cur)) [
      | inl child ↦ elim (Bool-cases (is_zombie x.state)) [
        | inl dead ↦ absurd (ground arith)
        | inr alive ↦
            rw (child, alive)
              (scan_children-none cur true (i + 1) xs (rw (child, alive) at h) j e mine)
      ]
      | inr other ↦ rw other (scan_children-none cur kids (i + 1) xs (rw other at h) j e mine)
    ]
