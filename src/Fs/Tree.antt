-- ===== src/Fs/Tree.antt =====
-- The blocks of a file as a tree of pointers: ip->addrs, the tables of the indirect block, and those of
-- the double indirect one.
use os.Base.{
  ℕ, ◌≡◌, ◌≢◌, refl, sym, ◌∙◌, ap, subst, ◌==◌, ltb, if◌then◌else◌, Bool, true, false, ◌&&◌, arith,
  Bool-cases, inl, inr, ◌⊎◌,
}
use os.Fs.Disk.{Disk, put, bzero}

-- A place of a pointer: ip->addrs[i], or the entry i of the indirect table, of the double indirect
-- table, or the entry j of its i-th table.
pub data Slot : Type 0 where
  addr : ℕ → Slot
  single : ℕ → Slot
  double : ℕ → Slot
  leaf : ℕ → ℕ → Slot

abbrev pub is_slot : Slot → Bool
is_slot (addr i) = ltb i 14
is_slot (single i) = ltb i 128
is_slot (double i) = ltb i 128
is_slot (leaf i j) = ltb i 128 && ltb j 128

-- The places of blocks with contents; the others hold tables.
abbrev pub is_data : Slot → Bool
is_data (addr i) = ltb i 12
is_data (single i) = true
is_data (double i) = false
is_data (leaf i j) = true

-- The entry of a table, 0 if there is no table.
abbrev pub child : Disk → ℕ → ℕ → ℕ
child d t i = if t == 0 then 0 else d.words t i

-- The block number at a place, 0 for none.
abbrev pub pointer : Disk → (ℕ → ℕ) → Slot → ℕ
pointer d a (addr i) = a i
pointer d a (single i) = child d (a 12) i
pointer d a (double i) = child d (a 13) i
pointer d a (leaf i j) = child d (child d (a 13) i) j

-- Every block of the file is in use, and has one place in it, which `place` gives.
pub record IsTree (d : Disk) (a : ℕ → ℕ) (place : ℕ → Slot) : Type 0 where
  pub reserved : d.used 0 ≡ true
  pub used : (s : Slot) → is_slot s ≡ true → pointer d a s ≢ 0 → d.used (pointer d a s) ≡ true
  pub own : (s : Slot) → is_slot s ≡ true → pointer d a s ≢ 0 → place (pointer d a s) ≡ s

-- Two places do not hold one block.
pub places_differ :
    (d : Disk) (a : ℕ → ℕ) (place : ℕ → Slot)
    → IsTree d a place
    → (s t : Slot) → is_slot s ≡ true
    → is_slot t ≡ true
    → pointer d a s ≢ 0
    → s ≢ t
    → pointer d a s ≢ pointer d a t
places_differ d a place v s t is_s is_t real ne e =
    ne (sym (v.own s is_s real) ∙ ap place e ∙ v.own t is_t (subst (λ x. x ≢ 0) e real))

pub flip_ne : {x y : ℕ} → x ≢ y → (y == x) ≡ false
flip_ne ne = ground arith

pub true_not : true ≢ false
true_not e = ground arith

pub nonzero : (x : ℕ) → (x == 0) ≡ false → x ≢ 0
nonzero x e z = ground arith

pub is_zero : (x : ℕ) → x ≢ 0 → (x == 0) ≡ false
is_zero x ne = ground arith

pub zero_of : (x : ℕ) → (x == 0) ≡ true → 0 ≡ x
zero_of x e = ground arith

-- A block that is not in use is at no place.
pub unused_differ :
    (d : Disk) (a : ℕ → ℕ) (place : ℕ → Slot)
    → IsTree d a place
    → (b : ℕ) → d.used b ≡ false
    → (s : Slot) → is_slot s ≡ true
    → pointer d a s ≢ b
unused_differ d a place v b unused s is_s e = elim (Bool-cases (pointer d a s == 0)) [
  | inl nothing ↦
      absurd (true_not (sym v.reserved ∙ ap d.used (zero_of _ nothing) ∙ ap d.used e ∙ unused))
  | inr something ↦ true_not (sym (v.used s is_s (nonzero _ something)) ∙ ap d.used e ∙ unused)
]

-- A new block `b`, cleared.
abbrev pub grown : Disk → ℕ → Disk
grown d b = bzero (record d { used = put d.used b true }) b

-- The tree has `b` at the place `s`, and is as before at all others.
pub record Adds (d : Disk) (a : ℕ → ℕ) (b : ℕ) (s : Slot) (d' : Disk) (a' : ℕ → ℕ) : Type 0 where
  pub taken : d'.used ≡ put d.used b true
  pub at_place : pointer d' a' s ≡ b
  pub cleared : (k : ℕ) → d'.words b k ≡ 0
  pub kept :
      (t : Slot)
      → is_slot t ≡ true
      → is_data t ≡ true
      → pointer d a t ≢ 0
      → (k : ℕ) → d'.words (pointer d a t) k ≡ d.words (pointer d a t) k
  pub elsewhere : (t : Slot) → is_slot t ≡ true → t ≢ s → pointer d' a' t ≡ pointer d a t

pub slot_cases : (s t : Slot) → (s ≡ t) ⊎ (s ≢ t)
slot_cases (addr i) (addr j) = elim (Bool-cases (i == j)) [
  | inl e ↦ inl (ground arith)
  | inr e ↦ inr (ground arith)
]
slot_cases (single i) (single j) = elim (Bool-cases (i == j)) [
  | inl e ↦ inl (ground arith)
  | inr e ↦ inr (ground arith)
]
slot_cases (double i) (double j) = elim (Bool-cases (i == j)) [
  | inl e ↦ inl (ground arith)
  | inr e ↦ inr (ground arith)
]
slot_cases (leaf i k) (leaf j l) = elim (Bool-cases ((i == j) && (k == l))) [
  | inl e ↦ inl (ground arith)
  | inr e ↦ inr (ground arith)
]
slot_cases s t = inr (ground arith)

pub child_zero : (d : Disk) (x k : ℕ) → x ≡ 0 → child d x k ≡ 0
child_zero d x k e = rw e refl
