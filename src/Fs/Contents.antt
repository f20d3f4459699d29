-- ===== src/Fs/Contents.antt =====
-- The contents of a file, byte by byte, and what writes to its blocks make of them.
use os.Base.{
  ℕ, ◌+◌, ◌-◌, ◌*◌, ◌/◌, ◌%◌, ◌<◌, ◌≡◌, ◌≢◌, refl, sym, ◌∙◌, ap, subst, ◌==◌, ltb, true, false,
  arith, Bool-cases, inl, inr,
}
use os.Fs.Disk.{Disk}
use os.Fs.Tree.{
  Slot, addr, single, double, leaf, is_slot, is_data, child, pointer, IsTree, places_differ,
  nonzero, true_not,
}
use os.Fs.Grown.{slot_of, Grows}
use os.Fs.Io.{byte_of, bytes_of, put_block, maxfile, bsize}

-- The byte at an offset; a block that is not there reads as zeros.
abbrev pub content : Disk → (ℕ → ℕ) → ℕ → ℕ
content d a p = bytes_of (child d (pointer d a (slot_of (p / bsize)))) (p % bsize)

number_of : Slot → ℕ
number_of (addr i) = i
number_of (single i) = 12 + i
number_of (double i) = 0
number_of (leaf i j) = 140 + 128 * i + j

pub slot_of-is_slot : (bn : ℕ) → bn < maxfile → is_slot (slot_of bn) ≡ true
slot_of-is_slot bn lt = elim (Bool-cases (ltb bn 12)) [
  | inl direct ↦ rw direct (ground arith)
  | inr more ↦ elim (Bool-cases (ltb (bn - 12) 128)) [
    | inl indirect ↦ rw (more, indirect) indirect
    | inr still_more ↦ rw (more, still_more) (ground arith)
  ]
]

pub slot_of-is_data : (bn : ℕ) → is_data (slot_of bn) ≡ true
slot_of-is_data bn = elim (Bool-cases (ltb bn 12)) [
  | inl direct ↦ rw direct direct
  | inr more ↦ elim (Bool-cases (ltb (bn - 12) 128)) [
    | inl indirect ↦ rw (more, indirect) refl
    | inr still_more ↦ rw (more, still_more) refl
  ]
]

number_of-slot_of : (bn : ℕ) → number_of (slot_of bn) ≡ bn
unfolding number_of
number_of-slot_of bn = elim (Bool-cases (ltb bn 12)) [
  | inl direct ↦ rw direct refl
  | inr more ↦ elim (Bool-cases (ltb (bn - 12) 128)) [
    | inl indirect ↦ rw (more, indirect) (ground arith)
    | inr still_more ↦ rw (more, still_more) (ground arith)
  ]
]

pub slots_differ : (m n : ℕ) → m ≢ n → slot_of m ≢ slot_of n
slots_differ m n ne e = ne (sym (number_of-slot_of m) ∙ ap number_of e ∙ number_of-slot_of n)

pub Grows-content :
    {d d' : Disk} {a a' : ℕ → ℕ} (p : ℕ)
    → p < maxfile * bsize
    → Grows d a d' a'
    → content d' a' p ≡ content d a p
Grows-content p lt g =
    ap (λ w. byte_of w (p % bsize % 4))
      (g.same (slot_of (p / bsize)) (slot_of-is_slot (p / bsize) (omega arith))
        (slot_of-is_data (p / bsize)) (p % bsize / 4))

-- A write to the block at the place `s`, which holds no table.
module _ (d : Disk) (a : ℕ → ℕ) (place : ℕ → Slot) (v : IsTree d a place) (s : Slot)
    (is_s : is_slot s ≡ true) (data_s : is_data s ≡ true) (real : pointer d a s ≢ 0)
    (w : ℕ → ℕ) where
  abbrev pub filled : Disk
  filled = put_block d (pointer d a s) w

  filled-child :
      (t : Slot)
      → is_slot t ≡ true
      → t ≢ s
      → (k : ℕ) → child filled (pointer d a t) k ≡ child d (pointer d a t) k
  filled-child t is_t ne k = elim (Bool-cases (pointer d a t == 0)) [
    | inl nothing ↦ rw nothing refl
    | inr there ↦
        let apart = places_differ d a place v t s is_t is_s (nonzero _ there) ne in
        let other : (pointer d a s == pointer d a t) ≡ false = ground arith in
        rw (there, other) refl
  ]

  table_not : (t : Slot) → is_data t ≡ false → t ≢ s
  table_not t table e = true_not (sym data_s ∙ sym (ap is_data e) ∙ table)

  pub filled-pointer : (t : Slot) → is_slot t ≡ true → pointer filled a t ≡ pointer d a t
  filled-pointer (addr i) is_t = refl
  filled-pointer (single i) is_t = filled-child (addr 12) refl (table_not (addr 12) refl) i
  filled-pointer (double i) is_t = filled-child (addr 13) refl (table_not (addr 13) refl) i
  filled-pointer (leaf i j) is_t =
      rw (filled-child (addr 13) refl (table_not (addr 13) refl) i)
        (filled-child (double i) (ground arith) (table_not (double i) refl) j)

  pub filled-IsTree : IsTree filled a place
  filled-IsTree = record {
    reserved = v.reserved;
    used = λ t is_t real_t.
        let same = filled-pointer t is_t in
        ap d.used same ∙ v.used t is_t (subst (λ x. x ≢ 0) same real_t);
    own = λ t is_t real_t.
        let same = filled-pointer t is_t in
        ap place same ∙ v.own t is_t (subst (λ x. x ≢ 0) same real_t);
  }

  pub filled-here : (k : ℕ) → child filled (pointer filled a s) k ≡ w k
  filled-here k =
      let there : (pointer d a s == 0) ≡ false = ground arith in
      let here : (pointer d a s == pointer d a s) ≡ true = ground arith in
      ap (λ x. child filled x k) (filled-pointer s is_s) ∙ rw (there, here) refl

  pub filled-other :
      (t : Slot)
      → is_slot t ≡ true
      → t ≢ s
      → (k : ℕ) → child filled (pointer filled a t) k ≡ child d (pointer d a t) k
  filled-other t is_t ne k =
      ap (λ x. child filled x k) (filled-pointer t is_t) ∙ filled-child t is_t ne k
