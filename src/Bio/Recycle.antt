-- ===== src/Bio/Recycle.antt =====
-- The buffer that bget takes for another sector.
use os.Base.{
  ℕ, ◌≡◌, ◌≢◌, refl, sym, ◌==◌, if◌then◌else◌, true, false, not, ◌&&◌, Option, none, some, List, [],
  ◌∷◌, arith, Bool-cases, Option-cases, ◌⊎◌, inl, inr,
}
use os.Bio.{Buf, no_dev, is_for, cached, renew, recycle}
use os.Bio.Buffers.{All, Unique, is_for-key, is_for-other}

-- What a disk holds at a sector, seen through the buffer for it.
abbrev pub view : (ℕ → ℕ → List ℕ) → ℕ → ℕ → Option Buf → List ℕ
view disk d s none = disk d s
view disk d s (some b) = if b.valid then b.bytes else disk d s

-- A dirty buffer is valid; a valid one that nobody holds is dirty, or is what the disk has.
abbrev pub Sound : (ℕ → ℕ → List ℕ) → Buf → Type 0
Sound disk b =
    (b.dirty ≡ true → b.valid ≡ true)
    × (b.busy ≡ false → b.dirty ≡ false → b.valid ≡ true → b.bytes ≡ disk b.dev b.sector)

some_of : {x y : List Buf} → some x ≡ some y → x ≡ y
some_of e = cc

is_for-not : (d s : ℕ) (b : Buf) → is_for d s b ≡ false → (d ≢ b.dev) ⊎ (s ≢ b.sector)
is_for-not d s b e = elim (Bool-cases (b.dev == d)) [
  | inl same ↦ inr (ground arith)
  | inr other ↦ inl (ground arith)
]

is_for-renew : (d s : ℕ) (b : Buf) → is_for d s (renew d s b) ≡ true
is_for-renew d s b = ground arith

-- How the search from the end went: the buffer is behind the first one, or it is the first one.
abbrev Found : ℕ → ℕ → Buf → List Buf → List Buf → Type 0
Found d s b bs bs' =
    ((bs1 : List Buf) × (recycle d s bs ≡ some bs1) × (b ∷ bs1 ≡ bs'))
    ⊎ ((b.busy ≡ false) × (b.dirty ≡ false) × (renew d s b ∷ bs ≡ bs'))

recycle-cons :
    (d s : ℕ) (b : Buf) (bs bs' : List Buf) → recycle d s (b ∷ bs) ≡ some bs' → Found d s b bs bs'
recycle-cons d s b bs bs' e = elim (Option-cases (recycle d s bs)) [
  | inr (bs1, later) ↦ inl (bs1, later, some_of (rw later at e))
  | inl none_later ↦ elim (Bool-cases (not b.busy && not b.dirty)) [
    | inl free ↦ inr (ground arith, ground arith, some_of (rw (none_later, free) at e))
    | inr taken ↦ absurd (ground arith)
  ]
]

pub recycle-cached :
    (d s : ℕ) (bs bs' : List Buf)
    → cached d s bs ≡ none
    → recycle d s bs ≡ some bs'
    → (b : Buf) × (cached d s bs' ≡ some (renew d s b))
recycle-cached d s [] bs' absent e = absurd (ground arith)
recycle-cached d s (b ∷ bs) bs' absent e = elim (Bool-cases (is_for d s b)) [
  | inl here ↦ absurd (ground arith)
  | inr there ↦ elim (recycle-cons d s b bs bs' e) [
    | inl (bs1, later, same) ↦
        let (c, found) = recycle-cached d s bs bs1 (rw there at absent) later in
        (c, rw (← same) (rw there found))
    | inr (idle, clean, same) ↦ (b, rw (← same) (rw (is_for-renew d s b) refl))
  ]
]

recycle-none :
    (d s d' s' : ℕ) (bs bs' : List Buf)
    → (d ≢ d') ⊎ (s ≢ s')
    → cached d' s' bs ≡ none
    → recycle d s bs ≡ some bs'
    → cached d' s' bs' ≡ none
recycle-none d s d' s' [] bs' ne absent e = absurd (ground arith)
recycle-none d s d' s' (b ∷ bs) bs' ne absent e = elim (Bool-cases (is_for d' s' b)) [
  | inl here ↦ absurd (ground arith)
  | inr there ↦ elim (recycle-cons d s b bs bs' e) [
    | inl (bs1, later, same) ↦
        rw (← same) (rw there (recycle-none d s d' s' bs bs1 ne (rw there at absent) later))
    | inr (idle, clean, same) ↦
        let other = is_for-other d s d' s' (renew d s b) (is_for-renew d s b) ne in
        rw (← same) (rw other (rw there at absent))
  ]
]

pub recycle-Unique :
    (d s : ℕ) (bs bs' : List Buf)
    → cached d s bs ≡ none
    → recycle d s bs ≡ some bs'
    → Unique bs
    → Unique bs'
recycle-Unique d s [] bs' absent e u = absurd (ground arith)
recycle-Unique d s (b ∷ bs) bs' absent e (alone, u) = elim (Bool-cases (is_for d s b)) [
  | inl here ↦ absurd (ground arith)
  | inr there ↦ elim (recycle-cons d s b bs bs' e) [
    | inl (bs1, later, same) ↦ rw (← same) (
      λ used. recycle-none d s b.dev b.sector bs bs1 (is_for-not d s b there) (alone used) later,
      recycle-Unique d s bs bs1 (rw there at absent) later u,
    )
    | inr (idle, clean, same) ↦ rw (← same) (λ used. rw there at absent, u)
  ]
]

pub recycle-Sound :
    (disk : ℕ → ℕ → List ℕ) (d s : ℕ) (bs bs' : List Buf)
    → recycle d s bs ≡ some bs'
    → All (Sound disk) bs
    → All (Sound disk) bs'
recycle-Sound disk d s [] bs' e all = absurd (ground arith)
recycle-Sound disk d s (b ∷ bs) bs' e (sound, all) = elim (recycle-cons d s b bs bs' e) [
  | inl (bs1, later, same) ↦ rw (← same) (sound, recycle-Sound disk d s bs bs1 later all)
  | inr (idle, clean, same) ↦
      rw (← same) ((λ dirty. absurd (ground arith), λ free c v. absurd (ground arith)), all)
]

clean-view :
    (disk : ℕ → ℕ → List ℕ) (d s : ℕ) (b : Buf)
    → is_for d s b ≡ true
    → (b.valid ≡ true → b.bytes ≡ disk b.dev b.sector)
    → disk d s ≡ view disk d s (some b)
clean-view disk d s b here clean = elim (Bool-cases b.valid) [
  | inl valid ↦
      let (dev_same, sector_same) = is_for-key d s b here in
      rw valid (sym (rw (dev_same, sector_same) at (clean valid)))
  | inr invalid ↦ rw invalid refl
]

renew-view :
    (disk : ℕ → ℕ → List ℕ) (d s d' s' : ℕ) (b : Buf) (bs : List Buf)
    → d' ≢ no_dev
    → is_for d s b ≡ false
    → cached d s bs ≡ none
    → (b.dev ≢ no_dev → cached b.dev b.sector bs ≡ none)
    → (b.valid ≡ true → b.bytes ≡ disk b.dev b.sector)
    → view disk d' s' (cached d' s' (renew d s b ∷ bs)) ≡ view disk d' s' (cached d' s' (b ∷ bs))
renew-view disk d s d' s' b bs real there absent alone clean =
    elim (Bool-cases (is_for d' s' (renew d s b))) [
      | inl here ↦
          let (dev_same, sector_same) = is_for-key d' s' (renew d s b) here in
          let not_b : is_for d' s' b ≡ false = rw (dev_same, sector_same) at there in
          let gone : cached d' s' bs ≡ none = rw (dev_same, sector_same) at absent in
          rw (here, not_b, gone) refl
      | inr other ↦ elim (Bool-cases (is_for d' s' b)) [
        | inr neither ↦ rw (other, neither) refl
        | inl mine ↦
            let (dev_same, sector_same) = is_for-key d' s' b mine in
            let gone : cached d' s' bs ≡ none = (rw (dev_same, sector_same) at alone) real in
            rw (other, mine, gone) (clean-view disk d' s' b mine clean)
      ]
    ]

-- Nothing is lost: the buffer that is taken held what the disk has.
pub recycle-view :
    (disk : ℕ → ℕ → List ℕ) (d s d' s' : ℕ) (bs bs' : List Buf)
    → d' ≢ no_dev
    → cached d s bs ≡ none
    → recycle d s bs ≡ some bs'
    → Unique bs
    → All (Sound disk) bs
    → view disk d' s' (cached d' s' bs') ≡ view disk d' s' (cached d' s' bs)
recycle-view disk d s d' s' [] bs' real absent e u all = absurd (ground arith)
recycle-view disk d s d' s' (b ∷ bs) bs' real absent e (alone, u) (sound, all) =
    elim (Bool-cases (is_for d s b)) [
      | inl here ↦ absurd (ground arith)
      | inr there ↦ elim (recycle-cons d s b bs bs' e) [
        | inl (bs1, later, same) ↦ elim (Bool-cases (is_for d' s' b)) [
          | inl mine ↦ rw (← same) (rw mine refl)
          | inr other ↦
              rw (← same) (
                rw other (recycle-view disk d s d' s' bs bs1 real (rw there at absent) later u all))
        ]
        | inr (idle, clean, same) ↦ rw (← same) (
            renew-view disk d s d' s' b bs real there (rw there at absent) alone
              (sound.1 idle clean))
      ]
    ]
