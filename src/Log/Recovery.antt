-- ===== src/Log/Recovery.antt =====
-- Which disks recover_from_log turns into which contents.
use native.Mathlib.Decide.{ℕ_discrete, dec_lt}
use os.Base.{ℕ, zero, suc, ◌+◌, ◌≤◌, ◌<◌, ◌≡◌, ◌≢◌, ◌⊎◌, inl, inr, refl, ap, ◌∙◌, arith}
use os.Log.Sectors.{Block, Disk, Write, put, run_writes, crash, crash-append, run_writes-append}
use os.Log.{LogState, log_size, bwrite, write_sectors, read_sectors}

pub write_sectors_self :
    (n : ℕ) (sector : ℕ → ℕ) (b : Block) (i : ℕ)
    → i < n
    → write_sectors n sector b (suc i) ≡ sector i
unfolding write_sectors
write_sectors_self zero sector b i h = absurd (omega arith)
write_sectors_self (suc n) sector b i h = ground (arith, write_sectors_self n sector b i)

pub write_sectors-zero : (n : ℕ) (sector : ℕ → ℕ) (b : Block) → write_sectors n sector b 0 ≡ b 0
unfolding write_sectors
write_sectors-zero zero sector b = refl
write_sectors-zero (suc n) sector b = ground (arith, write_sectors-zero n sector b)

pub read_sectors_self :
    (n : ℕ) (b : Block) (sector : ℕ → ℕ) (i : ℕ) → i < n → read_sectors n b sector i ≡ b (suc i)
unfolding read_sectors
read_sectors_self zero b sector i h = absurd (omega arith)
read_sectors_self (suc n) b sector i h = ground (arith, read_sectors_self n b sector i)

-- The sectors outside the log region.
abbrev pub IsHome : ℕ → ℕ → ℕ → Type 0
IsHome start size x = (x < start) ⊎ (start + size ≤ x)

-- `d` holds a header whose installation leaves the contents `spec` on the home sectors. With no
-- entry in the header, this says that `d` holds `spec` already.
pub record Recoverable (start size : ℕ) (spec d : Disk) : Type 0 where
  pub room : d start 0 < size
  pub small : d start 0 ≤ log_size
  pub homes : (i : ℕ) → i < d start 0 → IsHome start size (d start (suc i))
  pub logged : (i : ℕ) → i < d start 0 → d (start + i + 1) ≡ spec (d start (suc i))
  pub rest :
      (x : ℕ) → IsHome start size x → ((i : ℕ) → i < d start 0 → d start (suc i) ≢ x) → d x ≡ spec x

-- The trace leads from `d₀` to the present disk, and a crash at any write leaves a disk with `P`.
pub record Traced (P : Disk → Type 0) (d₀ : Disk) (s : LogState) : Type 0 where
  pub now : run_writes d₀ s.trace ≡ s.disk
  pub all : (k : ℕ) → P (crash d₀ s.trace k)

pub bwrite-Traced :
    {P : Disk → Type 0} {d₀ : Disk} {s : LogState} (x : ℕ) (b : Block)
    → Traced P d₀ s
    → P (put s.disk (record { at = x; block = b }))
    → Traced P d₀ (bwrite s x b)
unfolding bwrite
bwrite-Traced {P} {d₀} {s} x b t p =
    let w : Write = record { at = x; block = b } in
    record {
      now = run_writes-append d₀ s.trace w ∙ ap (λ d. put d w) t.now;
      all = crash-append P d₀ s.trace w t.all (rw t.now p);
    }

pub lh-bwrite : (s : LogState) (x : ℕ) (b : Block) → (bwrite s x b).lh.n ≡ s.lh.n
unfolding bwrite
lh-bwrite s x b = refl

pub search_sector :
    (n : ℕ) (f : ℕ → ℕ) (x : ℕ) → ((i : ℕ) × (i < n) × (f i ≡ x)) ⊎ ((i : ℕ) → i < n → f i ≢ x)
search_sector zero f x = inr (λ i h. absurd (omega arith))
search_sector (suc n) f x = elim (search_sector n f x) [
  | inl (i, h, e) ↦ inl (i, omega arith, e)
  | inr none_below ↦ elim (ℕ_discrete (f n) x) [
    | yes e ↦ inl (n, omega arith, e)
    | no ne ↦ inr (λ i h e. elim (dec_lt i n) [
      | yes lt ↦ none_below i lt e
      | no ge ↦ let same : i ≡ n = omega arith in ne (rw (← same) e)
    ])
  ]
]

module _ (start size : ℕ) {spec : Disk} where
  -- Writing what the contents say to a home sector keeps a disk recoverable.
  pub Recoverable-put :
      {d : Disk} (x : ℕ) (b : Block)
      → Recoverable start size spec d
      → IsHome start size x
      → b ≡ spec x
      → Recoverable start size spec (put d (record { at = x; block = b }))
  Recoverable-put {d} x b r home e =
      let same : put d (record { at = x; block = b }) start ≡ d start = ground (arith, r.room) in
      record {
        room = rw same r.room;
        small = rw same r.small;
        homes = rw same r.homes;
        logged = rw same (λ i h. ground (arith, r.room, r.logged i));
        rest = rw same (λ y hy ne. ground (arith, r.rest y hy ne));
      }

  -- Once every home sector holds its contents, the header may be cleared.
  pub Recoverable-clear :
      {d : Disk} (x : ℕ) (b : Block)
      → x ≡ start
      → 0 < size
      → b 0 ≡ 0
      → ((y : ℕ) → IsHome start size y → d y ≡ spec y)
      → Recoverable start size spec (put d (record { at = x; block = b }))
  Recoverable-clear {d} x b at_start h e all = record {
    room = ground arith;
    small = ground arith;
    homes = λ i lt. ground arith;
    logged = λ i lt. ground arith;
    rest = λ y home ne. ground (arith, all y home);
  }
