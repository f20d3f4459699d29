-- ===== src/Log/Logging.antt =====
-- log_write: the log region fills up, and the home sectors stay as they were.
use native.Mathlib.Decide.{ℕ_discrete}
use os.Base.{
  ℕ, zero, suc, ◌+◌, ◌-◌, ◌≤◌, ◌<◌, ◌≡◌, ◌≢◌, ◌⊎◌, inl, inr, ap, ◌∙◌, true, none, some, arith, ◌==◌,
  if◌then◌else◌,
}
use os.Log.Sectors.{Block, Disk, put}
use os.Base.{ok}
use os.Log.{LogState, log_size, bwrite, set_word, find_sector, log_write}
use os.Log.Recovery.{IsHome, Recoverable, Traced, bwrite-Traced}

-- The search ends at an entry for `x`, or behind all entries if none is for `x`.
pub find_sector_lem :
    (m i : ℕ) (f : ℕ → ℕ) (x : ℕ)
    → ((i ≤ find_sector m i f x) × (find_sector m i f x < i + m) × (f (find_sector m i f x) ≡ x))
      ⊎ ((find_sector m i f x ≡ i + m) × ((k : ℕ) → i ≤ k → k < i + m → f k ≢ x))
unfolding find_sector
find_sector_lem zero i f x = inr (omega arith, λ k a b. absurd (omega arith))
find_sector_lem (suc m) i f x = elim (ℕ_discrete (f i) x) [
  | yes e ↦ inl (ground arith, ground arith, ground arith)
  | no ne ↦ elim (find_sector_lem m (i + 1) f x) [
    | inl (a, b, e) ↦ inl (ground arith, ground arith, ground arith)
    | inr (e, all) ↦ inr (
      ground arith,
      λ k a b eq. elim (ℕ_discrete i k) [
        | yes same ↦ ne (ap f same ∙ eq)
        | no other ↦ all k (omega arith) (omega arith) eq
      ],
    )
  ]
]

module _ (start size : ℕ) (d₀ : Disk) where
  -- In a transaction that began on the disk `d₀` and shall leave the home sectors as in `spec`.
  pub record Logging (spec : Disk) (s : LogState) : Type 0 where
    pub region : (s.start ≡ start) × (s.size ≡ size)
    pub busy : s.busy ≡ true
    pub room : s.lh.n < size
    pub small : s.lh.n ≤ log_size
    pub homes : (i : ℕ) → i < s.lh.n → IsHome start size (s.lh.sector i)
    pub distinct : (i j : ℕ) → i < s.lh.n → j < s.lh.n → s.lh.sector i ≡ s.lh.sector j → i ≡ j
    pub logged : (i : ℕ) → i < s.lh.n → s.disk (start + i + 1) ≡ spec (s.lh.sector i)
    pub other : (x : ℕ) → ((i : ℕ) → i < s.lh.n → start + i + 1 ≢ x) → s.disk x ≡ d₀ x
    pub unlogged : (x : ℕ) → ((i : ℕ) → i < s.lh.n → s.lh.sector i ≢ x) → spec x ≡ d₀ x
    pub clean : (x : ℕ) → ((i : ℕ) → i < s.lh.n → s.lh.sector i ≢ x) → s.dirty x ≡ none
    pub traced : Traced (Recoverable start size d₀) d₀ s

  -- A disk that differs from `d₀` in log blocks only, and has an empty header as `d₀` has.
  Recoverable-other :
      {d : Disk}
      → d₀ start 0 ≡ 0
      → 0 < size
      → d start ≡ d₀ start
      → ((x : ℕ) → IsHome start size x → d x ≡ d₀ x)
      → Recoverable start size d₀ d
  Recoverable-other e h same all = record {
    room = rw (same, e) h;
    small = rw (same, e) (omega arith);
    homes = λ i lt. absurd (ground (arith, ap (λ (b : Block). b 0) same));
    logged = λ i lt. absurd (ground (arith, ap (λ (b : Block). b 0) same));
    rest = λ x home _. all x home;
  }

  module _ {spec : Disk} {s : LogState} (l : Logging spec s) (x : ℕ) (b : Block)
      (home : IsHome start size x) (empty : d₀ start 0 ≡ 0)
      (fits : (s.lh.n < log_size) × (s.lh.n < size - 1)) where
    abbrev pub entry : ℕ
    entry = find_sector s.lh.n 0 s.lh.sector x

    -- the state after log_write
    abbrev pub after : LogState
    after = record (bwrite s (s.start + entry + 1) b) {
      lh = record {
        n = if entry == s.lh.n then s.lh.n + 1 else s.lh.n;
        sector = set_word s.lh.sector entry x;
      };
      dirty = λ y. if x == y then some b else (bwrite s (s.start + entry + 1) b).dirty y;
    }

    pub log_write-ok : log_write s x b ≡ ok after
    unfolding log_write
    log_write-ok = ground (arith, l.busy, l.region.1)

    after-Traced : Traced (Recoverable start size d₀) d₀ after
    unfolding bwrite
    after-Traced =
        let at : ℕ = s.start + entry + 1 in
        let in_log : (start < at) × (at < start + size) =
          ground (arith, find_sector_lem s.lh.n 0 s.lh.sector x, l.region.0) in
        let same : s.disk start ≡ d₀ start = l.other start (λ i h. omega arith) in
        let others =
          λ (y : ℕ) (hy : IsHome start size y). l.other y (λ i h. omega (arith, l.room)) in
        let t = bwrite-Traced at b l.traced (
          Recoverable-other empty (omega (arith, l.room)) (ground (arith, same))
            (λ y hy. ground (arith, others y hy))) in
        record { now = t.now; all = t.all }

    -- The new state has every old entry, and the sector's own.
    old-ne :
        (y : ℕ)
        → ((i : ℕ) → i < after.lh.n → after.lh.sector i ≢ y)
        → (entry ≡ s.lh.n) ⊎ (s.lh.sector entry ≡ x)
        → (i : ℕ) → i < s.lh.n
        → s.lh.sector i ≢ y
    old-ne y ne c i h eq = ground (arith, ne i, find_sector_lem s.lh.n 0 s.lh.sector x)

    x-ne : (y : ℕ) → ((i : ℕ) → i < after.lh.n → after.lh.sector i ≢ y) → x ≢ y
    x-ne y ne eq = ground (arith, ne entry, find_sector_lem s.lh.n 0 s.lh.sector x)

    -- The sector was logged before: its log block is overwritten.
    pub absorbed :
        entry < s.lh.n
        → s.lh.sector entry ≡ x
        → Logging (put spec (record { at = x; block = b })) after
    unfolding bwrite
    absorbed lt e = record {
      region = l.region;
      busy = l.busy;
      room = ground (arith, l.room);
      small = ground (arith, l.small);
      homes = λ i h. ground (arith, l.homes i);
      distinct = λ i j hi hj eq. ground (arith, l.distinct i j);
      logged = λ i h. ground (arith, l.logged i, l.region.0, l.distinct i entry);
      other = λ y ne. ground (arith, l.other y (λ i h. ne i (ground arith)), ne entry, l.region.0);
      unlogged = λ y ne. ground (arith, l.unlogged y (old-ne y ne (inr e)), x-ne y ne);
      clean = λ y ne. ground (arith, l.clean y (old-ne y ne (inr e)), x-ne y ne);
      traced = after-Traced;
    }

    -- The sector is new to the log: it takes the next entry.
    pub appended :
        entry ≡ s.lh.n
        → ((i : ℕ) → i < s.lh.n → s.lh.sector i ≢ x)
        → Logging (put spec (record { at = x; block = b })) after
    unfolding bwrite
    appended e new = record {
      region = l.region;
      busy = l.busy;
      room = ground (arith, l.room);
      small = ground (arith, l.small);
      homes = λ i h. ground (arith, l.homes i);
      distinct = λ i j hi hj eq. ground (arith, l.distinct i j, new i, new j);
      logged = λ i h. ground (arith, l.logged i, l.region.0, new i);
      other = λ y ne. ground (arith, l.other y (λ i h. ne i (ground arith)), ne entry, l.region.0);
      unlogged = λ y ne. ground (arith, l.unlogged y (old-ne y ne (inl e)), x-ne y ne);
      clean = λ y ne. ground (arith, l.clean y (old-ne y ne (inl e)), x-ne y ne);
      traced = after-Traced;
    }
