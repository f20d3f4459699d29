-- ===== src/Log/Install.antt =====
-- install_trans and the clearing of the header, with every disk that a crash on the way can leave.
use os.Base.{ℕ, zero, suc, ◌+◌, ◌≤◌, ◌<◌, ◌≡◌, ◌≢◌, inl, inr, refl, sym, ◌∙◌, false, none, arith}
use os.Log.Sectors.{Block, Disk, put}
use os.Log.{LogState, bread, bwrite, set_word, write_head, install_run, install_trans, clear_head}
use os.Log.Recovery.{
  IsHome, Recoverable, Traced, bwrite-Traced, search_sector, Recoverable-put, Recoverable-clear,
  lh-bwrite,
}

module _ (start size : ℕ) (spec d₀ : Disk) (P : Disk → Type 0)
    (keep : (d : Disk) → Recoverable start size spec d → P d) where
  -- install_trans has copied the entries below `tail`.
  pub record Installing (tail : ℕ) (s : LogState) : Type 0 where
    pub region : (s.start ≡ start) × (s.size ≡ size)
    pub recoverable : Recoverable start size spec s.disk
    pub head : s.lh.n ≡ s.disk start 0
    pub entries : (i : ℕ) → i < s.lh.n → s.lh.sector i ≡ s.disk start (suc i)
    pub done : (i : ℕ) → i < tail → s.disk (s.lh.sector i) ≡ spec (s.lh.sector i)
    pub clean : (x : ℕ) → ((i : ℕ) → tail ≤ i → i < s.lh.n → s.lh.sector i ≢ x) → s.dirty x ≡ none
    pub traced : Traced P d₀ s

  module _ {tail : ℕ} {s : LogState} (i : Installing tail s) where
    sector-IsHome : (j : ℕ) → j < s.lh.n → IsHome start size (s.lh.sector j)
    sector-IsHome j h = rw (i.entries j h) (i.recoverable.homes j (omega (arith, i.head)))

    -- The log block of an entry is read from the disk, and holds what the entry's sector shall hold.
    bread-entry : tail < s.lh.n → bread s (s.start + tail + 1) ≡ spec (s.lh.sector tail)
    unfolding bread
    bread-entry h =
        let not_dirty : s.dirty (s.start + tail + 1) ≡ none =
          i.clean (s.start + tail + 1) (λ j _ lt e.
            ground (arith, sector-IsHome j lt, i.recoverable.room, i.region.0, i.head)) in
        rw (not_dirty, bread)
          (ground (arith, i.entries tail h, i.recoverable.logged tail, i.region.0, i.head))

    install_step :
        tail < s.lh.n
        → Installing (tail + 1) (bwrite s (s.lh.sector tail) (bread s (s.start + tail + 1)))
    unfolding bwrite
    install_step h =
        let home = sector-IsHome tail h in
        let e = bread-entry h in
        let r = Recoverable-put start size (s.lh.sector tail) _ i.recoverable home e in
        record {
          region = i.region;
          recoverable = r;
          head = ground (arith, i.recoverable.room, i.head);
          entries = λ j lt. ground (arith, i.recoverable.room, i.entries j);
          done = λ j lt. ground (arith, i.done j);
          clean = λ x ne. ground (arith, i.clean x);
          traced = bwrite-Traced (s.lh.sector tail) _ i.traced (keep _ r);
        }

  install_run-Installing :
      (m n : ℕ) {tail : ℕ} {s : LogState}
      → Installing tail s
      → n ≡ s.lh.n
      → tail + m ≡ n
      → Installing n (install_run m tail s)
  unfolding install_run
  install_run-Installing zero n {tail} {s} i e h = let all : tail ≡ n = omega arith in rw (← all) i
  install_run-Installing (suc m) n {tail} {s} i e h =
      install_run-Installing m n (install_step i (omega arith))
        (e ∙ sym (lh-bwrite s (s.lh.sector tail) (bread s (s.start + tail + 1)))) (omega arith)

  -- What install_trans leaves: the home sectors hold `spec` and no buffer is dirty.
  pub record Installed (s : LogState) : Type 0 where
    pub region : (s.start ≡ start) × (s.size ≡ size)
    pub recoverable : Recoverable start size spec s.disk
    pub homes : (x : ℕ) → IsHome start size x → s.disk x ≡ spec x
    pub clean : (x : ℕ) → s.dirty x ≡ none
    pub traced : Traced P d₀ s

  pub Installing-Installed : {s : LogState} → Installing s.lh.n s → Installed s
  Installing-Installed {s} i = record {
    region = i.region;
    recoverable = i.recoverable;
    homes = λ x home. elim (search_sector s.lh.n s.lh.sector x) [
      | inl (j, h, e) ↦ rw (← e) (i.done j h)
      | inr not_there ↦
          i.recoverable.rest x home
            (λ j h e. not_there j (omega (arith, i.head)) (i.entries j (omega (arith, i.head)) ∙ e))
    ];
    clean = λ x. i.clean x (λ j a b. absurd (omega arith));
    traced = i.traced;
  }

  install_run-lh : (m tail : ℕ) (s : LogState) → (install_run m tail s).lh ≡ s.lh
  unfolding install_run bwrite
  install_run-lh zero tail s = refl
  install_run-lh (suc m) tail s = install_run-lh m (tail + 1) _

  pub install_trans-Installed : {s : LogState} → Installing 0 s → Installed (install_trans s)
  unfolding install_trans
  install_trans-Installed {s} i =
      Installing-Installed
        (rw (install_run-lh s.lh.n 0 s) (install_run-Installing s.lh.n s.lh.n i refl (omega arith)))

  -- Clearing the header of such a state.
  pub record Cleared (s : LogState) : Type 0 where
    pub region : (s.start ≡ start) × (s.size ≡ size)
    pub recoverable : Recoverable start size spec s.disk
    pub homes : (x : ℕ) → IsHome start size x → s.disk x ≡ spec x
    pub clean : (x : ℕ) → s.dirty x ≡ none
    pub traced : Traced P d₀ s
    pub empty : s.lh.n ≡ 0
    pub header : s.disk start 0 ≡ 0

  pub clear-Cleared : {s : LogState} → Installed s → Cleared (write_head (clear_head s))
  unfolding write_head bwrite
  clear-Cleared {s} i =
      let b : Block = set_word (bread (clear_head s) s.start) 0 0 in
      let r : Recoverable start size spec (put s.disk (record { at = s.start; block = b })) =
        Recoverable-clear start size s.start b i.region.0 (omega (arith, i.recoverable.room)) refl
          i.homes in
      let t = bwrite-Traced s.start b i.traced (keep _ r) in
      record {
        region = i.region;
        recoverable = r;
        homes = λ x home. ground (arith, i.homes x home, i.region.0, i.recoverable.room);
        clean = λ x. ground (arith, i.clean x);
        traced = record { now = t.now; all = t.all };
        empty = refl;
        header = ground (arith, i.region.0);
      }

  pub Cleared-busy : {s : LogState} → Cleared s → Cleared (record s { busy = false })
  Cleared-busy c = record {
    region = c.region;
    recoverable = c.recoverable;
    homes = c.homes;
    clean = c.clean;
    traced = record { now = c.traced.now; all = c.traced.all };
    empty = c.empty;
    header = c.header;
  }
