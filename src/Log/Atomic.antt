-- ===== src/Log/Atomic.antt =====
-- What the file system relies on: a transaction happens wholly or not at all.
use os.Base.{ℕ, ◌≤◌, ◌<◌, ◌≡◌, ◌∙◌, sym, ◌⊎◌, inl, inr, false, Option, none, some, List, length}
use os.Log.Sectors.{Disk, Write, run_writes, crash}
use os.Base.{Outcome, ok}
use os.Log.{LogState, log_size, transaction, recover_from_log, boot}
use os.Log.Recovery.{IsHome, Recoverable}
use os.Log.Boot.{recovery_lem}
use os.Log.Commit.{AllHome, IsIdle, transaction-Cleared}

-- `d` holds `spec` on all sectors outside the log region.
abbrev pub Holds : ℕ → ℕ → Disk → Disk → Type 0
Holds start size spec d = (x : ℕ) → IsHome start size x → d x ≡ spec x

-- the disk that recovery at boot leaves, if the machine stops after `j` writes of a first recovery
abbrev pub recovered : ℕ → ℕ → Disk → ℕ → Disk
recovered start size d j =
    (recover_from_log
      (boot (crash d (recover_from_log (boot d start size)).trace j) start size)).disk

recovered-Holds :
    (start size : ℕ) {spec d : Disk} (j : ℕ)
    → Recoverable start size spec d
    → Holds start size spec (recovered start size d j)
recovered-Holds start size j r = (recovery_lem start size ((recovery_lem start size r).5 j)).0

done-injective :
    {a b : LogState} → ◌≡◌ {A = Option (Outcome LogState)} (some (ok a)) (some (ok b)) → a ≡ b
done-injective e = cc

module _ (s : LogState) (ws : List Write) (i : IsIdle s) (home : AllHome s.start s.size ws)
    (fits : (length ws ≤ log_size) × (length ws < s.size)) where
  pub transaction_lem :
      (t : LogState) × (transaction s ws ≡ some (ok t))
      × Holds s.start s.size (run_writes s.disk ws) t.disk
      × (t.busy ≡ false)
      × (t.lh.n ≡ 0)
      × (t.disk s.start 0 ≡ 0)
      × ((x : ℕ) → t.dirty x ≡ none)
  transaction_lem =
      let (t, e, free, c) = transaction-Cleared i ws home fits in
      (t, e, c.homes, free, c.empty, c.header, c.clean)

  -- Let the machine stop after any k sector writes of a transaction (at most LOGSIZE log_write
  -- calls to sectors outside the log, on an idle log whose region they fit), and stop again after
  -- any j writes of the recovery at the next boot. The recovery after that leaves all home sectors
  -- as before the transaction, or all of them as after it.
  pub crash_atomic :
      {t : LogState}
      → transaction s ws ≡ some (ok t)
      → (k j : ℕ)
      → Holds s.start s.size s.disk (recovered s.start s.size (crash s.disk t.trace k) j)
        ⊎ Holds s.start s.size
            (run_writes s.disk ws)
            (recovered s.start s.size (crash s.disk t.trace k) j)
  crash_atomic {t} e k j =
      let (t', e', free, c) = transaction-Cleared i ws home fits in
      let same : t' ≡ t = done-injective (sym e' ∙ e) in
      rw (← same) (elim (c.traced.all k) [
        | inl old ↦ inl (recovered-Holds s.start s.size j old)
        | inr new ↦ inr (recovered-Holds s.start s.size j new)
      ])
