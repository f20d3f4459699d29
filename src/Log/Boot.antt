-- ===== src/Log/Boot.antt =====
-- Recovery at boot, crashes during recovery included.
use os.Base.{ℕ, zero, suc, ◌≡◌, refl, [], none, arith}
use os.Log.Sectors.{Disk, run_writes, crash}
use os.Log.{read_head, recover_from_log, boot}
use os.Log.Recovery.{IsHome, Recoverable, read_sectors_self}
use os.Log.Install.{Installing, Cleared, install_trans-Installed, clear-Cleared}

pub no_crash : (P : Disk → Type 0) (d : Disk) → P d → (k : ℕ) → P (crash d [] k)
unfolding run_writes
no_crash P d p zero = p
no_crash P d p (suc k) = p

module _ (start size : ℕ) {spec d : Disk} (r : Recoverable start size spec d) where
  read_head-Installing :
      Installing start size spec d
        (Recoverable start size spec)
        (λ e re. re)
        0
        (read_head (boot d start size))
  unfolding read_head run_writes
  read_head-Installing = record {
    region = (refl, refl);
    recoverable = r;
    head = refl;
    entries = λ i h. read_sectors_self (d start 0) (d start) (λ j. 0) i h;
    done = λ i h. absurd (omega arith);
    clean = λ x h. refl;
    traced = record { now = refl; all = no_crash (Recoverable start size spec) d r };
  }

  pub recover-Cleared :
      Cleared start size spec d
        (Recoverable start size spec)
        (λ e re. re)
        (recover_from_log (boot d start size))
  unfolding recover_from_log
  recover-Cleared =
      clear-Cleared start size spec d (Recoverable start size spec) (λ e re. re)
        (install_trans-Installed start size spec d (Recoverable start size spec) (λ e re. re)
          read_head-Installing)

-- A disk whose header and log blocks yield the contents `spec` is turned by recover_from_log into
-- one that holds `spec` on every home sector, with an empty log and no dirty buffer, and a crash
-- at any write of the recovery leaves a disk that yields `spec` again.
pub recovery_lem :
    (start size : ℕ) {spec d : Disk}
    → Recoverable start size spec d
    → let s = recover_from_log (boot d start size) in
      ((x : ℕ) → IsHome start size x → s.disk x ≡ spec x)
      × (s.disk start 0 ≡ 0)
      × (s.lh.n ≡ 0)
      × ((x : ℕ) → s.dirty x ≡ none)
      × (run_writes d s.trace ≡ s.disk)
      × ((k : ℕ) → Recoverable start size spec (crash d s.trace k))
recovery_lem start size r =
    let c = recover-Cleared start size r in
    (c.homes, c.header, c.empty, c.clean, c.traced.now, c.traced.all)
