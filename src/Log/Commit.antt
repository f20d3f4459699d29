-- ===== src/Log/Commit.antt =====
-- A whole transaction, and every crash in it.
use os.Base.{
  ℕ, suc, ◌+◌, ◌-◌, ◌≤◌, ◌<◌, ◌≡◌, ◌≢◌, ◌⊎◌, inl, inr, refl, sym, ap, ◌∙◌, true, false, none, some,
  List, [], ◌∷◌, arith, ltb, length, Bool-cases,
}
use os.Log.Sectors.{Block, Disk, Write, put, run_writes}
use os.Base.{ok}
use os.Log.{
  LogState, log_size, bread, bwrite, set_word, write_sectors, write_head, commit_trans, log_write,
  log_writes, transaction,
}
use os.Log.Recovery.{
  IsHome, Recoverable, Traced, bwrite-Traced, write_sectors_self, write_sectors-zero,
}
use os.Log.Install.{Installing, Cleared, install_trans-Installed, clear-Cleared, Cleared-busy}
use os.Log.Boot.{no_crash}
use os.Log.Logging.{Logging, log_write-ok, after, absorbed, appended, find_sector_lem}

abbrev pub AllHome : ℕ → ℕ → List Write → Type 0
AllHome start size [] = Unit {0}
AllHome start size (w ∷ ws) = IsHome start size w.at × AllHome start size ws

-- What a crash in a transaction from `d₀` to `spec` leaves.
abbrev pub OldOrNew : ℕ → ℕ → Disk → Disk → Disk → Type 0
OldOrNew start size d₀ spec d = Recoverable start size d₀ d ⊎ Recoverable start size spec d

module _ (start size : ℕ) (d₀ : Disk) (empty : d₀ start 0 ≡ 0) where
  log_write-Logging :
      {spec : Disk} {s : LogState} (w : Write)
      → Logging start size d₀ spec s
      → IsHome start size w.at
      → (s.lh.n < log_size) × (s.lh.n < size - 1)
      → (t : LogState) × (log_write s w.at w.block ≡ ok t)
        × Logging start size d₀ (put spec w) t
        × (t.lh.n ≤ s.lh.n + 1)
  log_write-Logging {s} w l home fits = (
    after start size d₀ l w.at w.block home empty fits,
    log_write-ok start size d₀ l w.at w.block home empty fits,
    elim (find_sector_lem s.lh.n 0 s.lh.sector w.at) [
      | inl (a, b, e) ↦ absorbed start size d₀ l w.at w.block home empty fits (omega arith) e
      | inr (e, new) ↦
          appended start size d₀ l w.at w.block home empty fits (omega arith)
            (λ i h. new i (omega arith) (omega arith))
    ],
    ground arith,
  )

  log_writes-Logging :
      (ws : List Write) {spec : Disk} {s : LogState}
      → Logging start size d₀ spec s
      → AllHome start size ws
      → (s.lh.n + length ws ≤ log_size) × (s.lh.n + length ws ≤ size - 1)
      → (t : LogState) × (log_writes s ws ≡ ok t) × Logging start size d₀ (run_writes spec ws) t
  unfolding log_writes run_writes
  log_writes-Logging [] {s} l home fits = (s, refl, l)
  log_writes-Logging (w ∷ ws) l home fits =
      let (t, e, l', n) = log_write-Logging w l home.0 (omega arith) in
      let (u, e', l'') = log_writes-Logging ws l' home.1 (omega arith) in (u, rw e e', l'')

  module _ {spec : Disk} {s : LogState} (l : Logging start size d₀ spec s) where
    head_block : Block
    head_block = write_sectors s.lh.n s.lh.sector (set_word (bread s s.start) 0 s.lh.n)

    with_head : Disk
    with_head = put s.disk (record { at = s.start; block = head_block })

    head-start : with_head start ≡ head_block
    unfolding with_head
    head-start = ground (arith, l.region.0)

    head-count : with_head start 0 ≡ s.lh.n
    unfolding head_block
    head-count = rw head-start (write_sectors-zero s.lh.n s.lh.sector _)

    head-sector : (i : ℕ) → i < s.lh.n → with_head start (suc i) ≡ s.lh.sector i
    unfolding head_block
    head-sector i h = rw head-start (write_sectors_self s.lh.n s.lh.sector _ i h)

    head-other : (x : ℕ) → x ≢ start → with_head x ≡ s.disk x
    unfolding with_head
    head-other x ne = ground (arith, l.region.0)

    home-unlogged : (x : ℕ) → IsHome start size x → s.disk x ≡ d₀ x
    home-unlogged x home = l.other x (λ i h. omega (arith, l.room))

    -- Once the header is written, recovery yields the new contents.
    head-Recoverable : Recoverable start size spec with_head
    head-Recoverable = record {
      room = omega (arith, head-count, l.room);
      small = omega (arith, head-count, l.small);
      homes = λ i h.
          let lt : i < s.lh.n = omega (arith, head-count) in rw (head-sector i lt) (l.homes i lt);
      logged = λ i h.
          let lt : i < s.lh.n = omega (arith, head-count) in
          rw (head-sector i lt) (head-other (start + i + 1) (omega arith) ∙ l.logged i lt);
      rest = λ x home ne.
          head-other x (omega (arith, l.room))
          ∙ (home-unlogged x home
              ∙ sym
                  (l.unlogged x (λ i h e. ne i (omega (arith, head-count)) (head-sector i h ∙ e))));
    }

    old-Traced : Traced (OldOrNew start size d₀ spec) d₀ s
    old-Traced = record { now = l.traced.now; all = λ k. inl (l.traced.all k) }

    head-Installing :
        Installing start size spec d₀ (OldOrNew start size d₀ spec) (λ d r. inr r) 0 (write_head s)
    unfolding write_head bwrite head_block with_head
    head-Installing =
        let t = bwrite-Traced s.start head_block old-Traced (inr head-Recoverable) in
        record {
          region = l.region;
          recoverable = head-Recoverable;
          head = sym head-count;
          entries = λ i h. sym (head-sector i h);
          done = λ i h. absurd (omega arith);
          clean = λ x ne. ground (arith, l.clean x (λ i. ne i (omega arith)));
          traced = record { now = t.now; all = t.all };
        }

    -- A transaction that logged nothing has nothing to install.
    idle-Cleared :
        0 < size
        → s.lh.n ≡ 0
        → Cleared start size spec d₀ (OldOrNew start size d₀ spec) (λ d r. inr r) s
    idle-Cleared pos e =
        let header : s.disk start 0 ≡ 0 =
          ap (λ (b : Block). b 0) (l.other start (λ i h. omega arith)) ∙ empty in
        let homes = λ (x : ℕ) (home : IsHome start size x).
          home-unlogged x home ∙ sym (l.unlogged x (λ i h. absurd (omega arith))) in
        record {
          region = l.region;
          recoverable = record {
            room = omega arith;
            small = omega arith;
            homes = λ i h. absurd (omega arith);
            logged = λ i h. absurd (omega arith);
            rest = λ x home _. homes x home;
          };
          homes = homes;
          clean = λ x. l.clean x (λ i h. absurd (omega arith));
          traced = old-Traced;
          empty = e;
          header = header;
        }

    -- commit_trans leaves the new contents on the home sectors and an empty log.
    commit-Cleared :
        0 < size
        → Cleared start size spec d₀ (OldOrNew start size d₀ spec) (λ d r. inr r) (commit_trans s)
    unfolding commit_trans
    commit-Cleared pos = elim (Bool-cases (ltb 0 s.lh.n)) [
      | inl more ↦ rw more (
          Cleared-busy start size spec d₀ (OldOrNew start size d₀ spec) (λ d r. inr r)
            (clear-Cleared start size spec d₀ (OldOrNew start size d₀ spec) (λ d r. inr r)
              (install_trans-Installed start size spec d₀ (OldOrNew start size d₀ spec)
                (λ d r. inr r) head-Installing)))
      | inr nothing ↦ rw nothing (
          Cleared-busy start size spec d₀ (OldOrNew start size d₀ spec) (λ d r. inr r)
            (idle-Cleared pos (ground arith)))
    ]

-- No transaction is active, the log is empty, in memory and on disk, and no buffer is dirty.
-- `trace` counts the writes from here on.
pub record IsIdle (s : LogState) : Type 0 where
  pub free : s.busy ≡ false
  pub room : 0 < s.size
  pub empty : s.lh.n ≡ 0
  pub header : s.disk s.start 0 ≡ 0
  pub clean : (x : ℕ) → s.dirty x ≡ none
  pub fresh : s.trace ≡ []

transaction-ok :
    (s : LogState) {t : LogState} (ws : List Write)
    → s.busy ≡ false
    → log_writes (record s { busy = true }) ws ≡ ok t
    → transaction s ws ≡ some (ok (commit_trans t))
unfolding transaction
transaction-ok s ws free e = rw (free, e)

commit-free : (s : LogState) → (commit_trans s).busy ≡ false
unfolding commit_trans
commit-free s = refl

module _ {s : LogState} (i : IsIdle s) where
  begin-Logging : Logging s.start s.size s.disk s.disk (record s { busy = true })
  unfolding run_writes
  begin-Logging = record {
    region = (refl, refl);
    busy = refl;
    room = omega (arith, i.room, i.empty);
    small = omega (arith, i.empty);
    homes = λ j h. absurd (omega (arith, i.empty));
    distinct = λ j k h _ _. absurd (omega (arith, i.empty));
    logged = λ j h. absurd (omega (arith, i.empty));
    other = λ x _. refl;
    unlogged = λ x _. refl;
    clean = λ x _. i.clean x;
    traced = record {
      now = rw i.fresh;
      all =
          λ k. rw i.fresh (no_crash (Recoverable s.start s.size s.disk) s.disk start-Recoverable k);
    };
  }
    where
      start-Recoverable : Recoverable s.start s.size s.disk s.disk
      start-Recoverable = record {
        room = omega (arith, i.room, i.header);
        small = omega (arith, i.header);
        homes = λ j h. absurd (omega (arith, i.header));
        logged = λ j h. absurd (omega (arith, i.header));
        rest = λ x _ _. refl;
      }

  -- A transaction that fits the log succeeds, and leaves the log idle and the home sectors with all
  -- its writes.
  pub transaction-Cleared :
      (ws : List Write)
      → AllHome s.start s.size ws
      → (length ws ≤ log_size) × (length ws < s.size)
      → (t : LogState) × (transaction s ws ≡ some (ok t))
        × (t.busy ≡ false)
        × Cleared s.start s.size
            (run_writes s.disk ws)
            s.disk
            (OldOrNew s.start s.size s.disk (run_writes s.disk ws))
            (λ d r. inr r)
            t
  unfolding transaction
  transaction-Cleared ws homes fits =
      let (t, e, l) =
        log_writes-Logging s.start s.size s.disk i.header ws begin-Logging homes
          (omega (arith, i.empty)) in
      (
        commit_trans t,
        transaction-ok s ws i.free e,
        commit-free t,
        commit-Cleared s.start s.size s.disk i.header l i.room,
      )
