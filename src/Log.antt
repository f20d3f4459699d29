-- ===== src/Log.antt =====
-- log.c: the redo log of the file system, over an abstract disk of one device.
-- A block is its array of 32-bit words. bread returns the block's buffer if it is dirty (bget never
-- recycles such a one), else the disk's block; a clean buffer holds what the disk holds. Each bwrite
-- writes one whole sector, and `trace` records these writes, oldest first.
pub mod Sectors
pub mod Recovery
pub mod Install
pub mod Boot
pub mod Logging
pub mod Commit
pub mod Atomic
mod Tests
use os.Base.{
  ℕ, zero, suc, ◌+◌, ◌-◌, ◌<◌, ◌==◌, ltb, leb, if◌then◌else◌, Bool, true, false, not, ◌||◌, List,
  [], ◌∷◌, ◌++◌, Option, none, some, sub32, Outcome, ok, panic, ◌>>=◌,
}
use Sectors.{Block, Disk, Write, put}

-- LOGSIZE
abbrev pub log_size : ℕ
log_size = 10

-- `struct logheader`
pub record LogHeader : Type 0 where
  pub n : ℕ
  pub sector : ℕ → ℕ

-- `struct log` with the disk, the dirty buffers, and the writes made so far.
pub record LogState : Type 0 where
  pub start : ℕ
  pub size : ℕ
  pub busy : Bool
  pub lh : LogHeader
  pub disk : Disk
  pub dirty : ℕ → Option Block
  pub trace : List Write

unfoldable pub bread : LogState → ℕ → Block
bread s x = elim (s.dirty x) [ some b ↦ b | none ↦ s.disk x ]

-- Marks the buffer dirty, writes it, and has it clean again.
unfoldable pub bwrite : LogState → ℕ → Block → LogState
bwrite s x b = record s {
  disk = put s.disk (record { at = x; block = b });
  dirty = λ y. if x == y then none else s.dirty y;
  trace = s.trace ++ (record { at = x; block = b } ∷ []);
}

abbrev pub set_word : Block → ℕ → ℕ → Block
set_word b i v j = if i == j then v else b j

-- hb->sector[i] = log.lh.sector[i] for i below the first argument; hb->n is word 0.
unfoldable pub write_sectors : ℕ → (ℕ → ℕ) → Block → Block
write_sectors zero sector b = b
write_sectors (suc i) sector b = set_word (write_sectors i sector b) (suc i) (sector i)

unfoldable pub write_head : LogState → LogState
unfolding bread bwrite write_sectors
write_head s =
    bwrite s s.start (write_sectors s.lh.n s.lh.sector (set_word (bread s s.start) 0 s.lh.n))

-- log.lh.sector[i] = lh->sector[i] for i below the first argument
unfoldable pub read_sectors : ℕ → Block → (ℕ → ℕ) → ℕ → ℕ
read_sectors zero b sector = sector
read_sectors (suc i) b sector = set_word (read_sectors i b sector) i (b (suc i))

unfoldable pub read_head : LogState → LogState
unfolding bread read_sectors
read_head s =
    let b = bread s s.start in
    record s { lh = record { n = b 0; sector = read_sectors (b 0) b s.lh.sector } }

-- The loop of install_trans: `m` rounds from `tail` on.
unfoldable pub install_run : ℕ → ℕ → LogState → LogState
unfolding bread bwrite
install_run zero tail s = s
install_run (suc m) tail s =
    install_run m (tail + 1) (bwrite s (s.lh.sector tail) (bread s (s.start + tail + 1)))

unfoldable pub install_trans : LogState → LogState
unfolding install_run
install_trans s = install_run s.lh.n 0 s

abbrev clear_head : LogState → LogState
clear_head s = record s { lh = record { n = 0; sector = s.lh.sector } }

unfoldable pub recover_from_log : LogState → LogState
unfolding read_head install_trans write_head
recover_from_log s = write_head (clear_head (install_trans (read_head s)))

-- initlog at boot: nothing is cached and the static `struct log` is zero. The superblock is sector 1:
-- its words are size, nblocks, ninodes, nlog.
abbrev pub boot : Disk → ℕ → ℕ → LogState
boot d start size = record {
  start = start;
  size = size;
  busy = false;
  lh = record { n = 0; sector = λ i. 0 };
  disk = d;
  dirty = λ x. none;
  trace = [];
}

unfoldable pub initlog : Disk → LogState
unfolding recover_from_log
initlog d = recover_from_log (boot d (sub32 (d 1 0) (d 1 3)) (d 1 3))

-- `none`: the caller sleeps until the transaction that is active has committed.
unfoldable pub begin_trans : LogState → Option LogState
begin_trans s = if s.busy then none else some (record s { busy = true })

unfoldable pub commit_trans : LogState → LogState
unfolding write_head install_trans
commit_trans s =
    let s' = if ltb 0 s.lh.n then write_head (clear_head (install_trans (write_head s))) else s in
    record s' { busy = false }

-- The search of log_write: the first of the entries i, …, i + m - 1 for `x`, else i + m.
unfoldable pub find_sector : ℕ → ℕ → (ℕ → ℕ) → ℕ → ℕ
find_sector zero i sector x = i
find_sector (suc m) i sector x =
    let rest = find_sector m (i + 1) sector x in if sector i == x then i else rest

-- `x` is b->sector and `b` is b->data.
unfoldable pub log_write : LogState → ℕ → Block → Outcome LogState
unfolding bwrite find_sector
log_write s x b =
    if leb log_size s.lh.n || leb (s.size - 1) s.lh.n
    then panic
    else if not s.busy
    then panic
    else (let i = find_sector s.lh.n 0 s.lh.sector x in
        let s' = bwrite s (s.start + i + 1) b in
        ok (record s' {
          lh = record {
            n = if i == s.lh.n then s.lh.n + 1 else s.lh.n;
            sector = set_word s.lh.sector i x;
          };
          dirty = λ y. if x == y then some b else s'.dirty y;
        }))

-- The log_write calls of one transaction.
unfoldable pub log_writes : LogState → List Write → Outcome LogState
unfolding log_write
log_writes s [] = ok s
log_writes s (w ∷ ws) = log_write s w.at w.block >>= λ s'. log_writes s' ws

-- A system call's transaction: begin_trans, its log_writes, commit_trans.
unfoldable pub transaction : LogState → List Write → Option (Outcome LogState)
unfolding begin_trans log_writes commit_trans
transaction s ws = elim (begin_trans s) [
  | none ↦ none
  | some s' ↦ some (log_writes s' ws >>= λ t. ok (commit_trans t))
]
