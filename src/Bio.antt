-- ===== src/Bio.antt =====
-- bio.c: the buffer cache, with iderw of memide.c as it sees it. The buffers are in the order of the
-- list from head.next on, the most recently used first. A pointer to a buffer is its device and
-- sector, which no other buffer in use has. Each function is one critical section of
-- bcache.lock, up to its sleep.
pub mod Buffers
pub mod Recycle
pub mod Content
pub mod Transfer
pub mod Access
pub mod Through
mod Tests
use os.Base.{
  ℕ, zero, suc, ◌==◌, if◌then◌else◌, Bool, true, false, not, ◌&&◌, ◌||◌, leb, Option, none, some,
  List, [], ◌∷◌,
}

pub record Buf : Type 0 where
  pub dev : ℕ
  pub sector : ℕ
  pub busy : Bool
  pub valid : Bool
  pub dirty : Bool
  pub bytes : List ℕ

-- `disk_size` is disksize, the number of sectors of the disk.
pub record Cache : Type 0 where
  pub bufs : List Buf
  pub disk : ℕ → ℕ → List ℕ
  pub disk_size : ℕ

-- NBUF, and the device -1 that binit gives to every buffer
abbrev pub nbuf : ℕ
nbuf = 10

abbrev pub no_dev : ℕ
no_dev = 0xffffffff

abbrev pub unused : Buf
unused = record { dev = no_dev; sector = 0; busy = false; valid = false; dirty = false; bytes = [] }

abbrev pub unused_bufs : ℕ → List Buf
unused_bufs zero = []
unused_bufs (suc n) = unused ∷ unused_bufs n

abbrev pub binit : (ℕ → ℕ → List ℕ) → ℕ → Cache
binit disk disk_size = record { bufs = unused_bufs nbuf; disk = disk; disk_size = disk_size }

abbrev pub is_for : ℕ → ℕ → Buf → Bool
is_for dev sector b = (b.dev == dev) && (b.sector == sector)

-- The first buffer of the sector.
abbrev pub cached : ℕ → ℕ → List Buf → Option Buf
cached dev sector [] = none
cached dev sector (b ∷ bs) =
    let rest = cached dev sector bs in if is_for dev sector b then some b else rest

-- A change of that buffer.
abbrev pub change : (Buf → Buf) → ℕ → ℕ → List Buf → List Buf
change f dev sector [] = []
change f dev sector (b ∷ bs) =
    let rest = change f dev sector bs in if is_for dev sector b then f b ∷ bs else b ∷ rest

abbrev pub take_out : ℕ → ℕ → List Buf → List Buf
take_out dev sector [] = []
take_out dev sector (b ∷ bs) =
    let rest = take_out dev sector bs in if is_for dev sector b then bs else b ∷ rest

abbrev pub hold : Buf → Buf
hold b = record b { busy = true }

abbrev pub let_go : Buf → Buf
let_go b = record b { busy = false }

-- The buffer for a sector that was not cached; its bytes are the old ones.
abbrev pub renew : ℕ → ℕ → Buf → Buf
renew dev sector b = record {
  dev = dev;
  sector = sector;
  busy = true;
  valid = false;
  dirty = false;
  bytes = b.bytes;
}

-- The loop from head.prev on: the least recently used buffer that is neither busy nor dirty.
abbrev pub recycle : ℕ → ℕ → List Buf → Option (List Buf)
recycle dev sector [] = none
recycle dev sector (b ∷ bs) =
    let free = not b.busy && not b.dirty in
    elim (recycle dev sector bs) [
      | some bs' ↦ some (b ∷ bs')
      | none ↦ if free then some (renew dev sector b ∷ bs) else none
    ]

-- Asleep on a buffer that is busy, to start again at the label `loop`.
pub data Got : Type 0 where
  held : Cache → Got
  asleep : Got
  panic : Got

unfoldable pub bget : ℕ → ℕ → Cache → Got
bget dev sector s = elim (cached dev sector s.bufs) [
  | some b ↦ if b.busy then asleep else held (record s { bufs = change hold dev sector s.bufs })
  | none ↦ elim (recycle dev sector s.bufs) [
    | none ↦ panic
    | some bs ↦ held (record s { bufs = bs })
  ]
]

abbrev pub put_sector : (ℕ → ℕ → List ℕ) → Buf → ℕ → ℕ → List ℕ
put_sector disk b dev sector = if is_for dev sector b then b.bytes else disk dev sector

-- memide.c: a dirty buffer is written, another one is read.
abbrev pub transferred : (ℕ → ℕ → List ℕ) → Buf → Buf
transferred disk b = record b {
  bytes = if b.dirty then b.bytes else disk b.dev b.sector;
  dirty = false;
  valid = true;
}

-- The requests that iderw bad_request: a buffer that is not busy, one with nothing to do, another
-- disk than 1, or a sector out of range.
abbrev pub bad_request : ℕ → Buf → Bool
bad_request disk_size b =
    not b.busy || ((b.valid && not b.dirty) || (not (b.dev == 1) || leb disk_size b.sector))

abbrev pub iderw : ℕ → ℕ → Cache → Got
iderw dev sector s = elim (cached dev sector s.bufs) [
  | none ↦ panic
  | some b ↦
      if bad_request s.disk_size b
      then panic
      else held (record s {
        bufs = change (transferred s.disk) dev sector s.bufs;
        disk = if b.dirty then put_sector s.disk b else s.disk;
      })
]

-- bread from bget on.
abbrev pub fill : ℕ → ℕ → Cache → Got
fill dev sector s = elim (cached dev sector s.bufs) [
  | none ↦ panic
  | some b ↦ if b.valid then held s else iderw dev sector s
]

unfoldable pub bread : ℕ → ℕ → Cache → Got
bread dev sector s = elim (bget dev sector s) [
  | held t ↦ fill dev sector t
  | asleep ↦ asleep
  | panic ↦ panic
]

abbrev pub soil : Buf → Buf
soil b = record b { dirty = true }

unfoldable pub bwrite : ℕ → ℕ → Cache → Got
bwrite dev sector s = elim (cached dev sector s.bufs) [
  | none ↦ panic
  | some b ↦
      if not b.busy
      then panic
      else iderw dev sector (record s { bufs = change soil dev sector s.bufs })
]

unfoldable pub brelse : ℕ → ℕ → Cache → Got
brelse dev sector s = elim (cached dev sector s.bufs) [
  | none ↦ panic
  | some b ↦
      if not b.busy then panic else held (record s { bufs = let_go b ∷ take_out dev sector s.bufs })
]
