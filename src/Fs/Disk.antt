-- ===== src/Fs/Disk.antt =====
-- The disk as fs.c sees it inside a transaction, where bread returns what log_write left: the
-- bitmap, the inodes and the words of the other blocks. There is one disk, and its buffers are not
-- shared with other processes here.
use os.Base.{ℕ, zero, suc, ◌+◌, ◌==◌, if◌then◌else◌, Bool, true, false, Option, none, some}
use os.Base.{Outcome, ok, panic}

abbrev pub ndirect : ℕ
ndirect = 12

abbrev pub nindirect : ℕ
nindirect = 128

abbrev pub dindirect : ℕ
dindirect = 16384

-- `struct dinode`; addrs[i] is 0 where no block is allocated.
pub record Dinode : Type 0 where
  pub type : ℕ
  pub major : ℕ
  pub minor : ℕ
  pub nlink : ℕ
  pub size : ℕ
  pub addrs : ℕ → ℕ
  pub tags : ℕ
  pub tags_counter : ℕ

-- `size` and `ninodes` are the superblock's, and `used b` the bit of block b in the bitmap.
pub record Disk : Type 0 where
  pub size : ℕ
  pub ninodes : ℕ
  pub used : ℕ → Bool
  pub words : ℕ → ℕ → ℕ
  pub dinode : ℕ → Dinode

-- a[i] = v
abbrev pub put {ℓ} : {A : Type ℓ} → (ℕ → A) → ℕ → A → ℕ → A
put a i v j = if i == j then v else a j

abbrev pub set_word : Disk → ℕ → ℕ → ℕ → Disk
set_word d b i v = record d { words = put d.words b (put (d.words b) i v) }

unfoldable pub bzero : Disk → ℕ → Disk
bzero d b = record d { words = put d.words b (λ i. 0) }

-- The scan of balloc, bitmap block after bitmap block and bit after bit: the first free one of the
-- blocks b, …, b + n - 1.
unfoldable pub find_free : ℕ → ℕ → (ℕ → Bool) → Option ℕ
find_free zero b used = none
find_free (suc n) b used = let rest = find_free n (b + 1) used in if used b then rest else some b

unfoldable pub balloc : Disk → Outcome (ℕ × Disk)
unfolding find_free bzero
balloc d = elim (find_free d.size 0 d.used) [
  | none ↦ panic
  | some b ↦ ok (b, bzero (record d { used = put d.used b true }) b)
]

unfoldable pub bfree : Disk → ℕ → Outcome Disk
bfree d b = if d.used b then ok (record d { used = put d.used b false }) else panic
