-- ===== src/File.antt =====
-- file.c: the table of open files, and reads and writes through them. What it calls in pipe.c, fs.c
-- and log.c is an interface over the rest of the kernel's state.
pub mod Counts
pub mod Write
pub mod OnDisk
mod Tests
use os.Base.{
  ℕ, zero, suc, ◌+◌, ◌-◌, ◌*◌, ◌/◌, ◌==◌, ltb, if◌then◌else◌, Bool, true, false, not, Option, none,
  some, List, [], ◌∷◌, length, take, drop, modify,
}
use os.Base.{Outcome, ok, panic}
use os.Log.{log_size}

-- `none` as the result of a read or a write is -1.
pub record FileServices (R : Type 0) : Type 0 where
  pub pipeclose : R → ℕ → Bool → R
  pub piperead : R → ℕ → ℕ → Option (List ℕ) × R
  pub pipewrite : R → ℕ → List ℕ → Option ℕ × R
  pub ilock : R → ℕ → R
  pub iunlock : R → ℕ → R
  pub iput : R → ℕ → R
  pub readi : R → ℕ → ℕ → ℕ → Option (List ℕ) × R
  pub writei : R → ℕ → List ℕ → ℕ → Option ℕ × R
  pub begin_trans : R → R
  pub commit_trans : R → R

pub data FileType : Type 0 where
  fd_none fd_pipe fd_inode fd_symlnk : FileType

pub record File : Type 0 where
  pub type : FileType
  pub ref : ℕ
  pub readable : Bool
  pub writable : Bool
  pub pipe : ℕ
  pub ip : ℕ
  pub off : ℕ

-- The first slot from `i` on that is free.
unfoldable pub find_file : ℕ → List File → Option ℕ
find_file i [] = none
find_file i (f ∷ fs) = let rest = find_file (i + 1) fs in if f.ref == 0 then some i else rest

-- The slot of the new file, and the table.
unfoldable pub filealloc : List File → Option ℕ × List File
unfolding find_file
filealloc t = elim (find_file 0 t) [
  | none ↦ (none, t)
  | some i ↦ (some i, modify (λ f. record f { ref = 1 }) t i)
]

unfoldable pub filedup : File → Outcome File
filedup f = if ltb f.ref 1 then panic else ok (record f { ref = f.ref + 1 })

-- The bytes of one transaction of filewrite.
abbrev pub max_write : ℕ
max_write = (log_size - 1 - 1 - 2) / 2 * 512

module _ {R : Type 0} (sv : FileServices R) where
  -- What fileclose does for the last reference.
  abbrev pub release : R → File → R
  release r f = elim f.type [
    | fd_none ↦ r
    | fd_pipe ↦ sv.pipeclose r f.pipe f.writable
    | fd_inode ↦ sv.commit_trans (sv.iput (sv.begin_trans r) f.ip)
    | fd_symlnk ↦ r
  ]

  unfoldable pub fileclose : R → File → Outcome (File × R)
  fileclose r f =
      if ltb f.ref 1
      then panic
      else if ltb 0 (f.ref - 1)
      then ok (record f { ref = f.ref - 1 }, r)
      else ok (record f { ref = 0; type = fd_none }, release r f)

  -- fileread of `n` bytes; the bytes read are the result, and their number what the source returns.
  unfoldable pub fileread : R → File → ℕ → Outcome (Option (List ℕ) × File × R)
  fileread r f n = if not f.readable then ok (none, f, r) else elim f.type [
    | fd_none ↦ panic
    | fd_pipe ↦ let (got, r') = sv.piperead r f.pipe n in ok (got, f, r')
    | fd_inode ↦
        let (got, r') = sv.readi (sv.ilock r f.ip) f.ip f.off n in
        ok (
          got,
          record f { off = f.off + elim got [ none ↦ 0 | some bs ↦ length bs ] },
          sv.iunlock r' f.ip,
        )
    | fd_symlnk ↦ panic
  ]

  -- The loop of filewrite over the bytes that are left, with fuel: whether all were written, the
  -- offset, and the state.
  unfoldable pub write_chunks : ℕ → R → ℕ → ℕ → List ℕ → Outcome (Bool × ℕ × R)
  write_chunks zero r ip off cs = ok (true, off, r)
  write_chunks (suc fuel) r ip off [] = ok (true, off, r)
  write_chunks (suc fuel) r ip off (c ∷ cs) =
      let chunk = take max_write (c ∷ cs) in
      let (wrote, r') = sv.writei (sv.ilock (sv.begin_trans r) ip) ip chunk off in
      let r'' = sv.commit_trans (sv.iunlock r' ip) in
      elim wrote [
        | none ↦ ok (false, off, r'')
        | some m ↦
            let rest = write_chunks fuel r'' ip (off + m) (drop max_write (c ∷ cs)) in
            if m == length chunk then rest else panic
      ]

  -- Every round writes a byte or ends, so there are at most as many rounds as bytes.
  unfoldable pub filewrite : R → File → List ℕ → Outcome (Option ℕ × File × R)
  unfolding write_chunks
  filewrite r f cs = if not f.writable then ok (none, f, r) else elim f.type [
    | fd_none ↦ panic
    | fd_pipe ↦ let (n, r') = sv.pipewrite r f.pipe cs in ok (n, f, r')
    | fd_inode ↦ elim (write_chunks (length cs) r f.ip f.off cs) [
      | panic ↦ panic
      | ok (all, off, r') ↦ ok (if all then some (length cs) else none, record f { off = off }, r')
    ]
    | fd_symlnk ↦ panic
  ]
