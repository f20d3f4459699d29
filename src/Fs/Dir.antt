-- ===== src/Fs/Dir.antt =====
-- fs.c: directories. The bytes of a name and of an entry are functions from offsets; a directory is
-- a slot of the inode cache, and what the code does with a slot that is not there is a panic here.
use os.Base.{
  ℕ, zero, suc, ◌+◌, ◌-◌, ◌*◌, ◌/◌, ◌%◌, ◌==◌, ltb, if◌then◌else◌, Bool, true, false, Option, none,
  some, List, get_elem?, modify, add32, Outcome, ok, panic, ◌>>=◌,
}
use os.Str.{strncmp, strncpy}
use os.Fs.Disk.{Disk}
use os.Fs.Inode.{Inode, iget, iput}
use os.Fs.Io.{ReadDriver, WriteDriver, readi, writei}

-- The drivers in devsw, by the device.
pub record Drivers : Type 0 where
  pub read : ℕ → Option ReadDriver
  pub write : ℕ → Option WriteDriver

-- de.inum, the first two bytes of an entry, and de.name, the other 14.
abbrev pub de_inum : (ℕ → ℕ) → ℕ
de_inum de = de 0 + 256 * de 1

-- An entry at the address 0 of a memory, and a name behind it.
abbrev pub in_memory : (ℕ → ℕ) → (ℕ → ℕ) → ℕ → ℕ
in_memory de name i = if ltb i 16 then de i else name (i - 16)

-- namecmp(name, de.name)
unfoldable pub namecmp : (ℕ → ℕ) → (ℕ → ℕ) → ℕ
unfolding strncmp
namecmp name de = strncmp (in_memory de name) 16 2 14

-- The inode number and the offset.
abbrev pub Hit : Type 0
Hit = Option (ℕ × ℕ)

abbrev pub is_entry : Option ℕ → Bool
is_entry none = false
is_entry (some n) = n == 16

unfoldable pub scan_dir :
    ℕ → Drivers → Disk → Inode → (ℕ → ℕ) → (ℕ → ℕ) → ℕ → Outcome (Hit × Inode × Disk)
unfolding readi namecmp
scan_dir zero devsw d dp de name off = ok (none, dp, d)
scan_dir (suc k) devsw d dp de name off =
    let looked = λ (r : Option ℕ × (ℕ → ℕ) × Inode × Disk).
      let rest = scan_dir k devsw r.3 r.2 r.1 name (add32 off 16) in
      if is_entry r.0
      then (if de_inum r.1 == 0
          then rest
          else if namecmp name r.1 == 0
          then ok (some (de_inum r.1, off), r.2, r.3)
          else rest)
      else panic in
    if ltb off dp.disk.size then (readi devsw.read d dp de off 16 >>= looked) else ok (none, dp, d)

-- The slot of the inode and the offset of the entry; one round for each byte of the directory.
unfoldable pub dirlookup :
    Drivers → Disk → List Inode → ℕ → (ℕ → ℕ) → (ℕ → ℕ) → Outcome (Hit × List Inode × Disk)
unfolding scan_dir iget
dirlookup devsw d c p de name = elim (get_elem? c p) [
  | none ↦ panic
  | some dp ↦
      if dp.disk.type == 1
      then (scan_dir dp.disk.size devsw d dp de name 0 >>= λ r.
          let c' = modify (λ ip. r.1) c p in
          elim r.0 [
            | none ↦ ok (none, c', r.2)
            | some (inum, off) ↦ iget c' dp.dev inum >>= λ s. ok (some (s.0, off), s.1, r.2)
          ])
      else panic
]

-- The loop of dirlink: the offset of a free entry or the end, and the entry read last.
unfoldable pub free_entry :
    ℕ → Drivers → Disk → Inode → (ℕ → ℕ) → ℕ → Outcome (ℕ × (ℕ → ℕ) × Inode × Disk)
unfolding readi
free_entry zero devsw d dp de off = ok (off, de, dp, d)
free_entry (suc k) devsw d dp de off =
    let looked = λ (r : Option ℕ × (ℕ → ℕ) × Inode × Disk).
      let rest = free_entry k devsw r.3 r.2 r.1 (add32 off 16) in
      if is_entry r.0
      then (if de_inum r.1 == 0 then ok (off, r.1, r.2, r.3) else rest)
      else panic in
    if ltb off dp.disk.size
    then (readi devsw.read d dp de off 16 >>= looked)
    else ok (off, de, dp, d)

-- de.inum = inum;
abbrev pub numbered : (ℕ → ℕ) → ℕ → ℕ → ℕ
numbered de inum i = if i == 0 then inum % 256 else if i == 1 then inum / 256 % 256 else de i

-- strncpy(de.name, name, DIRSIZ); de.inum = inum;
abbrev pub filled_entry : (ℕ → ℕ) → (ℕ → ℕ) → ℕ → ℕ → ℕ
filled_entry de name inum = numbered (strncpy 14 (in_memory de name) 2 16) inum

-- if(writei(…) != sizeof(de)) panic("dirlink");
abbrev pub whole_entry : Option ℕ × Inode × Disk → Outcome (Inode × Disk)
whole_entry (r, dp, d) = if is_entry r then ok (dp, d) else panic

abbrev pub write_entry : Drivers → (ℕ → ℕ) → ℕ → ℕ × (ℕ → ℕ) × Inode × Disk → Outcome (Inode × Disk)
write_entry devsw name inum (off, de, dp, d) =
    writei devsw.write d dp (filled_entry de name inum) off 16 >>= whole_entry

-- dirlink from the search for a free entry on.
abbrev pub link_entry : Drivers → Disk → Inode → (ℕ → ℕ) → (ℕ → ℕ) → ℕ → Outcome (Inode × Disk)
link_entry devsw d dp de name inum =
    free_entry dp.disk.size devsw d dp de 0 >>= write_entry devsw name inum

-- dirlink from dirlookup on; `false` is -1. iput is called for the inode that iget gave.
abbrev pub after_lookup :
    Drivers
    → ℕ
    → (ℕ → ℕ)
    → (ℕ → ℕ)
    → ℕ
    → Hit × List Inode × Disk
    → Outcome (Bool × List Inode × Disk)
after_lookup devsw p de name inum (some (slot, off), c, d) = elim (get_elem? c slot) [
  | none ↦ panic
  | some ip ↦ iput d ip >>= λ q. ok (false, modify (λ old. q.0) c slot, q.1)
]
after_lookup devsw p de name inum (none, c, d) = elim (get_elem? c p) [
  | none ↦ panic
  | some dp ↦ link_entry devsw d dp de name inum >>= λ w. ok (true, modify (λ old. w.0) c p, w.1)
]

abbrev pub dirlink :
    Drivers → Disk → List Inode → ℕ → (ℕ → ℕ) → (ℕ → ℕ) → ℕ → Outcome (Bool × List Inode × Disk)
dirlink devsw d c p de name inum =
    dirlookup devsw d c p de name >>= after_lookup devsw p de name inum
