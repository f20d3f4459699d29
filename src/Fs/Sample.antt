-- ===== src/Fs/Sample.antt =====
-- A small disk and a file on it.
use os.Base.{ℕ, ◌≡◌, ◌≢◌, refl, ap, subst, ◌==◌, true, false, arith, Bool-cases, inl, inr}
use os.Fs.Disk.{Disk, put}
use os.Fs.Inode.{Inode, fresh}
use os.Fs.Tree.{Slot, addr, single, double, leaf, is_slot, pointer, IsTree}

-- A disk whose blocks 1 to 4 are free.
abbrev pub disk_of : (ℕ → ℕ → ℕ) → Disk
disk_of words = record {
  size = 8;
  ninodes = 4;
  used = put (put (λ b. false) 0 true) 5 true;
  words = words;
  dinode = λ i. fresh 0;
}

-- A file that has the block 5.
abbrev pub file_of : ℕ → ℕ → Inode
file_of type size = record {
  dev = 1;
  inum = 2;
  ref = 1;
  busy = true;
  valid = true;
  symlnk = false;
  disk = record (fresh type) { size = size; addrs = put (λ i. 0) 0 5 };
}

module _ (words : ℕ → ℕ → ℕ) (type size : ℕ) where
  place_of :
      (s : Slot)
      → is_slot s ≡ true
      → pointer (disk_of words) (file_of type size).disk.addrs s ≢ 0
      → addr 0 ≡ s
  place_of (addr i) is_s real = elim (Bool-cases (0 == i)) [
    | inl e ↦ ap addr (ground arith)
    | inr e ↦ absurd (real (rw e refl))
  ]
  place_of (single i) is_s real = absurd (real refl)
  place_of (double i) is_s real = absurd (real refl)
  place_of (leaf i j) is_s real = absurd (real refl)

  pub file_of-IsTree : IsTree (disk_of words) (file_of type size).disk.addrs (λ b. addr 0)
  file_of-IsTree = record {
    reserved = refl;
    used = λ s is_s real.
        subst
          (λ x.
            (disk_of words).used (pointer (disk_of words) (file_of type size).disk.addrs x) ≡ true)
          (place_of s is_s real) refl;
    own = place_of;
  }
