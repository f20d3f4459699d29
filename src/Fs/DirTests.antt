-- ===== src/Fs/DirTests.antt =====
-- Instances of the theorems about directories.
use os.Base.{
  ℕ, ◌+◌, ◌*◌, ◌/◌, ◌≡◌, refl, subst, ◌==◌, if◌then◌else◌, true, none, some, arith, [], ◌∷◌, ok,
  ◌>>=◌,
}
use os.Str.{strncmp}
use os.Str.Compare.{IsString}
use os.Fs.Disk.{Disk}
use os.Fs.Inode.{Inode, bmap, addr_of, iget}
use os.Fs.Tree.{addr, pointer}
use os.Fs.Grown.{slot_of}
use os.Fs.Io.{copy_in, copy_out, put_block, read_run, readi, write_run, writei}
use os.Fs.Dir.{Drivers, Hit, namecmp, scan_dir, dirlookup, free_entry, filled_entry, dirlink}
use os.Fs.Lookup.{IsDirectory, IsFirst, opened, dirlookup_lem}
use os.Fs.Linked.{dirlookup-dirlink}
use os.Fs.Sample.{disk_of, file_of, file_of-IsTree}

-- A directory with the entry "a", the inode 3, and a free entry.
abbrev words : ℕ → ℕ → ℕ
words b i = if i == 0 then 3 + 97 * 65536 else 0

abbrev disk : Disk
disk = disk_of words

abbrev dir : Inode
dir = file_of 1 32

abbrev no_drivers : Drivers
no_drivers = record { read = λ i. none; write = λ i. none }

dir-IsDirectory : IsDirectory disk dir (λ b. addr 0)
dir-IsDirectory = record {
  is_dir = refl;
  whole = refl;
  bound = omega arith;
  tree = file_of-IsTree words 1 32;
  present = λ p lt z.
      let first : p / 512 ≡ 0 = omega arith in
      let five : 5 ≡ 0 = subst (λ x. pointer disk dir.disk.addrs (slot_of x) ≡ 0) first z in
      absurd (omega arith);
}

-- The name "b".
abbrev letter_b : ℕ → ℕ
letter_b i = if i == 0 then 98 else 0

letter_b-IsString : IsString letter_b 0 1
letter_b-IsString = record { nul = refl; bytes = λ i lt. ground arith }

abbrev nothing : ℕ → ℕ
nothing i = 0

abbrev last_read : ℕ → ℕ
last_read = copy_out (copy_out nothing 0 (words 5) 0 16) 0 (words 5) 16 16

abbrev linked : Disk
linked = put_block disk 5 (copy_in (words 5) 16 (λ i. filled_entry last_read letter_b 7 (0 + i)) 16)

linked_lem : dirlink no_drivers disk (dir ∷ []) 0 nothing letter_b 7 ≡ ok (true, dir ∷ [], linked)
unfolding dirlookup scan_dir namecmp strncmp free_entry readi read_run writei write_run bmap addr_of
linked_lem = refl

dirlookup-dirlink_example :
    (off : ℕ) × (dirlookup no_drivers linked (dir ∷ []) 0 nothing letter_b
      ≡ (iget (dir ∷ []) 1 7 >>= λ s. ok (some (s.0, off), s.1, linked)))
dirlookup-dirlink_example =
    dirlookup-dirlink no_drivers disk (dir ∷ []) 0 dir (λ b. addr 0) nothing nothing letter_b 7 1
      refl dir-IsDirectory (omega arith) (λ i. ground arith) letter_b-IsString (omega arith)
      (omega arith) linked_lem

dirlookup_example :
    (r : Hit) × (dirlookup no_drivers disk (dir ∷ []) 0 nothing letter_b
      ≡ opened disk (dir ∷ []) dir r)
    × IsFirst disk dir.disk.addrs 32 letter_b 0 r
dirlookup_example =
    dirlookup_lem no_drivers disk (dir ∷ []) 0 dir (λ b. addr 0) nothing letter_b refl
      dir-IsDirectory (λ i. ground arith)
