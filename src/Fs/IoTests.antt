-- ===== src/Fs/IoTests.antt =====
-- Instances of the theorems about the contents of files.
use os.Base.{ℕ, ◌+◌, ◌≡◌, ◌<◌, ◌≤◌, ◌%◌, refl, Option, none, some, arith, ◌⊎◌, ok}
use os.Fs.Sample.{disk_of, file_of, file_of-IsTree}
use os.Fs.Disk.{Disk, put, balloc, find_free, bzero}
use os.Fs.Inode.{Inode, bmap, addr_of, iupdate}
use os.Fs.Tree.{addr, grown}
use os.Fs.Grown.{Grows}
use os.Fs.Bmap.{SameInode, Finds, bmap-Finds}
use os.Fs.Io.{copy_in, copy_out, put_block, read_run, readi, write_run, writei}
use os.Fs.Writing.{Written, writei_lem}
use os.Fs.Reading.{Delivers, readable, readi_lem}
use os.Fs.RoundTrip.{readi-writei}

abbrev disk : Disk
disk = disk_of (λ b i. 0)

abbrev file : Inode
file = file_of 2 510

abbrev four : Option ℕ
four = some 4

abbrev ten : Option ℕ
ten = some 10

-- The bytes 65, 66, 67, …
abbrev letters : ℕ → ℕ
letters i = (65 + i) % 256

-- Two bytes of four fit into the block 5, and the block 1 is taken for the others.
abbrev longer : Inode
longer = record file { disk = record file.disk { size = 514; addrs = put file.disk.addrs 1 1 } }

abbrev first_written : Disk
first_written = put_block disk 5 (copy_in (disk.words 5) 510 (λ i. letters (0 + i)) 2)

abbrev second_taken : Disk
second_taken = grown first_written 1

abbrev written : Disk
written =
    iupdate (put_block second_taken 1 (copy_in (second_taken.words 1) 0 (λ i. letters (2 + i)) 2))
      longer

written_lem : writei (λ i. none) disk file letters 510 4 ≡ ok (some 4, longer, written)
unfolding writei write_run bmap addr_of balloc find_free bzero iupdate
written_lem = refl

writei_example :
    ((510 < 510) ⊎ (8460288 < 514) → (four ≡ none) × (longer ≡ file) × (written ≡ disk))
    × (510 ≤ 510 → 514 ≤ 8460288 → (four ≡ some 4) × Written disk file letters 510 4 longer written)
writei_example =
    writei_lem (λ i. none) disk file (λ b. addr 0) letters 510 4 (λ e. absurd (ground arith))
      (omega arith) (omega arith) (λ i. omega arith) (file_of-IsTree (λ b i. 0) 2 510) written_lem

readi-writei_example :
    (four ≡ some 4)
    × ((dst' : ℕ → ℕ) × (readi (λ i. none) written longer (λ i. 0) 510 4
          ≡ ok (some 4, dst', longer, written))
        × ((i : ℕ) → i < 4 → dst' i ≡ letters i)
        × ((i : ℕ) → 4 ≤ i → dst' i ≡ 0))
readi-writei_example =
    readi-writei (λ i. none) (λ i. none) disk file (λ b. addr 0) letters (λ i. 0) 510 4
      (λ e. absurd (ground arith)) (omega arith) (omega arith) (omega arith) (λ i. omega arith)
      (file_of-IsTree (λ b i. 0) 2 510) written_lem

-- Ten bytes from 500: the file has them all. A hundred: it has ten.
abbrev read_once : ℕ → ℕ
read_once = copy_out (λ i. 7) 0 (disk.words 5) 500 10

read_once_lem : readi (λ i. none) disk file (λ i. 7) 500 100 ≡ ok (some 10, read_once, file, disk)
unfolding readi read_run bmap addr_of
read_once_lem = refl

readi_example :
    ((510 < 500) ⊎ (4294967296 ≤ 600)
      → (ten ≡ none) × (read_once ≡ (λ i. 7)) × (file ≡ file) × (disk ≡ disk))
    × (500 ≤ 510
        → 600 < 4294967296
        → (ten ≡ some (readable 510 500 100))
          × Delivers disk file.disk.addrs (λ i. 7) 500 (readable 510 500 100) read_once
          × Grows disk file.disk.addrs disk file.disk.addrs
          × SameInode file file)
readi_example =
    readi_lem (λ i. none) disk file (λ b. addr 0) (λ i. 7) 500 100 (λ e. absurd (ground arith))
      (omega arith) (omega arith) (omega arith) (file_of-IsTree (λ b i. 0) 2 510) read_once_lem

-- The second block of the file is not there yet: the block 1 is taken for it.
bmap_lem :
    bmap disk file 1
    ≡ ok (
      1,
      record file { disk = record file.disk { addrs = put file.disk.addrs 1 1 } },
      grown disk 1,
    )
unfolding bmap addr_of balloc find_free bzero
bmap_lem = refl

bmap_example :
    Finds disk file
      (addr 1)
      1
      (record file { disk = record file.disk { addrs = put file.disk.addrs 1 1 } })
      (grown disk 1)
bmap_example = bmap-Finds disk file (λ b. addr 0) 1 (file_of-IsTree (λ b i. 0) 2 510) bmap_lem
