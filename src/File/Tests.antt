-- ===== src/File/Tests.antt =====
-- An instance of the theorem about filewrite: two bytes over those of a file on a small disk.
use os.Base.{◌/◌, ◌≡◌, refl, subst, true, some, [], ◌∷◌, arith, ok}
use os.Fs.Tree.{addr, pointer}
use os.Fs.Grown.{slot_of}
use os.Fs.Sample.{disk_of, file_of, file_of-IsTree}
use os.File.{File, fd_inode, filewrite}
use os.File.Write.{overlay, filewrite_all}
use os.File.OnDisk.{Opened, on_disk, on_disk-WritesAll, file_bytes, file_size, HasBlocks}

abbrev opened : Opened
opened = (disk_of (λ b i. 7), file_of 2 510)

abbrev open_file : File
open_file = record {
  type = fd_inode;
  ref = 1;
  readable = true;
  writable = true;
  pipe = 0;
  ip = 0;
  off = 500;
}

opened-HasBlocks : HasBlocks opened 502
opened-HasBlocks = (
  (λ t. absurd (omega arith)),
  ((λ b. addr 0), file_of-IsTree (λ b i. 7) 2 510),
  λ p lt below z.
      let first : p / 512 ≡ 0 = omega arith in
      let five : 5 ≡ 0 =
        subst (λ x. pointer (disk_of (λ b i. 7)) (file_of 2 510).disk.addrs (slot_of x) ≡ 0) first
          z in
      absurd (omega arith),
)

filewrite_all_example :
    (r : Opened) × (filewrite on_disk opened open_file (65 ∷ 66 ∷ [])
      ≡ ok (some 2, record open_file { off = 502 }, r))
    × (file_bytes r ≡ overlay (file_bytes opened) 500 (65 ∷ 66 ∷ []))
filewrite_all_example =
    filewrite_all on_disk file_bytes file_size HasBlocks opened open_file (65 ∷ 66 ∷ [])
      on_disk-WritesAll refl refl (omega arith) (omega arith) opened-HasBlocks
      (omega arith, (omega arith, tt))
