-- ===== src/Fs/Trunc.antt =====
-- itrunc frees the blocks of a file.
use os.Base.{ℕ, ◌+◌, List, ◌++◌}
use os.Fs.Disk.{Disk, ndirect}
use os.Fs.Inode.{Inode}
use os.Fs.Free.{entries, indirect, double}

-- The blocks of a file, data and tables, in the order of their block numbers in the inode.
abbrev pub file_blocks : Disk → Inode → List ℕ
file_blocks d ip =
    (entries ndirect 0 ip.disk.addrs ++ indirect (ip.disk.addrs ndirect) d.words)
    ++ double (ip.disk.addrs (ndirect + 1)) d.words
