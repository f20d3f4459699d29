-- ===== src/Fs.antt =====
-- fs.c: block allocation, the blocks of a file, and the inode cache.
pub mod Disk
pub mod Inode
pub mod Free
pub mod Trunc
pub mod Cache
pub mod Path
pub mod Tag
pub mod Absent
pub mod Stale
pub mod Tree
pub mod Growth
pub mod Grown
pub mod Bmap
pub mod Io
pub mod Bytes
pub mod Contents
pub mod Transfer
pub mod Write
pub mod Found
pub mod Writing
pub mod Reading
pub mod RoundTrip
pub mod Dir
pub mod Lookup
pub mod Link
pub mod Linked
pub mod Sample
mod Tests
mod IoTests
mod DirTests
