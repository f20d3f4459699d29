-- ===== src/Fs/Stale.antt =====
-- ilock does not read the tags of an inode from disk.
use os.Base.{ℕ, ◌≡◌, ◌≢◌, refl, ◌==◌, true, some, arith, Bool-cases, inl, inr}
use os.Base.{ok}
use os.Fs.Disk.{Disk, put}
use os.Fs.Inode.{Inode, recycled, fresh, ilock, iupdate}

same_number : (n : ℕ) → (n == n) ≡ true
same_number n = ground arith

-- When ialloc has put a fresh inode on disk, with no tags, and iget takes any free entry of the cache
-- for it, ilock succeeds, and the next iupdate writes to disk, as the new inode's tags block and
-- number of tags, those of the inode that was in the entry before.
pub stale_tags :
    (d : Disk) (dev inum type : ℕ) (old : Inode)
    → type ≢ 0
    → let d' = record d { dinode = put d.dinode inum (fresh type) } in
      (ip : Inode) × (ilock d' (recycled dev inum old) ≡ ok (some ip))
      × (((iupdate d' ip).dinode inum).tags ≡ old.disk.tags)
      × (((iupdate d' ip).dinode inum).tags_counter ≡ old.disk.tags_counter)
      × (((iupdate d' ip).dinode inum).size ≡ 0)
unfolding ilock iupdate
stale_tags d dev inum type old ne = elim (Bool-cases (type == 0)) [
  | inl zero_type ↦ absurd (ne (ground arith))
  | inr typed ↦
      rw (same_number inum, typed)
        (
          _,
          refl,
          rw (same_number inum) refl,
          rw (same_number inum) refl,
          rw (same_number inum) refl,
        )
]
