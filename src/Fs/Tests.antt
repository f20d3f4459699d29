-- ===== src/Fs/Tests.antt =====
-- Instances of the theorems about the file system.
use os.Base.{
  Option, none, ℕ, zero, suc, ◌≡◌, ◌<◌, ◌≤◌, refl, true, false, some, List, [], ◌∷◌, arith,
}
use os.Base.{ok}
use os.Fs.Disk.{Dinode, Disk, put}
use os.Fs.Inode.{Inode, fresh, recycled, iget, search_cache, ilock, iupdate}
use os.Fs.Cache.{Holds, here, next, gets, live_entries_unique}
use os.Fs.Path.{skipelem, skip_slashes, skipelem_lem}
use os.Fs.Stale.{stale_tags}
use os.Fs.Tag.{Tags, clear, copy_in, scan, fs_ftag, fs_gettag, no_tag, unending}
use os.Fs.Absent.{full_slots, gettag_absent}

-- The tag "a" set twice on a file without tags: its one full slot is counted twice.
abbrev no_tags : Tags
no_tags = record { block = 0; counter = 0; bytes = λ i. 0 }

abbrev tagged_twice : Tags
tagged_twice = record {
  block = 33;
  counter = 2;
  bytes =
      copy_in (clear (copy_in (copy_in (clear (λ i. 0) 0 40) 0 (97 ∷ [])) 10 (120 ∷ [])) 10 30) 10
        (121 ∷ []);
}

abbrev tag_again : Option Tags → Option Tags
tag_again none = none
tag_again (some t) = fs_ftag 12 33 t (97 ∷ []) (121 ∷ [])

tagged_twice_lem : tag_again (fs_ftag 12 33 no_tags (97 ∷ []) (120 ∷ [])) ≡ some tagged_twice
unfolding fs_ftag scan
tagged_twice_lem = refl

gettag_absent_example :
    (tagged_twice.counter ≤ full_slots 12 tagged_twice.bytes 0
      → fs_gettag 12 tagged_twice (98 ∷ []) ≡ no_tag)
    × (full_slots 12 tagged_twice.bytes 0 < tagged_twice.counter
        → fs_gettag 12 tagged_twice (98 ∷ []) ≡ unending)
gettag_absent_example =
    gettag_absent 12 tagged_twice (98 ∷ [])
      (
        refl,
        (refl, (refl, (refl, (refl, (refl, (refl, (refl, (refl, (refl, (refl, (refl, tt))))))))))),
      )
      refl

-- A file with the block 20, and the block 22 behind the indirect block 21.
abbrev file_dinode : Dinode
file_dinode = record (fresh 2) {
  size = 700;
  addrs = put (put (λ i. 0) 0 20) 12 21;
  tags = 30;
  tags_counter = 3;
}

abbrev disk : Disk
disk = record {
  size = 64;
  ninodes = 16;
  used = λ b. true;
  words = put (λ b i. 0) 21 (put (λ i. 0) 0 22);
  dinode = put (λ i. fresh 0) 5 file_dinode;
}

abbrev file : Inode
file = record {
  dev = 1;
  inum = 5;
  ref = 1;
  busy = true;
  valid = true;
  symlnk = false;
  disk = file_dinode;
}

abbrev free_entry : Inode
free_entry = record file { ref = 0; busy = false }

abbrev one_live : List Inode
one_live = record free_entry { dev = 1; inum = 7; ref = 1; busy = false; valid = false } ∷ []

live_entries_unique_example : let i : ℕ = 0 in i ≡ 0
unfolding iget search_cache
live_entries_unique_example =
    live_entries_unique {c = free_entry ∷ []} {t = one_live} (λ i p h. all_free i p h)
      (next here (gets 1 7 0 refl)) 0 0 (recycled 1 7 free_entry) (recycled 1 7 free_entry) refl
      refl (omega arith) (omega arith) refl refl
  where
    all_free : (i : ℕ) (p : Inode) → Holds (free_entry ∷ []) i p → p.ref ≡ 0
    all_free zero p h = ground arith
    all_free (suc i) p h = cc

stale_tags_example :
    let d' = record disk { dinode = put disk.dinode 6 (fresh 2) } in
    (ip : Inode) × (ilock d' (recycled 1 6 free_entry) ≡ ok (some ip))
    × (((iupdate d' ip).dinode 6).tags ≡ 30)
    × (((iupdate d' ip).dinode 6).tags_counter ≡ 3)
    × (((iupdate d' ip).dinode 6).size ≡ 0)
stale_tags_example = stale_tags disk 1 6 2 free_entry (λ e. absurd (omega (arith, e)))

-- "//a/b"
skipelem_lem_example :
    (skipelem (47 ∷ 47 ∷ 97 ∷ 47 ∷ 98 ∷ []) ≡ some (97 ∷ [], skip_slashes (47 ∷ 98 ∷ [])))
    × (skipelem (47 ∷ 47 ∷ []) ≡ none)
skipelem_lem_example = skipelem_lem 2 97 [] (47 ∷ 98 ∷ []) refl refl
