-- ===== src/Fs/Inode.antt =====
-- Inodes in memory: bmap, itrunc, and the inode cache.
use os.Base.{
  ℕ, zero, suc, ◌+◌, ◌-◌, ◌/◌, ◌%◌, ◌==◌, ltb, if◌then◌else◌, Bool, true, false, not, ◌&&◌, ◌||◌,
  Option, none, some, List, [], ◌∷◌, modify,
}
use os.Base.{Outcome, ok, panic, ◌>>=◌}
use os.Fs.Disk.{Dinode, Disk, ndirect, nindirect, dindirect, put, set_word, balloc, bfree}

-- `struct inode`, with its flags I_BUSY, I_VALID and I_SYMLNK.
pub record Inode : Type 0 where
  pub dev : ℕ
  pub inum : ℕ
  pub ref : ℕ
  pub busy : Bool
  pub valid : Bool
  pub symlnk : Bool
  pub disk : Dinode

-- An assignment to a field that is a copy of the disk inode's.
abbrev pub with_addr : Inode → ℕ → ℕ → Inode
with_addr ip i v = record ip { disk = record ip.disk { addrs = put ip.disk.addrs i v } }

unfoldable pub iupdate : Disk → Inode → Disk
iupdate d ip = record d { dinode = put d.dinode ip.inum ip.disk }

-- The entry of the table in block `b` at `i`, allocated if it is 0.
unfoldable pub entry : Disk → ℕ → ℕ → Outcome (ℕ × Disk)
unfolding balloc
entry d b i =
    if d.words b i == 0
    then (balloc d >>= λ r. ok (r.0, set_word r.1 b i r.0))
    else ok (d.words b i, d)

-- The block number ip->addrs[i], allocated if it is 0.
unfoldable pub addr_of : Disk → Inode → ℕ → Outcome (ℕ × Inode × Disk)
unfolding balloc
addr_of d ip i =
    if ip.disk.addrs i == 0
    then (balloc d >>= λ r. ok (r.0, with_addr ip i r.0, r.1))
    else ok (ip.disk.addrs i, ip, d)

unfoldable pub bmap : Disk → Inode → ℕ → Outcome (ℕ × Inode × Disk)
unfolding entry addr_of
bmap d ip bn =
    if ltb bn ndirect
    then addr_of d ip bn
    else if ltb (bn - ndirect) nindirect
    then (addr_of d ip ndirect >>= λ r. entry r.2 r.0 (bn - ndirect) >>= λ s. ok (s.0, r.1, s.1))
    else if ltb (bn - ndirect - nindirect) dindirect
    then (addr_of d ip (ndirect + 1) >>= λ r.
        entry r.2 r.0 ((bn - ndirect - nindirect) / nindirect) >>= λ s.
        entry s.1 s.0 ((bn - ndirect - nindirect) % nindirect) >>= λ t. ok (t.0, r.1, t.1))
    else panic

-- for(j = i; j < i + n; j++) if(a[j]) bfree(dev, a[j]);
unfoldable pub free_entries : ℕ → ℕ → (ℕ → ℕ) → Disk → Outcome Disk
unfolding bfree
free_entries zero i a d = ok d
free_entries (suc n) i a d = (if a i == 0 then ok d else bfree d (a i)) >>= free_entries n (i + 1) a

-- The same for a table of tables: the entries of each, then the table.
unfoldable pub free_tables : ℕ → ℕ → (ℕ → ℕ) → Disk → Outcome Disk
unfolding bfree free_entries
free_tables zero i a d = ok d
free_tables (suc n) i a d =
    (if a i == 0
      then ok d
      else (free_entries nindirect 0 (d.words (a i)) d >>= λ d'. bfree d' (a i)))
    >>= free_tables n (i + 1) a

-- The two blocks of tables of a file: the indirect and the double indirect one, 0 for none.
unfoldable pub free_indirect : ℕ → Disk → Outcome Disk
unfolding bfree free_entries
free_indirect b d =
    if b == 0 then ok d else (free_entries nindirect 0 (d.words b) d >>= λ d'. bfree d' b)

unfoldable pub free_double : ℕ → Disk → Outcome Disk
unfolding bfree free_tables
free_double b d =
    if b == 0 then ok d else (free_tables nindirect 0 (d.words b) d >>= λ d'. bfree d' b)

-- The inode without blocks.
abbrev pub emptied : Inode → Inode
emptied ip = record ip {
  disk = record ip.disk {
    size = 0;
    addrs = λ i. if ltb i (ndirect + 2) then 0 else ip.disk.addrs i;
  };
}

unfoldable pub itrunc : Disk → Inode → Outcome (Inode × Disk)
unfolding free_entries free_indirect free_double iupdate
itrunc d ip =
    let ip' = emptied ip in
    if ip.symlnk
    then (let plain = record ip' { symlnk = false } in ok (plain, iupdate d plain))
    else (free_entries ndirect 0 ip.disk.addrs d
        >>= free_indirect (ip.disk.addrs ndirect)
        >>= free_double (ip.disk.addrs (ndirect + 1))
        >>= λ d'. ok (ip', iupdate d' ip'))

-- The search of iget from slot `i` on, with the empty slot remembered so far.
pub data Found : Type 0 where
  cached : ℕ → Found
  recycle : ℕ → Found
  full : Found

abbrev pub remember : Option ℕ → ℕ → Inode → Option ℕ
remember none i ip = if ip.ref == 0 then some i else none
remember (some e) i ip = some e

unfoldable pub search_cache : ℕ → ℕ → ℕ → Option ℕ → List Inode → Found
search_cache dev inum i empty [] = elim empty [ none ↦ full | some e ↦ recycle e ]
search_cache dev inum i empty (ip ∷ ips) =
    let rest = search_cache dev inum (i + 1) (remember empty i ip) ips in
    if ltb 0 ip.ref && (ip.dev == dev && ip.inum == inum) then cached i else rest

abbrev pub recycled : ℕ → ℕ → Inode → Inode
recycled dev inum ip = record ip {
  dev = dev;
  inum = inum;
  ref = 1;
  busy = false;
  valid = false;
  symlnk = false;
}

-- The slot of the inode, and the cache.
unfoldable pub iget : List Inode → ℕ → ℕ → Outcome (ℕ × List Inode)
unfolding search_cache
iget c dev inum = elim (search_cache dev inum 0 none c) [
  | full ↦ panic
  | cached i ↦ ok (i, modify (λ ip. record ip { ref = ip.ref + 1 }) c i)
  | recycle i ↦ ok (i, modify (recycled dev inum) c i)
]

-- The loop of ialloc: the first free one of the inodes i, …, i + n - 1.
unfoldable pub find_inode : ℕ → ℕ → (ℕ → Dinode) → Option ℕ
find_inode zero i dips = none
find_inode (suc n) i dips =
    let rest = find_inode n (i + 1) dips in if (dips i).type == 0 then some i else rest

abbrev pub fresh : ℕ → Dinode
fresh type = record {
  type = type;
  major = 0;
  minor = 0;
  nlink = 0;
  size = 0;
  addrs = λ i. 0;
  tags = 0;
  tags_counter = 0;
}

unfoldable pub ialloc : Disk → List Inode → ℕ → ℕ → Outcome (ℕ × List Inode × Disk)
unfolding find_inode iget
ialloc d c dev type = elim (find_inode (d.ninodes - 1) 1 d.dinode) [
  | none ↦ panic
  | some inum ↦
      iget c dev inum >>= λ r. ok (r.0, r.1, record d { dinode = put d.dinode inum (fresh type) })
]

unfoldable pub idup : Inode → Inode
idup ip = record ip { ref = ip.ref + 1 }

-- The assignments of ilock from the disk inode.
abbrev pub loaded : Dinode → Dinode → Dinode
loaded dip old = record old {
  type = dip.type;
  major = dip.major;
  minor = dip.minor;
  nlink = dip.nlink;
  size = dip.size;
  addrs = dip.addrs;
}

-- `none`: the caller sleeps until the inode is unlocked.
unfoldable pub ilock : Disk → Inode → Outcome (Option Inode)
ilock d ip =
    if ltb ip.ref 1
    then panic
    else if ip.busy
    then ok none
    else if ip.valid
    then ok (some (record ip { busy = true }))
    else if (d.dinode ip.inum).type == 0
    then panic
    else ok
        (some (record ip { busy = true; valid = true; disk = loaded (d.dinode ip.inum) ip.disk }))

unfoldable pub iunlock : Inode → Outcome Inode
iunlock ip = if not ip.busy || ltb ip.ref 1 then panic else ok (record ip { busy = false })

-- iput drops the lock of the cache around itrunc; the entry is busy then, and this is one step here.
unfoldable pub iput : Disk → Inode → Outcome (Inode × Disk)
unfolding itrunc iupdate
iput d ip =
    if (ip.ref == 1) && (ip.valid && (ip.disk.nlink == 0))
    then (if ip.busy
        then panic
        else (itrunc d (record ip { busy = true }) >>= λ r.
            let freed = record r.0 { disk = record r.0.disk { type = 0 } } in
            ok (
              record freed { busy = false; valid = false; symlnk = false; ref = freed.ref - 1 },
              iupdate r.1 freed,
            )))
    else ok (record ip { ref = ip.ref - 1 }, d)

unfoldable pub iunlockput : Disk → Inode → Outcome (Inode × Disk)
unfolding iunlock iput
iunlockput d ip = iunlock ip >>= iput d

-- `struct stat`, of which `symlink` is the bit I_SYMLNK of the flags.
pub record Stat : Type 0 where
  pub type : ℕ
  pub dev : ℕ
  pub ino : ℕ
  pub nlink : ℕ
  pub size : ℕ
  pub symlink : Bool

unfoldable pub stati : Inode → Stat
stati ip = record {
  type = ip.disk.type;
  dev = ip.dev;
  ino = ip.inum;
  nlink = ip.disk.nlink;
  size = ip.disk.size;
  symlink = ip.symlnk;
}
