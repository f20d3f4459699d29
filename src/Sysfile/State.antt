-- ===== src/Sysfile/State.antt =====
-- What sysfile.c calls in fs.c, file.c, pipe.c and log.c, over the rest of the kernel's state, and the
-- state of the calling process. The state counts what the calls acquire and give back: transactions,
-- locks on inodes, references to inodes, and references to open files.
use os.Base.{ℕ, ◌+◌, Bool, Option, none, some, List, Outcome, ok, panic}

-- The fields of `struct inode` that sysfile.c reads; `target` is the string in ip->addrs.
pub record Info : Type 0 where
  pub dev : ℕ
  pub inum : ℕ
  pub type : ℕ
  pub major : ℕ
  pub minor : ℕ
  pub nlink : ℕ
  pub size : ℕ
  pub symlnk : Bool
  pub target : List ℕ

-- The fields of `struct file` that it sets for an inode.
pub record OpenFile : Type 0 where
  pub symlnk : Bool
  pub ip : ℕ
  pub off : ℕ
  pub readable : Bool
  pub writable : Bool

-- Pointers to inodes and files are numbers, `none` for a null pointer. A panic inside one of these
-- stops the machine, and no call returns.
pub record Services (W : Type 0) : Type 0 where
  pub info : W → ℕ → Info
  pub put_info : W → ℕ → Info → W
  pub namei : W → List ℕ → Option ℕ × W
  pub nameiparent : W → List ℕ → Option (ℕ × List ℕ) × W
  pub ilock : W → ℕ → W
  pub iunlock : W → ℕ → W
  pub iput : W → ℕ → W
  pub iupdate : W → ℕ → W
  pub ialloc : W → ℕ → ℕ → Option ℕ × W
  pub dirlookup : W → ℕ → List ℕ → Option (ℕ × ℕ) × W
  pub dirlink : W → ℕ → List ℕ → ℕ → Bool × W
  pub read_entry : W → ℕ → ℕ → Option ℕ × W
  pub clear_entry : W → ℕ → ℕ → Bool × W
  pub begin_trans : W → W
  pub commit_trans : W → W
  pub filealloc : W → Option ℕ × W
  pub put_file : W → ℕ → OpenFile → W
  pub filedup : W → ℕ → W
  pub fileclose : W → ℕ → W
  pub pipealloc : W → Option (ℕ × ℕ) × W
  pub fileread : W → ℕ → ℕ → ℕ → Option ℕ × W
  pub filewrite : W → ℕ → ℕ → ℕ → Option ℕ × W
  pub filestat : W → ℕ → ℕ → Option ℕ × W
  pub put_words : W → ℕ → ℕ → ℕ → W
  pub put_string : W → ℕ → List ℕ → ℕ → W
  pub strlen : W → ℕ → ℕ
  pub fs_ftag : W → ℕ → List ℕ → List ℕ → Option ℕ × W
  pub fs_funtag : W → ℕ → List ℕ → Option ℕ × W
  pub fs_gettag : W → ℕ → List ℕ → ℕ → Option ℕ × W

-- proc->ofile and proc->cwd, the rest, and the counts: transactions begun and committed, inodes locked
-- and unlocked, references to inodes got, put and stored in a file, references to files opened and
-- closed.
pub record Sys (W : Type 0) : Type 0 where
  pub ofile : List (Option ℕ)
  pub cwd : ℕ
  pub world : W
  pub begun : ℕ
  pub committed : ℕ
  pub locked : ℕ
  pub unlocked : ℕ
  pub got : ℕ
  pub put : ℕ
  pub stored : ℕ
  pub opened : ℕ
  pub closed : ℕ

abbrev pub M : Type 0 → Type 0 → Type 0
M W A = Sys W → Outcome (A × Sys W)

infixl 5 ◌>>=◌ ◌>>◌
abbrev pub ◌>>=◌ : {W A B : Type 0} → M W A → (A → M W B) → M W B
◌>>=◌ m f s = elim (m s) [ panic ↦ panic | ok (a, s') ↦ f a s' ]

abbrev pub ◌>>◌ : {W B : Type 0} → M W (Unit {0}) → M W B → M W B
m >> k = m >>= λ _. k

abbrev pub pure : {W A : Type 0} → A → M W A
pure a s = ok (a, s)

abbrev pub fail : {W : Type 0} → M W (Option ℕ)
fail s = ok (none, s)

abbrev pub stop : {W A : Type 0} → M W A
stop s = panic

abbrev pub count_some : {A : Type 0} → Option A → ℕ
count_some none = 0
count_some (some a) = 1

module _ {W : Type 0} (sv : Services W) where
  abbrev pub info : ℕ → M W Info
  info ip s = ok (sv.info s.world ip, s)

  abbrev pub put_info : ℕ → Info → M W (Unit {0})
  put_info ip i s = ok (tt, record s { world = sv.put_info s.world ip i })

  abbrev pub namei : List ℕ → M W (Option ℕ)
  namei path s =
      let (r, w) = sv.namei s.world path in
      ok (r, record s { world = w; got = s.got + count_some r })

  abbrev pub nameiparent : List ℕ → M W (Option (ℕ × List ℕ))
  nameiparent path s =
      let (r, w) = sv.nameiparent s.world path in
      ok (r, record s { world = w; got = s.got + count_some r })

  abbrev pub ilock : ℕ → M W (Unit {0})
  ilock ip s = ok (tt, record s { world = sv.ilock s.world ip; locked = s.locked + 1 })

  abbrev pub iunlock : ℕ → M W (Unit {0})
  iunlock ip s = ok (tt, record s { world = sv.iunlock s.world ip; unlocked = s.unlocked + 1 })

  abbrev pub iput : ℕ → M W (Unit {0})
  iput ip s = ok (tt, record s { world = sv.iput s.world ip; put = s.put + 1 })

  abbrev pub iunlockput : ℕ → M W (Unit {0})
  iunlockput ip = iunlock ip >> iput ip

  abbrev pub iupdate : ℕ → M W (Unit {0})
  iupdate ip s = ok (tt, record s { world = sv.iupdate s.world ip })

  abbrev pub ialloc : ℕ → ℕ → M W (Option ℕ)
  ialloc dev type s =
      let (r, w) = sv.ialloc s.world dev type in
      ok (r, record s { world = w; got = s.got + count_some r })

  abbrev pub dirlookup : ℕ → List ℕ → M W (Option (ℕ × ℕ))
  dirlookup dp name s =
      let (r, w) = sv.dirlookup s.world dp name in
      ok (r, record s { world = w; got = s.got + count_some r })

  abbrev pub dirlink : ℕ → List ℕ → ℕ → M W Bool
  dirlink dp name inum s =
      let (r, w) = sv.dirlink s.world dp name inum in ok (r, record s { world = w })

  abbrev pub read_entry : ℕ → ℕ → M W (Option ℕ)
  read_entry dp off s = let (r, w) = sv.read_entry s.world dp off in ok (r, record s { world = w })

  abbrev pub clear_entry : ℕ → ℕ → M W Bool
  clear_entry dp off s =
      let (r, w) = sv.clear_entry s.world dp off in ok (r, record s { world = w })

  abbrev pub begin_trans : M W (Unit {0})
  begin_trans s = ok (tt, record s { world = sv.begin_trans s.world; begun = s.begun + 1 })

  abbrev pub commit_trans : M W (Unit {0})
  commit_trans s =
      ok (tt, record s { world = sv.commit_trans s.world; committed = s.committed + 1 })

  abbrev pub filealloc : M W (Option ℕ)
  filealloc s =
      let (r, w) = sv.filealloc s.world in
      ok (r, record s { world = w; opened = s.opened + count_some r })

  abbrev pub put_file : ℕ → OpenFile → M W (Unit {0})
  put_file f fields s =
      ok (tt, record s { world = sv.put_file s.world f fields; stored = s.stored + 1 })

  abbrev pub filedup : ℕ → M W (Unit {0})
  filedup f s = ok (tt, record s { world = sv.filedup s.world f; opened = s.opened + 1 })

  abbrev pub fileclose : ℕ → M W (Unit {0})
  fileclose f s = ok (tt, record s { world = sv.fileclose s.world f; closed = s.closed + 1 })

  abbrev pub pipealloc : M W (Option (ℕ × ℕ))
  pipealloc s =
      let (r, w) = sv.pipealloc s.world in
      ok (r, record s { world = w; opened = s.opened + (count_some r + count_some r) })

  abbrev pub put_words : ℕ → ℕ → ℕ → M W (Unit {0})
  put_words addr a b s = ok (tt, record s { world = sv.put_words s.world addr a b })

  abbrev pub put_string : ℕ → List ℕ → ℕ → M W (Unit {0})
  put_string buf text size s = ok (tt, record s { world = sv.put_string s.world buf text size })

  -- A call that acquires and gives back nothing here.
  abbrev pub call : {A : Type 0} → (W → A × W) → M W A
  call f s = let (r, w) = f s.world in ok (r, record s { world = w })
