-- ===== src/Sysfile/Links.antt =====
-- Symbolic links, and the calls that follow them: open, chdir, symlink and readlink; and the calls on
-- tags.
use os.Base.{
  ℕ, zero, suc, ◌-◌, ◌/◌, ◌%◌, ◌==◌, ltb, if◌then◌else◌, Bool, true, false, not, ◌&&◌, ◌||◌, Option,
  none, some, List, length, take, ok,
}
use os.Sysfile.State.{
  OpenFile, Services, M, ◌>>=◌, ◌>>◌, pure, fail, stop, info, put_info, namei, ilock, iunlock, iput,
  iunlockput, begin_trans, commit_trans, filealloc, put_file, fileclose, put_string, call,
}
use os.Sysfile.Descriptors.{argfd, fdalloc}
use os.Sysfile.Names.{t_dir, t_file, create}

abbrev pub max_lnk_name : ℕ
max_lnk_name = 50

abbrev pub o_rdonly : ℕ
o_rdonly = 0

-- omode & O_WRONLY, omode & O_RDWR and omode & O_CREATE
abbrev pub wants_wronly : ℕ → Bool
wants_wronly omode = omode % 2 == 1

abbrev pub wants_rdwr : ℕ → Bool
wants_rdwr omode = omode / 2 % 2 == 1

abbrev pub wants_create : ℕ → Bool
wants_create omode = omode / 512 % 2 == 1

abbrev pub file_for : ℕ → ℕ → OpenFile
file_for ip omode = record {
  symlnk = false;
  ip = ip;
  off = 0;
  readable = not (wants_wronly omode);
  writable = wants_wronly omode || wants_rdwr omode;
}

abbrev pub link_file : ℕ → OpenFile
link_file ip = record { symlnk = true; ip = ip; off = 0; readable = true; writable = false }

-- How the search for the last link of a chain ends: at a link to nothing, or at the last link, locked.
pub data Chain : Type 0 where
  broken : Chain
  last : ℕ → Chain

abbrev pub set_cwd : {W : Type 0} → ℕ → M W ℕ
set_cwd ip s = ok (s.cwd, record s { cwd = ip })

module _ {W : Type 0} (sv : Services W) where
  -- The loop of sys_open from the locked inode `ip` on: the locked inode that is no link, `none` at a
  -- link to nothing.
  unfoldable pub follow : ℕ → ℕ → M W (Option ℕ)
  follow zero ip = stop
  follow (suc k) ip =
      let next = λ (target : ℕ). iunlock sv ip >> (ilock sv target >> follow k target) in
      info sv ip >>= λ i.
      if i.symlnk
      then (namei sv i.target >>= λ found. elim found [
        | none ↦ iunlock sv ip >> fail
        | some target ↦ next target
      ])
      else pure (some ip)

  -- What sys_open does with the locked inode.
  unfoldable pub open_inode : ℕ → ℕ → M W (Option ℕ)
  open_inode omode ip = filealloc sv >>= λ file. elim file [
    | none ↦ iunlockput sv ip >> fail
    | some f ↦ fdalloc f >>= λ got. elim got [
      | none ↦ fileclose sv f >> (iunlockput sv ip >> fail)
      | some fd ↦ iunlock sv ip >> (put_file sv f (file_for ip omode) >> pure (some fd))
    ]
  ]

  unfoldable pub follow_open : ℕ → Option ℕ → M W (Option ℕ)
  follow_open omode none = fail
  follow_open omode (some ip) =
      follow 16 ip >>= λ found. elim found [ none ↦ fail | some last_ip ↦ open_inode omode last_ip ]

  -- The locked inode of the path.
  unfoldable pub open_path : List ℕ → ℕ → M W (Option ℕ)
  open_path path omode =
      if wants_create omode
      then (begin_trans sv >> (create sv path t_file 0 0 >>= λ ip. commit_trans sv >> pure ip))
      else (namei sv path >>= λ found. elim found [
        | none ↦ fail
        | some ip ↦
            ilock sv ip
            >> (info sv ip >>= λ i.
                if (i.type == t_dir) && not (omode == o_rdonly)
                then (iunlockput sv ip >> fail)
                else pure (some ip))
      ])

  unfoldable pub sys_open : Option (List ℕ) → Option ℕ → M W (Option ℕ)
  sys_open none omode = fail
  sys_open (some path) none = fail
  sys_open (some path) (some omode) = open_path path omode >>= follow_open omode

  -- What sys_symlink does with the new inode, after commit_trans.
  abbrev pub make_link : List ℕ → Option ℕ → M W (Option ℕ)
  make_link target none = fail
  make_link target (some ip) = filealloc sv >>= λ file. elim file [
    | none ↦ iunlockput sv ip >> fail
    | some f ↦
        if ltb max_lnk_name (length target)
        then stop
        else (info sv ip >>= λ i.
            put_info sv ip
              (record i { target = take (max_lnk_name - 1) target; symlnk = true; size = 0 })
            >> (iunlock sv ip >> (put_file sv f (link_file ip) >> pure (some 0))))
  ]

  unfoldable pub sys_symlink : Option (List ℕ) → Option (List ℕ) → M W (Option ℕ)
  sys_symlink none path = fail
  sys_symlink (some target) none = fail
  sys_symlink (some target) (some path) =
      begin_trans sv >> (create sv path t_file 0 0 >>= λ ip. commit_trans sv >> make_link target ip)

  -- The loop of sys_readlink and k_readlink from the locked link `ip` on.
  unfoldable pub last_link : ℕ → ℕ → M W Chain
  last_link zero ip = stop
  last_link (suc k) ip =
      let next = λ (target : ℕ). iunlock sv ip >> (ilock sv target >> last_link k target) in
      info sv ip >>= λ i. namei sv i.target >>= λ found. elim found [
        | none ↦ iunlock sv ip >> pure broken
        | some target ↦ info sv target >>= λ j. if j.symlnk then next target else pure (last ip)
      ]

  -- The locked link at a path; `none` if there is nothing or no link.
  unfoldable pub link_at : List ℕ → M W (Option ℕ)
  link_at path = namei sv path >>= λ found. elim found [
    | none ↦ fail
    | some ip ↦
        ilock sv ip
        >> (info sv ip >>= λ i. if i.symlnk then pure (some ip) else (iunlock sv ip >> fail))
  ]

  -- What sys_readlink does at the end of the chain.
  abbrev pub copy_text : ℕ → ℕ → Chain → M W (Option ℕ)
  copy_text buf bufsiz broken = pure (some 0xfffffffe)
  copy_text buf bufsiz (last ip) = info sv ip >>= λ i.
      if (i.type == t_file) && i.symlnk
      then (put_string sv buf i.target bufsiz
          >> (iunlock sv ip >> call sv (λ w. (some (sv.strlen w buf), w))))
      else (iunlock sv ip >> fail)

  abbrev pub read_link : ℕ → ℕ → Option ℕ → M W (Option ℕ)
  read_link buf bufsiz none = fail
  read_link buf bufsiz (some ip) = last_link 16 ip >>= copy_text buf bufsiz

  unfoldable pub sys_readlink : Option (List ℕ) → Option ℕ → Option ℕ → M W (Option ℕ)
  sys_readlink none buf bufsiz = fail
  sys_readlink (some path) none bufsiz = fail
  sys_readlink (some path) (some buf) none = fail
  sys_readlink (some path) (some buf) (some bufsiz) = link_at path >>= read_link buf bufsiz

  -- What k_readlink does at the end of the chain: the text that it leaves in a buffer of `bufsiz`
  -- bytes.
  abbrev pub k_text : ℕ → Chain → M W (Option (List ℕ))
  k_text bufsiz broken = pure none
  k_text bufsiz (last ip) = info sv ip >>= λ i.
      iunlock sv ip
      >> pure (if (i.type == t_file) && i.symlnk then some (take (bufsiz - 1) i.target) else none)

  abbrev pub k_read_link : ℕ → Option ℕ → M W (Option (List ℕ))
  k_read_link bufsiz none = pure none
  k_read_link bufsiz (some ip) = last_link 16 ip >>= k_text bufsiz

  unfoldable pub k_readlink : List ℕ → ℕ → M W (Option (List ℕ))
  k_readlink path bufsiz = link_at path >>= k_read_link bufsiz

  -- What sys_chdir does with the path to go to.
  unfoldable pub enter : List ℕ → M W (Option ℕ)
  enter path = namei sv path >>= λ found. elim found [
    | none ↦ fail
    | some ip ↦
        ilock sv ip
        >> (info sv ip >>= λ i.
            if i.type == t_dir
            then (iunlock sv ip >> (set_cwd ip >>= λ old. iput sv old >> pure (some 0)))
            else (iunlockput sv ip >> fail))
  ]

  unfoldable pub sys_chdir : Option (List ℕ) → M W (Option ℕ)
  sys_chdir none = fail
  sys_chdir (some path) = k_readlink path max_lnk_name >>= λ text.
      enter (elim text [ none ↦ path | some target ↦ target ])

  abbrev pub in_trans : (W → Option ℕ × W) → M W (Option ℕ)
  in_trans f = begin_trans sv >> (call sv f >>= λ ret. commit_trans sv >> pure ret)

  unfoldable pub sys_ftag : Option ℕ → Option (List ℕ) → Option (List ℕ) → M W (Option ℕ)
  sys_ftag arg key val = argfd arg >>= λ found. elim found [
    | none ↦ fail
    | some (_, f) ↦ elim key [
      | none ↦ fail
      | some k ↦ elim val [ none ↦ fail | some v ↦ in_trans (λ w. sv.fs_ftag w f k v) ]
    ]
  ]

  unfoldable pub sys_funtag : Option ℕ → Option (List ℕ) → M W (Option ℕ)
  sys_funtag arg key = argfd arg >>= λ found. elim found [
    | none ↦ fail
    | some (_, f) ↦ elim key [ none ↦ fail | some k ↦ in_trans (λ w. sv.fs_funtag w f k) ]
  ]

  unfoldable pub sys_gettag : Option ℕ → Option (List ℕ) → Option ℕ → M W (Option ℕ)
  sys_gettag arg key buf = argfd arg >>= λ found. elim found [
    | none ↦ fail
    | some (_, f) ↦ elim key [
      | none ↦ fail
      | some k ↦ elim buf [ none ↦ fail | some b ↦ in_trans (λ w. sv.fs_gettag w f k b) ]
    ]
  ]
