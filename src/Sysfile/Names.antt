-- ===== src/Sysfile/Names.antt =====
-- Names of files: link, unlink, create, mkdir and mknod.
use os.Base.{
  ℕ, zero, suc, ◌+◌, ◌%◌, ◌==◌, ltb, if◌then◌else◌, Bool, true, false, not, ◌&&◌, ◌||◌, Option,
  none, some, List, [], ◌∷◌, Outcome, ok, panic,
}
use os.Sysfile.State.{
  Services, M, ◌>>=◌, ◌>>◌, pure, fail, stop, info, put_info, nameiparent, namei, ilock, iunlock,
  iput, iunlockput, iupdate, ialloc, dirlookup, dirlink, clear_entry, begin_trans, commit_trans,
}

abbrev pub t_dir : ℕ
t_dir = 1

abbrev pub t_file : ℕ
t_file = 2

abbrev pub t_dev : ℕ
t_dev = 3

abbrev pub dot : List ℕ
dot = 46 ∷ []

abbrev pub dot_dot : List ℕ
dot_dot = 46 ∷ 46 ∷ []

-- namecmp(name, s) == 0, for a name cut at DIRSIZ bytes as skipelem leaves it
abbrev pub same_name : List ℕ → List ℕ → Bool
same_name [] [] = true
same_name [] (t ∷ ts) = false
same_name (c ∷ cs) [] = false
same_name (c ∷ cs) (t ∷ ts) = (c == t) && same_name cs ts

module _ {W : Type 0} (sv : Services W) where
  -- ip->nlink++ and ip->nlink--, of a short kept as its 16 bits
  abbrev pub link_up : ℕ → M W (Unit {0})
  link_up ip = info sv ip >>= λ i. put_info sv ip (record i { nlink = (i.nlink + 1) % 65536 })

  abbrev pub link_down : ℕ → M W (Unit {0})
  link_down ip = info sv ip >>= λ i. put_info sv ip (record i { nlink = (i.nlink + 65535) % 65536 })

  -- The end of sys_link after the label `bad`.
  abbrev pub undo_link : ℕ → M W (Option ℕ)
  undo_link ip =
      ilock sv ip
      >> (link_down ip >> (iupdate sv ip >> (iunlockput sv ip >> (commit_trans sv >> fail))))

  unfoldable pub sys_link : Option (List ℕ) → Option (List ℕ) → M W (Option ℕ)
  sys_link none new = fail
  sys_link (some old) none = fail
  sys_link (some old) (some new) = namei sv old >>= λ found. elim found [
    | none ↦ fail
    | some ip ↦
        begin_trans sv
        >> (ilock sv ip
            >> (info sv ip >>= λ i.
                if i.type == t_dir
                then (iunlockput sv ip >> (commit_trans sv >> fail))
                else (link_up ip
                    >> (iupdate sv ip
                        >> (iunlock sv ip
                            >> (nameiparent sv new >>= λ parent. elim parent [
                              | none ↦ undo_link ip
                              | some (dp, name) ↦
                                  ilock sv dp
                                  >> (info sv dp >>= λ d. info sv ip >>= λ i'.
                                      if not (d.dev == i'.dev)
                                      then (iunlockput sv dp >> undo_link ip)
                                      else (dirlink sv dp name i'.inum >>= λ linked.
                                          if linked
                                          then (iunlockput sv dp
                                              >> (iput sv ip >> (commit_trans sv >> pure (some 0))))
                                          else (iunlockput sv dp >> undo_link ip)))
                            ]))))))
  ]

  -- The loop of isdirempty from `off` on, for at most that many entries.
  unfoldable pub entries_empty : ℕ → ℕ → ℕ → W → Outcome (Bool × W)
  entries_empty zero dp off w = ok (true, w)
  entries_empty (suc k) dp off w =
      let (inum, w') = sv.read_entry w dp off in
      let rest = entries_empty k dp (off + 16) w' in
      if ltb off (sv.info w dp).size
      then elim inum [ none ↦ panic | some n ↦ if n == 0 then rest else ok (false, w') ]
      else ok (true, w)

  -- A directory of size n has fewer than n entries.
  unfoldable pub isdirempty : ℕ → M W Bool
  unfolding entries_empty
  isdirempty dp s = elim (entries_empty (sv.info s.world dp).size dp 32 s.world) [
    | panic ↦ panic
    | ok (is_empty, w) ↦ ok (is_empty, record s { world = w })
  ]

  -- The end of sys_unlink after the label `bad`.
  abbrev pub undo_unlink : ℕ → M W (Option ℕ)
  undo_unlink dp = iunlockput sv dp >> (commit_trans sv >> fail)

  -- The removal of the entry at `off` for `ip`, which is of type `type`.
  abbrev pub remove_entry : ℕ → ℕ → ℕ → ℕ → M W (Option ℕ)
  remove_entry dp ip off type = clear_entry sv dp off >>= λ cleared.
      if cleared
      then ((if type == t_dir then (link_down dp >> iupdate sv dp) else pure tt)
          >> (iunlockput sv dp
              >> (link_down ip
                  >> (iupdate sv ip >> (iunlockput sv ip >> (commit_trans sv >> pure (some 0)))))))
      else stop

  unfoldable pub sys_unlink : Option (List ℕ) → M W (Option ℕ)
  unfolding isdirempty
  sys_unlink none = fail
  sys_unlink (some path) = nameiparent sv path >>= λ parent. elim parent [
    | none ↦ fail
    | some (dp, name) ↦
        begin_trans sv
        >> (ilock sv dp
            >> (if same_name name dot || same_name name dot_dot
                then undo_unlink dp
                else (dirlookup sv dp name >>= λ found. elim found [
                  | none ↦ undo_unlink dp
                  | some (ip, off) ↦
                      ilock sv ip
                      >> (info sv ip >>= λ i.
                          if ltb i.nlink 1 || ltb 32767 i.nlink
                          then stop
                          else if i.type == t_dir
                          then (isdirempty ip >>= λ is_empty.
                              if is_empty
                              then remove_entry dp ip off i.type
                              else (iunlockput sv ip >> undo_unlink dp))
                          else remove_entry dp ip off i.type)
                ])))
  ]

  -- The entries . and .. of a new directory.
  abbrev pub add_dots : ℕ → ℕ → M W (Unit {0})
  add_dots dp ip =
      link_up dp
      >> (iupdate sv dp
          >> (info sv ip >>= λ i. dirlink sv ip dot i.inum >>= λ one.
              if one
              then (info sv dp >>= λ d.
                  dirlink sv ip dot_dot d.inum >>= λ two. if two then pure tt else stop)
              else stop))

  -- `none` for a null pointer; the inode is locked otherwise.
  -- major and minor are shorts, kept as their 16 bits.
  unfoldable pub create : List ℕ → ℕ → ℕ → ℕ → M W (Option ℕ)
  create path type major minor = nameiparent sv path >>= λ parent. elim parent [
    | none ↦ fail
    | some (dp, name) ↦
        ilock sv dp
        >> (dirlookup sv dp name >>= λ found. elim found [
          | some (ip, off) ↦
              iunlockput sv dp
              >> (ilock sv ip
                  >> (info sv ip >>= λ i.
                      if (type == t_file) && (i.type == t_file)
                      then pure (some ip)
                      else (iunlockput sv ip >> fail)))
          | none ↦ info sv dp >>= λ d. ialloc sv d.dev type >>= λ new. elim new [
            | none ↦ stop
            | some ip ↦
                ilock sv ip
                >> (info sv ip >>= λ i.
                    put_info sv ip
                      (record i { major = major % 65536; minor = minor % 65536; nlink = 1 })
                    >> (iupdate sv ip
                        >> ((if type == t_dir then add_dots dp ip else pure tt)
                            >> (info sv ip >>= λ i'. dirlink sv dp name i'.inum >>= λ linked.
                                if linked then (iunlockput sv dp >> pure (some ip)) else stop))))
          ]
        ])
  ]

  -- What mkdir and mknod do with the new inode.
  abbrev pub finish_create : Option ℕ → M W (Option ℕ)
  finish_create none = commit_trans sv >> fail
  finish_create (some ip) = iunlockput sv ip >> (commit_trans sv >> pure (some 0))

  unfoldable pub sys_mkdir : Option (List ℕ) → M W (Option ℕ)
  unfolding create
  sys_mkdir none = begin_trans sv >> (commit_trans sv >> fail)
  sys_mkdir (some path) = begin_trans sv >> (create path t_dir 0 0 >>= finish_create)

  unfoldable pub sys_mknod : Option (List ℕ) → Option ℕ → Option ℕ → M W (Option ℕ)
  unfolding create
  sys_mknod path major minor = begin_trans sv >> elim path [
    | none ↦ finish_create none
    | some p ↦ elim major [
      | none ↦ finish_create none
      | some a ↦ elim minor [
        | none ↦ finish_create none
        | some b ↦ create p t_dev a b >>= finish_create
      ]
    ]
  ]
