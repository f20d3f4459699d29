-- ===== src/Sysfile/Tests.antt =====
-- The calls of sysfile.c on an empty directory.
use os.Base.{true, false, none, some, [], ◌∷◌}
use os.Sysfile.State.{Info, Services, Sys}
use os.Sysfile.Calls.{Call, symlink}

abbrev plain_file : Info
plain_file = record {
  dev = 1;
  inum = 2;
  type = 2;
  major = 0;
  minor = 0;
  nlink = 1;
  size = 0;
  symlnk = false;
  target = [];
}

-- The world is not looked at: inode 1 is the directory, inode 2 the next to be allocated.
abbrev empty_directory : Services (Unit {0})
empty_directory = record {
  info = λ w ip. plain_file;
  put_info = λ w ip i. w;
  namei = λ w path. (none, w);
  nameiparent = λ w path. (some (1, path), w);
  ilock = λ w ip. w;
  iunlock = λ w ip. w;
  iput = λ w ip. w;
  iupdate = λ w ip. w;
  ialloc = λ w dev type. (some 2, w);
  dirlookup = λ w dp name. (none, w);
  dirlink = λ w dp name inum. (true, w);
  read_entry = λ w dp off. (some 0, w);
  clear_entry = λ w dp off. (true, w);
  begin_trans = λ w. w;
  commit_trans = λ w. w;
  filealloc = λ w. (some 0, w);
  put_file = λ w f fields. w;
  filedup = λ w f. w;
  fileclose = λ w f. w;
  pipealloc = λ w. (none, w);
  fileread = λ w f addr n. (none, w);
  filewrite = λ w f addr n. (none, w);
  filestat = λ w f addr. (none, w);
  put_words = λ w addr a b. w;
  put_string = λ w buf text size. w;
  strlen = λ w buf. 0;
  fs_ftag = λ w f key val. (none, w);
  fs_funtag = λ w f key. (none, w);
  fs_gettag = λ w f key buf. (none, w);
}

abbrev start : Sys (Unit {0})
start = record {
  ofile = none ∷ [];
  cwd = 1;
  world = tt;
  begun = 0;
  committed = 0;
  locked = 0;
  unlocked = 0;
  got = 0;
  put = 0;
  stored = 0;
  opened = 0;
  closed = 0;
}

abbrev linked : Sys (Unit {0})
linked = record {
  ofile = none ∷ [];
  cwd = 1;
  world = tt;
  begun = 1;
  committed = 1;
  locked = 2;
  unlocked = 2;
  got = 2;
  put = 1;
  stored = 1;
  opened = 1;
  closed = 0;
}

abbrev make_link : Call
make_link = symlink (some (97 ∷ [])) (some (98 ∷ []))
