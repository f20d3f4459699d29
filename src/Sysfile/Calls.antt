-- ===== src/Sysfile/Calls.antt =====
-- The system calls of sysfile.c on their arguments, and what all of them acquire and give back.
use os.Base.{ℕ, ◌+◌, Option, List}
use os.Sysfile.State.{Services, M, count_some}
use os.Sysfile.Descriptors.{sys_dup, sys_read, sys_write, sys_close, sys_fstat, sys_pipe}
use os.Sysfile.Names.{sys_link, sys_unlink, sys_mkdir, sys_mknod}
use os.Sysfile.Links.{
  sys_open, sys_symlink, sys_readlink, sys_chdir, sys_ftag, sys_funtag, sys_gettag,
}

-- A call with the arguments that were fetched.
pub data Call : Type 0 where
  dup : Option ℕ → Call
  read : Option ℕ → Option ℕ → Option ℕ → Call
  write : Option ℕ → Option ℕ → Option ℕ → Call
  close : Option ℕ → Call
  fstat : Option ℕ → Option ℕ → Call
  link : Option (List ℕ) → Option (List ℕ) → Call
  unlink : Option (List ℕ) → Call
  open_path : Option (List ℕ) → Option ℕ → Call
  mkdir : Option (List ℕ) → Call
  mknod : Option (List ℕ) → Option ℕ → Option ℕ → Call
  chdir : Option (List ℕ) → Call
  pipe : Option ℕ → Call
  symlink : Option (List ℕ) → Option (List ℕ) → Call
  readlink : Option (List ℕ) → Option ℕ → Option ℕ → Call
  ftag : Option ℕ → Option (List ℕ) → Option (List ℕ) → Call
  funtag : Option ℕ → Option (List ℕ) → Call
  gettag : Option ℕ → Option (List ℕ) → Option ℕ → Call

abbrev pub perform : {W : Type 0} → Services W → Call → M W (Option ℕ)
perform sv (dup fd) = sys_dup sv fd
perform sv (read fd n p) = sys_read sv fd n p
perform sv (write fd n p) = sys_write sv fd n p
perform sv (close fd) = sys_close sv fd
perform sv (fstat fd st) = sys_fstat sv fd st
perform sv (link old new) = sys_link sv old new
perform sv (unlink path) = sys_unlink sv path
perform sv (open_path path omode) = sys_open sv path omode
perform sv (mkdir path) = sys_mkdir sv path
perform sv (mknod path major minor) = sys_mknod sv path major minor
perform sv (chdir path) = sys_chdir sv path
perform sv (pipe fd) = sys_pipe sv fd
perform sv (symlink target path) = sys_symlink sv target path
perform sv (readlink path buf bufsiz) = sys_readlink sv path buf bufsiz
perform sv (ftag fd key val) = sys_ftag sv fd key val
perform sv (funtag fd key) = sys_funtag sv fd key
perform sv (gettag fd key buf) = sys_gettag sv fd key buf

-- The calls that follow symbolic links can keep references to inodes, readlink at least one when it
-- returns the text.
abbrev pub keeps_inodes : Call → Option ℕ → ℕ → ℕ
keeps_inodes (open_path path omode) r n = n
keeps_inodes (chdir path) r n = n
keeps_inodes (readlink path buf bufsiz) r n = count_some r + n
keeps_inodes call r n = 0

-- symlink opens a file that no descriptor gets.
abbrev pub keeps_files : Call → Option ℕ → ℕ
keeps_files (symlink target path) r = count_some r
keeps_files call r = 0
