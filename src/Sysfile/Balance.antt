-- ===== src/Sysfile/Balance.antt =====
-- What the system calls acquire they give back.
use os.Base.{
  ℕ, suc, ◌+◌, ◌≡◌, Option, none, some, List, [], ◌∷◌, arith, Outcome-cases, ok, inl, inr,
}
use os.Sysfile.State.{Services, Sys, M, ◌>>=◌, count_some}
use os.Sysfile.Names.{
  sys_link, sys_unlink, create, sys_mkdir, sys_mknod, isdirempty, t_dir, t_dev, finish_create,
}

-- The open descriptors of a process.
abbrev pub open_fds : List (Option ℕ) → ℕ
open_fds [] = 0
open_fds (none ∷ files) = open_fds files
open_fds (some f ∷ files) = suc (open_fds files)

-- From one state to the other as many transactions were committed as begun; of the inodes locked all
-- but `locks` were unlocked; of the references to inodes all but `refs` were put or stored in a file;
-- and of the references to files all but `files` were closed or stored in a descriptor.
pub record Owes {W : Type 0} (locks refs files : ℕ) (s s' : Sys W) : Type 0 where
  pub transactions : s'.begun + s.committed ≡ s.begun + s'.committed
  pub locked : s'.locked + s.unlocked ≡ s.locked + s'.unlocked + locks
  pub inodes : s'.got + s.put + s.stored ≡ s.got + s'.put + s'.stored + refs
  pub opened :
      s'.opened + s.closed + open_fds s.ofile ≡ s.opened + s'.closed + open_fds s'.ofile + files

pub M-bind :
    {W A B : Type 0} (m : M W A) (f : A → M W B) (s : Sys W) {b : B} {s' : Sys W}
    → (m >>= f) s ≡ ok (b, s')
    → (a : A) × (t : Sys W) × (m s ≡ ok (a, t)) × (f a t ≡ ok (b, s'))
M-bind m f s e = elim (Outcome-cases (m s)) [
  | inl stuck ↦ absurd (ground arith)
  | inr ((a, t), ran) ↦ (a, t, ran, ground arith)
]

module _ {W : Type 0} (sv : Services W) where
  pub link-Owes :
      (old new : Option (List ℕ)) (s : Sys W) {r : Option ℕ} {s' : Sys W}
      → sys_link sv old new s ≡ ok (r, s')
      → Owes 0 0 0 s s'
  unfolding sys_link
  link-Owes none new s e = ground arith
  link-Owes (some old) none s e = ground arith
  link-Owes (some old) (some new) s e = ground arith

  pub unlink-Owes :
      (path : Option (List ℕ)) (s : Sys W) {r : Option ℕ} {s' : Sys W}
      → sys_unlink sv path s ≡ ok (r, s')
      → Owes 0 0 0 s s'
  unfolding sys_unlink isdirempty
  unlink-Owes none s e = ground arith
  unlink-Owes (some path) s e = ground arith

  -- create returns its inode locked, with a reference for the caller.
  pub create-Owes :
      (path : List ℕ) (type major minor : ℕ) (s : Sys W) {r : Option ℕ} {s' : Sys W}
      → create sv path type major minor s ≡ ok (r, s')
      → Owes (count_some r) (count_some r) 0 s s'
  unfolding create
  create-Owes path type major minor s e = ground arith

  -- The end of a transaction begun in `s0`.
  pub finish_create-Owes :
      (s0 : Sys W) (made : Option ℕ) (t : Sys W) {r : Option ℕ} {s' : Sys W}
      → Owes
          (count_some made)
          (count_some made)
          0
          (record s0 { world = sv.begin_trans s0.world; begun = s0.begun + 1 })
          t
      → finish_create sv made t ≡ ok (r, s')
      → Owes 0 0 0 s0 s'
  finish_create-Owes s0 none t owed e = ground arith
  finish_create-Owes s0 (some ip) t owed e = ground arith

  pub mkdir-Owes :
      (path : Option (List ℕ)) (s : Sys W) {r : Option ℕ} {s' : Sys W}
      → sys_mkdir sv path s ≡ ok (r, s')
      → Owes 0 0 0 s s'
  unfolding sys_mkdir
  mkdir-Owes none s e = ground arith
  mkdir-Owes (some path) s e =
      let (made, t, ran, rest) = M-bind (create sv path t_dir 0 0) (finish_create sv) _ e in
      finish_create-Owes s made t (create-Owes path t_dir 0 0 _ ran) rest

  pub mknod-Owes :
      (path : Option (List ℕ)) (major minor : Option ℕ) (s : Sys W) {r : Option ℕ} {s' : Sys W}
      → sys_mknod sv path major minor s ≡ ok (r, s')
      → Owes 0 0 0 s s'
  unfolding sys_mknod
  mknod-Owes none major minor s e = ground arith
  mknod-Owes (some p) none minor s e = ground arith
  mknod-Owes (some p) (some a) none s e = ground arith
  mknod-Owes (some p) (some a) (some b) s e =
      let (made, t, ran, rest) = M-bind (create sv p t_dev a b) (finish_create sv) _ e in
      finish_create-Owes s made t (create-Owes p t_dev a b _ ran) rest
