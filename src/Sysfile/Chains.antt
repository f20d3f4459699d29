-- ===== src/Sysfile/Chains.antt =====
-- What the calls that follow symbolic links acquire and give back.
use os.Base.{
  ℕ, zero, suc, ◌+◌, ◌≡◌, Option, none, some, List, arith, Bool-cases, Option-cases, ok, inl, inr,
}
use os.Sysfile.State.{Services, Sys, M, ◌>>=◌, ◌>>◌, fail, pure, commit_trans, count_some}
use os.Sysfile.Descriptors.{free_fd}
use os.Sysfile.Names.{t_file, create}
use os.Sysfile.Links.{
  wants_create, Chain, broken, last, follow, open_inode, follow_open, open_path, sys_open,
  last_link, link_at,
}
use os.Sysfile.Balance.{Owes, create-Owes, M-bind}
use os.Sysfile.Counts.{free_fd-taken}

-- From `s0` to `s` the locks are given back but `locks`, and at least `refs` references are not.
abbrev pub Loses : {W : Type 0} → ℕ → ℕ → Sys W → Sys W → Type 0
Loses locks refs s0 s = (n : ℕ) × Owes locks (refs + n) 0 s0 s

abbrev pub count_last : Chain → ℕ
count_last broken = 0
count_last (last ip) = 1

module _ {W : Type 0} (sv : Services W) where
  -- The state after the step from the locked link `ip` to its target.
  abbrev hop : ℕ → ℕ → Sys W → Sys W
  hop ip target s = record s {
    world = sv.ilock (sv.iunlock (sv.namei s.world (sv.info s.world ip).target).1 ip) target;
    got = s.got + 1;
    unlocked = s.unlocked + 1;
    locked = s.locked + 1;
  }

  -- The loop keeps a reference to every link it passed.
  follow-Loses :
      (k ip : ℕ) {s0 : Sys W} (s : Sys W) {r : Option ℕ} {s' : Sys W}
      → Loses 1 1 s0 s
      → follow sv k ip s ≡ ok (r, s')
      → Loses (count_some r) 1 s0 s'
  unfolding follow
  follow-Loses zero ip s owed e = absurd (ground arith)
  follow-Loses (suc k) ip s (m, owed) e = elim (Bool-cases (sv.info s.world ip).symlnk) [
    | inr plain ↦ (m, ground arith)
    | inl link ↦ elim (Option-cases (sv.namei s.world (sv.info s.world ip).target).0) [
      | inl absent ↦ (m, ground arith)
      | inr (target, present) ↦
          follow-Loses k target (hop ip target s) (suc m, ground arith) (ground arith)
    ]
  ]

  pub last_link-Loses :
      (k ip : ℕ) {s0 : Sys W} (s : Sys W) {c : Chain} {s' : Sys W}
      → Loses 1 1 s0 s
      → last_link sv k ip s ≡ ok (c, s')
      → Loses (count_last c) (suc (count_last c)) s0 s'
  unfolding last_link
  last_link-Loses zero ip s owed e = absurd (ground arith)
  last_link-Loses (suc k) ip s (m, owed) e =
      elim (Option-cases (sv.namei s.world (sv.info s.world ip).target).0) [
        | inl absent ↦ (m, ground arith)
        | inr (target, present) ↦
            elim (Bool-cases
              (sv.info (sv.namei s.world (sv.info s.world ip).target).1 target).symlnk) [
                | inr plain ↦ (m, ground arith)
                | inl link ↦
                    last_link-Loses k target (hop ip target s) (suc m, ground arith) (ground arith)
              ]
      ]

  open_inode-Loses :
      (omode ip : ℕ) {s0 : Sys W} (s : Sys W) {r : Option ℕ} {s' : Sys W}
      → Loses 1 1 s0 s
      → open_inode sv omode ip s ≡ ok (r, s')
      → Loses 0 0 s0 s'
  unfolding open_inode
  open_inode-Loses omode ip s (m, owed) e = elim (Option-cases (sv.filealloc s.world).0) [
    | inl none_left ↦ (m, ground arith)
    | inr (f, got) ↦ elim (Option-cases (free_fd 0 s.ofile)) [
      | inl full ↦ (m, ground arith)
      | inr (fd, free) ↦ let t = free_fd-taken s.ofile f free in (m, ground arith)
    ]
  ]

  open_found-Loses :
      (omode : ℕ) (found : Option ℕ) {s0 : Sys W} (s : Sys W) {r : Option ℕ} {s' : Sys W}
      → Loses (count_some found) 1 s0 s
      → (elim found as (λ x. M W (Option ℕ)) [
        | none ↦ fail
        | some last_ip ↦ open_inode sv omode last_ip
      ])
          s
        ≡ ok (r, s')
      → Loses 0 0 s0 s'
  open_found-Loses omode none s (m, owed) e = (suc m, ground arith)
  open_found-Loses omode (some last_ip) s owed e = open_inode-Loses omode last_ip s owed e

  follow_open-Loses :
      (omode : ℕ) (start : Option ℕ) {s0 : Sys W} (s : Sys W) {r : Option ℕ} {s' : Sys W}
      → Loses (count_some start) (count_some start) s0 s
      → follow_open sv omode start s ≡ ok (r, s')
      → Loses 0 0 s0 s'
  unfolding follow_open
  follow_open-Loses omode none s (m, owed) e = (m, ground arith)
  follow_open-Loses omode (some ip) s owed e =
      let (found, t, ran, rest) = M-bind (follow sv 16 ip) _ s e in
      open_found-Loses omode found t (follow-Loses 16 ip s owed ran) rest

  abbrev pub began : Sys W → Sys W
  began s = record s { world = sv.begin_trans s.world; begun = s.begun + 1 }

  commit-Owes :
      (made : Option ℕ) (s t : Sys W) {r : Option ℕ} {s' : Sys W}
      → Owes (count_some made) (count_some made) 0 (began s) t
      → (commit_trans sv >> pure made) t ≡ ok (r, s')
      → Owes (count_some r) (count_some r) 0 s s'
  commit-Owes none s t owed e = ground arith
  commit-Owes (some ip) s t owed e = ground arith

  -- A file made in a transaction of its own.
  created-Owes :
      (path : List ℕ) (s : Sys W) {r : Option ℕ} {s' : Sys W}
      → (create sv path t_file 0 0 >>= λ ip. commit_trans sv >> pure ip) (began s) ≡ ok (r, s')
      → Owes (count_some r) (count_some r) 0 s s'
  created-Owes path s e =
      let (made, t, ran, rest) = M-bind (create sv path t_file 0 0) _ (began s) e in
      commit-Owes made s t (create-Owes sv path t_file 0 0 _ ran) rest

  open_path-Loses :
      (path : List ℕ) (omode : ℕ) (s : Sys W) {r : Option ℕ} {s' : Sys W}
      → open_path sv path omode s ≡ ok (r, s')
      → Loses (count_some r) (count_some r) s s'
  unfolding open_path
  open_path-Loses path omode s {r = r} {s' = s'} e = elim (Bool-cases (wants_create omode)) [
    | inl creates ↦
        let owed = created-Owes path s {r = r} {s' = s'} (ground arith) in (0, ground arith)
    | inr plain ↦ (0, ground arith)
  ]

  pub open-Loses :
      (path : Option (List ℕ)) (omode : Option ℕ) (s : Sys W) {r : Option ℕ} {s' : Sys W}
      → sys_open sv path omode s ≡ ok (r, s')
      → Loses 0 0 s s'
  unfolding sys_open
  open-Loses none omode s e = (0, ground arith)
  open-Loses (some path) none s e = (0, ground arith)
  open-Loses (some path) (some omode) s e =
      let (start, t, ran, rest) = M-bind (open_path sv path omode) (follow_open sv omode) s e in
      follow_open-Loses omode start t (open_path-Loses path omode s ran) rest

  pub link_at-Loses :
      (path : List ℕ) (s : Sys W) {r : Option ℕ} {s' : Sys W}
      → link_at sv path s ≡ ok (r, s')
      → Loses (count_some r) (count_some r) s s'
  unfolding link_at
  link_at-Loses path s e = elim (Option-cases (sv.namei s.world path).0) [
    | inl absent ↦ (0, ground arith)
    | inr (ip, present) ↦
        elim (Bool-cases (sv.info (sv.ilock (sv.namei s.world path).1 ip) ip).symlnk) [
          | inl link ↦ (0, ground arith)
          | inr plain ↦ (1, ground arith)
        ]
  ]
