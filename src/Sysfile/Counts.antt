-- ===== src/Sysfile/Counts.antt =====
-- Descriptors, and the calls on them.
use os.Base.{
  ℕ, zero, suc, ◌+◌, ◌≡◌, refl, ltb, if◌then◌else◌, Option, none, some, List, [], ◌∷◌, arith,
  get_elem?, set, Option-cases, ok, subst, ap, inl, inr,
}
use os.Sysfile.State.{Services, Sys}
use os.Sysfile.Descriptors.{
  nofile, lookup_fd, free_fd, sys_dup, sys_read, sys_write, sys_close, sys_fstat, sys_pipe,
}
use os.Sysfile.Balance.{open_fds, Owes}

-- The first free descriptor from `k` on, and what becomes of the count when it is taken, and when it is
-- given up again.
record Free (files : List (Option ℕ)) (k r : ℕ) : Type 0 where
  pub index : ℕ
  pub place : r ≡ k + index
  pub taken : (f : ℕ) → open_fds (set files index (some f)) ≡ suc (open_fds files)
  pub given_up : (f : ℕ) → open_fds (set (set files index (some f)) index none) ≡ open_fds files

free_fd-Free : (files : List (Option ℕ)) (k : ℕ) {r : ℕ} → free_fd k files ≡ some r → Free files k r
unfolding free_fd
free_fd-Free [] k e = absurd (ground arith)
free_fd-Free (none ∷ files) k e = record {
  index = 0;
  place = ground arith;
  taken = λ f. refl;
  given_up = λ f. refl;
}
free_fd-Free (some g ∷ files) k e =
    let rest = free_fd-Free files (k + 1) e in
    record {
      index = suc rest.index;
      place = ground arith;
      taken = λ f. ap suc (rest.taken f);
      given_up = λ f. ap suc (rest.given_up f);
    }

from_zero : {r i : ℕ} → r ≡ 0 + i → i ≡ r
from_zero e = ground arith

pub free_fd-taken :
    (files : List (Option ℕ)) {r : ℕ} (f : ℕ)
    → free_fd 0 files ≡ some r
    → open_fds (set files r (some f)) ≡ suc (open_fds files)
free_fd-taken files f e =
    let free = free_fd-Free files 0 e in
    subst (λ r. open_fds (set files r (some f)) ≡ suc (open_fds files)) (from_zero free.place)
      (free.taken f)

free_fd-given_up :
    (files : List (Option ℕ)) {r : ℕ} (f : ℕ)
    → free_fd 0 files ≡ some r
    → open_fds (set (set files r (some f)) r none) ≡ open_fds files
free_fd-given_up files f e =
    let free = free_fd-Free files 0 e in
    subst (λ r. open_fds (set (set files r (some f)) r none) ≡ open_fds files)
      (from_zero free.place) (free.given_up f)

open_fds-close :
    (files : List (Option ℕ)) (fd : ℕ) {f : ℕ}
    → get_elem? files fd ≡ some (some f)
    → open_fds files ≡ suc (open_fds (set files fd none))
open_fds-close [] fd e = absurd (ground arith)
open_fds-close (none ∷ files) zero e = absurd (ground arith)
open_fds-close (some g ∷ files) zero e = refl
open_fds-close (none ∷ files) (suc fd) e = open_fds-close files fd e
open_fds-close (some g ∷ files) (suc fd) e = ap suc (open_fds-close files fd e)

lookup_fd-closed :
    (files : List (Option ℕ)) (fd : ℕ) {d f : ℕ}
    → lookup_fd files fd ≡ some (d, f)
    → open_fds files ≡ suc (open_fds (set files d none))
lookup_fd-closed files fd e = elim (Option-cases (get_elem? files fd)) [
  | inl out ↦ absurd (ground arith)
  | inr (slot, at) ↦ elim (Option-cases slot) [
    | inl free ↦ absurd (ground arith)
    | inr (g, used) ↦ let c = open_fds-close files fd {f = g} (ground arith) in ground arith
  ]
]

module _ {W : Type 0} (sv : Services W) where
  pub dup-Owes :
      (arg : Option ℕ) (s : Sys W) {r : Option ℕ} {s' : Sys W}
      → sys_dup sv arg s ≡ ok (r, s')
      → Owes 0 0 0 s s'
  unfolding sys_dup
  dup-Owes none s e = ground arith
  dup-Owes (some fd) s e =
      elim (Option-cases (if ltb fd nofile then lookup_fd s.ofile fd else none)) [
        | inl unused ↦ ground arith
        | inr ((d, f), used) ↦ elim (Option-cases (free_fd 0 s.ofile)) [
          | inl full ↦ ground arith
          | inr (r, free) ↦ let t = free_fd-taken s.ofile f free in ground arith
        ]
      ]

  pub read-Owes :
      (arg n p : Option ℕ) (s : Sys W) {r : Option ℕ} {s' : Sys W}
      → sys_read sv arg n p s ≡ ok (r, s')
      → Owes 0 0 0 s s'
  unfolding sys_read
  read-Owes arg n p s e = ground arith

  pub write-Owes :
      (arg n p : Option ℕ) (s : Sys W) {r : Option ℕ} {s' : Sys W}
      → sys_write sv arg n p s ≡ ok (r, s')
      → Owes 0 0 0 s s'
  unfolding sys_write
  write-Owes arg n p s e = ground arith

  pub fstat-Owes :
      (arg st : Option ℕ) (s : Sys W) {r : Option ℕ} {s' : Sys W}
      → sys_fstat sv arg st s ≡ ok (r, s')
      → Owes 0 0 0 s s'
  unfolding sys_fstat
  fstat-Owes arg st s e = ground arith

  pub close-Owes :
      (arg : Option ℕ) (s : Sys W) {r : Option ℕ} {s' : Sys W}
      → sys_close sv arg s ≡ ok (r, s')
      → Owes 0 0 0 s s'
  unfolding sys_close
  close-Owes none s e = ground arith
  close-Owes (some fd) s e = elim (Option-cases (lookup_fd s.ofile fd)) [
    | inl unused ↦ ground arith
    | inr ((d, f), used) ↦ let c = lookup_fd-closed s.ofile fd used in ground arith
  ]

  pub pipe-Owes :
      (arg : Option ℕ) (s : Sys W) {r : Option ℕ} {s' : Sys W}
      → sys_pipe sv arg s ≡ ok (r, s')
      → Owes 0 0 0 s s'
  unfolding sys_pipe
  pipe-Owes none s e = ground arith
  pipe-Owes (some addr) s e = elim (Option-cases ((sv.pipealloc s.world).0)) [
    | inl unmade ↦ ground arith
    | inr ((rf, wf), made) ↦ elim (Option-cases (free_fd 0 s.ofile)) [
      | inl full ↦ ground arith
      | inr (fd0, free) ↦
          let t = free_fd-taken s.ofile rf free in
          let g = free_fd-given_up s.ofile rf free in
          elim (Option-cases (free_fd 0 (set s.ofile fd0 (some rf)))) [
            | inl full ↦ ground arith
            | inr (fd1, free1) ↦ let t1 = free_fd-taken _ wf free1 in ground arith
          ]
    ]
  ]
