-- ===== src/Sysfile/Descriptors.antt =====
-- File descriptors: dup, read, write, close, fstat and pipe.
use os.Base.{ℕ, ◌+◌, ltb, if◌then◌else◌, Option, none, some, List, [], ◌∷◌, get_elem?, set, ok}
use os.Sysfile.State.{
  Services, M, ◌>>=◌, ◌>>◌, pure, fail, filedup, fileclose, pipealloc, put_words, call,
}

abbrev pub nofile : ℕ
nofile = 16

-- The descriptor and its file.
abbrev pub lookup_fd : List (Option ℕ) → ℕ → Option (ℕ × ℕ)
lookup_fd files fd = elim (get_elem? files fd) [
  | none ↦ none
  | some slot ↦ elim slot [ none ↦ none | some f ↦ some (fd, f) ]
]

abbrev pub argfd : {W : Type 0} → Option ℕ → M W (Option (ℕ × ℕ))
argfd none s = ok (none, s)
argfd (some fd) s = ok (if ltb fd nofile then lookup_fd s.ofile fd else none, s)

-- The first free descriptor from `fd` on.
unfoldable pub free_fd : ℕ → List (Option ℕ) → Option ℕ
free_fd fd [] = none
free_fd fd (none ∷ files) = some fd
free_fd fd (some f ∷ files) = free_fd (fd + 1) files

abbrev pub put_fd : {W : Type 0} → ℕ → Option ℕ → M W (Unit {0})
put_fd fd f s = ok (tt, record s { ofile = set s.ofile fd f })

abbrev pub fdalloc : {W : Type 0} → ℕ → M W (Option ℕ)
fdalloc f s = elim (free_fd 0 s.ofile) [
  | none ↦ ok (none, s)
  | some fd ↦ ok (some fd, record s { ofile = set s.ofile fd (some f) })
]

module _ {W : Type 0} (sv : Services W) where
  unfoldable pub sys_dup : Option ℕ → M W (Option ℕ)
  sys_dup arg = argfd arg >>= λ found. elim found [
    | none ↦ fail
    | some (_, f) ↦
        fdalloc f >>= λ got. elim got [ none ↦ fail | some fd ↦ filedup sv f >> pure (some fd) ]
  ]

  -- `n` and `p` are arguments 2 and 1, as argint and argptr return them.
  unfoldable pub sys_read : Option ℕ → Option ℕ → Option ℕ → M W (Option ℕ)
  sys_read arg n p = argfd arg >>= λ found. elim found [
    | none ↦ fail
    | some (_, f) ↦ elim n [
      | none ↦ fail
      | some size ↦ elim p [ none ↦ fail | some addr ↦ call sv (λ w. sv.fileread w f addr size) ]
    ]
  ]

  unfoldable pub sys_write : Option ℕ → Option ℕ → Option ℕ → M W (Option ℕ)
  sys_write arg n p = argfd arg >>= λ found. elim found [
    | none ↦ fail
    | some (_, f) ↦ elim n [
      | none ↦ fail
      | some size ↦ elim p [ none ↦ fail | some addr ↦ call sv (λ w. sv.filewrite w f addr size) ]
    ]
  ]

  unfoldable pub sys_close : Option ℕ → M W (Option ℕ)
  sys_close arg = argfd arg >>= λ found. elim found [
    | none ↦ fail
    | some (fd, f) ↦ put_fd fd none >> (fileclose sv f >> pure (some 0))
  ]

  unfoldable pub sys_fstat : Option ℕ → Option ℕ → M W (Option ℕ)
  sys_fstat arg st = argfd arg >>= λ found. elim found [
    | none ↦ fail
    | some (_, f) ↦ elim st [ none ↦ fail | some addr ↦ call sv (λ w. sv.filestat w f addr) ]
  ]

  -- The two files that pipealloc opened, given up again; the first may have a descriptor.
  abbrev pub give_up : Option ℕ → ℕ → ℕ → M W (Option ℕ)
  give_up none rf wf = fileclose sv rf >> (fileclose sv wf >> fail)
  give_up (some fd) rf wf = put_fd fd none >> (fileclose sv rf >> (fileclose sv wf >> fail))

  unfoldable pub sys_pipe : Option ℕ → M W (Option ℕ)
  sys_pipe arg = elim arg [
    | none ↦ fail
    | some addr ↦ pipealloc sv >>= λ files. elim files [
      | none ↦ fail
      | some (rf, wf) ↦ fdalloc rf >>= λ r. elim r [
        | none ↦ give_up none rf wf
        | some fd0 ↦ fdalloc wf >>= λ w. elim w [
          | none ↦ give_up (some fd0) rf wf
          | some fd1 ↦ put_words sv addr fd0 fd1 >> pure (some 0)
        ]
      ]
    ]
  ]
