-- ===== src/Fs/Path.antt =====
-- fs.c: skipelem, which takes one element off a path. A path is the list of its bytes before the NUL.
use os.Base.{
  ℕ, zero, suc, ◌≡◌, refl, ap, ◌==◌, if◌then◌else◌, Bool, true, false, not, ◌&&◌, Option, none,
  some, List, [], ◌∷◌, ◌++◌, take, replicate, arith,
}

abbrev pub slash : ℕ
slash = 47

abbrev pub dirsiz : ℕ
dirsiz = 14

-- while(*path == '/') path++;
unfoldable pub skip_slashes : List ℕ → List ℕ
skip_slashes [] = []
skip_slashes (c ∷ cs) = let rest = skip_slashes cs in if c == slash then rest else (c ∷ cs)

-- while(*path != '/' && *path != 0) path++; the bytes passed, and the path from there.
unfoldable pub split_elem : List ℕ → List ℕ × List ℕ
split_elem [] = ([], [])
split_elem (c ∷ cs) =
    let (name, rest) = split_elem cs in if c == slash then ([], c ∷ cs) else (c ∷ name, rest)

-- The name, of at most DIRSIZ bytes, and the rest of the path; `none` for a null pointer.
unfoldable pub skipelem : List ℕ → Option (List ℕ × List ℕ)
unfolding skip_slashes split_elem
skipelem path = elim (skip_slashes path) [
  | [] ↦ none
  | c ∷ cs ↦ let (name, rest) = split_elem (c ∷ cs) in some (take dirsiz name, skip_slashes rest)
]

abbrev pub starts_name : List ℕ → Bool
starts_name [] = false
starts_name (c ∷ cs) = not (c == slash)

abbrev pub no_slash : List ℕ → Bool
no_slash [] = true
no_slash (c ∷ cs) = not (c == slash) && no_slash cs

skip_slashes-append :
    (k : ℕ) (cs : List ℕ) → skip_slashes (replicate k slash ++ cs) ≡ skip_slashes cs
unfolding skip_slashes
skip_slashes-append zero cs = refl
skip_slashes-append (suc k) cs = skip_slashes-append k cs

split_elem-append :
    (name tail : List ℕ)
    → no_slash name ≡ true
    → starts_name tail ≡ false
    → split_elem (name ++ tail) ≡ (name, tail)
unfolding split_elem
split_elem-append [] [] e end = refl
split_elem-append [] (c ∷ cs) e end = let stop : (c == slash) ≡ true = ground arith in rw stop refl
split_elem-append (c ∷ name) tail e end =
    let go_on : (c == slash) ≡ false = ground arith in
    rw (go_on, split_elem-append name tail (ground arith) end) refl

-- After any number of slashes, skipelem takes off the next name, cut at DIRSIZ bytes, and the slashes
-- behind it; it finds no name where there are only slashes.
pub skipelem_lem :
    (k c : ℕ) (name tail : List ℕ)
    → no_slash (c ∷ name) ≡ true
    → starts_name tail ≡ false
    → (skipelem (replicate k slash ++ ((c ∷ name) ++ tail))
        ≡ some (take dirsiz (c ∷ name), skip_slashes tail))
      × (skipelem (replicate k slash ++ []) ≡ none)
unfolding skipelem skip_slashes
skipelem_lem k c name tail e end =
    let first : (c == slash) ≡ false = ground arith in
    (
      rw (skip_slashes-append k ((c ∷ name) ++ tail), skipelem, skip_slashes, first)
          (ap (λ r. some (take dirsiz r.0, skip_slashes r.1))
            (split_elem-append (c ∷ name) tail e end)),
      rw (skip_slashes-append k [], skipelem) refl,
    )
