-- ===== src/File/Counts.antt =====
-- The references to open files.
use os.Base.{
  ℕ, zero, suc, ◌+◌, ◌-◌, ◌≤◌, ◌<◌, ◌≡◌, ◌≢◌, inl, inr, refl, ap, sym, ◌==◌, ltb, true, false,
  Option, none, some, List, [], ◌∷◌, get_elem?, arith, Bool-cases, Option-cases,
  get_elem?-modify_self, get_elem?-modify_ne,
}
use os.Base.{ok}
use os.File.{FileServices, File, fd_none, find_file, filealloc, filedup, release, fileclose}

abbrev pub Holds : List File → ℕ → File → Type 0
Holds t i f = get_elem? t i ≡ some f

find_file-some :
    (i : ℕ) (t : List File) {j : ℕ}
    → find_file i t ≡ some j
    → (i ≤ j) × (f : File) × Holds t (j - i) f × (f.ref ≡ 0)
unfolding find_file
find_file-some i [] h = cc
find_file-some i (f ∷ fs) {j} h = elim (Bool-cases (f.ref == 0)) [
  | inl free ↦
      let same : i ≡ j = ground arith in
      let first : j - i ≡ 0 = omega arith in (omega arith, f, rw first refl, ground arith)
  | inr taken ↦
      let (le, g, there, free) = find_file-some (i + 1) fs {j = j} (rw taken at h) in
      let step : j - i ≡ suc (j - (i + 1)) = omega arith in (omega arith, g, rw step there, free)
]

find_file-none :
    (i : ℕ) (t : List File) → find_file i t ≡ none → (j : ℕ) (f : File) → Holds t j f → 0 < f.ref
unfolding find_file
find_file-none i [] h j f e = cc
find_file-none i (g ∷ fs) h zero f e =
    let same : g.ref ≡ f.ref = ap (λ o. elim o [ none ↦ 0 | some x ↦ x.ref ]) e in ground arith
find_file-none i (g ∷ fs) h (suc j) f e = elim (Bool-cases (g.ref == 0)) [
  | inl free ↦ absurd (ground arith)
  | inr taken ↦ find_file-none (i + 1) fs (rw taken at h) j f e
]

-- What filealloc returns: a slot that had no reference and has one now, the other slots unchanged; or
-- nothing, and then all slots have references and none is changed.
abbrev pub Allocated : List File → Option ℕ → List File → Type 0
Allocated t none t' = (t' ≡ t) × ((j : ℕ) (f : File) → Holds t j f → 0 < f.ref)
Allocated t (some i) t' =
    (f : File) × Holds t i f
    × (f.ref ≡ 0)
    × Holds t' i (record f { ref = 1 })
    × ((j : ℕ) → j ≢ i → get_elem? t' j ≡ get_elem? t j)

-- filealloc takes a slot without references and gives it one, with the other slots unchanged; it
-- fails only if all slots have references, and changes nothing then.
pub filealloc-Allocated : (t : List File) → Allocated t (filealloc t).0 (filealloc t).1
unfolding filealloc
filealloc-Allocated t = elim (Option-cases (find_file 0 t)) [
  | inl full ↦ rw (full, filealloc) (refl, find_file-none 0 t full)
  | inr (i, found) ↦
      let (le, f, there, free) = find_file-some 0 t found in
      let same : i - 0 ≡ i = omega arith in
      let at_i : Holds t i f = rw same at there in
      rw (found, filealloc)
        (
          f,
          at_i,
          free,
          get_elem?-modify_self _ t i at_i,
          λ j ne. get_elem?-modify_ne _ t i j (λ e. ne (sym e)),
        )
]

-- On an open file, fileclose after filedup gives back the file as it was and releases nothing; and
-- fileclose of the last reference frees the slot and releases what the file stands for.
pub fileclose-filedup :
    {R : Type 0} (sv : FileServices R) (r : R) (f : File)
    → 0 < f.ref
    → ((g : File) × (filedup f ≡ ok g) × (fileclose sv r g ≡ ok (f, r)))
      × (f.ref ≡ 1 → fileclose sv r f ≡ ok (record f { ref = 0; type = fd_none }, release sv r f))
unfolding filedup fileclose
fileclose-filedup sv r f live =
    let one : ltb f.ref 1 ≡ false = ground arith in
    let two : ltb (f.ref + 1) 1 ≡ false = ground arith in
    let more : ltb 0 (f.ref + 1 - 1) ≡ true = ground arith in
    let back : f.ref + 1 - 1 ≡ f.ref = omega arith in
    ((record f { ref = f.ref + 1 }, rw one refl, rw (two, more, back) refl), λ last. rw last refl)
