-- ===== src/Fs/Free.antt =====
-- The frees of itrunc, as the frees of one list of blocks.
use os.Base.{
  ℕ, zero, suc, ◌+◌, ◌≡◌, refl, ap, ◌∙◌, sym, fun_ext, ◌==◌, if◌then◌else◌, Bool, true, false, not,
  ◌&&◌, ◌||◌, List, [], ◌∷◌, ◌++◌, arith, Bool-cases, inl, inr,
}
use os.Base.{Outcome-cases, Outcome, ok, panic, ◌>>=◌}
use os.Fs.Disk.{Disk, nindirect, put, bfree}
use os.Fs.Inode.{free_entries, free_tables, free_indirect, free_double}

abbrev pub mem : ℕ → List ℕ → Bool
mem x [] = false
mem x (y ∷ ys) = (x == y) || mem x ys

-- Free the blocks in this order.
abbrev pub free_all : List ℕ → Disk → Outcome Disk
free_all [] d = ok d
free_all (b ∷ bs) d = bfree d b >>= free_all bs

-- The blocks are in use and all different.
abbrev pub AreUsed : (ℕ → Bool) → List ℕ → Type 0
AreUsed used [] = Unit {0}
AreUsed used (b ∷ bs) = (used b ≡ true) × (mem b bs ≡ false) × AreUsed used bs

-- What free_all leaves.
pub record Freed (d : Disk) (bs : List ℕ) (d' : Disk) : Type 0 where
  pub used : (b : ℕ) → d'.used b ≡ (d.used b && not (mem b bs))
  pub words : d'.words ≡ d.words
  pub dinode : d'.dinode ≡ d.dinode

AreUsed-put :
    (used : ℕ → Bool) (x : ℕ) (bs : List ℕ)
    → mem x bs ≡ false
    → AreUsed used bs
    → AreUsed (put used x false) bs
AreUsed-put used x [] e u = tt
AreUsed-put used x (b ∷ bs) e (ub, nb, us) =
    (ground arith, nb, AreUsed-put used x bs (ground arith) us)

pub free_all-Freed :
    (d : Disk) (bs : List ℕ)
    → AreUsed d.used bs
    → (d' : Disk) × (free_all bs d ≡ ok d') × Freed d bs d'
unfolding bfree
free_all-Freed d [] u = (d, refl, record { used = λ b. ground arith; words = refl; dinode = refl })
free_all-Freed d (x ∷ bs) (ux, nx, us) =
    let (d', e, f) =
      free_all-Freed (record d { used = put d.used x false }) bs (AreUsed-put d.used x bs nx us) in
    (
      d',
      rw (bfree, ux) e,
      record { used = λ b. ground (arith, f.used b); words = f.words; dinode = f.dinode },
    )

-- A free that goes through leaves the words of all blocks as they are.
free_all-words : (bs : List ℕ) (d d' : Disk) → free_all bs d ≡ ok d' → d'.words ≡ d.words
unfolding bfree
free_all-words [] d d' e = sym (ap (λ o. elim o [ ok r ↦ r.words | panic ↦ d.words ]) e)
free_all-words (b ∷ bs) d d' e = elim (Bool-cases (d.used b)) [
  | inl there ↦
      free_all-words bs (record d { used = put d.used b false }) d' (rw (bfree, there) at e)
  | inr gone ↦ absurd (ground arith)
]

free_all-append :
    (bs cs : List ℕ) (d : Disk) → free_all (bs ++ cs) d ≡ (free_all bs d >>= free_all cs)
free_all-append [] cs d = refl
free_all-append (b ∷ bs) cs d = elim (Outcome-cases (bfree d b)) [
  | inl e ↦ rw e refl
  | inr (d', e) ↦ rw e (free_all-append bs cs d')
]

-- A list of frees, then what frees another list while the words of the blocks are the same.
pub free_all_then :
    (bs cs : List ℕ) (g : Disk → Outcome Disk) (d : Disk)
    → ((d' : Disk) → d'.words ≡ d.words → g d' ≡ free_all cs d')
    → (free_all bs d >>= g) ≡ free_all (bs ++ cs) d
free_all_then bs cs g d same = elim (Outcome-cases (free_all bs d)) [
  | inl e ↦
      let onto : (free_all bs d >>= g) ≡ (free_all bs d >>= free_all cs) = rw e refl in
      onto ∙ sym (free_all-append bs cs d)
  | inr (d', e) ↦
      let onto : (free_all bs d >>= g) ≡ (free_all bs d >>= free_all cs) =
        rw e (same d' (free_all-words bs d d' e)) in
      onto ∙ sym (free_all-append bs cs d)
]

-- The blocks that a table names, and those that a table of tables does.
abbrev pub entries : ℕ → ℕ → (ℕ → ℕ) → List ℕ
entries zero i a = []
entries (suc n) i a = if a i == 0 then entries n (i + 1) a else (a i ∷ entries n (i + 1) a)

abbrev pub tables : ℕ → ℕ → (ℕ → ℕ) → (ℕ → ℕ → ℕ) → List ℕ
tables zero i a words = []
tables (suc n) i a words =
    if a i == 0
    then tables n (i + 1) a words
    else ((entries nindirect 0 (words (a i)) ++ (a i ∷ [])) ++ tables n (i + 1) a words)

pub free_entries_lem :
    (n i : ℕ) (a : ℕ → ℕ) (d : Disk) → free_entries n i a d ≡ free_all (entries n i a) d
unfolding free_entries
free_entries_lem zero i a d = refl
free_entries_lem (suc n) i a d = elim (Bool-cases (a i == 0)) [
  | inl none_here ↦ rw none_here (free_entries_lem n (i + 1) a d)
  | inr some_here ↦ elim (Outcome-cases (bfree d (a i))) [
    | inl e ↦ rw (some_here, e) refl
    | inr (d', e) ↦ rw (some_here, e) (free_entries_lem n (i + 1) a d')
  ]
]

free_all_last : (b : ℕ) (d : Disk) → free_all (b ∷ []) d ≡ bfree d b
free_all_last b d = elim (Outcome-cases (bfree d b)) [ inl e ↦ rw e refl | inr (d', e) ↦ rw e refl ]

-- Freeing a list, then one block more.
free_then :
    (bs : List ℕ) (b : ℕ) (d : Disk)
    → (free_all bs d >>= λ d'. bfree d' b) ≡ free_all (bs ++ (b ∷ [])) d
free_then bs b d =
    ap (λ (f : Disk → Outcome Disk). free_all bs d >>= f) (fun_ext (λ d'. sym (free_all_last b d')))
    ∙ sym (free_all-append bs (b ∷ []) d)

table_lem :
    (n b : ℕ) (d : Disk)
    → (free_entries n 0 (d.words b) d >>= λ d'. bfree d' b)
      ≡ free_all (entries n 0 (d.words b) ++ (b ∷ [])) d
table_lem n b d =
    ap (λ o. o >>= λ d'. bfree d' b) (free_entries_lem n 0 (d.words b) d)
    ∙ free_then (entries n 0 (d.words b)) b d

free_tables_lem :
    (n i : ℕ) (a : ℕ → ℕ) (d : Disk) → free_tables n i a d ≡ free_all (tables n i a d.words) d
unfolding free_tables
free_tables_lem zero i a d = refl
free_tables_lem (suc n) i a d = elim (Bool-cases (a i == 0)) [
  | inl none_here ↦ rw none_here (free_tables_lem n (i + 1) a d)
  | inr some_here ↦
      let bs = entries nindirect 0 (d.words (a i)) ++ (a i ∷ []) in
      let step : free_tables (suc n) i a d ≡ (free_all bs d >>= free_tables n (i + 1) a) =
        rw (free_tables, some_here)
          (ap (λ o. o >>= free_tables n (i + 1) a) (table_lem nindirect (a i) d)) in
      rw some_here (
        rw some_here at step
        ∙ free_all_then bs (tables n (i + 1) a d.words) (free_tables n (i + 1) a) d (λ d' e.
          free_tables_lem n (i + 1) a d' ∙ ap (λ w. free_all (tables n (i + 1) a w) d') e))
]

-- The blocks below the indirect block `b` and the double indirect block `b`, and that block.
abbrev pub indirect : ℕ → (ℕ → ℕ → ℕ) → List ℕ
indirect b words = if b == 0 then [] else (entries nindirect 0 (words b) ++ (b ∷ []))

abbrev pub double : ℕ → (ℕ → ℕ → ℕ) → List ℕ
double b words = if b == 0 then [] else (tables nindirect 0 (words b) words ++ (b ∷ []))

-- Nothing to free where there is no block.
free_all_if :
    (no_block : Bool) (o : Outcome Disk) (bs : List ℕ) (d : Disk)
    → o ≡ free_all bs d
    → (if no_block then ok d else o) ≡ free_all (if no_block then [] else bs) d
free_all_if true o bs d e = refl
free_all_if false o bs d e = e

pub free_indirect_lem : (b : ℕ) (d : Disk) → free_indirect b d ≡ free_all (indirect b d.words) d
unfolding free_indirect
free_indirect_lem b d = free_all_if (b == 0) _ _ d (table_lem nindirect b d)

pub free_double_lem : (b : ℕ) (d : Disk) → free_double b d ≡ free_all (double b d.words) d
unfolding free_double
free_double_lem b d = free_all_if (b == 0) _ _ d (
    ap (λ o. o >>= λ d'. bfree d' b) (free_tables_lem nindirect 0 (d.words b) d)
    ∙ free_then (tables nindirect 0 (d.words b) d.words) b d)
