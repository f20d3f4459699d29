-- ===== src/Shell/Tokens.antt =====
-- Tokens take up bytes of the line.
use os.Base.{
  ℕ, ◌≤◌, ◌<◌, ◌≡◌, refl, ◌==◌, true, false, List, [], ◌∷◌, length, arith, Bool-cases, ◌⊎◌, inl,
  inr,
}
use os.Shell.{strchr, whitespace, skip_white, split_word, after_gt, token_at, gettoken, peek}

pub skip_white-le : (s : List ℕ) → length (skip_white s) ≤ length s
skip_white-le [] = ground arith
skip_white-le (c ∷ cs) = let rest = skip_white-le cs in ground arith

split_word-le : (s : List ℕ) → length (split_word s).1 ≤ length s
split_word-le [] = ground arith
split_word-le (c ∷ cs) = let rest = split_word-le cs in ground arith

-- The first byte that is no white space.
skip_white-first :
    (s : List ℕ)
    → (skip_white s ≡ [])
      ⊎ ((c : ℕ) × (cs : List ℕ) × (skip_white s ≡ c ∷ cs)
          × (strchr whitespace c ≡ false)
          × (length cs < length s))
skip_white-first [] = inl refl
skip_white-first (c ∷ cs) = elim (Bool-cases (strchr whitespace c)) [
  | inl white ↦ elim (skip_white-first cs) [
    | inl none_left ↦ inl (ground arith)
    | inr (d, ds, same, black, lt) ↦ inr (d, ds, ground arith, black, ground arith)
  ]
  | inr black ↦ inr (c, cs, ground arith, black, ground arith)
]

after_gt-le : (s : List ℕ) → length (after_gt s).2 ≤ length s
after_gt-le [] = ground arith
after_gt-le (c ∷ cs) = let a = skip_white-le cs in let b = skip_white-le (c ∷ cs) in ground arith

token_at-le :
    (c : ℕ) (cs : List ℕ)
    → strchr whitespace c ≡ false
    → (c == 0) ≡ false
    → length (token_at (c ∷ cs)).2 ≤ length cs
token_at-le c cs black nonzero =
    let a = after_gt-le cs in
    let b = skip_white-le cs in
    let d = split_word-le cs in let e = skip_white-le (split_word cs).1 in ground arith

pub gettoken-lt : (s : List ℕ) → ((gettoken s).0 == 0) ≡ false → length (gettoken s).2 < length s
gettoken-lt s nonzero = elim (skip_white-first s) [
  | inl none_left ↦ absurd (ground arith)
  | inr (c, cs, same, black, lt) ↦ elim (Bool-cases (c == 0)) [
    | inl nul ↦ absurd (ground arith)
    | inr more ↦ let le = token_at-le c cs black more in rw same (ground arith)
  ]
]

pub gettoken-le : (s : List ℕ) → length (gettoken s).2 ≤ length s
gettoken-le s = elim (Bool-cases ((gettoken s).0 == 0)) [
  | inl nul ↦ elim (skip_white-first s) [
    | inl none_left ↦ rw none_left (ground arith)
    | inr (c, cs, same, black, lt) ↦ elim (Bool-cases (c == 0)) [
      | inl zero_byte ↦ rw same (ground arith)
      | inr more ↦ let le = token_at-le c cs black more in rw same (ground arith)
    ]
  ]
  | inr more ↦ let lt = gettoken-lt s more in omega arith
]

-- What peek sees is a token.
pub peek-lt : (toks s : List ℕ) → peek toks s ≡ true → length (gettoken s).2 < length s
peek-lt toks s seen = elim (skip_white-first s) [
  | inl none_left ↦ absurd (ground arith)
  | inr (c, cs, same, black, lt) ↦
      let le = token_at-le c cs black (ground arith) in rw same (ground arith)
]
