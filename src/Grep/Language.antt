-- ===== src/Grep/Language.antt =====
-- What a pattern means, apart from any way to match it.
use os.Base.{ℕ, ◌≡◌, ◌==◌, if◌then◌else◌, Bool, true, false, List, [], ◌∷◌, ◌++◌}
use os.Grep.{dot, asterisk, dollar}

pub data Atom : Type 0 where
  any : Atom
  lit : ℕ → Atom

pub data Piece : Type 0 where
  one : Atom → Piece
  star : Atom → Piece

abbrev pub Accepts : Atom → ℕ → Type 0
Accepts any t = Unit {0}
Accepts (lit c) t = t ≡ c

-- The strings that a sequence of pieces stands for.
pub data InLang : List Piece → List ℕ → Type 0 where
  done : InLang [] []
  step :
      {a : Atom} {ps : List Piece} {t : ℕ} {s : List ℕ}
      → Accepts a t
      → InLang ps s
      → InLang (one a ∷ ps) (t ∷ s)
  stop : {a : Atom} {ps : List Piece} {s : List ℕ} → InLang ps s → InLang (star a ∷ ps) s
  more :
      {a : Atom} {ps : List Piece} {t : ℕ} {s : List ℕ}
      → Accepts a t
      → InLang (star a ∷ ps) s
      → InLang (star a ∷ ps) (t ∷ s)

abbrev pub atom : ℕ → Atom
atom c = if c == dot then any else lit c

-- How a pattern without its ^ is read: a byte before * is repeated, a last $ is no piece.
unfoldable pub pieces : List ℕ → List Piece
pieces [] = []
pieces (c ∷ []) = if c == dollar then [] else one (atom c) ∷ []
pieces (c ∷ d ∷ re) =
    if d == asterisk then star (atom c) ∷ pieces re else one (atom c) ∷ pieces (d ∷ re)

-- Does the pattern end in a $ of its own?
unfoldable pub anchored : List ℕ → Bool
anchored [] = false
anchored (c ∷ []) = c == dollar
anchored (c ∷ d ∷ re) = if d == asterisk then anchored re else anchored (d ∷ re)

-- A string of `ps` stands at the front of the text, and at its end too if `whole`.
pub record Fronts (ps : List Piece) (whole : Bool) (text : List ℕ) : Type 0 where
  pub matched : List ℕ
  pub rest : List ℕ
  pub split : text ≡ matched ++ rest
  pub inside : InLang ps matched
  pub ends : whole ≡ true → rest ≡ []
