-- ===== src/Grep.antt =====
-- grep.c: the regular expression matcher for ^ . * $.
-- A C string is the list of its bytes before the NUL: `*p == '\0'` is the empty list.
pub mod Language
pub mod Here
pub mod Search
mod Tests
use os.Base.{ℕ, ◌==◌, if◌then◌else◌, Bool, true, false, ◌&&◌, ◌||◌, List, [], ◌∷◌}

abbrev pub hat : ℕ
hat = b'^'

abbrev pub dot : ℕ
dot = b'.'

abbrev pub asterisk : ℕ
asterisk = b'*'

abbrev pub dollar : ℕ
dollar = b'$'

-- matchstar, with matchhere(re, -) as the argument `here`.
unfoldable pub matchstar : ℕ → (List ℕ → Bool) → List ℕ → Bool
matchstar c here [] = here []
matchstar c here (t ∷ text) = here (t ∷ text) || ((t == c || c == dot) && matchstar c here text)

-- The last test of matchhere, with matchhere(re + 1, -) as the argument `here`.
unfoldable pub match_one : ℕ → (List ℕ → Bool) → List ℕ → Bool
match_one c here [] = false
match_one c here (t ∷ text) = (c == dot || c == t) && here text

unfoldable pub at_end : List ℕ → Bool
at_end [] = true
at_end (t ∷ text) = false

unfoldable pub matchhere : List ℕ → List ℕ → Bool
unfolding matchstar match_one at_end
matchhere [] text = true
matchhere (c ∷ []) text = if c == dollar then at_end text else match_one c (matchhere []) text
matchhere (c ∷ d ∷ re) text =
    if d == asterisk then matchstar c (matchhere re) text else match_one c (matchhere (d ∷ re)) text

-- The loop of match.
unfoldable pub match_from : List ℕ → List ℕ → Bool
unfolding matchhere
match_from re [] = matchhere re []
match_from re (t ∷ text) = matchhere re (t ∷ text) || match_from re text

unfoldable pub match : List ℕ → List ℕ → Bool
unfolding matchhere match_from
match [] text = match_from [] text
match (c ∷ re) text = if c == hat then matchhere re text else match_from (c ∷ re) text
