-- ===== src/Grep/Tests.antt =====
-- Runs of the matcher, and instances of its theorems.
use os.Base.{ℕ, ◌≡◌, ◌↔◌, refl, true, false, List, [], ◌∷◌}
use os.Grep.{match}
use os.Grep.Search.{Selects, match-Selects}

-- a.c*$
abbrev pattern_bytes : List ℕ
pattern_bytes = b'a' ∷ b'.' ∷ b'c' ∷ b'*' ∷ b'$' ∷ []

finds : match pattern_bytes (b'x' ∷ b'a' ∷ b'b' ∷ b'c' ∷ b'c' ∷ []) ≡ true
unfolding match
finds = refl

misses : match pattern_bytes (b'x' ∷ b'a' ∷ b'b' ∷ b'c' ∷ b'd' ∷ []) ≡ false
unfolding match
misses = refl

match-Selects_example :
    (match pattern_bytes (b'a' ∷ b'b' ∷ []) ≡ true) ↔ Selects pattern_bytes (b'a' ∷ b'b' ∷ [])
match-Selects_example = match-Selects pattern_bytes (b'a' ∷ b'b' ∷ [])
