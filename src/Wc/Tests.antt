-- ===== src/Wc/Tests.antt =====
-- Instances of the theorem about wc.
use os.Base.{ℕ, ◌≡◌, refl, some, List, [], ◌∷◌, length, arith}
use os.Wc.{Counts, wc}
use os.Wc.Words.{lines, words, text, reads_of, wc_lem}

-- "ab\n c" in two reads, cut inside the first word.
abbrev cut_word : List (List ℕ)
cut_word = (97 ∷ []) ∷ (98 ∷ 10 ∷ 32 ∷ 99 ∷ []) ∷ []

cut_word_lem : length (words (text cut_word)) ≡ 2
unfolding words
cut_word_lem = refl

wc_example :
    (s : Counts) × (wc (reads_of cut_word) ≡ some s)
    × (s.l ≡ lines (text cut_word))
    × (s.w ≡ length (words (text cut_word)))
    × (s.c ≡ 5)
wc_example = wc_lem cut_word refl (omega arith)
