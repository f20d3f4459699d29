-- ===== src/Wc/Words.antt =====
-- What wc counts: the lines, words and bytes of the whole file, however the reads cut it.
use os.Base.{
  ℕ, suc, ◌+◌, ◌^◌, ◌<◌, ◌≤◌, ◌≡◌, refl, sym, ◌∙◌, ap, subst, ◌==◌, leb, if◌then◌else◌, Bool, true,
  false, not, ◌&&◌, ◌||◌, Option, some, List, [], ◌∷◌, ◌++◌, length, add32, arith, Bool-cases, inl,
  inr,
}
use os.Shell.{strchr}
use os.Wc.{Counts, white, count_byte, count, no_counts, count_reads, wc}

abbrev pub lines : List ℕ → ℕ
lines [] = 0
lines (b ∷ bs) = (if b == 10 then 1 else 0) + lines bs

-- White space: a blank, or one of the bytes 9 to 13 but the form feed, 12.
abbrev pub is_space : ℕ → Bool
is_space b = (b == 32) || ((leb 9 b && leb b 13) && not (b == 12))

-- The text begins with a byte of a word.
abbrev pub starts_word : List ℕ → Bool
starts_word [] = false
starts_word (b ∷ bs) = not (is_space b)

abbrev pub attach : ℕ → Bool → List (List ℕ) → List (List ℕ)
attach b true (w ∷ ws) = (b ∷ w) ∷ ws
attach b true [] = (b ∷ []) ∷ []
attach b false ws = (b ∷ []) ∷ ws

-- The words of a text, between white space.
unfoldable pub words : List ℕ → List (List ℕ)
words [] = []
words (b ∷ bs) = let rest = words bs in if is_space b then rest else attach b (starts_word bs) rest

one_if : Bool → ℕ
one_if b = if b then 1 else 0

length-attach :
    (b : ℕ) (on : Bool) (ws : List (List ℕ))
    → one_if on ≤ length ws
    → length (attach b on ws) + one_if on ≡ suc (length ws)
unfolding one_if
length-attach b true [] le = absurd (omega arith)
length-attach b true (w ∷ ws) le = omega arith
length-attach b false ws le = omega arith

attach_some : (b : ℕ) (on : Bool) (ws : List (List ℕ)) → 1 ≤ length (attach b on ws)
attach_some b true [] = omega arith
attach_some b true (w ∷ ws) = omega arith
attach_some b false ws = omega arith

words_there : (bs : List ℕ) → one_if (starts_word bs) ≤ length (words bs)
unfolding words one_if
words_there [] = omega arith
words_there (b ∷ bs) = elim (Bool-cases (is_space b)) [
  | inl space ↦ rw (words, space) (omega arith)
  | inr letter ↦ rw (words, letter) (attach_some b (starts_word bs) (words bs))
]

words_step :
    (b : ℕ) (bs : List ℕ)
    → length (words (b ∷ bs)) + one_if (not (is_space b) && starts_word bs)
      ≡ (if is_space b then length (words bs) else suc (length (words bs)))
unfolding words one_if
words_step b bs = elim (Bool-cases (is_space b)) [
  | inl space ↦ rw (words, space) (omega arith)
  | inr letter ↦ rw (words, letter) (length-attach b (starts_word bs) (words bs) (words_there bs))
]

-- The words of a text and of the text behind its first byte.
counts_step :
    (space inword starts : Bool) (w w1 w' rest all : ℕ)
    → w1 ≡ (if space then w else if inword then w else w + 1)
    → w' + one_if ((if space then false else true) && starts) ≡ w1 + rest
    → all + one_if (not space && starts) ≡ (if space then rest else suc rest)
    → w' + one_if (inword && not space) ≡ w + all
unfolding one_if
counts_step true true starts w w1 w' rest all e f g = omega arith
counts_step true false starts w w1 w' rest all e f g = omega arith
counts_step false true starts w w1 w' rest all e f g = omega arith
counts_step false false starts w w1 w' rest all e f g = omega arith

word_added :
    (space inword : Bool) (w n : ℕ)
    → w + suc n < 2 ^ 32
    → (if space then w else if inword then w else add32 w 1)
      ≡ (if space then w else if inword then w else w + 1)
word_added true inword w n lt = refl
word_added false true w n lt = refl
word_added false false w n lt = omega arith

word_room :
    (space inword : Bool) (w n : ℕ)
    → w + suc n < 2 ^ 32
    → (if space then w else if inword then w else add32 w 1) + n < 2 ^ 32
word_room true inword w n lt = omega arith
word_room false true w n lt = omega arith
word_room false false w n lt = omega arith

line_added :
    (end : Bool) (l n k : ℕ)
    → l + suc n < 2 ^ 32
    → (if end then add32 l 1 else l) + k ≡ l + ((if end then 1 else 0) + k)
line_added true l n k lt = omega arith
line_added false l n k lt = omega arith

line_room :
    (end : Bool) (l n : ℕ) → l + suc n < 2 ^ 32 → (if end then add32 l 1 else l) + n < 2 ^ 32
line_room true l n lt = omega arith
line_room false l n lt = omega arith

no_word : (inword : Bool) (w : ℕ) → w + one_if (inword && false) ≡ w + 0
unfolding one_if
no_word true w = refl
no_word false w = refl

-- The counts after a text, from any counts.
record After (s : Counts) (bs : List ℕ) (s' : Counts) : Type 0 where
  l_now : s'.l ≡ s.l + lines bs
  w_now : s'.w + one_if (s.inword && starts_word bs) ≡ s.w + length (words bs)
  c_now : s'.c ≡ s.c + length bs

-- What strchr finds among the bytes that wc names is white space.
strchr-is_space : (b : ℕ) → strchr white b ≡ is_space b
strchr-is_space b = ground arith

count-After :
    (bs : List ℕ) (s : Counts)
    → s.l + length bs < 2 ^ 32
    → s.w + length bs < 2 ^ 32
    → s.c + length bs < 2 ^ 32
    → After s bs (count s bs)
unfolding count words
count-After [] s l_small w_small c_small = record {
  l_now = omega arith;
  w_now = no_word s.inword s.w;
  c_now = omega arith;
}
count-After (b ∷ bs) s l_small w_small c_small =
    let same = strchr-is_space b in
    let ih =
      count-After bs (count_byte s b) (line_room (b == 10) s.l (length bs) l_small)
        (word_room (strchr white b) s.inword s.w (length bs) w_small) (omega arith) in
    let all = length (words (b ∷ bs)) in
    let rest = length (words bs) in
    let step : all + one_if (not (strchr white b) && starts_word bs)
        ≡ (if strchr white b then rest else suc rest) =
      subst (λ x. all + one_if (not x && starts_word bs) ≡ (if x then rest else suc rest))
        (sym same) (words_step b bs) in
    let counted : (count s (b ∷ bs)).w + one_if (s.inword && not (strchr white b)) ≡ s.w + all =
      counts_step (strchr white b) s.inword (starts_word bs) s.w (count_byte s b).w
        (count s (b ∷ bs)).w rest all (word_added (strchr white b) s.inword s.w (length bs) w_small)
        ih.w_now step in
    record {
      l_now = ih.l_now ∙ line_added (b == 10) s.l (length bs) (lines bs) l_small;
      w_now =
          subst (λ x. (count s (b ∷ bs)).w + one_if (s.inword && not x) ≡ s.w + all) same counted;
      c_now = let c = ih.c_now in omega arith;
    }

-- The text that reads give.
abbrev pub text : List (List ℕ) → List ℕ
text [] = []
text (bs ∷ more) = bs ++ text more

abbrev pub some_bytes : List (List ℕ) → Bool
some_bytes [] = true
some_bytes ([] ∷ more) = false
some_bytes ((b ∷ bs) ∷ more) = some_bytes more

abbrev pub reads_of : List (List ℕ) → List (Option (List ℕ))
reads_of [] = []
reads_of (bs ∷ more) = some bs ∷ reads_of more

count-append : (s : Counts) (bs cs : List ℕ) → count s (bs ++ cs) ≡ count (count s bs) cs
unfolding count
count-append s [] cs = refl
count-append s (b ∷ bs) cs = count-append (count_byte s b) bs cs

count_reads-text :
    (s : Counts) (bufs : List (List ℕ))
    → some_bytes bufs ≡ true
    → count_reads s (reads_of bufs) ≡ some (count s (text bufs))
unfolding count_reads count
count_reads-text s [] e = refl
count_reads-text s ([] ∷ more) e = absurd (ground arith)
count_reads-text s ((b ∷ bs) ∷ more) e =
    count_reads-text (count s (b ∷ bs)) more e ∙ ap some (sym (count-append s (b ∷ bs) (text more)))

-- When no read fails and each gives some bytes, up to the end of the file, and the file has fewer
-- than 2^31 bytes, so that no counter of wc overflows, wc counts the newlines of the whole text,
-- its words between white space (blanks and the bytes 9, 10, 11 and 13), and its bytes; so a word
-- that goes on behind the end of a read counts once.
pub wc_lem :
    (bufs : List (List ℕ))
    → some_bytes bufs ≡ true
    → length (text bufs) < 2 ^ 31
    → (s : Counts) × (wc (reads_of bufs) ≡ some s)
      × (s.l ≡ lines (text bufs))
      × (s.w ≡ length (words (text bufs)))
      × (s.c ≡ length (text bufs))
unfolding wc one_if
wc_lem bufs full small =
    let after = count-After (text bufs) no_counts (omega arith) (omega arith) (omega arith) in
    let w_now = after.w_now in
    let l_now = after.l_now in
    let c_now = after.c_now in
    (
      count no_counts (text bufs),
      count_reads-text no_counts bufs full,
      omega arith,
      omega arith,
      omega arith,
    )
