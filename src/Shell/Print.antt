-- ===== src/Shell/Print.antt =====
-- Commands written out, and what the tokenizer makes of the parts.
use os.Base.{
  ℕ, zero, suc, ◌+◌, ◌<◌, ◌≡◌, refl, ◌∙◌, ap, ◌==◌, ltb, leb, if◌then◌else◌, Bool, true, false, not,
  ◌&&◌, ◌||◌, List, [], ◌∷◌, ◌++◌, length, arith,
}
use os.Shell.{
  Cmd, exec, redir, pipe, list, back, got, strchr, whitespace, symbols, skip_white, split_word,
  gettoken, peek, parseredirs, parse_args,
}

-- A byte of a word.
abbrev pub plain : ℕ → Bool
plain c = not (c == 0) && (not (strchr whitespace c) && not (strchr symbols c))

abbrev pub all_plain : List ℕ → Bool
all_plain [] = true
all_plain (c ∷ cs) = plain c && all_plain cs

abbrev pub is_word : List ℕ → Bool
is_word [] = false
is_word (c ∷ cs) = plain c && all_plain cs

abbrev pub are_words : List (List ℕ) → Bool
are_words [] = true
are_words (w ∷ ws) = is_word w && are_words ws

-- The commands that a line can hold: fewer than MAXARGS words, and the modes of '<' and '>'.
abbrev pub printable : Cmd → Bool
printable (exec argv) = ltb (length argv) 10 && are_words argv
printable (redir cmd file mode fd) =
    printable cmd
    && (is_word file && (((mode == 0) && (fd == 0)) || ((mode == 0x201) && (fd == 1))))
printable (pipe left right) = printable left && printable right
printable (list left right) = printable left && printable right
printable (back cmd) = printable cmd

abbrev pub words : List (List ℕ) → List ℕ → List ℕ
words [] t = t
words (w ∷ ws) t = w ++ 32 ∷ words ws t

-- The command, every part of it in parentheses, and then `t`.
abbrev pub print : Cmd → List ℕ → List ℕ
print (exec argv) t = words argv t
print (redir cmd file mode fd) t =
    40 ∷ print cmd (41 ∷ (if fd == 0 then 60 else 62) ∷ (file ++ 32 ∷ t))
print (pipe left right) t = 40 ∷ print left (41 ∷ 124 ∷ 40 ∷ print right (41 ∷ t))
print (list left right) t = 40 ∷ print left (41 ∷ 59 ∷ 40 ∷ print right (41 ∷ t))
print (back cmd) t = 40 ∷ print cmd (41 ∷ 38 ∷ t)

-- The end of the line or of a block.
abbrev pub ends : List ℕ → Bool
ends [] = true
ends (c ∷ cs) = c == 41

pub ends-skip : (t : List ℕ) → ends t ≡ true → skip_white t ≡ t
ends-skip [] e = refl
ends-skip (c ∷ cs) e = ground arith

pub ends-peek : (toks t : List ℕ) → strchr toks 41 ≡ false → ends t ≡ true → peek toks t ≡ false
ends-peek toks [] other e = refl
ends-peek toks (c ∷ cs) other e = let same : c ≡ 41 = ground arith in rw same other

split_word-word : (cs u : List ℕ) → all_plain cs ≡ true → split_word (cs ++ 32 ∷ u) ≡ (cs, 32 ∷ u)
split_word-word [] u e = refl
split_word-word (c ∷ cs) u e = let rest = split_word-word cs u in ground arith

pub gettoken-word :
    (w u : List ℕ) → is_word w ≡ true → skip_white u ≡ u → gettoken (w ++ 32 ∷ u) ≡ (97, w, u)
gettoken-word [] u e same = absurd (ground arith)
gettoken-word (c ∷ cs) u e same =
    let black : strchr whitespace c ≡ false = ground arith in
    let letter : strchr symbols c ≡ false = ground arith in
    let no_nul : (c == 0) ≡ false = ground arith in
    let no_gt : (c == 62) ≡ false = ground arith in
    let rest = split_word-word cs u (ground arith) in
    rw (black, no_nul, letter, no_gt, black, rest, same) refl

-- A word opens no block, and is no operator.
pub peek-word :
    (toks w u : List ℕ)
    → is_word w ≡ true
    → ((c : ℕ) → strchr symbols c ≡ false → strchr toks c ≡ false)
    → peek toks (w ++ u) ≡ false
peek-word toks [] u e only = absurd (ground arith)
peek-word toks (c ∷ cs) u e only =
    let black : strchr whitespace c ≡ false = ground arith in
    let no_nul : (c == 0) ≡ false = ground arith in rw (black, no_nul) (only c (ground arith))

pub opens_no_block : (c : ℕ) → strchr symbols c ≡ false → strchr (40 ∷ []) c ≡ false
opens_no_block c e = ground arith

redirects_nothing : (c : ℕ) → strchr symbols c ≡ false → strchr (60 ∷ 62 ∷ []) c ≡ false
redirects_nothing c e = ground arith

stops_nothing : (c : ℕ) → strchr symbols c ≡ false → strchr (124 ∷ 41 ∷ 38 ∷ 59 ∷ []) c ≡ false
stops_nothing c e = ground arith

pub skip-word : (w u : List ℕ) → is_word w ≡ true → skip_white (w ++ u) ≡ w ++ u
skip-word [] u e = absurd (ground arith)
skip-word (c ∷ cs) u e = let black : strchr whitespace c ≡ false = ground arith in rw black refl

pub skip-words :
    (ws : List (List ℕ)) (t : List ℕ)
    → are_words ws ≡ true
    → ends t ≡ true
    → skip_white (words ws t) ≡ words ws t
skip-words [] t e end = ends-skip t end
skip-words (w ∷ ws) t e end = skip-word w (32 ∷ words ws t) (ground arith)

pub peek-words :
    (toks : List ℕ) (ws : List (List ℕ)) (t : List ℕ)
    → are_words ws ≡ true
    → ends t ≡ true
    → strchr toks 41 ≡ false
    → ((c : ℕ) → strchr symbols c ≡ false → strchr toks c ≡ false)
    → peek toks (words ws t) ≡ false
peek-words toks [] t e end other only = ends-peek toks t other end
peek-words toks (w ∷ ws) t e end other only = peek-word toks w (32 ∷ words ws t) (ground arith) only

-- Words are followed by no redirection.
pub parseredirs-words :
    (k : ℕ) (redirs : List (List ℕ × ℕ × ℕ)) (ws : List (List ℕ)) (t : List ℕ)
    → are_words ws ≡ true
    → ends t ≡ true
    → parseredirs (suc k) redirs (words ws t) ≡ got redirs (words ws t)
unfolding parseredirs
parseredirs-words k redirs ws t e end =
    let unseen = peek-words (60 ∷ 62 ∷ []) ws t e end refl redirects_nothing in
    let same = skip-words ws t e end in rw (unseen, same) refl

append_assoc : (argv ws : List (List ℕ)) (w : List ℕ) → (argv ++ w ∷ []) ++ ws ≡ argv ++ w ∷ ws
append_assoc [] ws w = refl
append_assoc (v ∷ argv) ws w = ap (λ l. v ∷ l) (append_assoc argv ws w)

append_nil : (argv : List (List ℕ)) → argv ++ [] ≡ argv
append_nil [] = refl
append_nil (v ∷ argv) = ap (λ l. v ∷ l) (append_nil argv)

length-append : (argv ws : List (List ℕ)) → length (argv ++ ws) ≡ length argv + length ws
length-append [] ws = omega arith
length-append (v ∷ argv) ws = let rest = length-append argv ws in omega arith

args-end :
    (k : ℕ) (argv : List (List ℕ)) (t : List ℕ)
    → ends t ≡ true
    → parse_args (suc k) argv [] t ≡ got (exec argv) t
unfolding parse_args
args-end k argv [] e = refl
args-end k argv (c ∷ cs) e = let same : c ≡ 41 = ground arith in rw same refl

length-word : (w : List ℕ) (u : List ℕ) → length u < length (w ++ 32 ∷ u)
length-word [] u = omega arith
length-word (c ∷ cs) u = let rest = length-word cs u in omega arith

pub parse_args-words :
    (k : ℕ) (argv ws : List (List ℕ)) (t : List ℕ)
    → length (words ws t) < k
    → length argv + length ws < 10
    → are_words ws ≡ true
    → ends t ≡ true
    → parse_args k argv [] (words ws t) ≡ got (exec (argv ++ ws)) t
unfolding parse_args
parse_args-words zero argv ws t lt few e end = absurd (omega arith)
parse_args-words (suc k) argv [] t lt few e end = rw (append_nil argv) (args-end k argv t end)
parse_args-words (suc k) argv (w ∷ ws) t lt few e end =
    let unseen =
      peek-word (124 ∷ 41 ∷ 38 ∷ 59 ∷ []) w (32 ∷ words ws t) (ground arith) stops_nothing in
    let tok = gettoken-word w (words ws t) (ground arith) (skip-words ws t (ground arith) end) in
    let long = length-append argv (w ∷ []) in
    let fits : leb 10 (length (argv ++ w ∷ [])) ≡ false = ground arith in
    let shorter = length-word w (words ws t) in
    rw (unseen, tok, fits, parseredirs-words (length (words ws t)) [] ws t (ground arith) end)
      (parse_args-words k (argv ++ w ∷ []) ws t (omega arith) (omega arith) (ground arith) end
        ∙ ap (λ l. got (exec l) t) (append_assoc argv ws w))
