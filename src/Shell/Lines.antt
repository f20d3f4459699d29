-- ===== src/Shell/Lines.antt =====
-- Parts of a line in parentheses, and what the functions of the parser make of them.
use os.Base.{
  ℕ, suc, ◌≤◌, ◌<◌, ◌≡◌, refl, ◌∙◌, ap, ◌==◌, if◌then◌else◌, true, false, ◌&&◌, ◌||◌, List, [], ◌∷◌,
  ◌++◌, length, arith, Bool-cases, inl, inr,
}
use os.Shell.{
  Cmd, exec, redir, strchr, whitespace, pipe, list, back, got, Parser, skip_white, after_gt, wrap,
  parseredirs, parseblock, parseexec, parsepipe, parse_backs, parseline,
}
use os.Shell.Print.{
  is_word, are_words, printable, words, print, ends, ends-skip, ends-peek, gettoken-word,
  peek-words, skip-word, skip-words, parseredirs-words, parse_args-words, opens_no_block,
}

print-skip :
    (c : Cmd) (t : List ℕ) → printable c ≡ true → ends t ≡ true → skip_white (print c t) ≡ print c t
print-skip (exec argv) t e end = skip-words argv t (ground arith) end
print-skip (redir c file mode fd) t e end = refl
print-skip (pipe a b) t e end = refl
print-skip (list a b) t e end = refl
print-skip (back a) t e end = refl

append_le : (w u : List ℕ) → length u ≤ length (w ++ u)
append_le [] u = omega arith
append_le (c ∷ cs) u = let rest = append_le cs u in omega arith

words-le : (ws : List (List ℕ)) (t : List ℕ) → length t ≤ length (words ws t)
words-le [] t = omega arith
words-le (w ∷ ws) t =
    let rest = words-le ws t in let more = append_le w (32 ∷ words ws t) in omega arith

pub print-le : (c : Cmd) (t : List ℕ) → length t ≤ length (print c t)
print-le (exec argv) t = words-le argv t
print-le (redir c file mode fd) t =
    let inner = print-le c (41 ∷ (if fd == 0 then 60 else 62) ∷ (file ++ 32 ∷ t)) in
    let name = append_le file (32 ∷ t) in omega arith
print-le (pipe a b) t =
    let left = print-le a (41 ∷ 124 ∷ 40 ∷ print b (41 ∷ t)) in
    let right = print-le b (41 ∷ t) in omega arith
print-le (list a b) t =
    let left = print-le a (41 ∷ 59 ∷ 40 ∷ print b (41 ∷ t)) in
    let right = print-le b (41 ∷ t) in omega arith
print-le (back a) t = let inner = print-le a (41 ∷ 38 ∷ t) in omega arith

no_redirs : (k : ℕ) (t : List ℕ) → ends t ≡ true → parseredirs (suc k) [] t ≡ got [] t
no_redirs k t end = parseredirs-words k [] [] t refl end

-- An operator is no redirection.
no_redirs_at :
    (k c : ℕ) (u : List ℕ)
    → strchr whitespace c ≡ false
    → strchr (60 ∷ 62 ∷ []) c ≡ false
    → parseredirs (suc k) [] (c ∷ u) ≡ got [] (c ∷ u)
unfolding parseredirs
no_redirs_at k c u black other = elim (Bool-cases (c == 0)) [
  | inl nul ↦ rw (black, nul) refl
  | inr more ↦ rw (black, more, other) refl
]

one_gt :
    (file t : List ℕ)
    → is_word file ≡ true
    → after_gt (file ++ 32 ∷ t) ≡ (62, 62 ∷ [], file ++ 32 ∷ t)
one_gt [] t e = absurd (ground arith)
one_gt (c ∷ cs) t e =
    let no_gt : (c == 62) ≡ false = ground arith in
    let same = skip-word (c ∷ cs) (32 ∷ t) e in rw (no_gt, same) refl

one_redir :
    (k fd : ℕ) (file t : List ℕ)
    → is_word file ≡ true
    → ends t ≡ true
    → parseredirs (suc (suc k)) [] ((if fd == 0 then 60 else 62) ∷ (file ++ 32 ∷ t))
      ≡ got ((if fd == 0 then (file, 0, 0) else (file, 0x201, 1)) ∷ []) t
unfolding parseredirs
one_redir k fd file t e end =
    let same = skip-word file (32 ∷ t) e in
    let name = gettoken-word file t e (ends-skip t end) in
    elim (Bool-cases (fd == 0)) [
      | inl input ↦
          rw (input, same, name, parseredirs-words k ((file, 0, 0) ∷ []) [] t refl end) refl
      | inr output ↦
          rw
            (
              output,
              one_gt file t e,
              name,
              parseredirs-words k ((file, 0x201, 1) ∷ []) [] t refl end,
            )
            refl
    ]

module _ (line : Parser Cmd) where
  -- A command in parentheses, and the redirections behind it.
  parseexec-block :
      (c : Cmd) (u : List ℕ) {redirs : List (List ℕ × ℕ × ℕ)} {v : List ℕ}
      → printable c ≡ true
      → line (print c (41 ∷ u)) ≡ got c (41 ∷ u)
      → parseredirs (suc (length (skip_white u))) [] (skip_white u) ≡ got redirs v
      → parseexec line (40 ∷ print c (41 ∷ u)) ≡ got (wrap c redirs) v
  unfolding parseexec parseblock
  parseexec-block c u e parsed redirected =
      let same = print-skip c (41 ∷ u) e refl in rw (same, parsed, redirected) refl

  parseexec-end :
      (c : Cmd) (t : List ℕ)
      → printable c ≡ true
      → ends t ≡ true
      → line (print c (41 ∷ t)) ≡ got c (41 ∷ t)
      → parseexec line (40 ∷ print c (41 ∷ t)) ≡ got c t
  parseexec-end c t e end parsed =
      parseexec-block c t {redirs = []} {v = t} e parsed
        (let same = ends-skip t end in rw same (no_redirs (length t) t end))

  parseexec-words :
      (argv : List (List ℕ)) (t : List ℕ)
      → length argv < 10
      → are_words argv ≡ true
      → ends t ≡ true
      → parseexec line (words argv t) ≡ got (exec argv) t
  unfolding parseexec
  parseexec-words argv t few e end =
      let unseen = peek-words (40 ∷ []) argv t e end refl opens_no_block in
      let plain_args = parseredirs-words (length (words argv t)) [] argv t e end in
      rw (unseen, plain_args)
        (parse_args-words (suc (length (words argv t))) [] argv t (omega arith) (omega arith) e end)

  parsepipe-last :
      (k : ℕ) (s : List ℕ) {c : Cmd} {t : List ℕ}
      → ends t ≡ true
      → parseexec line s ≡ got c t
      → parsepipe line (suc k) s ≡ got c t
  unfolding parsepipe
  parsepipe-last k s {t = t} end parsed =
      let unseen = ends-peek (124 ∷ []) t refl end in
      let same = ends-skip t end in rw (parsed, unseen, same) refl

  parsepipe-block :
      (k : ℕ) (c : Cmd) (t : List ℕ)
      → printable c ≡ true
      → ends t ≡ true
      → line (print c (41 ∷ t)) ≡ got c (41 ∷ t)
      → parsepipe line (suc k) (40 ∷ print c (41 ∷ t)) ≡ got c t
  parsepipe-block k c t e end parsed =
      parsepipe-last k (40 ∷ print c (41 ∷ t)) end (parseexec-end c t e end parsed)

parseline-last :
    (k : ℕ) (s : List ℕ) {c : Cmd} {t : List ℕ}
    → ends t ≡ true
    → parseexec (parseline k) s ≡ got c t
    → parseline (suc k) s ≡ got c t
unfolding parseline parse_backs
parseline-last k s {t = t} end parsed =
    let whole = parsepipe-last (parseline k) (length s) s end parsed in
    let unseen = ends-peek (38 ∷ []) t refl end in
    let no_more = ends-peek (59 ∷ []) t refl end in
    let same = ends-skip t end in rw (whole, unseen, same, no_more, same) refl

-- A command in parentheses at the end of the line or of a block.
parseline-block :
    (k : ℕ) (c : Cmd) (t : List ℕ)
    → printable c ≡ true
    → ends t ≡ true
    → parseline k (print c (41 ∷ t)) ≡ got c (41 ∷ t)
    → parseline (suc k) (40 ∷ print c (41 ∷ t)) ≡ got c t
parseline-block k c t e end parsed =
    parseline-last k (40 ∷ print c (41 ∷ t)) end (parseexec-end (parseline k) c t e end parsed)

pub parseline-exec :
    (k : ℕ) (argv : List (List ℕ)) (t : List ℕ)
    → length argv < 10
    → are_words argv ≡ true
    → ends t ≡ true
    → parseline (suc k) (words argv t) ≡ got (exec argv) t
parseline-exec k argv t few e end =
    parseline-last k (words argv t) end (parseexec-words (parseline k) argv t few e end)

pub parseline-back :
    (k : ℕ) (c : Cmd) (t : List ℕ)
    → printable c ≡ true
    → ends t ≡ true
    → parseline k (print c (41 ∷ 38 ∷ t)) ≡ got c (41 ∷ 38 ∷ t)
    → parseline (suc k) (print (back c) t) ≡ got (back c) t
unfolding parseline parse_backs parsepipe
parseline-back k c t e end parsed =
    let block = parseexec-block (parseline k) c (38 ∷ t) e parsed (no_redirs_at _ 38 t refl refl) in
    let same = ends-skip t end in
    let unseen = ends-peek (38 ∷ []) t refl end in
    let no_more = ends-peek (59 ∷ []) t refl end in
    rw (block, same, unseen, same, no_more, same) refl

pub parseline-pipe :
    (k : ℕ) (a b : Cmd) (t : List ℕ)
    → printable a ≡ true
    → printable b ≡ true
    → ends t ≡ true
    → (let u = 124 ∷ 40 ∷ print b (41 ∷ t) in parseline k (print a (41 ∷ u)) ≡ got a (41 ∷ u))
    → parseline k (print b (41 ∷ t)) ≡ got b (41 ∷ t)
    → parseline (suc k) (print (pipe a b) t) ≡ got (pipe a b) t
unfolding parseline parse_backs parsepipe
parseline-pipe k a b t ea eb end left right =
    let block =
      parseexec-block (parseline k) a (124 ∷ 40 ∷ print b (41 ∷ t)) ea left
        (no_redirs_at _ 124 (40 ∷ print b (41 ∷ t)) refl refl) in
    let last_part =
      parsepipe-block (parseline k) (length (print a (41 ∷ 124 ∷ 40 ∷ print b (41 ∷ t)))) b t eb end
        right in
    let same = ends-skip t end in
    let unseen = ends-peek (38 ∷ []) t refl end in
    let no_more = ends-peek (59 ∷ []) t refl end in
    rw (block, last_part, unseen, same, no_more, same) refl

pub parseline-list :
    (k : ℕ) (a b : Cmd) (t : List ℕ)
    → printable a ≡ true
    → printable b ≡ true
    → ends t ≡ true
    → (let u = 59 ∷ 40 ∷ print b (41 ∷ t) in parseline (suc k) (print a (41 ∷ u)) ≡ got a (41 ∷ u))
    → parseline k (print b (41 ∷ t)) ≡ got b (41 ∷ t)
    → parseline (suc (suc k)) (print (list a b) t) ≡ got (list a b) t
unfolding parseline parse_backs parsepipe
parseline-list k a b t ea eb end left right =
    let block =
      parseexec-block (parseline (suc k)) a (59 ∷ 40 ∷ print b (41 ∷ t)) ea left
        (no_redirs_at _ 59 (40 ∷ print b (41 ∷ t)) refl refl) in
    let next = parseline-block k b t eb end right in rw (block, next) refl

redir-skip :
    (fd : ℕ) (u : List ℕ)
    → skip_white ((if fd == 0 then 60 else 62) ∷ u) ≡ (if fd == 0 then 60 else 62) ∷ u
redir-skip fd u = elim (Bool-cases (fd == 0)) [
  | inl input ↦ rw input refl
  | inr output ↦ rw output refl
]

wrap-redir :
    (c : Cmd) (file : List ℕ) (mode fd : ℕ)
    → (((mode == 0) && (fd == 0)) || ((mode == 0x201) && (fd == 1))) ≡ true
    → wrap c ((if fd == 0 then (file, 0, 0) else (file, 0x201, 1)) ∷ []) ≡ redir c file mode fd
wrap-redir c file mode fd e = elim (Bool-cases (fd == 0)) [
  | inl input ↦ let m : mode ≡ 0 = ground arith in let d : fd ≡ 0 = ground arith in rw (m, d) refl
  | inr output ↦
      let m : mode ≡ 0x201 = ground arith in let d : fd ≡ 1 = ground arith in rw (m, d) refl
]

pub parseline-redir :
    (k : ℕ) (c : Cmd) (file : List ℕ) (mode fd : ℕ) (t : List ℕ)
    → printable (redir c file mode fd) ≡ true
    → ends t ≡ true
    → (let u = (if fd == 0 then 60 else 62) ∷ (file ++ 32 ∷ t) in
        parseline k (print c (41 ∷ u)) ≡ got c (41 ∷ u))
    → parseline (suc k) (print (redir c file mode fd) t) ≡ got (redir c file mode fd) t
parseline-redir k c file mode fd t e end parsed =
    let u = (if fd == 0 then 60 else 62) ∷ (file ++ 32 ∷ t) in
    let same = redir-skip fd (file ++ 32 ∷ t) in
    let one = one_redir (length (file ++ 32 ∷ t)) fd file t (ground arith) end in
    let whole = wrap-redir c file mode fd (ground arith) in
    let block =
      parseexec-block (parseline k) c u
        {redirs = (if fd == 0 then (file, 0, 0) else (file, 0x201, 1)) ∷ []} {v = t} (ground arith)
        parsed (rw same one) in
    parseline-last k (40 ∷ print c (41 ∷ u)) end (block ∙ ap (λ x. got x t) whole)
