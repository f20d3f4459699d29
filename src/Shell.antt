-- ===== src/Shell.antt =====
-- The parser of sh.c. A string is the list of its bytes without the NUL, and a pointer into the line
-- is the list of the bytes from there on; the strings that a command points to are given as the bytes
-- between the two pointers to each of them.
mod Tokens
pub mod Finish
pub mod Print
pub mod Lines
pub mod RoundTrip
mod Tests
use os.Base.{
  ℕ, zero, suc, ◌+◌, ◌==◌, leb, if◌then◌else◌, Bool, true, false, not, ◌&&◌, ◌||◌, List, [], ◌∷◌,
  ◌++◌, length,
}

abbrev pub maxargs : ℕ
maxargs = 10

-- struct cmd and its five kinds
pub data Cmd : Type 0 where
  exec : List (List ℕ) → Cmd
  redir : Cmd → List ℕ → ℕ → ℕ → Cmd
  pipe : Cmd → Cmd → Cmd
  list : Cmd → Cmd → Cmd
  back : Cmd → Cmd

-- A value and the line behind it, or a panic; `unfinished` if the rounds given were not enough.
pub data Parsed (A : Type 0) : Type 0 where
  got : A → List ℕ → Parsed A
  panic : Parsed A
  unfinished : Parsed A

abbrev pub Parser : Type 0 → Type 0
Parser A = List ℕ → Parsed A

abbrev pub and_then : {A B : Type 0} → Parsed A → (A → Parser B) → Parsed B
and_then (got a s) f = f a s
and_then panic f = panic
and_then unfinished f = unfinished

-- strchr(s, c) != 0
abbrev pub strchr : List ℕ → ℕ → Bool
strchr [] c = false
strchr (d ∷ ds) c = (c == d) || strchr ds c

-- " \t\r\n\v"
abbrev pub whitespace : List ℕ
whitespace = 32 ∷ 9 ∷ 13 ∷ 10 ∷ 11 ∷ []

-- "<|>&;()"
abbrev pub symbols : List ℕ
symbols = 60 ∷ 124 ∷ 62 ∷ 38 ∷ 59 ∷ 40 ∷ 41 ∷ []

abbrev pub skip_white : List ℕ → List ℕ
skip_white [] = []
skip_white (c ∷ cs) = let rest = skip_white cs in if strchr whitespace c then rest else c ∷ cs

-- The bytes of a word, and what follows.
abbrev pub split_word : List ℕ → List ℕ × List ℕ
split_word [] = ([], [])
split_word (c ∷ cs) =
    let (word, rest) = split_word cs in
    if not (strchr whitespace c) && not (strchr symbols c) then (c ∷ word, rest) else ([], c ∷ cs)

-- The kind of token ('a' is 97, '+' is 43), the bytes from *q to *eq, and what follows.
abbrev pub Token : Type 0
Token = ℕ × List ℕ × List ℕ

-- What follows the first '>'.
abbrev pub after_gt : List ℕ → Token
after_gt [] = (62, 62 ∷ [], [])
after_gt (c ∷ cs) =
    if c == 62 then (43, 62 ∷ 62 ∷ [], skip_white cs) else (62, 62 ∷ [], skip_white (c ∷ cs))

abbrev pub token_at : List ℕ → Token
token_at [] = (0, [], [])
token_at (c ∷ cs) =
    if c == 0
    then (0, [], c ∷ cs)
    else if c == 62
    then after_gt cs
    else if strchr symbols c
    then (c, c ∷ [], skip_white cs)
    else (let (word, rest) = split_word (c ∷ cs) in (97, word, skip_white rest))

abbrev pub gettoken : List ℕ → Token
gettoken s = token_at (skip_white s)

abbrev pub starts_with : List ℕ → List ℕ → Bool
starts_with toks [] = false
starts_with toks (c ∷ cs) = not (c == 0) && strchr toks c

-- The line moves to `skip_white s`.
abbrev pub peek : List ℕ → List ℕ → Bool
peek toks s = starts_with toks (skip_white s)

-- The commands of `redirs`, the last first, around `cmd`.
abbrev pub wrap : Cmd → List (List ℕ × ℕ × ℕ) → Cmd
wrap cmd [] = cmd
wrap cmd ((file, mode, fd) ∷ redirs) = redir (wrap cmd redirs) file mode fd

-- The file, mode and descriptor of a redirection, for the token '<', '>' or '+'.
abbrev pub redircmd : ℕ → List ℕ → List ℕ × ℕ × ℕ
redircmd tok file = if tok == 60 then (file, 0, 0) else (file, 0x201, 1)

unfoldable pub parseredirs : ℕ → List (List ℕ × ℕ × ℕ) → Parser (List (List ℕ × ℕ × ℕ))
parseredirs zero redirs s = unfinished
parseredirs (suc k) redirs s =
    let (tok, text, t) = gettoken s in
    let (kind, file, u) = gettoken t in
    let rest = parseredirs k (redircmd tok file ∷ redirs) u in
    if peek (60 ∷ 62 ∷ []) s
    then (if kind == 97 then rest else panic)
    else got redirs (skip_white s)

-- The loop of parseexec. The command that is built stays the innermost while redirections are put
-- around it.
unfoldable pub parse_args : ℕ → List (List ℕ) → List (List ℕ × ℕ × ℕ) → Parser Cmd
parse_args zero argv redirs s = unfinished
parse_args (suc k) argv redirs s =
    let (tok, word, t) = gettoken s in
    let argv' = argv ++ word ∷ [] in
    let rest =
      and_then (parseredirs (suc (length t)) redirs t)
        (λ redirs' u. parse_args k argv' redirs' u) in
    if peek (124 ∷ 41 ∷ 38 ∷ 59 ∷ []) s
    then got (wrap (exec argv) redirs) (skip_white s)
    else if tok == 0
    then got (wrap (exec argv) redirs) t
    else if not (tok == 97)
    then panic
    else if leb maxargs (length argv')
    then panic
    else rest

-- The functions that call parseline on a part of the line take it as `line`.
unfoldable pub parseblock : Parser Cmd → Parser Cmd
parseblock line s =
    if not (peek (40 ∷ []) s)
    then panic
    else and_then (line (gettoken s).2) (λ cmd t.
      if not (peek (41 ∷ []) t)
      then panic
      else (let u = (gettoken t).2 in
          and_then (parseredirs (suc (length u)) [] u) (λ redirs v. got (wrap cmd redirs) v)))

unfoldable pub parseexec : Parser Cmd → Parser Cmd
parseexec line s =
    if peek (40 ∷ []) s
    then parseblock line s
    else and_then (parseredirs (suc (length s)) [] s)
        (λ redirs t. parse_args (suc (length t)) [] redirs t)

unfoldable pub parsepipe : Parser Cmd → ℕ → Parser Cmd
parsepipe line zero s = unfinished
parsepipe line (suc k) s = and_then (parseexec line s) (λ cmd t.
    if peek (124 ∷ []) t
    then and_then (parsepipe line k (gettoken t).2) (λ right u. got (pipe cmd right) u)
    else got cmd (skip_white t))

-- The loop over '&'.
unfoldable pub parse_backs : ℕ → Cmd → Parser Cmd
parse_backs zero cmd s = unfinished
parse_backs (suc k) cmd s =
    let rest = parse_backs k (back cmd) (gettoken s).2 in
    if peek (38 ∷ []) s then rest else got cmd (skip_white s)

unfoldable pub parseline : ℕ → Parser Cmd
parseline zero s = unfinished
parseline (suc k) s =
    let line = parseline k in
    and_then (parsepipe line (suc (length s)) s) (λ cmd t.
      and_then (parse_backs (suc (length t)) cmd t) (λ cmd' u.
        if peek (59 ∷ []) u
        then and_then (line (gettoken u).2) (λ right v. got (list cmd' right) v)
        else got cmd' (skip_white u)))

unfoldable pub parsecmd : List ℕ → Parsed Cmd
parsecmd s =
    and_then (parseline (suc (length s)) s)
      (λ cmd t. elim (skip_white t) [ [] ↦ got cmd [] | c ∷ cs ↦ panic ])
