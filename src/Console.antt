-- ===== src/Console.antt =====
-- console.c: the line discipline. The input ring is used under input.lock, and what the handler does
-- besides (putting characters on the screen, waking readers, the process listing) is returned as a
-- list of effects.
pub mod Ring
pub mod Lines
mod Tests
use os.Base.{
  ℕ, zero, suc, ◌+◌, ◌-◌, ◌%◌, ◌==◌, ltb, if◌then◌else◌, Bool, true, false, not, ◌&&◌, ◌||◌, List,
  [], ◌∷◌, ◌++◌, add32, sub32,
}

abbrev pub input_buf : ℕ
input_buf = 128

abbrev pub newline : ℕ
newline = 10

abbrev pub backspace : ℕ
backspace = 0x100

-- C('D'), C('P'), C('U') and C('H')
abbrev pub ctrl_d : ℕ
ctrl_d = 4

abbrev pub ctrl_p : ℕ
ctrl_p = 16

abbrev pub ctrl_u : ℕ
ctrl_u = 21

abbrev pub ctrl_h : ℕ
ctrl_h = 8

-- input.buf, and the read, write and edit index
pub record Input : Type 0 where
  pub buf : ℕ → ℕ
  pub r : ℕ
  pub w : ℕ
  pub e : ℕ

pub data Effect : Type 0 where
  consputc : ℕ → Effect
  wakeup : Effect
  procdump : Effect

unfoldable pub erase : Input → Input
erase s = record s { e = sub32 s.e 1 }

abbrev pub store : (ℕ → ℕ) → ℕ → ℕ → ℕ → ℕ
store f i v j = if i == j then v else f j

-- input.buf[input.e++ % INPUT_BUF] = c
unfoldable pub put_char : Input → ℕ → Input
put_char s c = record s { buf = store s.buf (s.e % input_buf) c; e = add32 s.e 1 }

-- The loop of C('U'), at most one round for each byte of the buffer.
unfoldable pub kill_line : ℕ → Input → Input × List Effect
unfolding erase
kill_line zero s = (s, [])
kill_line (suc k) s =
    let (t, effects) = kill_line k (erase s) in
    if (s.e == s.w) || (s.buf (sub32 s.e 1 % input_buf) == newline)
    then (s, [])
    else (t, consputc backspace ∷ effects)

unfoldable pub commit : Input → Input
commit s = record s { w = s.e }

-- The default case of the switch, for a `c` that is stored.
unfoldable pub accept : Input → ℕ → Input × List Effect
unfolding put_char commit
accept s c =
    let t = put_char s c in
    if (c == newline) || ((c == ctrl_d) || (t.e == add32 t.r input_buf))
    then (commit t, consputc c ∷ wakeup ∷ [])
    else (t, consputc c ∷ [])

abbrev pub as_newline : ℕ → ℕ
as_newline c = if c == 13 then newline else c

-- The body of the loop of consoleintr.
unfoldable pub take_char : Input → ℕ → Input × List Effect
unfolding kill_line erase accept
take_char s c =
    if c == ctrl_p
    then (s, procdump ∷ [])
    else if c == ctrl_u
    then kill_line input_buf s
    else if (c == ctrl_h) || (c == 127)
    then (if s.e == s.w then (s, []) else (erase s, consputc backspace ∷ []))
    else if not (c == 0) && ltb (sub32 s.e s.r) input_buf
    then accept s (as_newline c)
    else (s, [])

-- consoleintr, for the characters that getc gives until it has no more.
unfoldable pub consoleintr : Input → List ℕ → Input × List Effect
unfolding take_char
consoleintr s [] = (s, [])
consoleintr s (c ∷ cs) =
    let (t, effects) = take_char s c in let (u, more) = consoleintr t cs in (u, effects ++ more)

pub data ReadOutcome : Type 0 where
  returned : ReadOutcome
  failed : ReadOutcome
  asleep : ℕ → ReadOutcome

-- c = input.buf[input.r % INPUT_BUF], and input.r++
unfoldable pub next_char : Input → ℕ
next_char s = s.buf (s.r % input_buf)

unfoldable pub drop_char : Input → Input
drop_char s = record s { r = add32 s.r 1 }

-- The loop of consoleread, for `n` more bytes, up to its return or its next sleep; `some_read` says
-- whether bytes were copied already (n < target). The bytes copied come with the outcome.
unfoldable pub read_run : Bool → Input → ℕ → Bool → Input × List ℕ × ReadOutcome
unfolding next_char drop_char
read_run killed s zero some_read = (s, [], returned)
read_run killed s (suc n) some_read =
    let (t, bytes, outcome) = read_run killed (drop_char s) n true in
    let c = next_char s in
    if s.r == s.w
    then (s, [], if killed then failed else asleep (suc n))
    else if c == ctrl_d
    then (if some_read then s else drop_char s, [], returned)
    else if c == newline
    then (drop_char s, c ∷ [], returned)
    else (t, c ∷ bytes, outcome)

unfoldable pub consoleread : Bool → Input → ℕ → Input × List ℕ × ReadOutcome
unfolding read_run
consoleread killed s n = read_run killed s n false
