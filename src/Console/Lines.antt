-- ===== src/Console/Lines.antt =====
-- consoleintr edits lines as a line editor over two lists of characters does, and consoleread takes
-- what was committed, up to a newline or an end-of-file mark.
use os.Base.{
  ℕ, zero, suc, ◌+◌, ◌^◌, ◌%◌, ◌≤◌, ◌<◌, ◌≡◌, ◌≢◌, inl, inr, refl, ap, ap₂, ◌∙◌, sym, ◌==◌, ltb,
  if◌then◌else◌, Bool, true, false, not, ◌&&◌, ◌||◌, List, [], ◌∷◌, ◌++◌, arith, add32, sub32,
  length, Bool-cases,
}
use os.Console.{
  Input, Effect, consputc, input_buf, newline, backspace, ctrl_d, ctrl_p, ctrl_u, ctrl_h, erase,
  put_char, kill_line, commit, accept, as_newline, take_char, consoleintr, ReadOutcome, returned,
  failed, asleep, next_char, drop_char, read_run, consoleread,
}
use os.Console.Ring.{
  IsValid, NoNewline, ready, line, unread, edited, window, length-window, line-put_char, line-erase,
  ready-commit, ready-drop_char,
}

-- The editor's state: the characters committed and not read, and the line being edited.
abbrev pub Editor : Type 0
Editor = List ℕ × List ℕ

abbrev pub view : Input → Editor
view s = (ready s, line s)

abbrev pub drop_last : List ℕ → List ℕ
drop_last [] = []
drop_last (x ∷ []) = []
drop_last (x ∷ y ∷ ys) = x ∷ drop_last (y ∷ ys)

-- Another character: a newline, an end-of-file mark or a full buffer commits the line.
abbrev pub type_char : Editor → ℕ → Editor
type_char (p, l) c =
    if (c == newline) || ((c == ctrl_d) || (length p + length l + 1 == input_buf))
    then (p ++ (l ++ (c ∷ [])), [])
    else (p, l ++ (c ∷ []))

-- One key: ^P edits nothing, ^U clears the line, ^H and DEL take back a character, a return is a
-- newline, and NULs and what no longer fits are dropped.
abbrev pub edit : Editor → ℕ → Editor
edit (p, l) c =
    if c == ctrl_p
    then (p, l)
    else if c == ctrl_u
    then (p, [])
    else if (c == ctrl_h) || (c == 127)
    then (p, drop_last l)
    else if not (c == 0) && ltb (length p + length l) input_buf
    then type_char (p, l) (as_newline c)
    else (p, l)

abbrev pub edits : Editor → List ℕ → Editor
edits v [] = v
edits v (c ∷ cs) = edits (edit v c) cs

-- What a reader of `n` characters gets, what it leaves, and how it ends.
abbrev pub take_ready : Bool → List ℕ → ℕ → Bool → List ℕ × List ℕ × ReadOutcome
take_ready killed p zero some_read = ([], p, returned)
take_ready killed [] (suc n) some_read = ([], [], if killed then failed else asleep (suc n))
take_ready killed (c ∷ p) (suc n) some_read =
    let (bytes, rest, outcome) = take_ready killed p n true in
    if c == ctrl_d
    then ([], if some_read then (c ∷ p) else p, returned)
    else if c == newline
    then (c ∷ [], p, returned)
    else (c ∷ bytes, rest, outcome)

drop_last-append : (l : List ℕ) (c : ℕ) → drop_last (l ++ (c ∷ [])) ≡ l
drop_last-append [] c = refl
drop_last-append (x ∷ []) c = refl
drop_last-append (x ∷ y ∷ l) c = ap (◌∷◌ x) (drop_last-append (y ∷ l) c)

NoNewline-init : (l : List ℕ) (c : ℕ) → NoNewline (l ++ (c ∷ [])) → NoNewline l × (c ≢ newline)
NoNewline-init [] c n = (tt, n.0)
NoNewline-init (x ∷ l) c n = let (m, e) = NoNewline-init l c n.1 in ((n.0, m), e)

NoNewline-append : (l : List ℕ) (c : ℕ) → NoNewline l → c ≢ newline → NoNewline (l ++ (c ∷ []))
NoNewline-append [] c n e = (e, tt)
NoNewline-append (x ∷ l) c n e = (n.0, NoNewline-append l c n.1 e)

-- A state in which the view is as the editor says.
abbrev Shows : Input → Editor → Type 0
Shows s v = IsValid s × (ready s ≡ v.0) × (line s ≡ v.1)

Shows-erase : (s : Input) → IsValid s → 0 < edited s → Shows (erase s) (ready s, drop_last (line s))
unfolding erase
Shows-erase s v h =
    let whole = line-erase v h in
    let kept : NoNewline (line (erase s)) =
      (NoNewline-init (line (erase s)) _ (rw whole at v.one_line)).0 in
    (
      record {
        words = omega (arith, v.words);
        fits = omega (arith, v.words, v.fits, h);
        one_line = kept;
      },
      refl,
      sym (ap drop_last whole ∙ drop_last-append (line (erase s)) _),
    )

edited-eq : (s : Input) → IsValid s → (s.e == s.w) ≡ (edited s == 0)
edited-eq s v = ground (arith, v.words)

line-nil : (s : Input) → edited s ≡ 0 → line s ≡ []
line-nil s e = ap (window s.buf s.w) e

-- C('U') clears the line, since no newline stands in it.
kill_line_lem :
    (k : ℕ) (s : Input) → IsValid s → edited s ≤ k → Shows (kill_line k s).0 (ready s, [])
unfolding kill_line
kill_line_lem zero s v le = (v, refl, line-nil s (omega arith))
kill_line_lem (suc k) s v le = elim (Bool-cases (s.e == s.w)) [
  | inl done ↦ rw done (v, refl, line-nil s (ground (arith, v.words)))
  | inr more ↦
      let some_left : 0 < edited s = ground (arith, v.words) in
      let whole = line-erase v some_left in
      let kept = NoNewline-init (line (erase s)) _ (rw whole at v.one_line) in
      let not_newline : (s.buf (sub32 s.e 1 % input_buf) == newline) ≡ false =
        ground (arith, kept.1) in
      let (v', pending, edited_line) = Shows-erase s v some_left in
      let (v'', p, l) =
        kill_line_lem k (erase s) v' (unfold erase in omega (arith, v.words, le, some_left)) in
      rw (more, not_newline) (v'', p ∙ pending, l)
]

-- Storing one more character, where there is room.
accept_lem :
    (s : Input) (c : ℕ)
    → IsValid s
    → unread s + edited s < input_buf
    → Shows (accept s c).0 (type_char (view s) c)
unfolding accept put_char commit
accept_lem s c v room =
    let t : Input = put_char s c in
    let (kept, longer) = line-put_char v c room in
    let sizes : (length (ready s) ≡ unread s) × (length (line s) ≡ edited s) =
      (length-window s.buf s.r (unread s), length-window s.buf s.w (edited s)) in
    let same_test : (t.e == add32 t.r input_buf)
        ≡ (length (ready s) + length (line s) + 1 == input_buf) =
      ground (arith, v.words, sizes) in
    let words : (t.r < 2 ^ 32) × (t.w < 2 ^ 32) × (t.e < 2 ^ 32) = omega (arith, v.words) in
    let fits : unread t + edited t ≤ input_buf = omega (arith, v.words, room) in
    elim (Bool-cases ((c == newline) || ((c == ctrl_d) || (t.e == add32 t.r input_buf)))) [
      | inl ends ↦
          let (all, none_left) = ready-commit t words fits in
          rw (ends, rw same_test at ends)
            (
              record {
                words = omega (arith, words);
                fits = omega (arith, words, fits);
                one_line = rw none_left tt;
              },
              all ∙ ap₂ ◌++◌ kept longer,
              none_left,
            )
      | inr goes_on ↦
          let kept_line : NoNewline (line t) =
            rw longer (NoNewline-append (line s) c v.one_line (ground arith)) in
          rw (goes_on, rw same_test at goes_on)
            (record { words = words; fits = fits; one_line = kept_line }, kept, longer)
    ]

erase_lem :
    (s : Input)
    → IsValid s
    → Shows
        (if◌then◌else◌ {A = Input × List Effect}
          (s.e == s.w)
          (s, [])
          (erase s, consputc backspace ∷ [])).0
        (ready s, drop_last (line s))
erase_lem s v = elim (Bool-cases (s.e == s.w)) [
  | inl empty ↦
      let nothing = line-nil s (ground (arith, v.words)) in
      rw empty (v, refl, nothing ∙ sym (ap drop_last nothing))
  | inr some_left ↦ rw some_left (Shows-erase s v (ground (arith, v.words)))
]

take_char_lem : (s : Input) (c : ℕ) → IsValid s → Shows (take_char s c).0 (edit (view s) c)
unfolding take_char
take_char_lem s c v = elim (Bool-cases (c == ctrl_p)) [
  | inl p ↦ rw p (v, refl, refl)
  | inr np ↦ elim (Bool-cases (c == ctrl_u)) [
    | inl u ↦ rw (np, u) (kill_line_lem input_buf s v (omega (arith, v.fits)))
    | inr nu ↦ elim (Bool-cases ((c == ctrl_h) || (c == 127))) [
      | inl h ↦ rw (np, nu, h) (erase_lem s v)
      | inr nh ↦
          let room : (not (c == 0) && ltb (sub32 s.e s.r) input_buf)
              ≡ (not (c == 0) && ltb (length (ready s) + length (line s)) input_buf) =
            ground (
              arith,
              v.words,
              v.fits,
              length-window s.buf s.r (unread s),
              length-window s.buf s.w (edited s),
            ) in
          elim (Bool-cases (not (c == 0) && ltb (sub32 s.e s.r) input_buf)) [
            | inl fits ↦
                rw (np, nu, nh, fits, rw room at fits)
                  (accept_lem s (as_newline c) v (ground (arith, v.words, v.fits)))
            | inr dropped ↦ rw (np, nu, nh, dropped, rw room at dropped) (v, refl, refl)
          ]
    ]
  ]
]

consoleintr_lem :
    (s : Input) (cs : List ℕ) → IsValid s → Shows (consoleintr s cs).0 (edits (view s) cs)
unfolding consoleintr
consoleintr_lem s [] v = (v, refl, refl)
consoleintr_lem s (c ∷ cs) v =
    let (v', p, l) = take_char_lem s c v in
    let (v'', p', l') = consoleintr_lem (take_char s c).0 cs v' in
    let step = ap (λ w. edits w cs) (ap₂ (λ a b. (a, b)) p l) in
    (v'', p' ∙ ap (λ w. w.0) step, l' ∙ ap (λ w. w.1) step)

-- After a read the state is still valid, and the line being edited is the same.
abbrev Reads : Input → Input × List ℕ × ReadOutcome → List ℕ × List ℕ × ReadOutcome → Type 0
Reads s (t, bytes, outcome) spec =
    IsValid t × (line t ≡ line s) × ((bytes, ready t, outcome) ≡ spec)

Shows-drop_char :
    (s : Input) → IsValid s → 0 < unread s → IsValid (drop_char s) × (line (drop_char s) ≡ line s)
unfolding drop_char
Shows-drop_char s v h = (
  record {
    words = omega (arith, v.words);
    fits = omega (arith, v.words, v.fits, h);
    one_line = v.one_line;
  },
  refl,
)

read_run_lem :
    (killed : Bool) (s : Input) (n : ℕ) (some_read : Bool)
    → IsValid s
    → Reads s (read_run killed s n some_read) (take_ready killed (ready s) n some_read)
unfolding read_run
read_run_lem killed s zero some_read v = (v, refl, refl)
read_run_lem killed s (suc n) some_read v = elim (Bool-cases (s.r == s.w)) [
  | inl empty ↦
      let zero_left : unread s ≡ 0 = ground (arith, v.words) in
      let nothing : ready s ≡ [] = ap (window s.buf s.r) zero_left in
      rw (empty, nothing) (v, refl, refl)
  | inr more ↦
      let some_left : 0 < unread s = ground (arith, v.words) in
      let first = ready-drop_char v some_left in
      let (v', same_line) = Shows-drop_char s v some_left in
      let (v'', l, e) = read_run_lem killed (drop_char s) n true v' in
      elim (Bool-cases (next_char s == ctrl_d)) [
        | inl eof ↦ elim (Bool-cases some_read) [
          | inl again ↦
              rw (first, more, eof, again) (v, refl, ap (λ (p : List ℕ). ([], p, returned)) first)
          | inr first_one ↦ rw (first, more, eof, first_one) (v', same_line, refl)
        ]
        | inr no_eof ↦ elim (Bool-cases (next_char s == newline)) [
          | inl ends ↦ rw (first, more, no_eof, ends) (v', same_line, refl)
          | inr goes_on ↦
              rw (first, more, no_eof, goes_on)
                (
                  v'',
                  l ∙ same_line,
                  ap (λ (r : List ℕ × List ℕ × ReadOutcome). (next_char s ∷ r.0, r.1, r.2)) e,
                )
        ]
      ]
]

-- In a valid state (indices that may have wrapped round; at most 128 characters committed or edited; no
-- newline in the line being edited) keys and reads do what the line editor does: consoleintr edits the
-- line and commits it at a newline, an end-of-file mark or a full buffer; consoleread takes committed
-- characters up to its count or a newline, leaves an end-of-file mark to the next read if it has
-- taken some, and sleeps, or fails if killed, only when nothing is committed. The state stays valid.
pub console-Edits :
    (s : Input) (keys : List ℕ) (killed : Bool) (n : ℕ)
    → IsValid s
    → let (t, effects) = consoleintr s keys in
      let (u, bytes, outcome) = consoleread killed t n in
      IsValid t
      × (view t ≡ edits (view s) keys)
      × IsValid u
      × (line u ≡ line t)
      × ((bytes, ready u, outcome) ≡ take_ready killed (edits (view s) keys).0 n false)
unfolding consoleread
console-Edits s keys killed n v =
    let (v', p, l) = consoleintr_lem s keys v in
    let (v'', same_line, e) = read_run_lem killed (consoleintr s keys).0 n false v' in
    (v', ap₂ (λ a b. (a, b)) p l, v'', same_line, e ∙ ap (λ q. take_ready killed q n false) p)
