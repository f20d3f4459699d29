-- ===== src/Console/Ring.antt =====
-- The input ring holds two runs of characters: those that readers may take, and the line being edited.
use os.Base.{
  ℕ, zero, suc, ◌+◌, ◌%◌, ◌^◌, ◌≤◌, ◌<◌, ◌≡◌, ◌≢◌, refl, ap, ap₂, ◌∙◌, List, [], ◌∷◌, ◌++◌, arith,
  add32, sub32, length,
}
use os.Console.{Input, input_buf, newline, store, erase, put_char, commit, drop_char, next_char}

-- the `n` characters from index `i` on
abbrev pub window : (ℕ → ℕ) → ℕ → ℕ → List ℕ
window buf i zero = []
window buf i (suc n) = buf (i % input_buf) ∷ window buf (add32 i 1) n

abbrev pub unread : Input → ℕ
unread s = sub32 s.w s.r

abbrev pub edited : Input → ℕ
edited s = sub32 s.e s.w

-- What was committed and not yet read, and the line being edited.
abbrev pub ready : Input → List ℕ
ready s = window s.buf s.r (unread s)

abbrev pub line : Input → List ℕ
line s = window s.buf s.w (edited s)

abbrev pub NoNewline : List ℕ → Type 0
NoNewline [] = Unit {0}
NoNewline (c ∷ cs) = (c ≢ newline) × NoNewline cs

pub record IsValid (s : Input) : Type 0 where
  pub words : (s.r < 2 ^ 32) × (s.w < 2 ^ 32) × (s.e < 2 ^ 32)
  pub fits : unread s + edited s ≤ input_buf
  pub one_line : NoNewline (line s)

pub length-window : (buf : ℕ → ℕ) (i n : ℕ) → length (window buf i n) ≡ n
length-window buf i zero = refl
length-window buf i (suc n) = ap suc (length-window buf (add32 i 1) n)

-- A character behind the window extends it, and one further on leaves it alone.
window-store :
    (buf : ℕ → ℕ) (i n c e : ℕ)
    → n < input_buf
    → i < 2 ^ 32
    → e ≡ add32 i n
    → window (store buf (e % input_buf) c) i (suc n) ≡ window buf i n ++ (c ∷ [])
window-store buf i zero c e h hi q = ground arith
window-store buf i (suc n) c e h hi q =
    ap₂ ◌∷◌ (ground arith)
      (window-store buf (add32 i 1) n c e (omega arith) (omega arith) (omega arith))

window-store_behind :
    (buf : ℕ → ℕ) (i n k c e : ℕ)
    → n + k < input_buf
    → i < 2 ^ 32
    → e ≡ add32 i (n + k)
    → window (store buf (e % input_buf) c) i n ≡ window buf i n
window-store_behind buf i zero k c e h hi q = refl
window-store_behind buf i (suc n) k c e h hi q =
    ap₂ ◌∷◌ (ground arith)
      (window-store_behind buf (add32 i 1) n k c e (omega arith) (omega arith) (omega arith))

window-append :
    (buf : ℕ → ℕ) (i n k j : ℕ)
    → i < 2 ^ 32
    → j ≡ add32 i n
    → window buf i (n + k) ≡ window buf i n ++ window buf j k
window-append buf i zero k j hi q =
    let same : j ≡ i = omega arith in
    let none_first : 0 + k ≡ k = omega arith in rw (same, none_first) refl
window-append buf i (suc n) k j hi q =
    let step : suc n + k ≡ suc (n + k) = omega arith in
    rw step (
      ap (◌∷◌ (buf (i % input_buf)))
        (window-append buf (add32 i 1) n k j (omega arith) (omega arith)))

window-last :
    (buf : ℕ → ℕ) (i n j : ℕ)
    → i < 2 ^ 32
    → j ≡ add32 i n
    → window buf i (suc n) ≡ window buf i n ++ (buf (j % input_buf) ∷ [])
window-last buf i n j hi q =
    let step : n + 1 ≡ suc n = omega arith in rw step at (window-append buf i n 1 j hi q)

pub ready-commit :
    (s : Input)
    → (s.r < 2 ^ 32) × (s.w < 2 ^ 32) × (s.e < 2 ^ 32)
    → unread s + edited s ≤ input_buf
    → (ready (commit s) ≡ ready s ++ line s) × (line (commit s) ≡ [])
unfolding commit
ready-commit s words fits =
    let all : unread (commit s) ≡ unread s + edited s = omega arith in
    let rest : edited (commit s) ≡ 0 = omega arith in
    (
      ap (window s.buf s.r) all
          ∙ window-append s.buf s.r (unread s) (edited s) s.w (omega arith) (omega arith),
      ap (window s.buf s.e) rest,
    )

module _ {s : Input} (v : IsValid s) where
  pub line-put_char :
      (c : ℕ)
      → unread s + edited s < input_buf
      → (ready (put_char s c) ≡ ready s) × (line (put_char s c) ≡ line s ++ (c ∷ []))
  unfolding put_char
  line-put_char c h =
      let t : Input = put_char s c in
      let more : edited t ≡ suc (edited s) = omega (arith, v.words, h) in
      (
        window-store_behind s.buf s.r (unread s) (edited s) c s.e (omega arith)
            (omega (arith, v.words)) (omega (arith, v.words, h)),
        ap (window t.buf s.w) more
            ∙ window-store s.buf s.w (edited s) c s.e (omega arith) (omega (arith, v.words))
                (omega (arith, v.words, h)),
      )

  pub line-erase : 0 < edited s → line s ≡ line (erase s) ++ (s.buf (sub32 s.e 1 % input_buf) ∷ [])
  unfolding erase
  line-erase h =
      let less : edited s ≡ suc (edited (erase s)) = omega (arith, v.words, h) in
      ap (window s.buf s.w) less
      ∙ window-last s.buf s.w (edited (erase s)) (sub32 s.e 1) (omega (arith, v.words))
          (omega (arith, v.words, h))

  pub ready-drop_char : 0 < unread s → ready s ≡ next_char s ∷ ready (drop_char s)
  unfolding drop_char next_char
  ready-drop_char h =
      let less : unread s ≡ suc (unread (drop_char s)) = omega (arith, v.words, h) in
      ap (window s.buf s.r) less
