-- ===== src/Pipe/Ring.antt =====
-- The ring of pipe.c holds a queue of bytes, also after its counters wrapped round.
use os.Base.{
  ℕ, zero, suc, ◌%◌, ◌≤◌, ◌<◌, ◌^◌, ◌∙◌, ◌≡◌, ◌↔◌, refl, ap, ap₂, true, List, [], ◌∷◌, ◌++◌, arith,
  add32, sub32, length,
}
use os.Pipe.{Pipe, pipe_size, is_full, is_empty, put_byte, next_byte, drop_byte, store}

-- the number of bytes held: the counters' distance, modulo 2^32
abbrev pub count : Pipe → ℕ
count p = sub32 p.nwrite p.nread

-- the `n` bytes from counter value `r` on
abbrev pub window : (ℕ → ℕ) → ℕ → ℕ → List ℕ
window bytes r zero = []
window bytes r (suc n) = bytes (r % pipe_size) ∷ window bytes (add32 r 1) n

-- the bytes that wait in the pipe, oldest first
abbrev pub contents : Pipe → List ℕ
contents p = window p.bytes p.nread (count p)

pub record IsValid (p : Pipe) : Type 0 where
  pub read_word : p.nread < 2 ^ 32
  pub write_word : p.nwrite < 2 ^ 32
  pub fits : count p ≤ pipe_size

length-window : (bytes : ℕ → ℕ) (r n : ℕ) → length (window bytes r n) ≡ n
length-window bytes r zero = refl
length-window bytes r (suc n) = ap suc (length-window bytes (add32 r 1) n)

pub length-contents : (p : Pipe) → length (contents p) ≡ count p
length-contents p = length-window p.bytes p.nread (count p)

-- writing behind the window extends it
window-store :
    (bytes : ℕ → ℕ) (r n c w : ℕ)
    → n < pipe_size
    → r < 2 ^ 32
    → w ≡ add32 r n
    → window (store bytes (w % pipe_size) c) r (suc n) ≡ window bytes r n ++ (c ∷ [])
window-store bytes r zero c w h hr e = ground arith
window-store bytes r (suc n) c w h hr e =
    ap₂ ◌∷◌ (ground arith)
      (window-store bytes (add32 r 1) n c w (omega arith) (omega arith) (omega arith))

module _ {p : Pipe} (v : IsValid p) where
  -- The test of pipewrite is true exactly at PIPESIZE bytes.
  pub is_full-count : (is_full p ≡ true) ↔ (count p ≡ pipe_size)
  unfolding is_full
  is_full-count = ground arith

  -- The test of piperead is true exactly at no byte.
  pub is_empty-count : (is_empty p ≡ true) ↔ (count p ≡ 0)
  unfolding is_empty
  is_empty-count = ground arith

  pub put_byte-IsValid : (c : ℕ) → count p < pipe_size → IsValid (put_byte p c)
  unfolding put_byte
  put_byte-IsValid c h = omega arith

  pub count-put_byte : (c : ℕ) → count p < pipe_size → count (put_byte p c) ≡ suc (count p)
  unfolding put_byte
  count-put_byte c h = omega arith

  pub contents-put_byte :
      (c : ℕ) → count p < pipe_size → contents (put_byte p c) ≡ contents p ++ (c ∷ [])
  unfolding put_byte
  contents-put_byte c h =
      let q : Pipe = put_byte p c in
      ap (window q.bytes p.nread) (count-put_byte c h)
      ∙ window-store p.bytes p.nread (count p) c p.nwrite h (omega arith) (omega arith)

  pub drop_byte-IsValid : 0 < count p → IsValid (drop_byte p)
  unfolding drop_byte
  drop_byte-IsValid h = omega arith

  pub count-drop_byte : 0 < count p → count p ≡ suc (count (drop_byte p))
  unfolding drop_byte
  count-drop_byte h = omega arith

  pub contents-drop_byte : 0 < count p → contents p ≡ next_byte p ∷ contents (drop_byte p)
  unfolding drop_byte next_byte
  contents-drop_byte h = ap (window p.bytes p.nread) (count-drop_byte h)
