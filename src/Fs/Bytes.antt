-- ===== src/Fs/Bytes.antt =====
-- The bytes of a block before and after a memmove.
use os.Base.{
  ℕ, zero, suc, ◌+◌, ◌-◌, ◌*◌, ◌/◌, ◌%◌, ◌<◌, ◌≡◌, ◌∙◌, ap, ltb, leb, if◌then◌else◌, Bool, true,
  false, ◌&&◌, arith,
}
use os.Fs.Io.{byte_of, word_of, bytes_of, copy_in}

byte_of-word_of : (f : ℕ → ℕ) (k : ℕ) → k < 4 → ((j : ℕ) → f j < 256) → byte_of (word_of f) k ≡ f k
byte_of-word_of f zero lt small = let s0 = small 0 in omega arith
byte_of-word_of f (suc zero) lt small = let s0 = small 0 in let s1 = small 1 in omega arith
byte_of-word_of f (suc (suc zero)) lt small =
    let s0 = small 0 in let s1 = small 1 in let s2 = small 2 in omega arith
byte_of-word_of f (suc (suc (suc zero))) lt small =
    let s0 = small 0 in let s1 = small 1 in let s2 = small 2 in let s3 = small 3 in omega arith
byte_of-word_of f (suc (suc (suc (suc k)))) lt small = absurd (omega arith)

pub byte_of-lt : (w k : ℕ) → byte_of w k < 256
byte_of-lt w k = ground arith

either-lt : (test : Bool) (x y : ℕ) → x < 256 → y < 256 → (if test then x else y) < 256
either-lt true x y lx ly = lx
either-lt false x y lx ly = ly

pub bytes_of-copy_in :
    (words : ℕ → ℕ) (start : ℕ) (src : ℕ → ℕ) (m o : ℕ)
    → ((i : ℕ) → src i < 256)
    → bytes_of (copy_in words start src m) o
      ≡ (if leb start o && ltb o (start + m) then src (o - start) else bytes_of words o)
bytes_of-copy_in words start src m o small =
    let byte : ℕ → ℕ = λ j.
      if leb start (4 * (o / 4) + j) && ltb (4 * (o / 4) + j) (start + m)
      then src (4 * (o / 4) + j - start)
      else byte_of (words (o / 4)) j in
    let whole : 4 * (o / 4) + o % 4 ≡ o = omega arith in
    byte_of-word_of byte (o % 4) (omega arith)
      (λ j. either-lt _ _ _ (small _) (byte_of-lt (words (o / 4)) j))
    ∙ ap
        (λ x.
          if leb start x && ltb x (start + m)
          then src (x - start)
          else byte_of (words (o / 4)) (o % 4))
        whole
