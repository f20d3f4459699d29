-- ===== src/Number/Decimal.antt =====
-- atoi reads what printint writes.
use os.Base.{
  ℕ, zero, suc, ◌+◌, ◌-◌, ◌*◌, ◌/◌, ◌%◌, ◌<◌, ◌≡◌, refl, ap, ◌∙◌, ◌==◌, true, false, List, [], ◌∷◌,
  arith, Bool-cases, inl, inr, leb, ltb, ◌&&◌,
}
use os.Number.{digit, digits_run, printint, atoi_run, atoi}

-- More than what `n` decimal digits can say.
abbrev bound : ℕ → ℕ
bound zero = 1
bound (suc n) = 10 * bound n

atoi_run-digit :
    (x : ℕ) (out : List ℕ)
    → x < 0x100000000
    → atoi_run (x / 10) (digit (x % 10) ∷ out) ≡ atoi_run x out
unfolding atoi_run
atoi_run-digit x out lt =
    let small : ltb (x % 10) 10 ≡ true = ground arith in
    let is_digit : (leb 48 (48 + x % 10) && leb (48 + x % 10) 57) ≡ true = ground arith in
    let value : (x / 10 * 10 + (48 + x % 10) - 48) % 0x100000000 ≡ x = omega arith in
    rw (small, is_digit, value) refl

atoi_run-digits_run :
    (fuel x : ℕ) (out : List ℕ)
    → x < bound fuel
    → x < 0x100000000
    → atoi_run 0 (digits_run fuel x 10 out) ≡ atoi_run x out
unfolding digits_run
atoi_run-digits_run zero x out fits lt =
    let none_left : 0 ≡ x = omega arith in ap (λ n. atoi_run n out) none_left
atoi_run-digits_run (suc fuel) x out fits lt = elim (Bool-cases (x / 10 == 0)) [
  | inl last ↦
      let head : 0 ≡ x / 10 = ground arith in
      rw last (ap (λ n. atoi_run n (digit (x % 10) ∷ out)) head ∙ atoi_run-digit x out lt)
  | inr more ↦ rw more (
      atoi_run-digits_run fuel (x / 10) (digit (x % 10) ∷ out) (omega arith) (omega arith)
      ∙ atoi_run-digit x out lt)
]

-- atoi of what printint writes in decimal is the number, for every int that is not negative and, as
-- printed without a sign, for every unsigned one.
pub atoi-printint :
    (x : ℕ)
    → (x < 0x80000000 → atoi (printint x 10 true) ≡ x)
      × (x < 0x100000000 → atoi (printint x 10 false) ≡ x)
unfolding atoi printint
atoi-printint x = (
  λ lt.
      let positive : leb 0x80000000 x ≡ false = ground arith in
      rw positive (atoi_run-digits_run 16 x [] (omega arith) (omega arith)),
  λ lt. atoi_run-digits_run 16 x [] (omega arith) lt,
)
