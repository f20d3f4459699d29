-- ===== src/Str/Fill.antt =====
-- memset writes the low byte of its argument, by words or by bytes.
use native.Mathlib.Decide.{dec_lt}
use os.Base.{
  ◌∙◌, ℕ, zero, suc, ◌+◌, ◌-◌, ◌*◌, ◌/◌, ◌%◌, ◌≤◌, ◌<◌, ◌≡◌, ◌⊎◌, inl, inr, refl, ◌==◌, ◌&&◌, arith,
  Bool-cases,
}
use os.Str.{Memory, poke, poke32, stosb, stosl, memset}

-- `n` bytes at `p` hold `c`, and nothing else differs from `old`.
pub record Filled (old new : Memory) (p n c : ℕ) : Type 0 where
  pub inside : (i : ℕ) → i < n → new (p + i) ≡ c
  pub outside : (a : ℕ) → (a < p) ⊎ (p + n ≤ a) → new a ≡ old a

stosb-Filled : (n : ℕ) (m : Memory) (p c : ℕ) → Filled m (stosb n m p c) p n (c % 256)
unfolding stosb
stosb-Filled zero m p c = record { inside = λ i lt. absurd (omega arith); outside = λ a _. refl }
stosb-Filled (suc n) m p c =
    let rest = stosb-Filled n (poke m p (c % 256)) (p + 1) c in
    record {
      inside = λ i lt. ground (arith, rest.inside (i - 1), rest.outside p);
      outside = λ a o. ground (arith, rest.outside a);
    }

-- the word whose four bytes are all `b`
abbrev word_of : ℕ → ℕ
word_of b = b * 16777216 + b * 65536 + b * 256 + b

word_bytes :
    (b : ℕ)
    → b < 256
    → (word_of b % 256 ≡ b)
      × (word_of b / 256 % 256 ≡ b)
      × (word_of b / 65536 % 256 ≡ b)
      × (word_of b / 16777216 % 256 ≡ b)
word_bytes b h = (omega arith, omega arith, omega arith, omega arith)

poke32-Filled : (m : Memory) (p b : ℕ) → b < 256 → Filled m (poke32 m p (word_of b)) p 4 b
poke32-Filled m p b h =
    rw ((word_bytes b h).0, (word_bytes b h).1, (word_bytes b h).2, (word_bytes b h).3)
      (record { inside = λ i lt. ground arith; outside = λ a o. ground arith })

-- Two ranges filled one after the other are one.
Filled-join :
    {old mid new : Memory} (p k n : ℕ) {c : ℕ}
    → Filled old mid p k c
    → Filled mid new (p + k) n c
    → Filled old new p (k + n) c
Filled-join p k n f g = record {
  inside = λ i lt. elim (dec_lt i k) [
    | yes low ↦ g.outside (p + i) (inl (omega arith)) ∙ f.inside i low
    | no high ↦ ground (arith, g.inside (i - k))
  ];
  outside = λ a o. g.outside a (outer a o) ∙ f.outside a (omega arith);
}
  where
    outer : (a : ℕ) → (a < p) ⊎ (p + (k + n) ≤ a) → (a < p + k) ⊎ (p + k + n ≤ a)
    outer a o = omega arith

stosl-Filled :
    (n : ℕ) (m : Memory) (p b : ℕ) → b < 256 → Filled m (stosl n m p (word_of b)) p (n * 4) b
unfolding stosl
stosl-Filled zero m p b h = record { inside = λ i lt. absurd (omega arith); outside = λ a _. refl }
stosl-Filled (suc n) m p b h =
    let joined =
      Filled-join p 4 (n * 4) (poke32-Filled m p b h)
        (stosl-Filled n (poke32 m p (word_of b)) (p + 4) b h) in
    let size : 4 + n * 4 ≡ suc n * 4 = omega arith in rw (← size) joined

-- memset fills the n bytes at dst with the low byte of c and changes no other byte, whether it
-- stores words or bytes.
pub memset-Filled : (m : Memory) (dst c n : ℕ) → Filled m (memset m dst c n) dst n (c % 256)
unfolding memset
memset-Filled m dst c n = elim (Bool-cases ((dst % 4 == 0) && (n % 4 == 0))) [
  | inl aligned ↦
      let size : n / 4 * 4 ≡ n = ground arith in
      rw aligned (rw size at (stosl-Filled (n / 4) m dst (c % 256) (omega arith)))
  | inr bytes ↦ rw bytes (stosb-Filled n m dst c)
]
