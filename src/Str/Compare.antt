-- ===== src/Str/Compare.antt =====
-- memcmp and strncmp return 0 exactly at equal bytes and equal strings.
use os.Base.{
  ℕ, zero, suc, ◌+◌, ◌≤◌, ◌<◌, ◌≡◌, ◌≢◌, ◌↔◌, inl, inr, refl, not, ◌==◌, ◌&&◌, arith, sub32, some,
  Bool-cases,
}
use os.Str.{Memory, memcmp, strncmp, strlen_run}

abbrev pub IsBytes : Memory → Type 0
IsBytes m = (a : ℕ) → m a < 256

abbrev pub SameBytes : Memory → ℕ → ℕ → ℕ → Type 0
SameBytes m p q n = (i : ℕ) → i < n → m (p + i) ≡ m (q + i)

SameBytes-cons :
    (m : Memory) (p q n : ℕ) → m p ≡ m q → SameBytes m (p + 1) (q + 1) n → SameBytes m p q (suc n)
SameBytes-cons m p q n e s zero h = ground arith
SameBytes-cons m p q n e s (suc i) h = ground (arith, s i)

SameBytes-tail : (m : Memory) (p q n : ℕ) → SameBytes m p q (suc n) → SameBytes m (p + 1) (q + 1) n
SameBytes-tail m p q n s i h = ground (arith, s (suc i))

-- memcmp returns 0 exactly if the n bytes at p and q are the same.
pub memcmp-SameBytes :
    (m : Memory) (p q n : ℕ) → IsBytes m → (memcmp m p q n ≡ 0) ↔ SameBytes m p q n
unfolding memcmp
memcmp-SameBytes m p q zero b = ((λ _ i h. absurd (omega arith)), (λ _. refl))
memcmp-SameBytes m p q (suc n) b =
    let ih = memcmp-SameBytes m (p + 1) (q + 1) n b in
    elim (Bool-cases (m p == m q)) [
      | inl same ↦ rw same (
        (λ h. SameBytes-cons m p q n (ground arith) (ih.0 h)),
        (λ s. ih.1 (SameBytes-tail m p q n s)),
      )
      | inr differ ↦
          rw differ ((λ h. absurd (ground (arith, b p, b q))), (λ s. absurd (ground (arith, s 0))))
    ]

-- Equal as C strings of at most n bytes: a byte counts only before the first NUL.
abbrev pub SameString : Memory → ℕ → ℕ → ℕ → Type 0
SameString m p q n = (i : ℕ) → i < n → ((j : ℕ) → j < i → m (p + j) ≢ 0) → m (p + i) ≡ m (q + i)

SameString-cons :
    (m : Memory) (p q n : ℕ)
    → m p ≡ m q
    → (m p ≢ 0 → SameString m (p + 1) (q + 1) n)
    → SameString m p q (suc n)
SameString-cons m p q n e s zero h before = ground arith
SameString-cons m p q n e s (suc i) h before =
    let here : m p ≢ 0 = ground (arith, before 0) in
    ground (arith, s here i (omega arith) (λ j lt. ground (arith, before (suc j))))

SameString-tail :
    (m : Memory) (p q n : ℕ) → m p ≢ 0 → SameString m p q (suc n) → SameString m (p + 1) (q + 1) n
SameString-tail m p q n ne s i h before = ground (arith, s (suc i) (omega arith) earlier)
  where
    earlier : (j : ℕ) → j < suc i → m (p + j) ≢ 0
    earlier zero lt = ground arith
    earlier (suc j) lt = ground (arith, before j)

first_alike :
    (m : Memory) (p q n : ℕ) → IsBytes m → SameString m p q (suc n) → sub32 (m p) (m q) ≡ 0
first_alike m p q n b s =
    let e : m (p + 0) ≡ m (q + 0) = s 0 (omega arith) (λ j h. absurd (omega arith)) in
    ground (arith, b p)

-- strncmp returns 0 exactly if the two strings agree up to the first NUL or n bytes.
pub strncmp-SameString :
    (m : Memory) (p q n : ℕ) → IsBytes m → (strncmp m p q n ≡ 0) ↔ SameString m p q n
unfolding strncmp
strncmp-SameString m p q zero b = ((λ _ i h. absurd (omega arith)), (λ _. refl))
strncmp-SameString m p q (suc n) b =
    let ih = strncmp-SameString m (p + 1) (q + 1) n b in
    elim (Bool-cases (not (m p == 0) && (m p == m q))) [
      | inl on ↦ rw on (
        (λ h. SameString-cons m p q n (ground arith) (λ _. ih.0 h)),
        (λ s. ih.1 (SameString-tail m p q n (ground arith) s)),
      )
      | inr off ↦ rw off (
        (λ h.
            SameString-cons m p q n (ground (arith, b p, b q))
              (λ ne. absurd (ground (arith, b p, b q)))),
        (λ s. first_alike m p q n b s),
      )
    ]

-- A string of `n` bytes and its NUL stand at `s`.
pub record IsString (m : Memory) (s n : ℕ) : Type 0 where
  pub nul : m (s + n) ≡ 0
  pub bytes : (i : ℕ) → i < n → m (s + i) ≢ 0

strlen_run-IsString :
    (k : ℕ) (m : Memory) (s n i : ℕ)
    → IsString m s n
    → i ≤ n
    → n < i + k
    → strlen_run k m s i ≡ some n
unfolding strlen_run
strlen_run-IsString zero m s n i h le lt = absurd (omega arith)
strlen_run-IsString (suc k) m s n i h le lt =
    ground (arith, strlen_run-IsString k m s n (i + 1) h, h.bytes i, h.nul)

-- strlen returns the number of bytes before the first NUL, after one look more than that.
pub strlen-IsString : (m : Memory) (s n : ℕ) → IsString m s n → strlen_run (n + 1) m s 0 ≡ some n
strlen-IsString m s n h = strlen_run-IsString (n + 1) m s n 0 h (omega arith) (omega arith)
