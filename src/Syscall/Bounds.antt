-- ===== src/Syscall/Bounds.antt =====
-- What passes the checks of system call arguments lies in the memory of the process.
use os.Base.{
  ℕ, zero, suc, ◌+◌, ◌-◌, ◌*◌, ◌≤◌, ◌<◌, ◌≡◌, ◌≢◌, sym, ◌==◌, leb, ltb, ◌||◌, some, add32, arith,
  Bool-cases, Option-cases, inl, inr,
}
use os.Syscall.{Caller, word_at, fetchint, fetchstr_run, fetchstr, argint, argptr, argstr}

-- A NUL-terminated string of `n` bytes at `a`, its NUL below `sz`.
abbrev pub IsString : Caller → ℕ → ℕ → Type 0
IsString p a n = (a + n < p.sz) × (p.memory (a + n) ≡ 0) × ((i : ℕ) → i < n → p.memory (a + i) ≢ 0)

from_some : {x y : ℕ} → some x ≡ some y → x ≡ y
from_some e = cc

from_first :
    (m : ℕ → ℕ) (s k : ℕ)
    → m s ≢ 0
    → ((i : ℕ) → i + 1 < k → m (s + 1 + i) ≢ 0)
    → (i : ℕ) → i < k
    → m (s + i) ≢ 0
from_first m s k first later zero lt = let same : s + 0 ≡ s = omega arith in rw same first
from_first m s k first later (suc i) lt =
    let same : s + suc i ≡ s + 1 + i = omega arith in rw same (later i (omega arith))

fetchstr_run-some :
    (k : ℕ) (m : ℕ → ℕ) (s n : ℕ) {r : ℕ}
    → fetchstr_run k m s n ≡ some r
    → (n ≤ r) × (r - n < k) × (m (s + (r - n)) ≡ 0) × ((i : ℕ) → i < r - n → m (s + i) ≢ 0)
unfolding fetchstr_run
fetchstr_run-some zero m s n e = cc
fetchstr_run-some (suc k) m s n {r} e = elim (Bool-cases (m s == 0)) [
  | inl nul ↦
      let same : n ≡ r = ground arith in
      let here : s + (r - n) ≡ s = omega arith in
      (omega arith, omega arith, rw here (ground arith), λ i lt. absurd (omega arith))
  | inr more ↦
      let (le, lt, last, others) = fetchstr_run-some k m (s + 1) (n + 1) (rw more at e) in
      let shift : s + 1 + (r - (n + 1)) ≡ s + (r - n) = omega arith in
      (
        omega arith,
        omega arith,
        rw shift at last,
        from_first m s (r - n) (ground arith) (λ i l. others i (omega arith)),
      )
]

fetchstr-IsString : (p : Caller) (a : ℕ) {n : ℕ} → fetchstr p a ≡ some n → IsString p a n
unfolding fetchstr
fetchstr-IsString p a {n} e = elim (Bool-cases (leb p.sz a)) [
  | inl outside ↦ absurd (ground arith)
  | inr inside ↦
      let (le, lt, last, others) = fetchstr_run-some (p.sz - a) p.memory a 0 (rw inside at e) in
      let whole : n - 0 ≡ n = omega arith in (omega arith, rw whole at last, rw whole at others)
]

fetchint-inside :
    (p : Caller) (a v : ℕ)
    → p.sz ≤ 0x80000000
    → fetchint p a ≡ some v
    → (a + 4 ≤ p.sz) × (v ≡ word_at p.memory a)
unfolding fetchint
fetchint-inside p a v small e = elim (Bool-cases (leb p.sz a || ltb p.sz (add32 a 4))) [
  | inl outside ↦ absurd (ground arith)
  | inr inside ↦ (ground arith, from_some (sym (rw inside at e)))
]

argint-inside :
    (p : Caller) (n : ℕ) {v : ℕ}
    → p.sz ≤ 0x80000000
    → argint p n ≡ some v
    → let a = add32 (add32 p.esp 4) (4 * n) in (a + 4 ≤ p.sz) × (v ≡ word_at p.memory a)
unfolding argint
argint-inside p n {v} small e = fetchint-inside p (add32 (add32 p.esp 4) (4 * n)) v small e

-- In a process of at most 2 GB: argint reads four bytes inside the process; argstr returns the address
-- and the length of a string that ends, with its NUL, inside the process; and argptr returns the
-- address of `size` bytes inside the process, if size is not negative as an int. But argptr also
-- accepts every negative size -k for which k is at most the address, although it says nothing then of
-- the bytes from the address on.
pub args_in_bounds :
    (p : Caller) (n : ℕ)
    → p.sz ≤ 0x80000000
    → ((v : ℕ)
        → argint p n ≡ some v
        → let a = add32 (add32 p.esp 4) (4 * n) in (a + 4 ≤ p.sz) × (v ≡ word_at p.memory a))
      × ((a len : ℕ) → argstr p n ≡ some (a, len) → (argint p n ≡ some a) × IsString p a len)
      × ((a size : ℕ)
          → argptr p n size ≡ some a
          → size < 0x80000000
          → (argint p n ≡ some a) × (a + size ≤ p.sz))
      × ((a k : ℕ)
          → argint p n ≡ some a
          → a < p.sz
          → 0 < k
          → k ≤ a
          → argptr p n (0x100000000 - k) ≡ some a)
unfolding argstr argptr
args_in_bounds p n small = (ints, strings, pointers, negative)
  where
    ints :
        (v : ℕ)
        → argint p n ≡ some v
        → let a = add32 (add32 p.esp 4) (4 * n) in (a + 4 ≤ p.sz) × (v ≡ word_at p.memory a)
    ints v e = argint-inside p n small e

    strings : (a len : ℕ) → argstr p n ≡ some (a, len) → (argint p n ≡ some a) × IsString p a len
    strings a len e = elim (Option-cases (argint p n)) [
      | inl nothing ↦ absurd (ground arith)
      | inr (b, got) ↦ elim (Option-cases (fetchstr p b)) [
        | inl broken ↦ absurd (ground arith)
        | inr (m, str) ↦
            let same_a : b ≡ a = ground arith in
            let same_len : m ≡ len = ground arith in
            (rw same_a at got, rw (same_a, same_len) at (fetchstr-IsString p b str))
      ]
    ]

    pointers :
        (a size : ℕ)
        → argptr p n size ≡ some a
        → size < 0x80000000
        → (argint p n ≡ some a) × (a + size ≤ p.sz)
    pointers a size e lt = elim (Option-cases (argint p n)) [
      | inl nothing ↦ absurd (ground arith)
      | inr (b, got) ↦ let same : b ≡ a = ground arith in (rw same at got, ground arith)
    ]

    negative :
        (a k : ℕ)
        → argint p n ≡ some a
        → a < p.sz
        → 0 < k
        → k ≤ a
        → argptr p n (0x100000000 - k) ≡ some a
    negative a k got inside pos le = rw (got, argptr) (ground arith)
