-- ===== src/Str/Copy.antt =====
-- strncpy and safestrcpy, where source and destination lie apart.
use os.Base.{ℕ, zero, suc, ◌+◌, ◌-◌, ◌≤◌, ◌<◌, ◌≡◌, ◌≢◌, ◌⊎◌, refl, ◌==◌, false, arith, min}
use os.Str.{Memory, poke, zero_fill, strncpy, safestrcpy_run, safestrcpy}
use os.Str.Compare.{IsString}
use os.Str.Fill.{Filled}

-- The `n` bytes at `s` and the string of `k` bytes at `t` with its NUL do not overlap.
abbrev pub Apart : ℕ → ℕ → ℕ → ℕ → Type 0
Apart s n t k = (s + n ≤ t) ⊎ (t + k < s)

zero_fill-Filled : (n : ℕ) (m : Memory) (s : ℕ) → Filled m (zero_fill n m s) s n 0
unfolding zero_fill
zero_fill-Filled zero m s = record { inside = λ i lt. absurd (omega arith); outside = λ a _. refl }
zero_fill-Filled (suc n) m s =
    let rest = zero_fill-Filled n (poke m s 0) (s + 1) in
    record {
      inside = λ i lt. ground (arith, rest.inside (i - 1), rest.outside s);
      outside = λ a o. ground (arith, rest.outside a);
    }

-- The first `n` bytes at `s` are the string of `k` bytes at `t`, padded with NULs.
pub record Padded (old new : Memory) (s t n k : ℕ) : Type 0 where
  pub copied : (i : ℕ) → i < n → i < k → new (s + i) ≡ old (t + i)
  pub zeros : (i : ℕ) → i < n → k ≤ i → new (s + i) ≡ 0
  pub outside : (a : ℕ) → (a < s) ⊎ (s + n ≤ a) → new a ≡ old a

IsString-tail :
    {m : Memory} {t k : ℕ} (s v n : ℕ)
    → IsString m t (suc k)
    → Apart s (suc n) t (suc k)
    → IsString (poke m s v) (t + 1) k
IsString-tail {m} {t} {k} s v n str apart = record {
  nul = ground (arith, str.nul);
  bytes = λ i lt. ground (arith, str.bytes (suc i));
}

-- The first byte of a string, copied before the rest.
Padded-cons :
    {m new : Memory} {s t n k : ℕ}
    → Padded (poke m s (m t)) new (s + 1) (t + 1) n k
    → (s + suc n ≤ t) ⊎ (t + suc k < s)
    → Padded m new s t (suc n) (suc k)
Padded-cons {m} {new} {s} {t} {n} {k} rest apart = record {
  copied = copied;
  zeros = zeros;
  outside = λ a o. ground (arith, rest.outside a);
}
  where
    copied : (i : ℕ) → i < suc n → i < suc k → new (s + i) ≡ m (t + i)
    copied zero lt h = ground (arith, rest.outside s)
    copied (suc i) lt h = ground (arith, rest.copied i)

    zeros : (i : ℕ) → i < suc n → suc k ≤ i → new (s + i) ≡ 0
    zeros zero lt h = absurd (omega arith)
    zeros (suc i) lt h = ground (arith, rest.zeros i)

-- strncpy writes exactly n bytes: the string, cut at n bytes and with no NUL then, or padded with
-- NULs up to n bytes.
pub strncpy-Padded :
    (n : ℕ) (m : Memory) (s t k : ℕ)
    → IsString m t k
    → Apart s n t k
    → Padded m (strncpy n m s t) s t n k
unfolding strncpy
strncpy-Padded zero m s t k str apart = record {
  copied = λ i lt _. absurd (omega arith);
  zeros = λ i lt _. absurd (omega arith);
  outside = λ a _. refl;
}
strncpy-Padded (suc n) m s t zero str apart =
    let last : m t ≡ 0 = ground (arith, str.nul) in
    let fill = zero_fill-Filled n (poke m s 0) (s + 1) in
    rw last (record {
      copied = λ i lt h. absurd (omega arith);
      zeros = λ i lt h. ground (arith, fill.inside (i - 1), fill.outside s);
      outside = λ a o. ground (arith, fill.outside a);
    })
strncpy-Padded (suc n) m s t (suc k) str apart =
    let more : (m t == 0) ≡ false = ground (arith, str.bytes 0) in
    let rest =
      strncpy-Padded n (poke m s (m t)) (s + 1) (t + 1) k (IsString-tail s (m t) n str apart)
        (omega arith) in
    rw more (Padded-cons rest (omega arith))

-- A string of at most `n` bytes and its NUL stand at `s`: the first bytes of that at `t`.
pub record Cut (old new : Memory) (s t n k : ℕ) : Type 0 where
  pub string : IsString new s (min n k)
  pub copied : (i : ℕ) → i < min n k → new (s + i) ≡ old (t + i)
  pub outside : (a : ℕ) → (a < s) ⊎ (s + n < a) → new a ≡ old a

Cut-cons :
    {m new : Memory} {s t n k : ℕ}
    → Cut (poke m s (m t)) new (s + 1) (t + 1) n k
    → (s + suc (suc n) ≤ t) ⊎ (t + suc k < s)
    → m (t + 0) ≢ 0
    → Cut m new s t (suc n) (suc k)
Cut-cons {m} {new} {s} {t} {n} {k} rest apart ne = record {
  string = record { nul = nul; bytes = bytes };
  copied = copied;
  outside = λ a o. ground (arith, rest.outside a);
}
  where
    size : s + min (suc n) (suc k) ≡ s + 1 + min n k
    size = omega arith

    nul : new (s + min (suc n) (suc k)) ≡ 0
    nul = rw size rest.string.nul

    copied : (i : ℕ) → i < min (suc n) (suc k) → new (s + i) ≡ m (t + i)
    copied zero lt = ground (arith, rest.outside s)
    copied (suc i) lt = ground (arith, rest.copied i)

    bytes : (i : ℕ) → i < min (suc n) (suc k) → new (s + i) ≢ 0
    bytes zero lt = ground (arith, rest.outside s)
    bytes (suc i) lt = ground (arith, rest.string.bytes i)

safestrcpy_run-Cut :
    (n : ℕ) (m : Memory) (s t k : ℕ)
    → IsString m t k
    → Apart s (suc n) t k
    → Cut m (safestrcpy_run n m s t) s t n k
unfolding safestrcpy_run
safestrcpy_run-Cut zero m s t k str apart = record {
  string = record { nul = ground arith; bytes = λ i lt. absurd (omega arith) };
  copied = λ i lt. absurd (omega arith);
  outside = λ a o. ground arith;
}
safestrcpy_run-Cut (suc n) m s t zero str apart =
    let last : m t ≡ 0 = ground (arith, str.nul) in
    rw last (record {
      string = record { nul = ground arith; bytes = λ i lt. absurd (omega arith) };
      copied = λ i lt. absurd (omega arith);
      outside = λ a o. ground arith;
    })
safestrcpy_run-Cut (suc n) m s t (suc k) str apart =
    let more : (m t == 0) ≡ false = ground (arith, str.bytes 0) in
    let rest =
      safestrcpy_run-Cut n (poke m s (m t)) (s + 1) (t + 1) k
        (IsString-tail s (m t) (suc n) str apart) (omega arith) in
    rw more (Cut-cons rest (omega arith) (str.bytes 0 (omega arith)))

-- safestrcpy with room for n + 1 bytes leaves a NUL-terminated string, the first n bytes of the
-- source or all of it if that is shorter, and writes nowhere outside those n + 1 bytes.
pub safestrcpy-Cut :
    (n : ℕ) (m : Memory) (s t k : ℕ)
    → IsString m t k
    → Apart s (suc n) t k
    → Cut m (safestrcpy (suc n) m s t) s t n k
unfolding safestrcpy
safestrcpy-Cut n m s t k str apart = safestrcpy_run-Cut n m s t k str apart
