-- ===== src/Str/Move.antt =====
-- memmove copies also where source and destination overlap.
use os.Base.{
  ℕ, zero, suc, ◌+◌, ◌≤◌, ◌<◌, ◌^◌, ◌≡◌, ◌⊎◌, refl, ltb, ◌&&◌, arith, add32, inl, inr, Bool-cases,
}
use os.Str.{Memory, poke, move_up, move_down, memmove}

-- `n` bytes at `d` hold what `old` has at `s`, and nothing else differs from `old`.
pub record Moved (old new : Memory) (d s n : ℕ) : Type 0 where
  pub inside : (i : ℕ) → i < n → new (d + i) ≡ old (s + i)
  pub outside : (a : ℕ) → (a < d) ⊎ (d + n ≤ a) → new a ≡ old a

-- Going up is right where the destination does not lie inside the source, above its start.
move_up-Moved :
    (n : ℕ) (m : Memory) (d s : ℕ) → (d ≤ s) ⊎ (s + n ≤ d) → Moved m (move_up n m d s) d s n
unfolding move_up
move_up-Moved zero m d s h = record { inside = λ i lt. absurd (omega arith); outside = λ a _. refl }
move_up-Moved (suc n) m d s h =
    let rest = move_up-Moved n (poke m d (m s)) (d + 1) (s + 1) (omega arith) in
    record { inside = inside rest; outside = λ a o. ground (arith, rest.outside a) }
  where
    inside :
        Moved (poke m d (m s)) (move_up n (poke m d (m s)) (d + 1) (s + 1)) (d + 1) (s + 1) n
        → (i : ℕ) → i < suc n
        → move_up n (poke m d (m s)) (d + 1) (s + 1) (d + i) ≡ m (s + i)
    inside rest zero lt = ground (arith, rest.outside d)
    inside rest (suc i) lt = ground (arith, rest.inside i)

move_down-Moved : (n : ℕ) (m : Memory) (d s : ℕ) → s ≤ d → Moved m (move_down n m d s) d s n
unfolding move_down
move_down-Moved zero m d s h = record {
  inside = λ i lt. absurd (omega arith);
  outside = λ a _. refl;
}
move_down-Moved (suc n) m d s h =
    let rest = move_down-Moved n (poke m (d + n) (m (s + n))) d s h in
    record {
      inside = λ i lt. ground (arith, rest.inside i, rest.outside (d + i));
      outside = λ a o. ground (arith, rest.outside a);
    }

-- memmove copies the n bytes as they were before the call, however the two ranges overlap, and
-- changes no other byte, if the source range does not run past the end of the address space.
pub memmove-Moved :
    (m : Memory) (dst src n : ℕ) → src + n < 2 ^ 32 → Moved m (memmove m dst src n) dst src n
unfolding memmove
memmove-Moved m dst src n h = elim (Bool-cases (ltb src dst && ltb dst (add32 src n))) [
  | inl overlap ↦ rw overlap (move_down-Moved n m dst src (ground arith))
  | inr apart ↦ rw apart (move_up-Moved n m dst src (ground arith))
]
