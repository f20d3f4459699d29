-- ===== src/Pipe/Transfer.antt =====
-- What one call of pipewrite or piperead does up to its return or its next sleep.
use mathlib.Core.List.{append-nil, append_assoc}
use os.Base.{
  ℕ, zero, suc, ◌-◌, ◌<◌, ◌≡◌, refl, ap, inl, inr, Bool, not, ◌&&◌, ◌||◌, List, [], ◌∷◌, ◌++◌,
  arith, leb, ◌==◌, if◌then◌else◌, length, take, drop, Bool-cases,
}
use os.Pipe.{
  Pipe, pipe_size, is_full, is_empty, put_byte, drop_byte, WriteOutcome, wrote, write_failed,
  write_asleep, write_run, ReadOutcome, got, read_failed, read_asleep, copy_run, read_run,
}
use os.Pipe.Ring.{
  count, window, contents, IsValid, length-contents, is_full-count, is_empty-count,
  put_byte-IsValid, count-put_byte, contents-put_byte, drop_byte-IsValid, contents-drop_byte,
}

abbrev pub space : Pipe → ℕ
space p = pipe_size - count p

-- how a write ends that finds room for `room` bytes
abbrev pub write_end : Bool → Bool → ℕ → List ℕ → WriteOutcome
write_end killed readopen room cs =
    if leb (length cs) room
    then wrote
    else (if not readopen || killed then write_failed else write_asleep (drop room cs))

pub record Wrote (killed : Bool) (p : Pipe) (cs : List ℕ) (r : Pipe × WriteOutcome) : Type 0 where
  pub valid : IsValid r.0
  pub ends : (r.0.readopen ≡ p.readopen) × (r.0.writeopen ≡ p.writeopen)
  pub bytes : contents r.0 ≡ contents p ++ take (space p) cs
  pub outcome : r.1 ≡ write_end killed p.readopen (space p) cs

take-suc : (n m x : ℕ) (xs : List ℕ) → n ≡ suc m → take n (x ∷ xs) ≡ x ∷ take m xs
take-suc n m x xs e = rw e

drop-suc : (n m x : ℕ) (xs : List ℕ) → n ≡ suc m → drop n (x ∷ xs) ≡ drop m xs
drop-suc n m x xs e = rw e

take-zero : (n : ℕ) (xs : List ℕ) → n ≡ 0 → take n xs ≡ []
take-zero n xs e = rw e

drop-zero : (n : ℕ) (xs : List ℕ) → n ≡ 0 → drop n xs ≡ xs
drop-zero n xs e = rw e

take-nil : (n : ℕ) → take {A = ℕ} n [] ≡ []
take-nil zero = refl
take-nil (suc n) = refl

put_byte-ends :
    (p : Pipe) (c : ℕ)
    → ((put_byte p c).readopen ≡ p.readopen) × ((put_byte p c).writeopen ≡ p.writeopen)
unfolding put_byte
put_byte-ends p c = (refl, refl)

-- On a valid pipe (its counters may have wrapped round) pipewrite, up to its return or next sleep,
-- appends to the queue of bytes the longest prefix that fits, and returns, fails or sleeps over
-- the rest as the free space, the read end and the killed flag say. The pipe stays valid.
pub write_run-Wrote :
    (killed : Bool) (cs : List ℕ) {p : Pipe} → IsValid p → Wrote killed p cs (write_run killed p cs)
unfolding write_run
write_run-Wrote killed [] {p} v = record {
  valid = v;
  ends = (refl, refl);
  bytes = rw (take-nil, append-nil);
  outcome = ground arith;
}
write_run-Wrote killed (c ∷ cs) {p} v = elim (Bool-cases (is_full p)) [
  | inl full ↦
      let none_left : space p ≡ 0 = omega (arith, (is_full-count v).0 full) in
      rw full (
        ground (
          arith,
          none_left,
          take-zero (space p) (c ∷ cs),
          drop-zero (space p) (c ∷ cs),
          append-nil (contents p),
        ))
  | inr room ↦
      let some_left : count p < pipe_size = ground (arith, is_full-count v) in
      let step : space p ≡ suc (space (put_byte p c)) =
        omega (arith, count-put_byte v c some_left) in
      rw room (
        ground (
          arith,
          write_run-Wrote killed cs (put_byte-IsValid v c some_left),
          step,
          take-suc (space p) (space (put_byte p c)) c cs,
          drop-suc (space p) (space (put_byte p c)) c cs,
          contents-put_byte v c some_left,
          append_assoc (contents p) (c ∷ []) (take (space (put_byte p c)) cs),
          put_byte-ends p c,
        ))
]

drop_byte-ends :
    (p : Pipe) → ((drop_byte p).readopen ≡ p.readopen) × ((drop_byte p).writeopen ≡ p.writeopen)
unfolding drop_byte
drop_byte-ends p = (refl, refl)

contents-zero : (p : Pipe) → count p ≡ 0 → contents p ≡ []
contents-zero p e = ap (window p.bytes p.nread) e

drop-nil : (n : ℕ) → drop {A = ℕ} n [] ≡ []
drop-nil zero = refl
drop-nil (suc n) = refl

pub record Copied (p : Pipe) (n : ℕ) (r : Pipe × List ℕ) : Type 0 where
  pub valid : IsValid r.0
  pub ends : (r.0.readopen ≡ p.readopen) × (r.0.writeopen ≡ p.writeopen)
  pub bytes : r.1 ≡ take n (contents p)
  pub rest : contents r.0 ≡ drop n (contents p)

pub copy_run-Copied : (n : ℕ) {p : Pipe} → IsValid p → Copied p n (copy_run p n)
unfolding copy_run
copy_run-Copied zero v = record { valid = v; ends = (refl, refl); bytes = refl; rest = refl }
copy_run-Copied (suc n) {p} v = elim (Bool-cases (is_empty p)) [
  | inl empty ↦
      let nothing : count p ≡ 0 = (is_empty-count v).0 empty in
      rw empty (ground (arith, contents-zero p nothing))
  | inr more ↦
      let some_left : 0 < count p = ground (arith, is_empty-count v) in
      rw more (
        ground (
          arith,
          copy_run-Copied n (drop_byte-IsValid v some_left),
          contents-drop_byte v some_left,
          drop_byte-ends p,
        ))
]

-- what piperead returns from a pipe that holds `held`
abbrev pub read_end : Bool → Bool → List ℕ → ℕ → ReadOutcome
read_end killed writeopen held n =
    if (length held == 0) && writeopen
    then (if killed then read_failed else read_asleep)
    else got (take n held)

pub record Read (killed : Bool) (p : Pipe) (n : ℕ) (r : Pipe × ReadOutcome) : Type 0 where
  pub valid : IsValid r.0
  pub ends : (r.0.readopen ≡ p.readopen) × (r.0.writeopen ≡ p.writeopen)
  pub outcome : r.1 ≡ read_end killed p.writeopen (contents p) n
  pub rest : contents r.0 ≡ drop n (contents p)

-- On a valid pipe piperead takes the oldest bytes of the queue, as many as asked for and
-- available, fails or sleeps only when the queue is empty with the write end open, and leaves the
-- other bytes. The pipe stays valid.
pub read_run-Read :
    (killed : Bool) (n : ℕ) {p : Pipe} → IsValid p → Read killed p n (read_run killed p n)
unfolding read_run
read_run-Read killed n {p} v = elim (Bool-cases (is_empty p)) [
  | inl empty ↦
      let nothing : count p ≡ 0 = (is_empty-count v).0 empty in
      rw empty (ground (arith, contents-zero p nothing, copy_run-Copied n v, drop-nil n))
  | inr more ↦
      let some_left : 0 < count p = ground (arith, is_empty-count v) in
      rw more (ground (arith, copy_run-Copied n v, length-contents p))
]
