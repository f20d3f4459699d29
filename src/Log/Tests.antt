-- ===== src/Log/Tests.antt =====
-- Runs of the log, and the instances of its theorems.
use os.Base.{
  ℕ, zero, suc, ◌+◌, ◌<◌, ◌≡◌, ◌⊎◌, inl, refl, none, some, false, List, [], ◌∷◌, arith, map, Option,
  ◌==◌, if◌then◌else◌,
}
use os.Log.Sectors.{Disk, Write, run_writes, crash}
use os.Base.{Outcome, ok, panic}
use os.Log.{LogState, boot, transaction, recover_from_log}
use os.Log.Recovery.{IsHome, Recoverable}
use os.Log.Boot.{recovery_lem}
use os.Log.Commit.{AllHome, IsIdle}
use os.Log.Atomic.{Holds, recovered, transaction_lem, crash_atomic}

-- the log region is 20 … 30; every word of sector x is x, but the log header is 0
abbrev disk : Disk
disk x = if x == 20 then (λ i. 0) else (λ i. x)

abbrev idle : LogState
idle = boot disk 20 11

-- two sectors, one of them written twice
abbrev writes : List Write
writes =
    record { at = 3; block = λ i. 103 }
    ∷ record { at = 5; block = λ i. 105 }
    ∷ record { at = 3; block = λ i. 203 }
    ∷ []

idle-IsIdle : IsIdle idle
idle-IsIdle = record {
  free = refl;
  room = omega arith;
  empty = refl;
  header = refl;
  clean = λ x. refl;
  fresh = refl;
}

writes-AllHome : AllHome 20 11 writes
writes-AllHome = (inl (omega arith), (inl (omega arith), (inl (omega arith), tt)))

transaction_lem_example :
    (t : LogState) × (transaction idle writes ≡ some (ok t))
    × Holds 20 11 (run_writes disk writes) t.disk
    × (t.busy ≡ false)
    × (t.lh.n ≡ 0)
    × (t.disk 20 0 ≡ 0)
    × ((x : ℕ) → t.dirty x ≡ none)
transaction_lem_example = transaction_lem idle writes idle-IsIdle writes-AllHome (omega arith)

crash_atomic_example :
    Holds 20 11 disk (recovered 20 11 (crash disk transaction_lem_example.0.trace 4) 1)
    ⊎ Holds 20 11
        (run_writes disk writes)
        (recovered 20 11 (crash disk transaction_lem_example.0.trace 4) 1)
crash_atomic_example =
    crash_atomic idle writes idle-IsIdle writes-AllHome (omega arith) transaction_lem_example.1 4 1

-- a committed header with one entry: sector 3 from log block 21
abbrev committed : Disk
committed x =
    if x == 20
    then (λ i. elim i [ zero ↦ 1 | suc j ↦ 3 ])
    else if x == 21
    then (λ i. 103)
    else (λ i. x)

abbrev installed : Disk
installed x = if x == 3 then (λ i. 103) else committed x

committed-Recoverable : Recoverable 20 11 installed committed
committed-Recoverable = record {
  room = omega arith;
  small = omega arith;
  homes = λ i h. inl (omega arith);
  logged = entry;
  rest = λ x home ne. ground (arith, ne 0);
}
  where
    entry : (i : ℕ) → i < 1 → committed (20 + i + 1) ≡ installed 3
    entry zero h = refl
    entry (suc i) h = absurd (omega arith)

recovery_lem_example :
    let s = recover_from_log (boot committed 20 11) in
    ((x : ℕ) → IsHome 20 11 x → s.disk x ≡ installed x)
    × (s.disk 20 0 ≡ 0)
    × (s.lh.n ≡ 0)
    × ((x : ℕ) → s.dirty x ≡ none)
    × (run_writes committed s.trace ≡ s.disk)
    × ((k : ℕ) → Recoverable 20 11 installed (crash committed s.trace k))
recovery_lem_example = recovery_lem 20 11 committed-Recoverable

sectors_written : Option (Outcome LogState) → List ℕ
sectors_written none = []
sectors_written (some panic) = []
sectors_written (some (ok s)) = map (λ w. w.at) s.trace

-- Three log writes, two of them to one log block; the commit; two installations; the header.
writes_in_order : sectors_written (transaction idle writes) ≡ 21 ∷ 22 ∷ 21 ∷ 20 ∷ 3 ∷ 5 ∷ 20 ∷ []
unfolding sectors_written transaction
writes_in_order = refl
