-- ===== src/Pipe/Tests.antt =====
-- Runs of a pipe, and the instances of its theorems.
use os.Base.{ℕ, ◌-◌, ◌^◌, ◌≤◌, ◌≡◌, refl, false, true, List, [], ◌∷◌, ◌++◌, arith, length}
use os.Pipe.{Pipe, write_run, read_run}
use os.Pipe.Ring.{count, contents, IsValid}
use os.Pipe.Transfer.{Wrote, Read, write_run-Wrote, read_run-Read}
use os.Pipe.Stream.{
  write_step, read_step, here, next, writes, reads, start, rounds, stream_order, rounds_deliver,
}

abbrev junk : ℕ → ℕ
junk i = 7

-- two bytes lie across the point where the counters wrap round
abbrev wrapping : Pipe
wrapping = record {
  bytes = λ i. i;
  nread = 2 ^ 32 - 1;
  nwrite = 1;
  readopen = true;
  writeopen = true;
}

wrapping-IsValid : IsValid wrapping
wrapping-IsValid = omega arith

contents-wrapping : contents wrapping ≡ 511 ∷ 0 ∷ []
contents-wrapping = refl

write_run-Wrote_example : Wrote false wrapping (8 ∷ 9 ∷ []) (write_run false wrapping (8 ∷ 9 ∷ []))
write_run-Wrote_example = write_run-Wrote false (8 ∷ 9 ∷ []) wrapping-IsValid

read_run-Read_example : Read false wrapping 5 (read_run false wrapping 5)
read_run-Read_example = read_run-Read false 5 wrapping-IsValid

abbrev message : List ℕ
message = 1 ∷ 2 ∷ 3 ∷ []

stream_order_example :
    let s = read_step 2 (write_step (start junk message)) in
    (s.delivered ++ (contents s.pipe ++ s.todo) ≡ message) × (count s.pipe ≤ 512)
stream_order_example = stream_order junk message (next (next here writes) (reads 2))

rounds_deliver_example : (rounds (length message) 1 (start junk message)).delivered ≡ message
rounds_deliver_example = rounds_deliver junk message 1 (omega arith)
