-- ===== src/Wc.antt =====
-- wc.c. The counters are ints, kept as their 32 bits, which an increment wraps round as the machine
-- does; they are the numbers counted up to 2^31 - 1. A read gives the bytes that came, none at the
-- end of the file, or an error; behind the last of the reads is the end of the file.
use os.Base.{ℕ, ◌==◌, if◌then◌else◌, Bool, true, false, Option, none, some, List, [], ◌∷◌, add32}
use os.Shell.{strchr}
pub mod Words
mod Tests

pub record Counts : Type 0 where
  pub l : ℕ
  pub w : ℕ
  pub c : ℕ
  pub inword : Bool

abbrev pub newline : ℕ
newline = 10

-- " \r\t\n\v"
abbrev pub white : List ℕ
white = 32 ∷ 13 ∷ 9 ∷ 10 ∷ 11 ∷ []

-- One round of the for loop.
abbrev pub count_byte : Counts → ℕ → Counts
count_byte s b = record {
  l = if b == newline then add32 s.l 1 else s.l;
  w = if strchr white b then s.w else if s.inword then s.w else add32 s.w 1;
  c = add32 s.c 1;
  inword = if strchr white b then false else true;
}

unfoldable pub count : Counts → List ℕ → Counts
count s [] = s
count s (b ∷ bs) = count (count_byte s b) bs

abbrev pub no_counts : Counts
no_counts = record { l = 0; w = 0; c = 0; inword = false }

-- The while loop; `none` where wc prints its error and exits.
unfoldable pub count_reads : Counts → List (Option (List ℕ)) → Option Counts
unfolding count
count_reads s [] = some s
count_reads s (none ∷ reads) = none
count_reads s (some [] ∷ reads) = some s
count_reads s (some (b ∷ bs) ∷ reads) = count_reads (count s (b ∷ bs)) reads

unfoldable pub wc : List (Option (List ℕ)) → Option Counts
unfolding count_reads
wc reads = count_reads no_counts reads
