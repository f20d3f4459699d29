-- ===== src/Pipe.antt =====
-- pipe.c: a pipe is a ring of PIPESIZE bytes with two free-running 32-bit counters.
-- `data` is the array as a function of the index. Wakeups only make sleepers runnable, so the
-- part of a call up to its next sleep is one step: `Blocked` says where it went to sleep.
pub mod Ring
pub mod Transfer
pub mod Stream
mod Tests
use os.Base.{
  ℕ, zero, suc, ◌+◌, ◌%◌, ◌==◌, if◌then◌else◌, Bool, true, false, not, ◌&&◌, ◌||◌, List, [], ◌∷◌,
  ◌++◌, Option, none, some, add32,
}

abbrev pub pipe_size : ℕ
pipe_size = 512

-- `struct pipe` without its lock: each step below is one critical section of it.
pub record Pipe : Type 0 where
  pub bytes : ℕ → ℕ
  pub nread : ℕ
  pub nwrite : ℕ
  pub readopen : Bool
  pub writeopen : Bool

-- `pipealloc`, the fields that it sets; `junk` is what the page from kalloc held.
unfoldable pub pipe_init : (ℕ → ℕ) → Pipe
pipe_init junk = record { bytes = junk; nread = 0; nwrite = 0; readopen = true; writeopen = true }

-- p->nwrite == p->nread + PIPESIZE
unfoldable pub is_full : Pipe → Bool
is_full p = p.nwrite == add32 p.nread pipe_size

unfoldable pub is_empty : Pipe → Bool
is_empty p = p.nread == p.nwrite

abbrev pub store : (ℕ → ℕ) → ℕ → ℕ → ℕ → ℕ
store f i v j = if i == j then v else f j

-- p->data[p->nwrite++ % PIPESIZE] = c
unfoldable pub put_byte : Pipe → ℕ → Pipe
put_byte p c = record p {
  bytes = store p.bytes (p.nwrite % pipe_size) c;
  nwrite = add32 p.nwrite 1;
}

-- the byte p->data[p->nread % PIPESIZE], and the pipe after p->nread++
unfoldable pub next_byte : Pipe → ℕ
next_byte p = p.bytes (p.nread % pipe_size)

unfoldable pub drop_byte : Pipe → Pipe
drop_byte p = record p { nread = add32 p.nread 1 }

-- What a call of pipewrite does from here to its return or its next sleep.
pub data WriteOutcome : Type 0 where
  wrote : WriteOutcome
  write_failed : WriteOutcome
  write_asleep : List ℕ → WriteOutcome

-- The loop of pipewrite over the bytes addr[i..n) that are left.
unfoldable pub write_run : Bool → Pipe → List ℕ → Pipe × WriteOutcome
unfolding is_full put_byte
write_run killed p [] = (p, wrote)
write_run killed p (c ∷ cs) =
    let rest = write_run killed (put_byte p c) cs in
    if is_full p
    then (if not p.readopen || killed then (p, write_failed) else (p, write_asleep (c ∷ cs)))
    else rest

pub data ReadOutcome : Type 0 where
  got : List ℕ → ReadOutcome
  read_failed : ReadOutcome
  read_asleep : ReadOutcome

-- The copy loop of piperead, for `n` more bytes.
unfoldable pub copy_run : Pipe → ℕ → Pipe × List ℕ
unfolding is_empty next_byte drop_byte
copy_run p zero = (p, [])
copy_run p (suc n) =
    let (p', cs) = copy_run (drop_byte p) n in
    if is_empty p then (p, []) else (p', next_byte p ∷ cs)

-- piperead from its entry, or from its last wakeup, to its return or its next sleep.
unfoldable pub read_run : Bool → Pipe → ℕ → Pipe × ReadOutcome
unfolding is_empty copy_run
read_run killed p n =
    if is_empty p && p.writeopen
    then (if killed then (p, read_failed) else (p, read_asleep))
    else (let (p', cs) = copy_run p n in (p', got cs))

-- pipeclose: the pipe left behind, and whether its page is freed.
unfoldable pub pipeclose : Pipe → Bool → Pipe × Bool
pipeclose p writable =
    let p' = if writable then record p { writeopen = false } else record p { readopen = false } in
    (p', not p'.readopen && not p'.writeopen)
