-- ===== src/Pipe/Stream.antt =====
-- A writer and a reader that share a pipe, in any interleaving of their steps.
use mathlib.Core.List.{append-nil, append_assoc}
use os.Base.{
  ℕ, zero, suc, ◌+◌, ◌-◌, ◌≤◌, ◌<◌, ◌≡◌, refl, sym, ap, ◌∙◌, ◌⊎◌, inl, inr, Bool, true, false, List,
  [], ◌∷◌, ◌++◌, arith, length, take, drop, length-append, take-append-drop, length-take,
  length-drop, min,
}
use os.Pipe.{
  Pipe, pipe_size, pipe_init, WriteOutcome, wrote, write_failed, write_asleep, write_run,
  ReadOutcome, got, read_failed, read_asleep, read_run,
}
use os.Pipe.Ring.{count, contents, IsValid, length-contents}
use os.Pipe.Transfer.{space, write_end, read_end, write_run-Wrote, read_run-Read}

-- The pipe, the bytes that the writer has yet to put in, and those that the reader has got.
pub record System : Type 0 where
  pub pipe : Pipe
  pub todo : List ℕ
  pub delivered : List ℕ

-- What the writer's call has left: pipewrite returns, or sleeps over the rest.
unfoldable pub left_over : WriteOutcome → List ℕ
left_over wrote = []
left_over write_failed = []
left_over (write_asleep cs) = cs

unfoldable pub received : ReadOutcome → List ℕ
received (got cs) = cs
received read_failed = []
received read_asleep = []

-- The writer runs, from its call or its last wakeup, until it returns or sleeps.
unfoldable pub write_step : System → System
unfolding left_over
write_step s =
    let (p, o) = write_run false s.pipe s.todo in record s { pipe = p; todo = left_over o }

-- The reader calls piperead for `n` bytes, or goes on with such a call after a wakeup.
unfoldable pub read_step : ℕ → System → System
unfolding received
read_step n s =
    let (p, o) = read_run false s.pipe n in
    record s { pipe = p; delivered = s.delivered ++ received o }

pub data Step (s : System) : System → Type 0 where
  writes : Step s (write_step s)
  reads : (n : ℕ) → Step s (read_step n s)

pub data Reach (s : System) : System → Type 0 where
  here : Reach s s
  next : {t u : System} → Reach s t → Step t u → Reach s u

-- a new pipe with a writer that holds `message`
abbrev pub start : (ℕ → ℕ) → List ℕ → System
start junk message = record { pipe = pipe_init junk; todo = message; delivered = [] }

-- Nothing is lost, doubled or reordered on the way, and both ends stay open.
pub record Streams (message : List ℕ) (s : System) : Type 0 where
  pub valid : IsValid s.pipe
  pub reader : s.pipe.readopen ≡ true
  pub writer : s.pipe.writeopen ≡ true
  pub whole : s.delivered ++ (contents s.pipe ++ s.todo) ≡ message

drop-all : (n : ℕ) (xs : List ℕ) → length xs ≤ n → drop n xs ≡ []
drop-all zero [] h = refl
drop-all (suc n) [] h = refl
drop-all zero (x ∷ xs) h = absurd (omega arith)
drop-all (suc n) (x ∷ xs) h = drop-all n xs (omega arith)

left_over-write_end :
    (room : ℕ) (cs : List ℕ) → left_over (write_end false true room cs) ≡ drop room cs
unfolding left_over
left_over-write_end room cs = ground (arith, drop-all room cs)

received-read_end :
    (w : Bool) (held : List ℕ) (n : ℕ) → received (read_end false w held n) ≡ take n held
unfolding received
received-read_end w [] zero = ground arith
received-read_end w [] (suc n) = ground arith
received-read_end w (x ∷ held) n = ground arith

module _ {message : List ℕ} {s : System} (i : Streams message s) where
  write_step-parts :
      (contents (write_step s).pipe ≡ contents s.pipe ++ take (space s.pipe) s.todo)
      × ((write_step s).todo ≡ drop (space s.pipe) s.todo)
  unfolding write_step
  write_step-parts =
      let w = write_run-Wrote false s.todo i.valid in
      (w.bytes, rw (w.outcome, i.reader) (left_over-write_end (space s.pipe) s.todo))

  write_step-Streams : Streams message (write_step s)
  unfolding write_step
  write_step-Streams =
      let w = write_run-Wrote false s.todo i.valid in
      record {
        valid = w.valid;
        reader = w.ends.0 ∙ i.reader;
        writer = w.ends.1 ∙ i.writer;
        whole = rw (write_step-parts.0, write_step-parts.1, append_assoc, take-append-drop) i.whole;
      }

  read_step-parts :
      (n : ℕ)
      → (contents (read_step n s).pipe ≡ drop n (contents s.pipe))
        × ((read_step n s).delivered ≡ s.delivered ++ take n (contents s.pipe))
  unfolding read_step
  read_step-parts n =
      let r = read_run-Read false n i.valid in
      (r.rest, rw (r.outcome, received-read_end s.pipe.writeopen (contents s.pipe) n))

  read_step-Streams : (n : ℕ) → Streams message (read_step n s)
  unfolding read_step
  read_step-Streams n =
      let r = read_run-Read false n i.valid in
      record {
        valid = r.valid;
        reader = r.ends.0 ∙ i.reader;
        writer = r.ends.1 ∙ i.writer;
        whole =
            rw
              (
                (read_step-parts n).0,
                (read_step-parts n).1,
                append_assoc,
                ← append_assoc (take n (contents s.pipe)) (drop n (contents s.pipe)) s.todo,
                take-append-drop,
              )
              i.whole;
      }

Step-Streams : {message : List ℕ} {s t : System} → Step s t → Streams message s → Streams message t
Step-Streams writes i = write_step-Streams i
Step-Streams (reads n) i = read_step-Streams i n

start-Streams : (junk : ℕ → ℕ) (message : List ℕ) → Streams message (start junk message)
unfolding pipe_init
start-Streams junk message = record {
  valid = omega arith;
  reader = refl;
  writer = refl;
  whole = refl;
}

Reach-Streams :
    {message : List ℕ} {s t : System} → Streams message s → Reach s t → Streams message t
Reach-Streams i here = i
Reach-Streams i (next r st) = Step-Streams st (Reach-Streams i r)

-- However the steps of one pipewrite of `message` and of any calls of piperead interleave on a new
-- pipe (nobody killed, no end closed), what was read, then what the pipe holds, then what is still
-- to be written make up `message`, and the pipe never holds more than PIPESIZE bytes.
pub stream_order :
    (junk : ℕ → ℕ) (message : List ℕ) {s : System}
    → Reach (start junk message) s
    → (s.delivered ++ (contents s.pipe ++ s.todo) ≡ message) × (count s.pipe ≤ pipe_size)
stream_order junk message r =
    let i = Reach-Streams (start-Streams junk message) r in (i.whole, i.valid.fits)

-- `k` rounds in which the writer runs and the reader then asks for `n` bytes
unfoldable pub rounds : ℕ → ℕ → System → System
rounds zero n s = s
rounds (suc k) n s = rounds k n (read_step n (write_step s))

-- what the reader has not got yet
abbrev pub undelivered : System → ℕ
undelivered s = length (contents s.pipe) + length s.todo

read_step-todo : (n : ℕ) (s : System) → (read_step n s).todo ≡ s.todo
unfolding read_step
read_step-todo n s = refl

module _ {message : List ℕ} {s : System} (i : Streams message s) where
  undelivered-write_step :
      (undelivered (write_step s) ≡ undelivered s)
      × ((length (contents (write_step s).pipe) ≡ 0) → undelivered s ≡ 0)
  undelivered-write_step = rw (write_step-parts i).0 (
      rw (write_step-parts i).1 (
        omega (
          arith,
          length-append (contents s.pipe) (take (space s.pipe) s.todo),
          length-take (space s.pipe) s.todo,
          length-drop (space s.pipe) s.todo,
          length-contents s.pipe,
        )))

  undelivered-read_step :
      (n : ℕ) → undelivered (read_step n s) ≡ undelivered s - min n (length (contents s.pipe))
  undelivered-read_step n =
      rw (read_step-parts i n).0
        (ground (arith, length-drop n (contents s.pipe), read_step-todo n s))

-- one round delivers a byte, unless all are delivered
round-undelivered :
    {message : List ℕ} {s : System} (n : ℕ)
    → Streams message s
    → 0 < n
    → (undelivered s ≡ 0) ⊎ (undelivered (read_step n (write_step s)) < undelivered s)
round-undelivered {s} n i h =
    let w = undelivered-write_step i in
    let r = undelivered-read_step (write_step-Streams i) n in grind (arith, w.0, w.1, r)

nil-of_length : (xs : List ℕ) → length xs ≡ 0 → xs ≡ []
nil-of_length [] h = refl
nil-of_length (x ∷ xs) h = absurd (omega arith)

all-delivered :
    {message : List ℕ} {s : System} → Streams message s → undelivered s ≡ 0 → s.delivered ≡ message
all-delivered {s} i h =
    let nothing_held : contents s.pipe ≡ [] = nil-of_length (contents s.pipe) (omega arith) in
    let nothing_left : s.todo ≡ [] = nil-of_length s.todo (omega arith) in
    sym (append-nil s.delivered)
    ∙ (ap (◌++◌ s.delivered) (sym (rw (nothing_held, nothing_left))) ∙ i.whole)

rounds-delivered :
    (k n : ℕ) {message : List ℕ} {s : System}
    → Streams message s
    → 0 < n
    → undelivered s ≤ k
    → (rounds k n s).delivered ≡ message
unfolding rounds
rounds-delivered zero n i h m = all-delivered i (omega arith)
rounds-delivered (suc k) n {s} i h m =
    rounds-delivered k n (read_step-Streams (write_step-Streams i) n) h
      (bound (round-undelivered n i h))
  where
    bound :
        (undelivered s ≡ 0) ⊎ (undelivered (read_step n (write_step s)) < undelivered s)
        → undelivered (read_step n (write_step s)) ≤ k
    bound (inl done) =
        omega (arith, undelivered-write_step i, undelivered-read_step (write_step-Streams i) n)
    bound (inr less) = omega arith

-- Every byte arrives, in order: when writer and reader take turns on a new pipe and the reader asks
-- for at least one byte each time, it has got the whole message after as many rounds as the message
-- has bytes.
pub rounds_deliver :
    (junk : ℕ → ℕ) (message : List ℕ) (n : ℕ)
    → 0 < n
    → (rounds (length message) n (start junk message)).delivered ≡ message
unfolding pipe_init
rounds_deliver junk message n h =
    rounds-delivered (length message) n (start-Streams junk message) h (omega arith)
