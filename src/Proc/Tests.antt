-- ===== src/Proc/Tests.antt =====
-- Instances of the theorems about processes: a table of four slots, in which init runs, and a
-- machine whose page allocator never fails.
use os.Base.{ℕ, zero, suc, ◌≡◌, ◌<◌, refl, false, Option, none, some, List, [], ◌∷◌, arith}
use os.Proc.{Services, Kernel, returns, fork, wait, kill}
use os.Proc.Table.{Trapframe, unused, sleeping, running, zombie, address, Proc}
use os.Proc.Lookup.{Holds}
use os.Proc.Pids.{IsLive, IsValid, here, next, forks, kills, pids_distinct}

-- The state is the number of calls.
abbrev services : Services ℕ
services = record {
  kalloc = λ r. (0x80200000, suc r);
  kfree = λ r a. suc r;
  copyuvm = λ r d n. (0x80300000, suc r);
  freevm = λ r d. suc r;
  allocuvm = λ r d m n. (n, suc r);
  deallocuvm = λ r d m n. (n, suc r);
  filedup = λ r f. suc r;
  fileclose = λ r f. suc r;
  idup = λ r i. suc r;
  iput = λ r i. suc r;
}

abbrev no_files : List (Option ℕ)
no_files = none ∷ none ∷ []

abbrev registers : ℕ → ℕ → ℕ → Trapframe
registers eax eip esp = record {
  edi = 0;
  esi = 0;
  ebp = 0;
  oesp = 0;
  ebx = 0;
  edx = 0;
  ecx = 0;
  eax = eax;
  gs = 0;
  fs = 0;
  es = 0;
  ds = 0;
  trapno = 0;
  err = 0;
  eip = eip;
  cs = 0;
  eflags = 0;
  esp = esp;
  ss = 0;
}

abbrev free_proc : Proc
free_proc = record {
  sz = 0;
  pgdir = 0;
  kstack = 0;
  state = unused;
  pid = 0;
  parent = none;
  tf = registers 0 0 0;
  chan = none;
  killed = false;
  ofile = no_files;
  cwd = none;
  name = [];
}

abbrev init_proc : Proc
init_proc = record free_proc {
  sz = 4096;
  pgdir = 0x80100000;
  kstack = 0x80110000;
  state = running;
  pid = 1;
  tf = registers 7 3 4096;
  ofile = some 3 ∷ none ∷ [];
  cwd = some 1;
  name = 105 ∷ [];
}

abbrev dead_child : Proc
dead_child = record init_proc { state = zombie; pid = 2; parent = some 0; ofile = no_files }

abbrev sleeper : Proc
sleeper = record init_proc { state = sleeping; pid = 3; chan = some (address 5) }

abbrev start : Kernel ℕ
start = record { procs = init_proc ∷ free_proc ∷ free_proc ∷ []; nextpid = 2; rest = 0 }

abbrev family : Kernel ℕ
family = record { procs = init_proc ∷ dead_child ∷ sleeper ∷ []; nextpid = 4; rest = 0 }

start-IsValid : IsValid start.procs 2
start-IsValid = record {
  distinct = λ i j {p} {q} hp hq lp lq e. only_init i j p q hp hq lp lq;
  given = λ i {p} h l. init_pid i p h l;
}
  where
    init_pid : (i : ℕ) (p : Proc) → Holds start.procs i p → IsLive p → p.pid < 2
    init_pid zero p h l = ground arith
    init_pid (suc zero) p h l = ground arith
    init_pid (suc (suc zero)) p h l = ground arith
    init_pid (suc (suc (suc i))) p h l = cc

    in_zero : (i : ℕ) (p : Proc) → Holds start.procs i p → IsLive p → i ≡ 0
    in_zero zero p h l = refl
    in_zero (suc zero) p h l = ground arith
    in_zero (suc (suc zero)) p h l = ground arith
    in_zero (suc (suc (suc i))) p h l = cc

    only_init :
        (i j : ℕ) (p q : Proc)
        → Holds start.procs i p
        → Holds start.procs j q
        → IsLive p
        → IsLive q
        → i ≡ j
    only_init i j p q hp hq lp lq = omega (arith, in_zero i p hp lp, in_zero j q hq lq)

-- init forks, and somebody kills the child.
abbrev forked : Kernel ℕ
forked = (fork services start 0 init_proc).1

pids_distinct_example :
    let t = (kill services forked 2).1 in
    ((i j : ℕ) (p q : Proc)
      → Holds t.procs i p
      → Holds t.procs j q
      → IsLive p
      → IsLive q
      → p.pid ≡ q.pid
      → i ≡ j)
    × ((i : ℕ) (p : Proc) → Holds t.procs i p → IsLive p → p.pid < t.nextpid)
pids_distinct_example =
    pids_distinct services 0 {k = start} {t = (kill services forked 2).1} start-IsValid
      (next (next here (forks 0 init_proc refl refl)) (kills 2))

-- wait finds the zombie.
wait_finds : (wait services family 0 false).0 ≡ returns 2
unfolding wait
wait_finds = refl
