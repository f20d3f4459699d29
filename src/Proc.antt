-- ===== src/Proc.antt =====
-- proc.c: processes. The functions run under ptable.lock, but for parts of fork and exit; a
-- function that calls sleep or sched is modelled up to that call, where another process goes on.
-- fork holds the lock only inside allocproc, and exit takes it after it has closed its files and
-- left its directory; each of the two is one step here.
pub mod Table
pub mod Lookup
pub mod Pids
pub mod Family
mod Tests
use os.Base.{
  ℕ, zero, suc, ◌+◌, ◌-◌, ◌<◌, ◌==◌, ltb, if◌then◌else◌, Bool, true, false, not, ◌&&◌, ◌||◌, Option,
  none, some, List, [], ◌∷◌, map, get_elem?, set, length, take, add32, sub32,
}
use Table.{
  ProcState, unused, embryo, sleeping, runnable, running, zombie, Chan, slot, address, Trapframe,
  Proc, is_unused, is_sleeping, is_runnable, is_zombie, is_parent, find_slot, wakeup1, update,
}

-- What proc.c calls in kalloc.c, vm.c, file.c and fs.c, over the rest of the kernel's state.
-- `copyuvm`, `allocuvm` and `deallocuvm` return 0 if memory runs out.
pub record Services (R : Type 0) : Type 0 where
  pub kalloc : R → ℕ × R
  pub kfree : R → ℕ → R
  pub copyuvm : R → ℕ → ℕ → ℕ × R
  pub freevm : R → ℕ → R
  pub allocuvm : R → ℕ → ℕ → ℕ → ℕ × R
  pub deallocuvm : R → ℕ → ℕ → ℕ → ℕ × R
  pub filedup : R → ℕ → R
  pub fileclose : R → ℕ → R
  pub idup : R → ℕ → R
  pub iput : R → ℕ → R

-- ptable and nextpid, and the rest of the kernel's state. nextpid is an int whose overflow, which C
-- leaves undefined, is not modelled.
pub record Kernel (R : Type 0) : Type 0 where
  pub procs : Table.Table
  pub nextpid : ℕ
  pub rest : R

-- The call returns -1, goes to sleep, or returns a value.
pub data Reply : Type 0 where
  fails : Reply
  sleeps : Reply
  returns : ℕ → Reply

abbrev pub set_state : ProcState → Proc → Proc
set_state st p = record p { state = st }

abbrev pub open_files : Table.Table → ℕ → List (Option ℕ)
open_files t i = elim (get_elem? t i) [ none ↦ [] | some p ↦ p.ofile ]

-- Pass abandoned children to init: slots i, …, i + n - 1.
unfoldable pub reparent : ℕ → ℕ → ℕ → ℕ → Table.Table → Table.Table
unfolding wakeup1
reparent zero i cur init t = t
reparent (suc n) i cur init t = elim (get_elem? t i) [
  | none ↦ t
  | some p ↦
      if is_parent p.parent cur
      then (let t' = update (λ q. record q { parent = some init }) t i in
          let rest =
            reparent n (i + 1) cur init
              (if is_zombie p.state then wakeup1 (slot init) t' else t') in
          rest)
      else (let rest = reparent n (i + 1) cur init t in rest)
]

abbrev pub wake_parent : Option ℕ → Table.Table → Table.Table
wake_parent none t = t
wake_parent (some i) t = wakeup1 (slot i) t

-- The scan of wait for the process in slot `cur`: the first zombie child, or whether there are
-- children at all.
unfoldable pub scan_children : ℕ → Bool → ℕ → Table.Table → (Option (ℕ × Proc)) × Bool
scan_children cur havekids i [] = (none, havekids)
scan_children cur havekids i (x ∷ xs) =
    let skip = scan_children cur havekids (i + 1) xs in
    let child = scan_children cur true (i + 1) xs in
    if not (is_parent x.parent cur)
    then skip
    else if is_zombie x.state
    then (some (i, x), true)
    else child

module _ {R : Type 0} (sv : Services R) where
  -- The slot of the new process, in which the first free one is embryonic.
  unfoldable pub allocproc : Kernel R → Option ℕ × Kernel R
  unfolding find_slot
  allocproc k = elim (find_slot (λ p. is_unused p.state) 0 k.procs) [
    | none ↦ (none, k)
    | some (i, p) ↦
        let (stack, r) = sv.kalloc k.rest in
        if stack == 0
        then (
          none,
          record {
            procs =
                update (λ q. record q { state = unused; pid = k.nextpid; kstack = 0 }) k.procs i;
            nextpid = k.nextpid + 1;
            rest = r;
          },
        )
        else (
          some i,
          record {
            procs =
                update (λ q. record q { state = embryo; pid = k.nextpid; kstack = stack }) k.procs
                  i;
            nextpid = k.nextpid + 1;
            rest = r;
          },
        )
  ]

  -- for(i = 0; i < NOFILE; i++) if(proc->ofile[i]) np->ofile[i] = filedup(proc->ofile[i]);
  unfoldable pub dup_files : R → List (Option ℕ) → List (Option ℕ) → List (Option ℕ) × R
  dup_files r [] mine = (mine, r)
  dup_files r (f ∷ fs) [] = ([], r)
  dup_files r (none ∷ fs) (m ∷ mine) = let (rest, r') = dup_files r fs mine in (m ∷ rest, r')
  dup_files r (some f ∷ fs) (m ∷ mine) =
      let (rest, r') = dup_files (sv.filedup r f) fs mine in (some f ∷ rest, r')

  abbrev pub dup_cwd : R → Option ℕ → R
  dup_cwd r none = r
  dup_cwd r (some ip) = sv.idup r ip

  -- fork() called by the process `p` in slot `cur`.
  unfoldable pub fork : Kernel R → ℕ → Proc → Reply × Kernel R
  unfolding allocproc dup_files
  fork k cur p =
      let (found, k') = allocproc k in
      elim found [
        | none ↦ (fails, k')
        | some i ↦
            let (pgdir, r) = sv.copyuvm k'.rest p.pgdir p.sz in
            if pgdir == 0
            then (
              fails,
              record k' {
                procs = update (λ q. record q { pgdir = 0; kstack = 0; state = unused }) k'.procs i;
                rest = sv.kfree r (elim (get_elem? k'.procs i) [ none ↦ 0 | some q ↦ q.kstack ]);
              },
            )
            else (let (files, r') = dup_files r p.ofile (open_files k'.procs i) in
                (
                  returns k.nextpid,
                  record k' {
                    procs =
                        update
                          (λ q. record q {
                            pgdir = pgdir;
                            sz = p.sz;
                            parent = some cur;
                            tf = record p.tf { eax = 0 };
                            ofile = files;
                            cwd = p.cwd;
                            state = runnable;
                            name = p.name;
                          })
                          k'.procs i;
                    rest = dup_cwd r' p.cwd;
                  },
                ))
      ]

  -- Close all open files.
  unfoldable pub close_files : R → List (Option ℕ) → R
  close_files r [] = r
  close_files r (none ∷ fs) = close_files r fs
  close_files r (some f ∷ fs) = close_files (sv.fileclose r f) fs

  abbrev pub put_cwd : R → Option ℕ → R
  put_cwd r none = r
  put_cwd r (some ip) = sv.iput r ip

  -- exit() of the process `p` in slot `cur`, up to sched(); `none` is panic("init exiting").
  unfoldable pub exit : ℕ → Kernel R → ℕ → Proc → Option (Kernel R)
  unfolding close_files reparent wakeup1
  exit init k cur p =
      if cur == init
      then none
      else some (record k {
        procs =
            update (set_state zombie)
              (reparent (length k.procs) 0 cur init (
                wake_parent p.parent (
                  update (λ q. record q { ofile = map (λ _. none) p.ofile; cwd = none }) k.procs
                    cur)))
              cur;
        rest = put_cwd (close_files k.rest p.ofile) p.cwd;
      })

  -- One round of wait() by the process in slot `cur`, of which `killed` is p->killed.
  unfoldable pub wait : Kernel R → ℕ → Bool → Reply × Kernel R
  unfolding scan_children
  wait k cur killed =
      let (found, havekids) = scan_children cur false 0 k.procs in
      elim found [
        | some (i, p) ↦ (
          returns p.pid,
          record k {
            procs =
                update
                  (λ q. record q {
                    kstack = 0;
                    state = unused;
                    pid = 0;
                    parent = none;
                    name = [];
                    killed = false;
                  })
                  k.procs i;
            rest = sv.freevm (sv.kfree k.rest p.kstack) p.pgdir;
          },
        )
        | none ↦ if not havekids || killed then (fails, k) else (
          sleeps,
          record k {
            procs = update (λ q. record q { chan = some (slot cur); state = sleeping }) k.procs cur;
          },
        )
      ]

  -- kill(pid); `returns 0` for success.
  unfoldable pub kill : Kernel R → ℕ → Reply × Kernel R
  unfolding find_slot
  kill k pid = elim (find_slot (λ p. p.pid == pid) 0 k.procs) [
    | none ↦ (fails, k)
    | some (i, p) ↦ (
      returns 0,
      record k {
        procs =
            update
              (λ q. record q {
                killed = true;
                state = if is_sleeping q.state then runnable else q.state;
              })
              k.procs i;
      },
    )
  ]

  -- yield() by slot `cur`, up to sched().
  unfoldable pub yield : Kernel R → ℕ → Kernel R
  yield k cur = record k { procs = update (set_state runnable) k.procs cur }

  -- sleep(chan, lk) by slot `cur`, up to sched(); and what follows when it runs again.
  unfoldable pub sleep : Kernel R → ℕ → Chan → Kernel R
  sleep k cur c = record k {
    procs = update (λ q. record q { chan = some c; state = sleeping }) k.procs cur;
  }

  unfoldable pub awake : Kernel R → ℕ → Kernel R
  awake k cur = record k { procs = update (λ q. record q { chan = none }) k.procs cur }

  unfoldable pub wakeup : Kernel R → Chan → Kernel R
  unfolding wakeup1
  wakeup k c = record k { procs = wakeup1 c k.procs }

  -- The scheduler takes the process in slot `i`, if it is runnable.
  unfoldable pub dispatch : Kernel R → ℕ → Option (Kernel R)
  dispatch k i = elim (get_elem? k.procs i) [
    | none ↦ none
    | some p ↦
        if is_runnable p.state
        then some (record k { procs = update (set_state running) k.procs i })
        else none
  ]

  -- growproc(n) for n > 0, and for n < 0 with n = -m: whether it succeeds.
  unfoldable pub grow : Kernel R → ℕ → Proc → ℕ → Bool × Kernel R
  grow k cur p n =
      let (sz, r) = sv.allocuvm k.rest p.pgdir p.sz (add32 p.sz n) in
      if sz == 0
      then (false, record k { rest = r })
      else (true, record k { procs = update (λ q. record q { sz = sz }) k.procs cur; rest = r })

  unfoldable pub shrink : Kernel R → ℕ → Proc → ℕ → Bool × Kernel R
  shrink k cur p m =
      let (sz, r) = sv.deallocuvm k.rest p.pgdir p.sz (sub32 p.sz m) in
      if sz == 0
      then (false, record k { rest = r })
      else (true, record k { procs = update (λ q. record q { sz = sz }) k.procs cur; rest = r })
