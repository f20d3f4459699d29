-- ===== src/Proc/Pids.antt =====
-- No two processes have the same pid.
use mathlib.Core.Option
use os.Base.{
  Option-cases, add32, sub32, ℕ, zero, suc, ◌+◌, ◌-◌, ◌≤◌, ◌<◌, ◌≡◌, ◌⊎◌, inl, inr, refl, ap, ◌∙◌,
  sym, subst, ◌==◌, Bool, true, false, not, ◌||◌, Option, none, some, [], ◌∷◌, map, get_elem?,
  length, arith, Bool-cases,
}
use os.Proc.Table.{
  embryo, running, zombie, Chan, slot, Proc, Table, is_unused, is_runnable, is_zombie, is_parent,
  find_slot, wake, wakeup1, update,
}
use os.Proc.{
  Services, Kernel, set_state, allocproc, fork, reparent, wake_parent, exit, scan_children, wait,
  kill, yield, sleep, awake, wakeup, dispatch, grow, shrink,
}
use os.Proc.Lookup.{Holds, Holds-update, get_elem?-update_self, find_slot-some, scan_children-some}

abbrev pub IsLive : Proc → Type 0
IsLive p = is_unused p.state ≡ false

-- Slots that are in use have pids of their own, all given out already.
pub record IsValid (t : Table) (nextpid : ℕ) : Type 0 where
  pub distinct :
      (i j : ℕ) {p q : Proc}
      → Holds t i p
      → Holds t j q
      → IsLive p
      → IsLive q
      → p.pid ≡ q.pid
      → i ≡ j
  pub given : (i : ℕ) {p : Proc} → Holds t i p → IsLive p → p.pid < nextpid

-- Every process of `t'` was there in `t`, in the same slot and with the same pid.
pub record Keeps (t t' : Table) : Type 0 where
  pub was :
      (i : ℕ) (q : Proc)
      → Holds t' i q
      → IsLive q
      → (p : Proc) × Holds t i p × IsLive p × (p.pid ≡ q.pid)

Keeps-IsValid : {t t' : Table} {n m : ℕ} → n ≤ m → Keeps t t' → IsValid t n → IsValid t' m
Keeps-IsValid le k v = record {
  distinct = λ i j {p} {q} hp hq lp lq e.
      let (p', hp', lp', ep) = k.was i p hp lp in
      let (q', hq', lq', eq) = k.was j q hq lq in
      v.distinct i j hp' hq' lp' lq' (ep ∙ (e ∙ sym eq));
  given = λ i {p} h l. let (p', h', l', e) = k.was i p h l in omega (arith, v.given i h' l');
}

Keeps-refl : (t : Table) → Keeps t t
Keeps-refl t = record { was = λ i q h l. (q, h, l, refl) }

Keeps-trans : {t u w : Table} → Keeps t u → Keeps u w → Keeps t w
Keeps-trans a b = record {
  was = λ i q h l.
      let (p, h', l', e) = b.was i q h l in
      let (o, h'', l'', e') = a.was i p h' l' in (o, h'', l'', e' ∙ e);
}

-- An update that gives no slot a new life, and no process a new pid.
Keeps-update :
    (f : Proc → Proc) (t : Table) (i : ℕ) {p : Proc}
    → Holds t i p
    → (IsLive (f p) → IsLive p × (p.pid ≡ (f p).pid))
    → Keeps t (update f t i)
Keeps-update f t i {p} h tame = record {
  was = λ j q h' l. elim (Holds-update f t i j h h') [
    | inl (e, e') ↦
        let (l', same) = tame (rw (← e') l) in
        (p, rw (← e) h, l', same ∙ ap (λ (r : Proc). r.pid) (sym e'))
    | inr (ne, h'') ↦ (q, h'', l, refl)
  ];
}

-- A slot's pid and whether it is free, which most updates leave alone.
abbrev view : Proc → ℕ × Bool
view p = (p.pid, is_unused p.state)

abbrev Alike : Table → Table → Type 0
Alike t t' = (i : ℕ) → Option.map view (get_elem? t i) ≡ Option.map view (get_elem? t' i)

Alike-update :
    (f : Proc → Proc)
    → ((p : Proc) → view p ≡ view (f p))
    → (t : Table) (i : ℕ) → Alike t (update f t i)
Alike-update f same [] i j = refl
Alike-update f same (x ∷ xs) zero zero = ap some (same x)
Alike-update f same (x ∷ xs) zero (suc j) = refl
Alike-update f same (x ∷ xs) (suc i) zero = refl
Alike-update f same (x ∷ xs) (suc i) (suc j) = Alike-update f same xs i j

view-wake : (c : Chan) (p : Proc) → view p ≡ view (wake c p)
view-wake c p = ground arith

Alike-wakeup1 : (c : Chan) (t : Table) → Alike t (wakeup1 c t)
unfolding wakeup1
Alike-wakeup1 c [] j = refl
Alike-wakeup1 c (x ∷ xs) zero = ap some (view-wake c x)
Alike-wakeup1 c (x ∷ xs) (suc j) = Alike-wakeup1 c xs j

-- A live process of one table is live in the other.
Alike-Holds :
    (t t' : Table) (i : ℕ) {q : Proc}
    → Alike t t'
    → Holds t' i q
    → (p : Proc) × Holds t i p × (view p ≡ view q)
Alike-Holds t t' i {q} a h = elim (Option-cases (get_elem? t i)) [
  | inl nothing ↦ let e = a i in absurd (ground (arith, nothing))
  | inr (p, there) ↦ let e = a i in (p, there, ground (arith, there))
]

Alike-Keeps : (t t' : Table) → Alike t t' → Keeps t t'
Alike-Keeps t t' a = record {
  was = λ i q h l.
      let (p, there, e) = Alike-Holds t t' i a h in
      (p, there, ap (λ (v : ℕ × Bool). v.1) e ∙ l, ap (λ (v : ℕ × Bool). v.0) e);
}

Alike-sym : (t t' : Table) → Alike t t' → Alike t' t
Alike-sym t t' a i = sym (a i)

Alike-wake_parent : (o : Option ℕ) (t : Table) → Alike t (wake_parent o t)
Alike-wake_parent none t i = refl
Alike-wake_parent (some j) t i = Alike-wakeup1 (slot j) t i

Alike-reparent : (n i cur init : ℕ) (t : Table) → Alike t (reparent n i cur init t)
unfolding reparent
Alike-reparent zero i cur init t j = refl
Alike-reparent (suc n) i cur init t j = elim (Option-cases (get_elem? t i)) [
  | inl nothing ↦ rw (nothing, reparent) refl
  | inr (p, there) ↦
      let moved = Alike-update (λ q. record q { parent = some init }) (λ q. refl) t i in
      let t' : Table = update (λ q. record q { parent = some init }) t i in
      rw (there, reparent)
        (elim (Bool-cases (is_parent p.parent cur)) [
          | inl mine ↦ rw mine (elim (Bool-cases (is_zombie p.state)) [
            | inl dead ↦ rw dead (
                moved j
                ∙ (Alike-wakeup1 (slot init) t' j
                    ∙ Alike-reparent n (i + 1) cur init (wakeup1 (slot init) t') j))
            | inr alive ↦ rw alive (moved j ∙ Alike-reparent n (i + 1) cur init t' j)
          ])
          | inr other ↦ rw other (Alike-reparent n (i + 1) cur init t j)
        ])
]

sub-zero : (i : ℕ) → i - 0 ≡ i
sub-zero i = omega arith

-- The steps that processes and the scheduler take. Only a running process calls.
module _ {R : Type 0} (sv : Services R) (init : ℕ) where
  pub data Step (k : Kernel R) : Kernel R → Type 0 where
    forks : (i : ℕ) (p : Proc) → Holds k.procs i p → p.state ≡ running → Step k (fork sv k i p).1
    exits :
        (i : ℕ) (p : Proc) {k' : Kernel R}
        → Holds k.procs i p
        → p.state ≡ running
        → exit sv init k i p ≡ some k'
        → Step k k'
    waits :
        (i : ℕ) (p : Proc) → Holds k.procs i p → p.state ≡ running → Step k (wait sv k i p.killed).1
    kills : (pid : ℕ) → Step k (kill sv k pid).1
    yields : (i : ℕ) (p : Proc) → Holds k.procs i p → p.state ≡ running → Step k (yield sv k i)
    falls_asleep :
        (i : ℕ) (p : Proc) (c : Chan)
        → Holds k.procs i p
        → p.state ≡ running
        → Step k (sleep sv k i c)
    comes_back : (i : ℕ) (p : Proc) → Holds k.procs i p → p.state ≡ running → Step k (awake sv k i)
    wakes : (c : Chan) → Step k (wakeup sv k c)
    dispatches : (i : ℕ) {k' : Kernel R} → dispatch sv k i ≡ some k' → Step k k'
    grows :
        (i : ℕ) (p : Proc) (n : ℕ)
        → Holds k.procs i p
        → p.state ≡ running
        → Step k (grow sv k i p n).1
    shrinks :
        (i : ℕ) (p : Proc) (n : ℕ)
        → Holds k.procs i p
        → p.state ≡ running
        → Step k (shrink sv k i p n).1

  abbrev pub Valid : Kernel R → Type 0
  Valid k = IsValid k.procs k.nextpid

  alloc-IsValid :
      (t : Table) (n i : ℕ) {p : Proc} (f : Proc → Proc)
      → Holds t i p
      → is_unused p.state ≡ true
      → (f p).pid ≡ n
      → IsValid t n
      → IsValid (update f t i) (n + 1)
  alloc-IsValid t n i {p} f h free e v = record { distinct = distinct; given = given }
    where
      distinct :
          (a b : ℕ) {x y : Proc}
          → Holds (update f t i) a x
          → Holds (update f t i) b y
          → IsLive x
          → IsLive y
          → x.pid ≡ y.pid
          → a ≡ b
      distinct a b {x} {y} hx hy lx ly same = elim (Holds-update f t i a h hx) [
        | inl (ea, ex) ↦ elim (Holds-update f t i b h hy) [
          | inl (eb, ey) ↦ sym ea ∙ eb
          | inr (nb, oy) ↦ absurd (omega (arith, v.given b oy ly, ap (λ (r : Proc). r.pid) ex))
        ]
        | inr (na, ox) ↦ elim (Holds-update f t i b h hy) [
          | inl (eb, ey) ↦ absurd (omega (arith, v.given a ox lx, ap (λ (r : Proc). r.pid) ey))
          | inr (nb, oy) ↦ v.distinct a b ox oy lx ly same
        ]
      ]

      given : (a : ℕ) {x : Proc} → Holds (update f t i) a x → IsLive x → x.pid < n + 1
      given a {x} hx lx = elim (Holds-update f t i a h hx) [
        | inl (ea, ex) ↦ omega (arith, ap (λ (r : Proc). r.pid) ex)
        | inr (na, ox) ↦ omega (arith, v.given a ox lx)
      ]

  -- allocproc keeps the pids apart, and an embryo stands in the slot that it returns.
  allocproc-Valid :
      (k : Kernel R)
      → Valid k
      → Valid (allocproc sv k).1
        × (((allocproc sv k).0 ≡ none)
            ⊎ ((i : ℕ) × (q : Proc) × ((allocproc sv k).0 ≡ some i)
                × Holds (allocproc sv k).1.procs i q
                × (q.state ≡ embryo)))
  unfolding allocproc
  allocproc-Valid k v = elim (Option-cases (find_slot (λ p. is_unused p.state) 0 k.procs)) [
    | inl full ↦ rw (full, allocproc) (v, inl refl)
    | inr ((i, p), found) ↦
        let (le, there, free) = find_slot-some (λ p. is_unused p.state) 0 k.procs found in
        let at_i : Holds k.procs i p = rw (sub-zero i) at there in
        rw (found, allocproc)
          (elim (Bool-cases ((sv.kalloc k.rest).0 == 0)) [
            | inl no_page ↦
                rw no_page (
                  Keeps-IsValid (omega arith) (Keeps-update _ k.procs i at_i (λ l. cc)) v,
                  inl refl,
                )
            | inr page ↦ rw page (
              alloc-IsValid k.procs k.nextpid i _ at_i free refl v,
              inr (i, _, refl, get_elem?-update_self _ k.procs i at_i, refl),
            )
          ])
  ]

  Keeps-live :
      (k : Kernel R) (f : Proc → Proc) (i : ℕ) {p : Proc}
      → Valid k
      → Holds k.procs i p
      → IsLive p
      → p.pid ≡ (f p).pid
      → IsValid (update f k.procs i) k.nextpid
  Keeps-live k f i v h l e =
      Keeps-IsValid (omega arith) (Keeps-update f k.procs i h (λ _. (l, e))) v

  running-IsLive : (p : Proc) → p.state ≡ running → IsLive p
  running-IsLive p e = rw e refl

  fork-Valid : (k : Kernel R) (cur : ℕ) (p : Proc) → Valid k → Valid (fork sv k cur p).1
  unfolding fork
  fork-Valid k cur p v =
      let (v', c) = allocproc-Valid k v in
      elim c [
        | inl e ↦ rw (e, fork) v'
        | inr (i, q, e, there, st) ↦
            let live : IsLive q = rw st refl in
            rw (e, fork)
              (elim (Bool-cases ((sv.copyuvm (allocproc sv k).1.rest p.pgdir p.sz).0 == 0)) [
                | inl failed ↦ rw failed (
                    Keeps-IsValid (omega arith)
                      (Keeps-update _ (allocproc sv k).1.procs i there (λ l. cc)) v')
                | inr copied ↦ rw copied (Keeps-live (allocproc sv k).1 _ i v' there live refl)
              ])
      ]

  Valid-some : {a b : Kernel R} → ◌≡◌ {A = Option (Kernel R)} (some a) (some b) → Valid a → Valid b
  Valid-some {a} {b} e v = let same : a ≡ b = cc in subst (λ (k : Kernel R). Valid k) same v

  exit-Valid :
      (k : Kernel R) (cur : ℕ) (p : Proc) {k' : Kernel R}
      → Valid k
      → Holds k.procs cur p
      → p.state ≡ running
      → exit sv init k cur p ≡ some k'
      → Valid k'
  unfolding exit
  exit-Valid k cur p {k'} v h st e = elim (Bool-cases (cur == init)) [
    | inl first ↦ absurd (ground arith)
    | inr other ↦
        let t1 : Table =
          update (λ q. record q { ofile = map (λ _. none) p.ofile; cwd = none }) k.procs cur in
        let t2 : Table = wake_parent p.parent t1 in
        let t3 : Table = reparent (length k.procs) 0 cur init t2 in
        let alike : Alike k.procs t3 = λ i.
          Alike-update _ (λ q. refl) k.procs cur i
          ∙ (Alike-wake_parent p.parent t1 i ∙ Alike-reparent (length k.procs) 0 cur init t2 i) in
        let (q, there, same) = Alike-Holds t3 k.procs cur (Alike-sym k.procs t3 alike) h in
        let live : IsLive q = ap (λ (w : ℕ × Bool). w.1) same ∙ running-IsLive p st in
        let kept : Keeps t3 (update (set_state zombie) t3 cur) =
          Keeps-update (set_state zombie) t3 cur there (λ _. (live, refl)) in
        let whole : IsValid (update (set_state zombie) t3 cur) k.nextpid =
          Keeps-IsValid (omega arith) (Keeps-trans (Alike-Keeps k.procs t3 alike) kept) v in
        Valid-some (rw (other, exit) at e) whole
  ]

  wait-Valid :
      (k : Kernel R) (cur : ℕ) (p : Proc)
      → Valid k
      → Holds k.procs cur p
      → p.state ≡ running
      → Valid (wait sv k cur p.killed).1
  unfolding wait
  wait-Valid k cur p v h st = elim (Option-cases (scan_children cur false 0 k.procs).0) [
    | inl nobody ↦
        rw (nobody, wait)
          (elim (Bool-cases (not (scan_children cur false 0 k.procs).1 || p.killed)) [
            | inl back ↦ rw back v
            | inr naps ↦ rw naps (Keeps-live k _ cur v h (running-IsLive p st) refl)
          ])
    | inr ((i, q), found) ↦
        let (le, there, mine, dead) = scan_children-some cur false 0 k.procs found in
        let at_i : Holds k.procs i q = rw (sub-zero i) at there in
        rw (found, wait) (Keeps-IsValid (omega arith) (Keeps-update _ k.procs i at_i (λ l. cc)) v)
  ]

  kill-Valid : (k : Kernel R) (pid : ℕ) → Valid k → Valid (kill sv k pid).1
  unfolding kill
  kill-Valid k pid v = elim (Option-cases (find_slot (λ p. p.pid == pid) 0 k.procs)) [
    | inl nobody ↦ rw (nobody, kill) v
    | inr ((i, q), found) ↦
        let (le, there, ok) = find_slot-some (λ p. p.pid == pid) 0 k.procs found in
        let at_i : Holds k.procs i q = rw (sub-zero i) at there in
        rw (found, kill)
          (Keeps-IsValid (omega arith) (Keeps-update _ k.procs i at_i (λ l. (ground arith, refl)))
            v)
  ]

  dispatch-Valid :
      (k : Kernel R) (i : ℕ) {k' : Kernel R} → Valid k → dispatch sv k i ≡ some k' → Valid k'
  unfolding dispatch
  dispatch-Valid k i {k'} v e = elim (Option-cases (get_elem? k.procs i)) [
    | inl nothing ↦ absurd (ground arith)
    | inr (p, there) ↦ elim (Bool-cases (is_runnable p.state)) [
      | inl ready ↦
          Valid-some (rw (there, dispatch, ready) at e)
            (Keeps-live k (set_state running) i v there (runnable-IsLive p ready) refl)
      | inr busy ↦ absurd (ground arith)
    ]
  ]
    where
      runnable-IsLive : (p : Proc) → is_runnable p.state ≡ true → IsLive p
      runnable-IsLive p e = ground arith

  grow-Valid :
      (k : Kernel R) (cur : ℕ) (p : Proc) (n : ℕ)
      → Valid k
      → Holds k.procs cur p
      → IsLive p
      → Valid (grow sv k cur p n).1 × Valid (shrink sv k cur p n).1
  unfolding grow shrink
  grow-Valid k cur p n v h l = (
    elim (Bool-cases ((sv.allocuvm k.rest p.pgdir p.sz (add32 p.sz n)).0 == 0)) [
      | inl failed ↦ rw failed v
      | inr grown ↦ rw grown (Keeps-live k _ cur v h l refl)
    ],
    elim (Bool-cases ((sv.deallocuvm k.rest p.pgdir p.sz (sub32 p.sz n)).0 == 0)) [
      | inl failed ↦ rw failed v
      | inr shrunk ↦ rw shrunk (Keeps-live k _ cur v h l refl)
    ],
  )

  Step-Valid : (k : Kernel R) {k' : Kernel R} → Step k k' → Valid k → Valid k'
  unfolding yield sleep awake wakeup
  Step-Valid k (forks i p h st) v = fork-Valid k i p v
  Step-Valid k (exits i p h st e) v = exit-Valid k i p v h st e
  Step-Valid k (waits i p h st) v = wait-Valid k i p v h st
  Step-Valid k (kills pid) v = kill-Valid k pid v
  Step-Valid k (yields i p h st) v = Keeps-live k _ i v h (running-IsLive p st) refl
  Step-Valid k (falls_asleep i p c h st) v = Keeps-live k _ i v h (running-IsLive p st) refl
  Step-Valid k (comes_back i p h st) v = Keeps-live k _ i v h (running-IsLive p st) refl
  Step-Valid k (wakes c) v =
      Keeps-IsValid (omega arith)
        (Alike-Keeps k.procs (wakeup1 c k.procs) (Alike-wakeup1 c k.procs)) v
  Step-Valid k (dispatches i e) v = dispatch-Valid k i v e
  Step-Valid k (grows i p n h st) v = (grow-Valid k i p n v h (running-IsLive p st)).0
  Step-Valid k (shrinks i p n h st) v = (grow-Valid k i p n v h (running-IsLive p st)).1

  pub data Reach (k : Kernel R) : Kernel R → Type 0 where
    here : Reach k k
    next : {t u : Kernel R} → Reach k t → Step t u → Reach k u

  Reach-Valid : {k t : Kernel R} → Valid k → Reach k t → Valid t
  Reach-Valid v here = v
  Reach-Valid v (next {t} r st) = Step-Valid t st (Reach-Valid v r)

  -- From a table whose processes have different pids below nextpid, whatever forks, exits, waits,
  -- kills, sleeps, wakeups, growths and switches follow: two slots in use never hold the same pid,
  -- and every pid in use is below nextpid. (nextpid is taken not to overflow.)
  pub pids_distinct :
      {k t : Kernel R}
      → Valid k
      → Reach k t
      → ((i j : ℕ) (p q : Proc)
          → Holds t.procs i p
          → Holds t.procs j q
          → IsLive p
          → IsLive q
          → p.pid ≡ q.pid
          → i ≡ j)
        × ((i : ℕ) (p : Proc) → Holds t.procs i p → IsLive p → p.pid < t.nextpid)
  pids_distinct v r =
      let w = Reach-Valid v r in
      ((λ i j p q hp hq lp lq e. w.distinct i j hp hq lp lq e), (λ i p h l. w.given i h l))
