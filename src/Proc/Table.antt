-- ===== src/Proc/Table.antt =====
-- The process table of proc.h and proc.c, and the loops over it.
use os.Base.{
  ℕ, zero, suc, ◌+◌, ◌==◌, if◌then◌else◌, Bool, true, false, ◌&&◌, Option, none, some, List, [],
  ◌∷◌, map,
}

pub data ProcState : Type 0 where
  unused embryo sleeping runnable running zombie : ProcState

-- A sleep channel: the address of the process in a slot of the table, or any other address.
pub data Chan : Type 0 where
  slot : ℕ → Chan
  address : ℕ → Chan

-- `struct trapframe`, without its padding.
pub record Trapframe : Type 0 where
  pub edi : ℕ
  pub esi : ℕ
  pub ebp : ℕ
  pub oesp : ℕ
  pub ebx : ℕ
  pub edx : ℕ
  pub ecx : ℕ
  pub eax : ℕ
  pub gs : ℕ
  pub fs : ℕ
  pub es : ℕ
  pub ds : ℕ
  pub trapno : ℕ
  pub err : ℕ
  pub eip : ℕ
  pub cs : ℕ
  pub eflags : ℕ
  pub esp : ℕ
  pub ss : ℕ

-- `struct proc`. A pointer to a process is its slot, one to a file or an inode a number; the saved
-- context, which only swtch reads, is left out.
pub record Proc : Type 0 where
  pub sz : ℕ
  pub pgdir : ℕ
  pub kstack : ℕ
  pub state : ProcState
  pub pid : ℕ
  pub parent : Option ℕ
  pub tf : Trapframe
  pub chan : Option Chan
  pub killed : Bool
  pub ofile : List (Option ℕ)
  pub cwd : Option ℕ
  pub name : List ℕ

abbrev pub Table : Type 0
Table = List Proc

abbrev pub is_unused : ProcState → Bool
is_unused unused = true
is_unused _ = false

abbrev pub is_sleeping : ProcState → Bool
is_sleeping sleeping = true
is_sleeping _ = false

abbrev pub is_runnable : ProcState → Bool
is_runnable runnable = true
is_runnable _ = false

abbrev pub is_zombie : ProcState → Bool
is_zombie zombie = true
is_zombie _ = false

abbrev pub same_chan : Chan → Chan → Bool
same_chan (slot i) (slot j) = i == j
same_chan (slot i) (address b) = false
same_chan (address a) (slot j) = false
same_chan (address a) (address b) = a == b

abbrev pub sleeps_on : Option Chan → Chan → Bool
sleeps_on none c = false
sleeps_on (some d) c = same_chan d c

abbrev pub is_parent : Option ℕ → ℕ → Bool
is_parent none i = false
is_parent (some j) i = j == i

-- The first slot from `i` on with the property.
unfoldable pub find_slot : (Proc → Bool) → ℕ → Table → Option (ℕ × Proc)
find_slot p i [] = none
find_slot p i (x ∷ xs) = let rest = find_slot p (i + 1) xs in if p x then some (i, x) else rest

-- What wakeup1(chan) does to one slot, and to all of them.
abbrev pub wake : Chan → Proc → Proc
wake c p = if is_sleeping p.state && sleeps_on p.chan c then record p { state = runnable } else p

unfoldable pub wakeup1 : Chan → Table → Table
wakeup1 c t = map (wake c) t

-- p->field = … at a slot
abbrev pub update : (Proc → Proc) → Table → ℕ → Table
update f [] i = []
update f (x ∷ xs) zero = f x ∷ xs
update f (x ∷ xs) (suc i) = x ∷ update f xs i
