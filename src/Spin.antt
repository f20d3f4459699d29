-- ===== src/Spin.antt =====
-- spinlock.c: one lock, and the interrupt flag and nesting count of a CPU. The recorded call stack is
-- left out.
pub mod Nesting
mod Tests
use os.Base.{ℕ, ◌+◌, ◌-◌, ◌==◌, if◌then◌else◌, Bool, true, false, not, ◌&&◌, Option, none, some}
use os.Base.{Outcome, ok, panic, ◌>>=◌}

-- `interrupts` is FL_IF of the eflags register.
pub record Cpu : Type 0 where
  pub interrupts : Bool
  pub ncli : ℕ
  pub intena : Bool

pub record Spinlock : Type 0 where
  pub locked : Bool
  pub cpu : Option ℕ

unfoldable pub initlock : Spinlock
initlock = record { locked = false; cpu = none }

unfoldable pub pushcli : Cpu → Cpu
pushcli c = record {
  interrupts = false;
  ncli = c.ncli + 1;
  intena = if c.ncli == 0 then c.interrupts else c.intena;
}

unfoldable pub popcli : Cpu → Outcome Cpu
popcli c =
    if c.interrupts
    then panic
    else if c.ncli == 0
    then panic
    else ok (record c { interrupts = (c.ncli - 1 == 0) && c.intena; ncli = c.ncli - 1 })

abbrev pub same_cpu : Option ℕ → ℕ → Bool
same_cpu none me = false
same_cpu (some i) me = i == me

unfoldable pub holding : Spinlock → ℕ → Bool
holding lk me = lk.locked && same_cpu lk.cpu me

-- acquire by the CPU `me`; `none`: it spins, with interrupts off, until the lock is free.
unfoldable pub acquire : Spinlock → ℕ → Cpu → Outcome (Option (Spinlock × Cpu))
unfolding pushcli holding
acquire lk me c =
    if holding lk me
    then panic
    else if lk.locked
    then ok none
    else ok (some (record { locked = true; cpu = some me }, pushcli c))

unfoldable pub release : Spinlock → ℕ → Cpu → Outcome (Spinlock × Cpu)
unfolding popcli holding
release lk me c =
    if not (holding lk me)
    then panic
    else (popcli c >>= λ c'. ok (record { locked = false; cpu = none }, c'))
