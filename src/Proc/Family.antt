-- ===== src/Proc/Family.antt =====
-- Parents and children: what exit and wait do for each other.
use mathlib.Core.Option
use os.Base.{
  ℕ, ◌≡◌, ◌≢◌, ap, ◌∙◌, if◌then◌else◌, Bool, true, false, ◌&&◌, none, some, [], get_elem?,
}
use os.Proc.Table.{
  unused, sleeping, runnable, Chan, slot, Proc, is_sleeping, is_zombie, is_parent, sleeps_on, wake,
}
use os.Proc.{Services, Kernel, Reply, fails, returns, sleeps, wakeup}
use os.Proc.Lookup.{Holds, get_elem?-wakeup1}

-- A child of the process in slot `cur`, and one that has exited.
abbrev pub IsChild : ℕ → Proc → Type 0
IsChild cur p = is_parent p.parent cur ≡ true

-- What one round of wait returns: the pid of a zombie child, whose slot is then free; failure, only
-- without children or when killed; or sleep, only with children, none of them a zombie.
abbrev pub Waited : {R : Type 0} → Kernel R → ℕ → Bool → Reply → Kernel R → Type 0
Waited k cur killed fails k' =
    (k'.procs ≡ k.procs)
    × ((j : ℕ) (p : Proc)
        → Holds k.procs j p
        → IsChild cur p
        → (killed ≡ true) × (is_zombie p.state ≡ false))
Waited k cur killed sleeps k' =
    (killed ≡ false)
    × ((j : ℕ) (p : Proc) → Holds k.procs j p → IsChild cur p → is_zombie p.state ≡ false)
    × ((p : Proc)
        → Holds k.procs cur p
        → Holds k'.procs cur (record p { chan = some (slot cur); state = sleeping }))
    × ((j : ℕ) → j ≢ cur → get_elem? k'.procs j ≡ get_elem? k.procs j)
Waited k cur killed (returns pid) k' =
    (i : ℕ) × (p : Proc) × Holds k.procs i p
    × IsChild cur p
    × (is_zombie p.state ≡ true)
    × (p.pid ≡ pid)
    × Holds k'.procs i
        (record p { kstack = 0; state = unused; pid = 0; parent = none; name = []; killed = false })
    × ((j : ℕ) → j ≢ i → get_elem? k'.procs j ≡ get_elem? k.procs j)

-- wakeup(chan) makes runnable exactly the processes that sleep on the channel.
pub wakeup_lem :
    {R : Type 0} (sv : Services R) (k : Kernel R) (c : Chan) (i : ℕ) (p : Proc)
    → Holds k.procs i p
    → Holds
        (wakeup sv k c).procs
        i
        (if is_sleeping p.state && sleeps_on p.chan c then record p { state = runnable } else p)
unfolding wakeup
wakeup_lem sv k c i p h = get_elem?-wakeup1 c k.procs i ∙ ap (Option.map (wake c)) h
