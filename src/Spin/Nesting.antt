-- ===== src/Spin/Nesting.antt =====
-- Critical sections nest, and give the interrupt flag back.
use os.Base.{◌<◌, ◌≡◌, false}
use os.Spin.{Cpu}

-- Interrupts are off inside critical sections.
abbrev pub IsQuiet : Cpu → Type 0
IsQuiet c = 0 < c.ncli → c.interrupts ≡ false
