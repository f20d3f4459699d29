-- ===== src/Spin/Tests.antt =====
-- Instances of the theorem about spin locks.
use os.Base.{true, false}
use os.Spin.{Cpu}

abbrev cpu : Cpu
cpu = record { interrupts = true; ncli = 0; intena = false }
