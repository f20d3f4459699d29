-- ===== src/Syscall/Tests.antt =====
-- An instance of the theorem about arguments, and the calls of the dispatch.
use os.Base.{ℕ, ◌+◌, ◌-◌, ◌≤◌, ◌<◌, ◌==◌, ◌≡◌, refl, if◌then◌else◌, some, arith}
use os.Syscall.{Caller, word_at, argint, argptr, argstr}
use os.Syscall.Bounds.{IsString, args_in_bounds}

-- Argument 0 is the address 5000 (0x1388), where the string "A" stands.
abbrev caller : Caller
caller = record {
  sz = 8192;
  esp = 4096;
  memory = λ a. if a == 4100 then 0x88 else if a == 4101 then 0x13 else if a == 5000 then 65 else 0;
}

args_in_bounds_example :
    ((v : ℕ) → argint caller 0 ≡ some v → (4100 + 4 ≤ 8192) × (v ≡ word_at caller.memory 4100))
    × ((a len : ℕ)
        → argstr caller 0 ≡ some (a, len)
        → (argint caller 0 ≡ some a) × IsString caller a len)
    × ((a size : ℕ)
        → argptr caller 0 size ≡ some a
        → size < 0x80000000
        → (argint caller 0 ≡ some a) × (a + size ≤ 8192))
    × ((a k : ℕ)
        → argint caller 0 ≡ some a
        → a < 8192
        → 0 < k
        → k ≤ a
        → argptr caller 0 (0x100000000 - k) ≡ some a)
args_in_bounds_example = args_in_bounds caller 0 (omega arith)

string_fetched : argstr caller 0 ≡ some (5000, 1)
unfolding argstr
string_fetched = refl

-- read(fd, 5000, -1) passes argptr.
negative_size : argptr caller 0 0xffffffff ≡ some 5000
unfolding argptr
negative_size = refl
