-- ===== src/Syscall.antt =====
-- syscall.c: how the kernel fetches the arguments of a system call from user memory, and the dispatch.
-- Memory gives the byte at each address; ints are their 32-bit patterns.
pub mod Bounds
mod Tests
use os.Base.{
  ℕ, zero, suc, ◌+◌, ◌-◌, ◌*◌, ◌==◌, ltb, leb, if◌then◌else◌, Bool, true, false, ◌&&◌, ◌||◌, Option,
  none, some, add32,
}

-- What is read of `struct proc` and its trap frame.
pub record Caller : Type 0 where
  pub sz : ℕ
  pub esp : ℕ
  pub memory : ℕ → ℕ

-- *(int*)addr, low byte first
abbrev pub word_at : (ℕ → ℕ) → ℕ → ℕ
word_at m a = m a + 256 * m (a + 1) + 65536 * m (a + 2) + 16777216 * m (a + 3)

-- `none` is -1.
unfoldable pub fetchint : Caller → ℕ → Option ℕ
fetchint p addr =
    if leb p.sz addr || ltb p.sz (add32 addr 4) then none else some (word_at p.memory addr)

-- The loop of fetchstr, with `k` bytes up to the end of the process and `n` bytes behind.
unfoldable pub fetchstr_run : ℕ → (ℕ → ℕ) → ℕ → ℕ → Option ℕ
fetchstr_run zero m s n = none
fetchstr_run (suc k) m s n =
    let rest = fetchstr_run k m (s + 1) (n + 1) in if m s == 0 then some n else rest

-- The length of the string; *pp is `addr`.
unfoldable pub fetchstr : Caller → ℕ → Option ℕ
unfolding fetchstr_run
fetchstr p addr = if leb p.sz addr then none else fetchstr_run (p.sz - addr) p.memory addr 0

unfoldable pub argint : Caller → ℕ → Option ℕ
unfolding fetchint
argint p n = fetchint p (add32 (add32 p.esp 4) (4 * n))

unfoldable pub argptr : Caller → ℕ → ℕ → Option ℕ
unfolding argint
argptr p n size = elim (argint p n) [
  | none ↦ none
  | some i ↦ if leb p.sz i || ltb p.sz (add32 i size) then none else some i
]

-- The address and the length.
unfoldable pub argstr : Caller → ℕ → Option (ℕ × ℕ)
unfolding argint fetchstr
argstr p n = elim (argint p n) [
  | none ↦ none
  | some addr ↦ elim (fetchstr p addr) [ none ↦ none | some len ↦ some (addr, len) ]
]

abbrev pub sys_open_number : ℕ
sys_open_number = 15

-- NELEM(syscalls); only entry 0 of the table is null.
abbrev pub table_size : ℕ
table_size = 27

abbrev pub in_table : ℕ → Bool
in_table num = ltb 0 num && ltb num table_size

-- The new value of %eax, and the state that the call leaves. An eax of 2^31 or more is negative.
unfoldable pub syscall : {R : Type 0} → (ℕ → R → ℕ × R) → ℕ → R → ℕ × R
syscall calls num r =
    if ltb num 0x80000000 && (ltb num sys_open_number && in_table num)
    then calls num r
    else if (ltb num 0x80000000 && leb sys_open_number num) && (ltb num table_size && in_table num)
    then calls num r
    else (0xffffffff, r)
