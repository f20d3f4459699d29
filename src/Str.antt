-- ===== src/Str.antt =====
-- string.c (and x86.h's stosb and stosl): the kernel's byte and string functions over a memory.
-- A memory gives the byte at each address. Addresses are the C pointers as numbers.
pub mod Move
pub mod Fill
pub mod Compare
pub mod Copy
mod Tests
use os.Base.{
  ℕ, zero, suc, ◌+◌, ◌-◌, ◌*◌, ◌/◌, ◌%◌, ◌^◌, ◌<◌, ◌==◌, ltb, if◌then◌else◌, Bool, true, false, not,
  ◌&&◌, add32, sub32, Option, none, some,
}

abbrev pub Memory : Type 0
Memory = ℕ → ℕ

-- *p = v
abbrev pub poke : Memory → ℕ → ℕ → Memory
poke m p v q = if p == q then v else m q

-- while(n-- > 0) *d++ = *s++;
unfoldable pub move_up : ℕ → Memory → ℕ → ℕ → Memory
move_up zero m d s = m
move_up (suc n) m d s = move_up n (poke m d (m s)) (d + 1) (s + 1)

-- while(n-- > 0) *--d = *--s; from the ends d + n and s + n
unfoldable pub move_down : ℕ → Memory → ℕ → ℕ → Memory
move_down zero m d s = m
move_down (suc n) m d s = move_down n (poke m (d + n) (m (s + n))) d s

-- s + n is a sum of 32-bit pointers.
unfoldable pub memmove : Memory → ℕ → ℕ → ℕ → Memory
unfolding move_up move_down
memmove m dst src n =
    if ltb src dst && ltb dst (add32 src n) then move_down n m dst src else move_up n m dst src

unfoldable pub memcpy : Memory → ℕ → ℕ → ℕ → Memory
unfolding memmove
memcpy m dst src n = memmove m dst src n

-- rep stosb
unfoldable pub stosb : ℕ → Memory → ℕ → ℕ → Memory
stosb zero m p c = m
stosb (suc n) m p c = stosb n (poke m p (c % 256)) (p + 1) c

-- one 32-bit store, low byte first
abbrev pub poke32 : Memory → ℕ → ℕ → Memory
poke32 m p w =
    poke (poke (poke (poke m p (w % 256)) (p + 1) (w / 256 % 256)) (p + 2) (w / 65536 % 256))
      (p + 3) (w / 16777216 % 256)

-- rep stosl
unfoldable pub stosl : ℕ → Memory → ℕ → ℕ → Memory
stosl zero m p w = m
stosl (suc n) m p w = stosl n (poke32 m p w) (p + 4) w

-- c &= 0xFF; (c<<24)|(c<<16)|(c<<8)|c has no overlapping bits, so it is a sum.
unfoldable pub memset : Memory → ℕ → ℕ → ℕ → Memory
unfolding stosb stosl
memset m dst c n =
    if (dst % 4 == 0) && (n % 4 == 0)
    then stosl (n / 4) m dst (c % 256 * 16777216 + c % 256 * 65536 + c % 256 * 256 + c % 256)
    else stosb n m dst c

-- *s1 - *s2 as the 32-bit pattern of the int
unfoldable pub memcmp : Memory → ℕ → ℕ → ℕ → ℕ
memcmp m p q zero = 0
memcmp m p q (suc n) =
    let rest = memcmp m (p + 1) (q + 1) n in if m p == m q then rest else sub32 (m p) (m q)

unfoldable pub strncmp : Memory → ℕ → ℕ → ℕ → ℕ
strncmp m p q zero = 0
strncmp m p q (suc n) =
    let rest = strncmp m (p + 1) (q + 1) n in
    if not (m p == 0) && (m p == m q) then rest else sub32 (m p) (m q)

-- while(n-- > 0) *s++ = 0;
unfoldable pub zero_fill : ℕ → Memory → ℕ → Memory
zero_fill zero m s = m
zero_fill (suc n) m s = zero_fill n (poke m s 0) (s + 1)

-- The memory after strncpy(s, t, n); a negative n does as 0 does.
unfoldable pub strncpy : ℕ → Memory → ℕ → ℕ → Memory
unfolding zero_fill
strncpy zero m s t = m
strncpy (suc n) m s t =
    let rest = strncpy n (poke m s (m t)) (s + 1) (t + 1) in
    if m t == 0 then zero_fill n (poke m s (m t)) (s + 1) else rest

-- The loop of safestrcpy and its last store: `n` more bytes may be copied.
unfoldable pub safestrcpy_run : ℕ → Memory → ℕ → ℕ → Memory
safestrcpy_run zero m s t = poke m s 0
safestrcpy_run (suc n) m s t =
    let rest = safestrcpy_run n (poke m s (m t)) (s + 1) (t + 1) in
    if m t == 0 then poke (poke m s (m t)) (s + 1) 0 else rest

-- safestrcpy(s, t, n); a negative n does as 0 does.
unfoldable pub safestrcpy : ℕ → Memory → ℕ → ℕ → Memory
unfolding safestrcpy_run
safestrcpy zero m s t = m
safestrcpy (suc n) m s t = safestrcpy_run n m s t

-- strlen with fuel: `none` if no NUL is found in that many bytes.
unfoldable pub strlen_run : ℕ → Memory → ℕ → ℕ → Option ℕ
strlen_run zero m s n = none
strlen_run (suc k) m s n =
    let rest = strlen_run k m s (n + 1) in if m (s + n) == 0 then some n else rest
