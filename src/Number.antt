-- ===== src/Number.antt =====
-- Numbers as text: printint of printf.c and atoi of ulib.c. A string is the list of its bytes before
-- the NUL, and an int its 32-bit pattern.
pub mod Decimal
mod Tests
use os.Base.{
  ℕ, zero, suc, ◌+◌, ◌-◌, ◌*◌, ◌/◌, ◌%◌, ◌==◌, ltb, leb, if◌then◌else◌, Bool, true, false, ◌&&◌,
  List, [], ◌∷◌, sub32,
}

-- digits[d]
abbrev pub digit : ℕ → ℕ
digit d = if ltb d 10 then 48 + d else 55 + d

-- The do loop of printint; `out` is buf from its last byte to its first, the order of the output.
unfoldable pub digits_run : ℕ → ℕ → ℕ → List ℕ → List ℕ
digits_run zero x base out = out
digits_run (suc fuel) x base out =
    let rest = digits_run fuel (x / base) base (digit (x % base) ∷ out) in
    if x / base == 0 then (digit (x % base) ∷ out) else rest

-- The bytes that printint writes. buf has 16 bytes, and no 32-bit number has more digits in base 10
-- or 16.
unfoldable pub printint : ℕ → ℕ → Bool → List ℕ
unfolding digits_run
printint xx base sgn =
    if sgn && leb 0x80000000 xx
    then (45 ∷ digits_run 16 (sub32 0 xx) base [])
    else digits_run 16 xx base []

-- The loop of atoi.
unfoldable pub atoi_run : ℕ → List ℕ → ℕ
atoi_run n [] = n
atoi_run n (c ∷ cs) =
    let rest = atoi_run ((n * 10 + c - 48) % 0x100000000) cs in
    if leb 48 c && leb c 57 then rest else n

unfoldable pub atoi : List ℕ → ℕ
unfolding atoi_run
atoi s = atoi_run 0 s
