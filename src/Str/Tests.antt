-- ===== src/Str/Tests.antt =====
-- Runs of the string functions, and instances of their theorems.
use os.Base.{◌≡◌, ◌↔◌, refl, arith, ◌==◌, if◌then◌else◌, inr}
use os.Str.{Memory, memmove, strncmp, strncpy, safestrcpy}
use os.Str.Move.{Moved, memmove-Moved}
use os.Str.Compare.{IsBytes, SameString, IsString, strncmp-SameString}
use os.Str.Copy.{Padded, Cut, strncpy-Padded, safestrcpy-Cut}

-- "ab" at 10, and its copy at 20
abbrev memory : Memory
memory a =
    if (a == 10)
    then b'a'
    else if (a == 11)
    then b'b'
    else if (a == 20)
    then b'a'
    else if (a == 21)
    then b'b'
    else 0

overlapping : memmove memory 11 10 2 12 ≡ b'b'
unfolding memmove
overlapping = refl

memmove-Moved_example : Moved memory (memmove memory 11 10 2) 11 10 2
memmove-Moved_example = memmove-Moved memory 11 10 2 (omega arith)

memory-IsBytes : IsBytes memory
memory-IsBytes a = ground arith

memory-IsString : IsString memory 10 2
memory-IsString = record { nul = refl; bytes = λ i h. ground arith }

strncmp-SameString_example : (strncmp memory 10 20 14 ≡ 0) ↔ SameString memory 10 20 14
strncmp-SameString_example = strncmp-SameString memory 10 20 14 memory-IsBytes

strncpy-Padded_example : Padded memory (strncpy 5 memory 30 10) 30 10 5 2
strncpy-Padded_example = strncpy-Padded 5 memory 30 10 2 memory-IsString (inr (omega arith))

safestrcpy-Cut_example : Cut memory (safestrcpy 2 memory 30 10) 30 10 1 2
safestrcpy-Cut_example = safestrcpy-Cut 1 memory 30 10 2 memory-IsString (inr (omega arith))
