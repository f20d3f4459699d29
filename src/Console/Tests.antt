-- ===== src/Console/Tests.antt =====
-- An instance of the theorem about the line discipline, with indices about to wrap round.
use os.Base.{ℕ, ◌≡◌, refl, false, List, [], ◌∷◌, arith}
use os.Console.{Input, consoleintr, consoleread}
use os.Console.Ring.{IsValid, ready, line}
use os.Console.Lines.{view, edits, take_ready, console-Edits}

abbrev idle : Input
idle = record { buf = λ i. 0; r = 0xffffffff; w = 0xffffffff; e = 0xffffffff }

idle-IsValid : IsValid idle
idle-IsValid = record { words = omega arith; fits = omega arith; one_line = tt }

-- "ax", backspace, "b", return
console-Edits_example :
    let keys : List ℕ = 97 ∷ 120 ∷ 8 ∷ 98 ∷ 13 ∷ [] in
    let (t, effects) = consoleintr idle keys in
    let (u, bytes, outcome) = consoleread false t 9 in
    IsValid t
    × (view t ≡ edits (view idle) keys)
    × IsValid u
    × (line u ≡ line t)
    × ((bytes, ready u, outcome) ≡ take_ready false (edits (view idle) keys).0 9 false)
console-Edits_example = console-Edits idle (97 ∷ 120 ∷ 8 ∷ 98 ∷ 13 ∷ []) false 9 idle-IsValid

line_read :
    (consoleread false (consoleintr idle (97 ∷ 120 ∷ 8 ∷ 98 ∷ 13 ∷ [])).0 9).1 ≡ 97 ∷ 98 ∷ 10 ∷ []
unfolding consoleintr consoleread
line_read = refl
