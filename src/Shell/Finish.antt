-- ===== src/Shell/Finish.antt =====
-- The parser ends on every line.
use os.Base.{
  ℕ, zero, suc, ◌≤◌, ◌<◌, ◌≢◌, ◌==◌, leb, not, List, [], ◌∷◌, ◌++◌, length, arith, Bool-cases, inl,
  inr,
}
use os.Shell.Tokens.{skip_white-le, gettoken-le, gettoken-lt, peek-lt}
use os.Shell.{
  Cmd, back, Parsed, got, panic, unfinished, Parser, and_then, skip_white, gettoken, peek,
  parseredirs, parse_args, parseblock, parseexec, parsepipe, parse_backs, parseline, parsecmd,
}

-- The parse ends, at most `n` bytes before the end of the line.
abbrev pub Finishes : {A : Type 0} → ℕ → Parsed A → Type 0
Finishes n (got a t) = length t ≤ n
Finishes n panic = Unit {0}
Finishes n unfinished = ⊥

abbrev pub Total : Parser Cmd → ℕ → Type 0
Total f n = (s : List ℕ) → length s < n → Finishes (length s) (f s)

Finishes-le : {A : Type 0} {m n : ℕ} (p : Parsed A) → m ≤ n → Finishes m p → Finishes n p
Finishes-le (got a t) le f = omega arith
Finishes-le panic le f = f
Finishes-le unfinished le f = f

and_then-Finishes :
    {A B : Type 0} {n : ℕ} (p : Parsed A) (f : A → Parser B)
    → Finishes n p
    → ((a : A) (t : List ℕ) → length t ≤ n → Finishes n (f a t))
    → Finishes n (and_then p f)
and_then-Finishes (got a t) f le each = each a t le
and_then-Finishes panic f fin each = fin
and_then-Finishes unfinished f fin each = fin

parseredirs-Finishes :
    (k : ℕ) (redirs : List (List ℕ × ℕ × ℕ)) (s : List ℕ)
    → length s < k
    → Finishes (length s) (parseredirs k redirs s)
unfolding parseredirs
parseredirs-Finishes zero redirs s lt = absurd (omega arith)
parseredirs-Finishes (suc k) redirs s lt = elim (Bool-cases (peek (60 ∷ 62 ∷ []) s)) [
  | inl seen ↦
      let first_lt = peek-lt (60 ∷ 62 ∷ []) s seen in
      let next_le = gettoken-le (gettoken s).2 in
      elim (Bool-cases ((gettoken (gettoken s).2).0 == 97)) [
        | inl word ↦
            rw (seen, word)
              (Finishes-le _ (omega arith)
                (parseredirs-Finishes k _ (gettoken (gettoken s).2).2 (omega arith)))
        | inr other ↦ rw (seen, other) tt
      ]
  | inr unseen ↦ rw unseen (skip_white-le s)
]

le_through : {m n o : ℕ} → m ≤ n → n ≤ o → m ≤ o
le_through a b = omega arith

le_of_lt : {m n : ℕ} → m < n → m ≤ n
le_of_lt lt = omega arith

parse_args-Finishes :
    (k : ℕ) (argv : List (List ℕ)) (redirs : List (List ℕ × ℕ × ℕ)) (s : List ℕ)
    → length s < k
    → Finishes (length s) (parse_args k argv redirs s)
unfolding parse_args
parse_args-Finishes zero argv redirs s lt = absurd (omega arith)
parse_args-Finishes (suc k) argv redirs s lt =
    elim (Bool-cases (peek (124 ∷ 41 ∷ 38 ∷ 59 ∷ []) s)) [
      | inl seen ↦ rw seen (skip_white-le s)
      | inr unseen ↦ elim (Bool-cases ((gettoken s).0 == 0)) [
        | inl nul ↦ rw (unseen, nul) (gettoken-le s)
        | inr more ↦ elim (Bool-cases (not ((gettoken s).0 == 97))) [
          | inl symbol ↦ rw (unseen, more, symbol) tt
          | inr word ↦ elim (Bool-cases (leb 10 (length (argv ++ (gettoken s).1 ∷ [])))) [
            | inl many ↦ rw (unseen, more, word, many) tt
            | inr fits ↦
                let less = gettoken-lt s more in
                rw (unseen, more, word, fits)
                  (Finishes-le _ (le_of_lt less) (
                    and_then-Finishes
                      (parseredirs (suc (length (gettoken s).2)) redirs (gettoken s).2) _
                      (parseredirs-Finishes _ redirs (gettoken s).2 (omega arith))
                      (λ redirs' u le.
                        Finishes-le _ le (parse_args-Finishes k _ redirs' u (omega arith)))))
          ]
        ]
      ]
    ]

module _ (line : Parser Cmd) (n : ℕ) (total : Total line n) where
  parseblock-Finishes : (s : List ℕ) → length s < suc n → Finishes (length s) (parseblock line s)
  unfolding parseblock
  parseblock-Finishes s lt = elim (Bool-cases (peek (40 ∷ []) s)) [
    | inr unseen ↦ rw unseen tt
    | inl seen ↦
        let less = peek-lt (40 ∷ []) s seen in
        rw seen (
          and_then-Finishes (line (gettoken s).2) _
            (Finishes-le _ (omega arith) (total (gettoken s).2 (omega arith)))
            (λ cmd t le. elim (Bool-cases (not (peek (41 ∷ []) t))) [
              | inl missing ↦ rw missing tt
              | inr closed ↦
                  let rest_le = gettoken-le t in
                  rw closed (
                    Finishes-le _ (le_through rest_le le) (
                      and_then-Finishes
                        (parseredirs (suc (length (gettoken t).2)) [] (gettoken t).2) _
                        (parseredirs-Finishes _ [] (gettoken t).2 (omega arith))
                        (λ redirs v le'. le')))
            ]))
  ]

  parseexec-Finishes : (s : List ℕ) → length s < suc n → Finishes (length s) (parseexec line s)
  unfolding parseexec
  parseexec-Finishes s lt = elim (Bool-cases (peek (40 ∷ []) s)) [
    | inl seen ↦ rw seen (parseblock-Finishes s lt)
    | inr unseen ↦ rw unseen (
        and_then-Finishes (parseredirs (suc (length s)) [] s) _
          (parseredirs-Finishes (suc (length s)) [] s (omega arith))
          (λ redirs t le.
            Finishes-le _ le (parse_args-Finishes (suc (length t)) [] redirs t (omega arith))))
  ]

  parsepipe-Finishes :
      (k : ℕ) (s : List ℕ)
      → length s < k
      → length s < suc n
      → Finishes (length s) (parsepipe line k s)
  unfolding parsepipe
  parsepipe-Finishes zero s lt short = absurd (omega arith)
  parsepipe-Finishes (suc k) s lt short =
      and_then-Finishes (parseexec line s) _ (parseexec-Finishes s short) (λ cmd t le.
        elim (Bool-cases (peek (124 ∷ []) t)) [
          | inr last_part ↦ rw last_part (le_through (skip_white-le t) le)
          | inl piped ↦
              let less = peek-lt (124 ∷ []) t piped in
              rw piped (
                and_then-Finishes (parsepipe line k (gettoken t).2) _
                  (Finishes-le _ (le_through (le_of_lt less) le)
                    (parsepipe-Finishes k (gettoken t).2 (omega arith) (omega arith)))
                  (λ right u le'. le'))
        ])

parse_backs-Finishes :
    (k : ℕ) (cmd : Cmd) (s : List ℕ) → length s < k → Finishes (length s) (parse_backs k cmd s)
unfolding parse_backs
parse_backs-Finishes zero cmd s lt = absurd (omega arith)
parse_backs-Finishes (suc k) cmd s lt = elim (Bool-cases (peek (38 ∷ []) s)) [
  | inr unseen ↦ rw unseen (skip_white-le s)
  | inl seen ↦
      let less = peek-lt (38 ∷ []) s seen in
      rw seen (
        Finishes-le _ (le_of_lt less)
          (parse_backs-Finishes k (back cmd) (gettoken s).2 (omega arith)))
]

parseline-Finishes : (k : ℕ) → Total (parseline k) k
unfolding parseline
parseline-Finishes zero s lt = absurd (omega arith)
parseline-Finishes (suc k) s lt =
    and_then-Finishes (parsepipe (parseline k) (suc (length s)) s) _
      (parsepipe-Finishes (parseline k) k (parseline-Finishes k) (suc (length s)) s (omega arith)
        lt)
      (λ cmd t le.
        and_then-Finishes (parse_backs (suc (length t)) cmd t) _
          (Finishes-le _ le (parse_backs-Finishes (suc (length t)) cmd t (omega arith)))
          (λ cmd' u le'. elim (Bool-cases (peek (59 ∷ []) u)) [
            | inr last_part ↦ rw last_part (le_through (skip_white-le u) le')
            | inl more ↦
                let less = peek-lt (59 ∷ []) u more in
                rw more (
                  and_then-Finishes (parseline k (gettoken u).2) _
                    (Finishes-le _ (le_through (le_of_lt less) le')
                      (parseline-Finishes k (gettoken u).2 (omega arith)))
                    (λ right v le''. le''))
          ]))

from_Finishes : {A : Type 0} (n : ℕ) (p : Parsed A) → Finishes n p → p ≢ unfinished
from_Finishes n (got a t) f = ground arith
from_Finishes n panic f = ground arith
from_Finishes n unfinished f = absurd f

end-Finishes :
    (cmd : Cmd) (n : ℕ) (t : List ℕ)
    → Finishes n (elim t as (λ x. Parsed Cmd) [ [] ↦ got cmd [] | c ∷ cs ↦ panic ])
end-Finishes cmd n [] = omega arith
end-Finishes cmd n (c ∷ cs) = tt

-- On every line the parser returns a command or panics: the loops and the recursion of parseline,
-- parsepipe, parseexec and parseblock end within as many rounds as the line has bytes, and one.
pub parsecmd_ends : (s : List ℕ) → parsecmd s ≢ unfinished
unfolding parsecmd
parsecmd_ends s = from_Finishes (length s) _ (
    and_then-Finishes (parseline (suc (length s)) s) _
      (parseline-Finishes (suc (length s)) s (omega arith))
      (λ cmd t le. end-Finishes cmd (length s) (skip_white t)))
