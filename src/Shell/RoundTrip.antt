-- ===== src/Shell/RoundTrip.antt =====
-- What is printed is parsed.
use os.Base.{ℕ, zero, suc, ◌<◌, ◌≡◌, refl, true, List, [], ◌∷◌, length, arith}
use os.Shell.{Cmd, exec, redir, pipe, list, back, got, parseline, parsecmd}
use os.Shell.Print.{printable, print, ends}
use os.Shell.Lines.{
  print-le, parseline-exec, parseline-back, parseline-pipe, parseline-list, parseline-redir,
}

parseline-print :
    (k : ℕ) (c : Cmd) (t : List ℕ)
    → length (print c t) < k
    → printable c ≡ true
    → ends t ≡ true
    → parseline k (print c t) ≡ got c t
parseline-print zero c t lt e end = absurd (omega arith)
parseline-print (suc k) (exec argv) t lt e end =
    parseline-exec k argv t (ground arith) (ground arith) end
parseline-print (suc k) (redir c file mode fd) t lt e end =
    parseline-redir k c file mode fd t e end
      (parseline-print k c _ (omega arith) (ground arith) refl)
parseline-print (suc k) (pipe a b) t lt e end =
    let left = print-le a (41 ∷ 124 ∷ 40 ∷ print b (41 ∷ t)) in
    parseline-pipe k a b t (ground arith) (ground arith) end
      (parseline-print k a _ (omega arith) (ground arith) refl)
      (parseline-print k b _ (omega arith) (ground arith) refl)
parseline-print (suc zero) (list a b) t lt e end = absurd (omega arith)
parseline-print (suc (suc k)) (list a b) t lt e end =
    let left = print-le a (41 ∷ 59 ∷ 40 ∷ print b (41 ∷ t)) in
    parseline-list k a b t (ground arith) (ground arith) end
      (parseline-print (suc k) a _ (omega arith) (ground arith) refl)
      (parseline-print k b _ (omega arith) (ground arith) refl)
parseline-print (suc k) (back a) t lt e end =
    parseline-back k a t e end (parseline-print k a _ (omega arith) e refl)

-- A command of any shape whose lists of words are shorter than MAXARGS, whose words have bytes but no
-- white space, operator or NUL, and whose redirections have the modes of '<' and '>', is what parsecmd
-- makes of its text, in which every part of a command stands in parentheses.
pub parsecmd-print : (c : Cmd) → printable c ≡ true → parsecmd (print c []) ≡ got c []
unfolding parsecmd
parsecmd-print c e = rw (parseline-print (suc (length (print c []))) c [] (omega arith) e refl) refl
