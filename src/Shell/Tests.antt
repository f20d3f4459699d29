-- ===== src/Shell/Tests.antt =====
-- Parses of "a<f|(b c;d)&" and of a line with text left over.
use os.Base.{◌≡◌, ◌≢◌, refl, [], ◌∷◌}
use os.Shell.{
  Cmd, exec, redir, pipe, list, back, got, panic, parseredirs, parse_args, parseblock, parseexec,
  parsepipe, parse_backs, parseline, parsecmd, unfinished,
}
use os.Shell.Print.{print}
use os.Shell.Finish.{parsecmd_ends}
use os.Shell.RoundTrip.{parsecmd-print}

parsecmd_run :
    parsecmd (97 ∷ 60 ∷ 102 ∷ 124 ∷ 40 ∷ 98 ∷ 32 ∷ 99 ∷ 59 ∷ 100 ∷ 41 ∷ 38 ∷ [])
    ≡ got
        (back (
          pipe
            (redir (exec ((97 ∷ []) ∷ [])) (102 ∷ []) 0 0)
            (list (exec ((98 ∷ []) ∷ (99 ∷ []) ∷ [])) (exec ((100 ∷ []) ∷ [])))))
        []
unfolding parseredirs parse_args parseblock parseexec parsepipe parse_backs parseline parsecmd
parsecmd_run = refl

-- a&b is no command
leftovers_run : parsecmd (97 ∷ 38 ∷ 98 ∷ []) ≡ panic
unfolding parseredirs parse_args parseblock parseexec parsepipe parse_backs parseline parsecmd
leftovers_run = refl

-- "(a<f" ends in a panic
parsecmd_ends_example : parsecmd (40 ∷ 97 ∷ 60 ∷ 102 ∷ []) ≢ unfinished
parsecmd_ends_example = parsecmd_ends (40 ∷ 97 ∷ 60 ∷ 102 ∷ [])

abbrev pipeline : Cmd
pipeline =
    list
      (pipe (redir (exec ((97 ∷ []) ∷ (98 ∷ 99 ∷ []) ∷ [])) (102 ∷ []) 0 0)
        (exec ((100 ∷ []) ∷ [])))
      (back (redir (exec []) (103 ∷ []) 0x201 1))

parsecmd-print_example : parsecmd (print pipeline []) ≡ got pipeline []
parsecmd-print_example = parsecmd-print pipeline refl
