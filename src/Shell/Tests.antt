-- ===== src/Shell/Tests.antt =====
-- Command lines.
use assignments.Base.{[], ◌∷◌, ◌≡◌, refl, ◌⊎◌, inr, false, String, arith}
use assignments.Shell.{
  Text, redirection, Cmd, exec, redir, pipe, list, back, ok, panic, is_space, is_symbol, gettoken,
  peek, parseredirs, parse_args, parse_backs, parseline, parsecmd,
}
use assignments.Shell.Total.{parsecmd_total}
use assignments.Shell.Print.{print, IsCmd}
use assignments.Shell.Print.Inverse.{parsecmd-print}

-- (a|b >f &);c d
abbrev nested : Cmd
nested =
    list
      (back (
        pipe (exec ((b'a' ∷ []) ∷ []))
          (redir (exec ((b'b' ∷ []) ∷ [])) (redirection (b'f' ∷ []) 0x201 1))))
      (exec ((b'c' ∷ []) ∷ (b'd' ∷ []) ∷ []))

nested-IsCmd : IsCmd nested
unfolding is_space is_symbol
nested-IsCmd =
    let letter : (false ≡ false) × (false ≡ false) × Unit {0} = (refl, refl, tt) in
    (
      ((omega arith, (letter, tt)), ((omega arith, (letter, tt)), (letter, inr (refl, refl)))),
      (omega arith, (letter, (letter, tt))),
    )

parsecmd-print_example : parsecmd (print 0 nested) ≡ ok nested
parsecmd-print_example = parsecmd-print nested nested-IsCmd

abbrev line : Text
line = b'>' ∷ b' ' ∷ []

parsecmd_total_example :
    ((c : Cmd) × (parsecmd line ≡ ok c)) ⊎ ((message : String) × (parsecmd line ≡ panic message))
parsecmd_total_example = parsecmd_total line

no_file : parsecmd line ≡ panic "missing file for redirection"
unfolding parsecmd parseline parseredirs gettoken peek is_space is_symbol
no_file = refl

leftover : parsecmd (b'a' ∷ b')' ∷ []) ≡ panic "syntax"
unfolding parsecmd parseline parseredirs parse_args parse_backs gettoken peek is_space is_symbol
leftover = refl

empty_after_bar : parsecmd (b'a' ∷ b'|' ∷ []) ≡ ok (pipe (exec ((b'a' ∷ []) ∷ [])) (exec []))
unfolding parsecmd parseline parseredirs parse_args parse_backs gettoken peek is_space is_symbol
empty_after_bar = refl
