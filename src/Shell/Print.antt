-- ===== src/Shell/Print.antt =====
-- Command lines for commands: `print` writes a command in the grammar of the parser. A command
-- that stands where the grammar has a smaller one goes in parentheses.
pub mod Words
pub mod Levels
pub mod Commands
pub mod Inverse
use assignments.Base.{
  ℕ, zero, suc, ◌+◌, ◌*◌, ◌≤◌, ◌<◌, List, [], ◌∷◌, ◌++◌, Bool, true, false, ◌==◌, ltb,
  if◌then◌else◌, length, ◌≡◌, ◌⊎◌,
}
use assignments.Shell.{
  Text, Redir, redirection, Cmd, exec, redir, pipe, list, back, mem, is_space, is_symbol, starts,
}

abbrev pub print_redir : Redir → Text
print_redir (redirection file mode fd) = (if fd == 0 then b'<' else b'>') ∷ (file ++ (b' ' ∷ []))

abbrev pub print_redirs : List Redir → Text
print_redirs [] = []
print_redirs (r ∷ rs) = print_redir r ++ print_redirs rs

abbrev pub print_words : List Text → Text
print_words [] = []
print_words (w ∷ ws) = w ++ (b' ' ∷ print_words ws)

abbrev pub parens : Bool → Text → Text
parens true t = b'(' ∷ (t ++ (b')' ∷ []))
parens false t = t

-- The level is what the place takes: 0 a line, 1 a line before `;`, 2 what follows a `|`, 3 what
-- stands before one.
abbrev pub print : ℕ → Cmd → Text
print level (exec args) = print_words args
print level (redir c r) = print 3 c ++ print_redir r
print level (pipe c d) = parens (ltb 2 level) (print 3 c ++ (b'|' ∷ print 2 d))
print level (back c) = parens (ltb 1 level) (print 1 c ++ (b'&' ∷ []))
print level (list c d) = parens (ltb 0 level) (print 1 c ++ (b';' ∷ print 0 d))

-- No white space and no symbols.
abbrev pub Plain : Text → Type 0
Plain [] = Unit {0}
Plain (c ∷ s) = (is_space c ≡ false) × (is_symbol c ≡ false) × Plain s

abbrev pub IsWord : Text → Type 0
IsWord [] = ⊥
IsWord (c ∷ s) = Plain (c ∷ s)

abbrev pub AreWords : List Text → Type 0
AreWords [] = Unit {0}
AreWords (w ∷ ws) = IsWord w × AreWords ws

-- The parser makes these two only.
abbrev pub IsRedir : Redir → Type 0
IsRedir (redirection file mode fd) =
    IsWord file × (((mode ≡ 0) × (fd ≡ 0)) ⊎ ((mode ≡ 0x201) × (fd ≡ 1)))

abbrev pub AreRedirs : List Redir → Type 0
AreRedirs [] = Unit {0}
AreRedirs (r ∷ rs) = IsRedir r × AreRedirs rs

-- A command whose words are words, each program with less than MAXARGS of them.
abbrev pub IsCmd : Cmd → Type 0
IsCmd (exec args) = (length args < 10) × AreWords args
IsCmd (redir c r) = IsCmd c × IsRedir r
IsCmd (pipe c d) = IsCmd c × IsCmd d
IsCmd (back c) = IsCmd c
IsCmd (list c d) = IsCmd c × IsCmd d
