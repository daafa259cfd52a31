-- ===== src/Shell/Print/Commands.antt =====
-- The commands of each kind, and the round trip of the parser.
use assignments.Base.{
  ℕ, zero, suc, ◌<◌, List, [], ◌∷◌, ◌++◌, true, false, ◌==◌, length, ◌≡◌, refl, sym, ap, ◌∙◌, inl,
  inr, arith, Bool-cases, append_assoc,
}
use assignments.Shell.{
  Text, Redir, redirection, Cmd, exec, redir, mem, is_space, is_symbol, peek, parseline, parseexec,
}
use assignments.Shell.Print.{print_redir, print_redirs, print_words, parens, AreWords, IsRedir}
use assignments.Shell.Print.Words.{
  Solid, stops, Follows, Follows-Solid, Follows-Ends, peek-word, Solid-redirs, parseredirs-redirs,
  words-Ends, parse_args-end, parse_args-words,
}
use assignments.Shell.Print.Levels.{Execs, Lines, Starts, peek-Follows, advance-symbol, peek-symbol}

peek-redirs :
    (qs : List Redir) (rest : Text)
    → Follows stops rest
    → peek (print_redirs qs ++ rest) (b'(' ∷ []) ≡ false
unfolding peek is_space
peek-redirs [] rest h =
    peek-Follows stops (b'(' ∷ []) rest (Follows-Solid rest h) (λ c g. ground (arith, g)) h
peek-redirs (redirection file mode fd ∷ qs) rest h = elim (Bool-cases (fd == 0)) [
  | inl e ↦ rw e refl
  | inr e ↦ rw e refl
]

letter_paren : (c : ℕ) → is_symbol c ≡ false → mem c (b'(' ∷ []) ≡ false
unfolding is_symbol
letter_paren c h = ground (arith, h)

-- Programs with arguments.
pub Execs-words :
    (args : List Text) → length args < 10 → AreWords args → Execs (print_words args) (exec args)
unfolding parseline
Execs-words args few p zero qs rest ps h enough = absurd (omega arith)
Execs-words [] few p (suc f) qs rest ps h enough =
    rw
      (
        peek-redirs qs rest h,
        parseredirs-redirs (suc (length (print_redirs qs ++ rest))) [] qs rest ps
            (Follows-Ends rest h) (omega arith),
        parse_args-end (suc (length rest)) [] qs rest h (omega arith),
      )
      refl
Execs-words (w ∷ ws) few p (suc f) qs rest ps h enough =
    let text = print_words (w ∷ ws) ++ (print_redirs qs ++ rest) in
    rw
      (
        ap (λ s. peek s (b'(' ∷ []))
              (append_assoc w (b' ' ∷ print_words ws) (print_redirs qs ++ rest))
            ∙ peek-word w (b' ' ∷ (print_words ws ++ (print_redirs qs ++ rest))) (b'(' ∷ []) (p.0)
                letter_paren,
        parseredirs-redirs (suc (length text)) [] [] text tt
            (words-Ends w ws (print_redirs qs ++ rest) (p.0)) (omega arith),
        parse_args-words (suc (length text)) [] w ws qs rest p ps h (omega (arith, few))
            (omega arith),
      )
      refl

-- A redirection, which is outside the command.
pub Execs-redir :
    (t : Text) (c : Cmd) (q : Redir)
    → IsRedir q
    → Execs t c
    → Execs (t ++ print_redir q) (redir c q)
Execs-redir t c q p e f qs rest ps h enough =
    let shape : (t ++ print_redir q) ++ (print_redirs qs ++ rest)
        ≡ t ++ (print_redirs (q ∷ qs) ++ rest) =
      append_assoc t (print_redir q) (print_redirs qs ++ rest)
      ∙ ap (λ u. t ++ u) (sym (append_assoc (print_redir q) (print_redirs qs) rest)) in
    ap (parseexec f) shape ∙ e f (q ∷ qs) rest (p, ps) h (omega (arith, enough, ap length shape))

pub space_paren :
    (is_space b'(' ≡ false)
    × (is_space b')' ≡ false)
    × (is_space b'|' ≡ false)
    × (is_space b'&' ≡ false)
    × (is_space b';' ≡ false)
unfolding is_space
space_paren = (refl, refl, refl, refl, refl)

pub symbol_paren :
    (is_symbol b'(' ≡ true)
    × (is_symbol b')' ≡ true)
    × (is_symbol b'|' ≡ true)
    × (is_symbol b'&' ≡ true)
    × (is_symbol b';' ≡ true)
unfolding is_symbol
symbol_paren = (refl, refl, refl, refl, refl)

pub Solid-symbol : (c : ℕ) (t : Text) → is_space c ≡ false → Solid (c ∷ t)
Solid-symbol c t e = rw e refl

-- A line in parentheses.
pub Execs-Lines : (t : Text) (c : Cmd) → Starts t → Lines t c → Execs (parens true t) c
unfolding parseline
Execs-Lines t c solid l zero qs rest ps h enough = absurd (omega arith)
Execs-Lines t c solid l (suc zero) qs rest ps h enough = absurd (omega arith)
Execs-Lines t c solid l (suc (suc f)) qs rest ps h enough =
    let tail = print_redirs qs ++ rest in
    let ends = Solid-redirs qs rest (Follows-Solid rest h) in
    let shape : (t ++ (b')' ∷ [])) ++ tail ≡ t ++ (b')' ∷ tail) = append_assoc t (b')' ∷ []) tail in
    ap (λ u. parseexec (suc (suc f)) (b'(' ∷ u)) shape
    ∙ rw
        (
          peek-symbol b'(' (t ++ (b')' ∷ tail)) (b'(' ∷ []) (space_paren.0) refl,
          advance-symbol b'(' (t ++ (b')' ∷ tail)) (space_paren.0) (symbol_paren.0) refl
              (solid (b')' ∷ tail) (Solid-symbol b')' tail (space_paren.1))),
          l f (b')' ∷ tail) refl (omega (arith, enough, ap length shape)),
          peek-symbol b')' tail (b')' ∷ []) (space_paren.1) refl,
          advance-symbol b')' tail (space_paren.1) (symbol_paren.1) refl ends,
          parseredirs-redirs (suc (length tail)) [] qs rest ps (Follows-Ends rest h) (omega arith),
        )
        refl
