-- ===== src/Shell/Print/Inverse.antt =====
-- The parser of sh.c on printed commands.
use assignments.Base.{
  ℕ, zero, suc, ◌+◌, ◌*◌, [], ◌∷◌, ◌++◌, Bool, true, false, ltb, length, ◌≡◌, refl, sym, ap, ◌∙◌,
  arith, append_assoc, append-nil, length-append, subst,
}
use assignments.Shell.{
  Text, Cmd, exec, redir, pipe, list, back, ok, ◌>>=◌, is_space, parse_backs, parseline, parsepipe,
}
use assignments.Shell.Print.{print_redir, print_words, parens}
use assignments.Shell.Print.Words.{Solid, Follows-Solid, Solid-redirs, words-Ends}
use assignments.Shell.Print.{print, IsCmd}
use assignments.Shell.Print.Levels.{
  Execs, Pipes, backs, Backs, Lines, Starts, pipe-Follows, line-Follows, peek-Follows,
  advance-symbol, peek-symbol, Pipes-Execs, Backs-Pipes, bind_assoc, backs-end, Lines-Backs,
}
use assignments.Shell.{parsecmd, finish}
use assignments.Shell.Print.Commands.{
  space_paren, symbol_paren, Solid-symbol, Execs-words, Execs-redir, Execs-Lines,
}

Pipes-pipe :
    (t u : Text) (c d : Cmd) → Starts u → Execs t c → Pipes u d → Pipes (t ++ (b'|' ∷ u)) (pipe c d)
unfolding parseline
Pipes-pipe t u c d solid e p zero rest h enough = absurd (omega arith)
Pipes-pipe t u c d solid e p (suc f) rest h enough =
    let shape : (t ++ (b'|' ∷ u)) ++ rest ≡ t ++ (b'|' ∷ (u ++ rest)) =
      append_assoc t (b'|' ∷ u) rest in
    let size = length-append t (b'|' ∷ (u ++ rest)) in
    ap (parsepipe (suc f)) shape
    ∙ rw
        (
          e f [] (b'|' ∷ (u ++ rest)) tt refl (omega (arith, enough, ap length shape)),
          peek-symbol b'|' (u ++ rest) (b'|' ∷ []) (space_paren.2) refl,
          advance-symbol b'|' (u ++ rest) (space_paren.2) (symbol_paren.2) refl
              (solid rest (Follows-Solid rest (pipe-Follows rest h))),
          p f rest h (omega (arith, enough, ap length shape, size)),
        )
        refl

Backs-back : (t : Text) (c : Cmd) → Backs t c → Backs (t ++ (b'&' ∷ [])) (back c)
unfolding parse_backs
Backs-back t c b f rest h enough =
    let shape : (t ++ (b'&' ∷ [])) ++ rest ≡ t ++ (b'&' ∷ rest) = append_assoc t (b'&' ∷ []) rest in
    ap (λ s. parsepipe f s >>= backs) shape
    ∙ b f (b'&' ∷ rest) refl (omega (arith, enough, ap length shape))
    ∙ rw
        (
          peek-symbol b'&' rest (b'&' ∷ []) (space_paren.3) refl,
          advance-symbol b'&' rest (space_paren.3) (symbol_paren.3) refl
              (Follows-Solid rest (pipe-Follows rest h)),
        )
        refl

Lines-list :
    (t u : Text) (c d : Cmd) → Starts u → Backs t c → Lines u d → Lines (t ++ (b';' ∷ u)) (list c d)
unfolding parseline
Lines-list t u c d solid b l zero rest h enough = absurd (omega arith)
Lines-list t u c d solid b l (suc f) rest h enough =
    let shape : (t ++ (b';' ∷ u)) ++ rest ≡ t ++ (b';' ∷ (u ++ rest)) =
      append_assoc t (b';' ∷ u) rest in
    let size = length-append t (b';' ∷ (u ++ rest)) in
    let next = Solid-symbol b';' (u ++ rest) (space_paren.4) in
    ap (parseline (suc f)) shape
    ∙ bind_assoc (parsepipe f (t ++ (b';' ∷ (u ++ rest)))) backs _
    ∙ rw
        (
          b f (b';' ∷ (u ++ rest)) refl (omega (arith, enough, ap length shape)),
          backs-end c (b';' ∷ (u ++ rest)) next (
              peek-Follows (b';' ∷ []) (b'&' ∷ []) (b';' ∷ (u ++ rest)) next
                (λ c g. ground (arith, g)) refl),
          peek-symbol b';' (u ++ rest) (b';' ∷ []) (space_paren.4) refl,
          advance-symbol b';' (u ++ rest) (space_paren.4) (symbol_paren.4) refl
              (solid rest (Follows-Solid rest (pipe-Follows rest (line-Follows rest h)))),
          l f rest h (omega (arith, enough, ap length shape, size)),
        )
        refl

parens-Starts : (b : Bool) (t : Text) → Starts t → Starts (parens b t)
parens-Starts true t s u h = Solid-symbol b'(' ((t ++ (b')' ∷ [])) ++ u) (space_paren.0)
parens-Starts false t s u h = s u h

append-Starts :
    (t : Text) (c : ℕ) (u : Text) → Starts t → is_space c ≡ false → Starts (t ++ (c ∷ u))
append-Starts t c u s e v h =
    subst Solid (sym (append_assoc t (c ∷ u) v)) (s (c ∷ (u ++ v)) (Solid-symbol c (u ++ v) e))

print-Starts : (level : ℕ) (c : Cmd) → IsCmd c → Starts (print level c)
print-Starts level (exec []) p u h = h
print-Starts level (exec (w ∷ ws)) p u h = (words-Ends w ws u (p.1.0)).0
print-Starts level (redir c q) p u h =
    subst Solid (sym (append_assoc (print 3 c) (print_redir q) u)) (
      print-Starts 3 c (p.0) (print_redir q ++ u)
        (subst Solid (append_assoc (print_redir q) [] u) (Solid-redirs (q ∷ []) u h)))
print-Starts level (pipe c d) p u h =
    parens-Starts (ltb 2 level) (print 3 c ++ (b'|' ∷ print 2 d))
      (append-Starts (print 3 c) b'|' (print 2 d) (print-Starts 3 c (p.0)) (space_paren.2)) u h
print-Starts level (back c) p u h =
    parens-Starts (ltb 1 level) (print 1 c ++ (b'&' ∷ []))
      (append-Starts (print 1 c) b'&' [] (print-Starts 1 c p) (space_paren.3)) u h
print-Starts level (list c d) p u h =
    parens-Starts (ltb 0 level) (print 1 c ++ (b';' ∷ print 0 d))
      (append-Starts (print 1 c) b';' (print 0 d) (print-Starts 1 c (p.0)) (space_paren.4)) u h

-- A printed command is read back at every level.
abbrev Reads : Cmd → Type 0
Reads c = Execs (print 3 c) c × Pipes (print 2 c) c × Backs (print 1 c) c × Lines (print 0 c) c

print-Reads : (c : Cmd) → IsCmd c → Reads c
print-Reads (exec args) p =
    let e = Execs-words args (p.0) (p.1) in
    let q = Pipes-Execs (print_words args) (exec args) e in
    let b = Backs-Pipes (print_words args) (exec args) q in
    (e, q, b, Lines-Backs (print_words args) (exec args) b)
print-Reads (redir c r) p =
    let t = print 3 c ++ print_redir r in
    let e = Execs-redir (print 3 c) c r (p.1) ((print-Reads c (p.0)).0) in
    let q = Pipes-Execs t (redir c r) e in
    let b = Backs-Pipes t (redir c r) q in (e, q, b, Lines-Backs t (redir c r) b)
print-Reads (pipe c d) p =
    let t = print 0 (pipe c d) in
    let q =
      Pipes-pipe (print 3 c) (print 2 d) c d (print-Starts 2 d (p.1)) ((print-Reads c (p.0)).0)
        ((print-Reads d (p.1)).1) in
    let b = Backs-Pipes t (pipe c d) q in
    let l = Lines-Backs t (pipe c d) b in
    (Execs-Lines t (pipe c d) (print-Starts 0 (pipe c d) p) l, q, b, l)
print-Reads (back c) p =
    let t = print 0 (back c) in
    let b = Backs-back (print 1 c) c ((print-Reads c p).2) in
    let l = Lines-Backs t (back c) b in
    let e = Execs-Lines t (back c) (print-Starts 0 (back c) p) l in
    (e, Pipes-Execs (parens true t) (back c) e, b, l)
print-Reads (list c d) p =
    let t = print 0 (list c d) in
    let l =
      Lines-list (print 1 c) (print 0 d) c d (print-Starts 0 d (p.1)) ((print-Reads c (p.0)).2)
        ((print-Reads d (p.1)).3) in
    let e = Execs-Lines t (list c d) (print-Starts 0 (list c d) p) l in
    let q = Pipes-Execs (parens true t) (list c d) e in
    (e, q, Backs-Pipes (parens true t) (list c d) q, l)

-- Every command whose words are free of white space and symbols, and whose programs have less than
-- MAXARGS words, has a command line: the parser reads the printed command back, whatever its nesting
-- of lists, background commands, pipes and redirections.
pub parsecmd-print : (c : Cmd) → IsCmd c → parsecmd (print 0 c) ≡ ok c
unfolding parsecmd
parsecmd-print c p =
    ap (λ s. parseline (4 * length s + 4) s >>= finish) (sym (append-nil (print 0 c)))
    ∙ rw ((print-Reads c p).3 (4 * length (print 0 c ++ []) + 4) [] tt (omega arith)) refl
