-- ===== src/Shell/Print/Levels.antt =====
-- The parser of sh.c on printed commands, level by level of the grammar.
use assignments.Base.{
  ℕ, zero, suc, ◌+◌, ◌*◌, ◌≤◌, List, [], ◌∷◌, ◌++◌, true, false, ◌==◌, length, ◌≡◌, refl, ap, ◌∙◌,
  arith,
}
use assignments.Shell.{
  Text, Redir, Cmd, Outcome, ok, panic, out_of_fuel, ◌>>=◌, mem, is_space, is_symbol, peek, advance,
  wrap, parse_backs, parseline, parsepipe, parseexec,
}
use assignments.Shell.Print.{print_redirs, AreRedirs}
use assignments.Shell.Print.Words.{Solid, stops, Follows, Follows-Solid, gettoken-symbol}

abbrev pub pipe_stops : Text
pipe_stops = b')' ∷ b'&' ∷ b';' ∷ []

abbrev pub line_stops : Text
line_stops = b')' ∷ []

-- The text is read as the command, with redirections after it.
abbrev pub Execs : Text → Cmd → Type 0
Execs t c =
    (f : ℕ) (qs : List Redir) (rest : Text)
    → AreRedirs qs
    → Follows stops rest
    → 4 * length (t ++ (print_redirs qs ++ rest)) + 2 ≤ f
    → parseexec f (t ++ (print_redirs qs ++ rest)) ≡ ok (wrap c qs, rest)

abbrev pub Pipes : Text → Cmd → Type 0
Pipes t c =
    (f : ℕ) (rest : Text)
    → Follows pipe_stops rest
    → 4 * length (t ++ rest) + 3 ≤ f
    → parsepipe f (t ++ rest) ≡ ok (c, rest)

abbrev pub backs : Cmd × Text → Outcome (Cmd × Text)
backs (c, t) = parse_backs (suc (length t)) c t

-- As far as the `&` after it.
abbrev pub Backs : Text → Cmd → Type 0
Backs t c =
    (f : ℕ) (rest : Text)
    → Follows pipe_stops rest
    → 4 * length (t ++ rest) + 3 ≤ f
    → (parsepipe f (t ++ rest) >>= backs) ≡ backs (c, rest)

abbrev pub Lines : Text → Cmd → Type 0
Lines t c =
    (f : ℕ) (rest : Text)
    → Follows line_stops rest
    → 4 * length (t ++ rest) + 4 ≤ f
    → parseline f (t ++ rest) ≡ ok (c, rest)

-- No white space in front, whatever follows.
abbrev pub Starts : Text → Type 0
Starts t = (u : Text) → Solid u → Solid (t ++ u)

Follows-mono :
    (a b t : Text) → ((c : ℕ) → mem c a ≡ true → mem c b ≡ true) → Follows a t → Follows b t
Follows-mono a b [] sub h = tt
Follows-mono a b (c ∷ t) sub h = sub c h

pub pipe-Follows : (t : Text) → Follows pipe_stops t → Follows stops t
pipe-Follows t = Follows-mono pipe_stops stops t (λ c h. ground (arith, h))

pub line-Follows : (t : Text) → Follows line_stops t → Follows pipe_stops t
line-Follows t = Follows-mono line_stops pipe_stops t (λ c h. ground (arith, h))

pub peek-Follows :
    (a toks t : Text)
    → Solid t
    → ((c : ℕ) → mem c a ≡ true → mem c toks ≡ false)
    → Follows a t
    → peek t toks ≡ false
unfolding peek
peek-Follows a toks [] solid other h = refl
peek-Follows a toks (c ∷ t) solid other h = rw solid (other c h)

-- A symbol token, and the text after it.
pub advance-symbol :
    (c : ℕ) (t : Text)
    → is_space c ≡ false
    → is_symbol c ≡ true
    → (c == b'>') ≡ false
    → Solid t
    → advance (c ∷ t) ≡ t
advance-symbol c t space symbol other solid =
    ap (λ r. r.2) (gettoken-symbol c t space symbol other) ∙ solid

pub peek-symbol :
    (c : ℕ) (t toks : Text) → is_space c ≡ false → mem c toks ≡ true → peek (c ∷ t) toks ≡ true
unfolding peek
peek-symbol c t toks space h = rw space h

pub Pipes-Execs : (t : Text) (c : Cmd) → Execs t c → Pipes t c
unfolding parseline
Pipes-Execs t c e zero rest h enough = absurd (omega arith)
Pipes-Execs t c e (suc f) rest h enough =
    let solid = Follows-Solid rest (pipe-Follows rest h) in
    rw
      (
        e f [] rest tt (pipe-Follows rest h) (omega (arith, enough)),
        peek-Follows pipe_stops (b'|' ∷ []) rest solid (λ c g. ground (arith, g)) h,
        solid,
      )
      refl

pub Backs-Pipes : (t : Text) (c : Cmd) → Pipes t c → Backs t c
Backs-Pipes t c p f rest h enough = rw (p f rest h enough) refl

pub bind_assoc :
    (r : Outcome (Cmd × Text)) (g h : Cmd × Text → Outcome (Cmd × Text))
    → (r >>= λ p. g p >>= h) ≡ (r >>= g >>= h)
bind_assoc (ok p) g h = refl
bind_assoc (panic message) g h = refl
bind_assoc out_of_fuel g h = refl

-- No `&` follows.
pub backs-end :
    (c : Cmd) (t : Text) → Solid t → peek t (b'&' ∷ []) ≡ false → backs (c, t) ≡ ok (c, t)
unfolding parse_backs
backs-end c t solid none = rw (none, solid) refl

pub Lines-Backs : (t : Text) (c : Cmd) → Backs t c → Lines t c
unfolding parseline
Lines-Backs t c b zero rest h enough = absurd (omega arith)
Lines-Backs t c b (suc f) rest h enough =
    let solid = Follows-Solid rest (pipe-Follows rest (line-Follows rest h)) in
    bind_assoc (parsepipe f (t ++ rest)) backs _
    ∙ rw
        (
          b f rest (line-Follows rest h) (omega (arith, enough)),
          backs-end c rest solid
              (peek-Follows line_stops (b'&' ∷ []) rest solid (λ c g. ground (arith, g)) h),
          peek-Follows line_stops (b';' ∷ []) rest solid (λ c g. ground (arith, g)) h,
          solid,
        )
        refl
