-- ===== src/Shell/Total.antt =====
-- The fuel of the parser of sh.c.
use assignments.Base.{
  ℕ, zero, suc, ◌+◌, ◌*◌, ◌≤◌, ◌<◌, List, [], ◌∷◌, Bool, true, false, ◌==◌, leb, not, if◌then◌else◌,
  length, ◌≡◌, refl, ap, ◌⊎◌, inl, inr, String, arith, Bool-cases,
}
use assignments.Shell.{
  Text, Redir, Cmd, back, Outcome, ok, panic, out_of_fuel, ◌>>=◌, is_space, is_symbol, skip, word,
  greater, token, gettoken, peek, advance, parseredirs, parse_args, parse_backs, parseline,
  parsepipe, parseblock, parseexec, finish, parsecmd,
}

length-skip : (s : Text) → length (skip s) ≤ length s
length-skip [] = omega arith
length-skip (c ∷ s) = ground (arith, length-skip s)

length-word : (s : Text) → length ((word s).1) ≤ length s
length-word [] = omega arith
length-word (c ∷ s) = ground (arith, length-word s)

length-greater : (s : Text) → length ((greater s).2) ≤ length s
length-greater [] = omega arith
length-greater (c ∷ s) = ground arith

-- A token takes a character, if there is one.
length-token : (c : ℕ) (s : Text) → is_space c ≡ false → length ((token (c ∷ s)).2) < length (c ∷ s)
length-token c s solid = elim (Bool-cases (c == b'>')) [
  | inl e ↦ rw e (omega (arith, length-greater s))
  | inr e ↦ elim (Bool-cases (is_symbol c)) [
    | inl g ↦ rw (e, g) (omega arith)
    | inr g ↦ rw (e, g, solid) (omega (arith, length-word s))
  ]
]

skip-cases :
    (s : Text) → (skip s ≡ []) ⊎ ((c : ℕ) × (t : Text) × (skip s ≡ c ∷ t) × (is_space c ≡ false))
skip-cases [] = inl refl
skip-cases (c ∷ s) = elim (Bool-cases (is_space c)) [
  | inl e ↦ rw e (skip-cases s)
  | inr e ↦ rw e (inr (c, s, refl, e))
]

-- A token, if there is one, takes a character.
gettoken-cases :
    (s : Text) → ((skip s ≡ []) × (gettoken s ≡ (0, [], []))) ⊎ (length ((gettoken s).2) < length s)
unfolding gettoken
gettoken-cases s = elim (skip-cases s) [
  | inl e ↦ inl (e, rw e refl)
  | inr (c, t, e, solid) ↦ inr (
      rw e (
        omega (
          arith,
          length-token c t solid,
          length-skip ((token (c ∷ t)).2),
          length-skip s,
          ap length e,
        )))
]

length-gettoken : (s : Text) → length ((gettoken s).2) ≤ length s
length-gettoken s = elim (gettoken-cases s) [
  | inl (e, g) ↦ rw g (omega arith)
  | inr h ↦ omega (arith, h)
]

peek-advance : (s toks : Text) → peek s toks ≡ true → length (advance s) < length s
unfolding peek
peek-advance s toks e = elim (gettoken-cases s) [ inl (z, g) ↦ cc (rw z at e) | inr h ↦ h ]

-- The result is no lack of fuel, and the text that is left is no longer than `n`.
abbrev Within {ℓ} : {A : Type ℓ} → ℕ → Outcome (A × Text) → Type 0
Within n (ok (a, t)) = length t ≤ n
Within n (panic message) = Unit {0}
Within n out_of_fuel = ⊥

module _ {ℓ κ} {A : Type ℓ} {B : Type κ} where
  Within-bind :
      (n m : ℕ) (r : Outcome (A × Text)) (next : A × Text → Outcome (B × Text))
      → Within n r
      → ((a : A) (t : Text) → length t ≤ n → Within m (next (a, t)))
      → Within m (r >>= next)
  Within-bind n m (ok (a, t)) next h k = k a t h
  Within-bind n m (panic message) next h k = tt
  Within-bind n m out_of_fuel next h k = absurd h

module _ {ℓ} {A : Type ℓ} where
  Within-if :
      (n : ℕ) (b : Bool) (r q : Outcome (A × Text))
      → (b ≡ true → Within n r)
      → (b ≡ false → Within n q)
      → Within n (if b then r else q)
  Within-if n true r q h k = h refl
  Within-if n false r q h k = k refl

parseredirs-Within :
    (f : ℕ) (rs : List Redir) (s : Text) (n : ℕ)
    → length s < f
    → length s ≤ n
    → Within n (parseredirs f rs s)
unfolding parseredirs
parseredirs-Within zero rs s n enough h = absurd (omega arith)
parseredirs-Within (suc f) rs s n enough h =
    Within-if n (peek s (b'<' ∷ b'>' ∷ [])) _ (ok (rs, skip s))
      (λ e.
        let shorter = peek-advance s (b'<' ∷ b'>' ∷ []) e in
        Within-if n (not ((gettoken (advance s)).0 == b'a')) (panic "missing file for redirection")
          _ (λ g. tt)
          (λ g.
            parseredirs-Within f _ _ n (omega (arith, shorter, length-gettoken (advance s)))
              (omega (arith, shorter, length-gettoken (advance s)))))
      (λ e. omega (arith, length-skip s))

parse_backs-Within :
    (f : ℕ) (c : Cmd) (s : Text) (n : ℕ)
    → length s < f
    → length s ≤ n
    → Within n (parse_backs f c s)
unfolding parse_backs
parse_backs-Within zero c s n enough h = absurd (omega arith)
parse_backs-Within (suc f) c s n enough h =
    Within-if n (peek s (b'&' ∷ [])) _ (ok (c, skip s))
      (λ e.
        let shorter = peek-advance s (b'&' ∷ []) e in
        parse_backs-Within f (back c) (advance s) n (omega (arith, shorter))
          (omega (arith, shorter)))
      (λ e. omega (arith, length-skip s))

parse_args-Within :
    (f : ℕ) (args : List Text) (rs : List Redir) (s : Text) (n : ℕ)
    → length s < f
    → length s ≤ n
    → Within n (parse_args f args rs s)
unfolding parse_args
parse_args-Within zero args rs s n enough h = absurd (omega arith)
parse_args-Within (suc f) args rs s n enough h =
    Within-if n (peek s (b'|' ∷ b')' ∷ b'&' ∷ b';' ∷ [])) _ _ (λ e. omega (arith, length-skip s))
      (λ e. elim (gettoken-cases s) [
        | inl (z, g) ↦ rw g (omega arith)
        | inr shorter ↦
            Within-if n ((gettoken s).0 == 0) _ _ (λ e. omega (arith, shorter))
              (λ e.
                Within-if n (not ((gettoken s).0 == b'a')) _ _ (λ e. tt)
                  (λ e.
                    Within-if n (leb 10 (length args + 1)) _ _ (λ e. tt)
                      (λ e.
                        Within-bind (length (advance s)) n _ _
                          (parseredirs-Within (suc (length (advance s))) rs (advance s)
                            (length (advance s)) (omega arith) (omega arith))
                          (λ qs u short.
                            parse_args-Within f _ qs u n (omega (arith, short, shorter))
                              (omega (arith, short, shorter))))))
      ])

-- With this fuel the parser of a line is not short of fuel.
abbrev Enough : ℕ → Type 0
Enough f =
    (s : Text)
    → ((4 * length s + 4 ≤ f → Within (length s) (parseline f s))
        × (4 * length s + 3 ≤ f → Within (length s) (parsepipe f s))
        × (4 * length s + 2 ≤ f → Within (length s) (parseexec f s))
        × (4 * length s + 1 ≤ f → peek s (b'(' ∷ []) ≡ true → Within (length s) (parseblock f s)))

Enough-all : (f : ℕ) → Enough f
unfolding parseline
Enough-all zero s = (
  λ h. absurd (omega arith),
  λ h. absurd (omega arith),
  λ h. absurd (omega arith),
  λ h. absurd (omega arith),
)
Enough-all (suc f) s = (
  λ h.
      Within-bind (length s) (length s) (parsepipe f s) _ ((Enough-all f s).1 (omega (arith, h)))
        (λ c t short.
          Within-bind (length s) (length s) (parse_backs (suc (length t)) c t) _
            (parse_backs-Within (suc (length t)) c t (length s) (omega arith) short)
            (λ d u less.
              Within-if (length s) (peek u (b';' ∷ [])) _ _
                (λ e.
                  let shorter = peek-advance u (b';' ∷ []) e in
                  Within-bind (length (advance u)) (length s) (parseline f (advance u)) _
                    ((Enough-all f (advance u)).0 (omega (arith, shorter, less, h)))
                    (λ e v last. omega (arith, last, shorter, less)))
                (λ e. omega (arith, length-skip u, less)))),
  λ h.
      Within-bind (length s) (length s) (parseexec f s) _ ((Enough-all f s).2 (omega (arith, h)))
        (λ c t short.
          Within-if (length s) (peek t (b'|' ∷ [])) _ _
            (λ e.
              let shorter = peek-advance t (b'|' ∷ []) e in
              Within-bind (length (advance t)) (length s) (parsepipe f (advance t)) _
                ((Enough-all f (advance t)).1 (omega (arith, shorter, short, h)))
                (λ d u last. omega (arith, last, shorter, short)))
            (λ e. omega (arith, length-skip t, short))),
  λ h.
      Within-if (length s) (peek s (b'(' ∷ [])) _ _ (λ e. (Enough-all f s).3 (omega (arith, h)) e)
        (λ e.
          Within-bind (length s) (length s) _ _
            (parseredirs-Within (suc (length s)) [] s (length s) (omega arith) (omega arith))
            (λ rs t short.
              Within-bind (length s) (length s) _ _
                (parse_args-Within (suc (length t)) [] rs t (length s) (omega arith) short)
                (λ args u less. less))),
  λ h e.
      let shorter = peek-advance s (b'(' ∷ []) e in
      rw e (
        Within-bind (length (advance s)) (length s) (parseline f (advance s)) _
          ((Enough-all f (advance s)).0 (omega (arith, shorter, h)))
          (λ c t short.
            Within-if (length s) (not (peek t (b')' ∷ []))) _ _ (λ g. tt)
              (λ g.
                Within-bind (length s) (length s) _ _
                  (parseredirs-Within (suc (length (advance t))) [] (advance t) (length s)
                    (omega arith) (omega (arith, length-gettoken t, short, shorter)))
                  (λ rs u less. less)))),
)

-- The parser of the shell ends on every line: it gives a command, or it panics.
pub parsecmd_total :
    (s : Text)
    → ((c : Cmd) × (parsecmd s ≡ ok c)) ⊎ ((message : String) × (parsecmd s ≡ panic message))
unfolding parsecmd
parsecmd_total s =
    ends (parseline (4 * length s + 4) s) ((Enough-all (4 * length s + 4) s).0 (omega arith))
  where
    ends :
        (r : Outcome (Cmd × Text))
        → Within (length s) r
        → ((c : Cmd) × ((r >>= finish) ≡ ok c))
          ⊎ ((message : String) × ((r >>= finish) ≡ panic message))
    ends (ok (c, t)) h = elim (skip-cases t) [
      | inl e ↦ inl (c, rw (e, finish) refl)
      | inr (d, u, e, solid) ↦ inr ("syntax", rw (e, finish) refl)
    ]
    ends (panic message) h = inr (message, refl)
    ends out_of_fuel h = absurd h
