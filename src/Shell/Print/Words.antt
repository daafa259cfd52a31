-- ===== src/Shell/Print/Words.antt =====
-- Tokens, words and redirections in a printed line.
use assignments.Base.{
  ℕ, zero, suc, ◌+◌, ◌<◌, List, [], ◌∷◌, ◌++◌, true, false, ◌==◌, if◌then◌else◌, length, ◌≡◌, refl,
  sym, ap, ◌∙◌, inl, inr, arith, Bool-cases, append_assoc, append-nil, length-append, lt→leb_false,
  subst,
}
use assignments.Shell.{
  Text, Redir, redirection, ok, ◌>>=◌, mem, is_space, is_symbol, skip, word, gettoken, peek,
  parseredirs, parse_args,
}
use assignments.Shell.Print.{
  print_redir, print_redirs, print_words, Plain, IsWord, AreWords, IsRedir, AreRedirs,
}

-- The text has no white space in front.
abbrev pub Solid : Text → Type 0
Solid t = skip t ≡ t

abbrev pub stops : Text
stops = b'|' ∷ b')' ∷ b'&' ∷ b';' ∷ []

-- The text is empty, or starts with one of these.
abbrev pub Follows : Text → Text → Type 0
Follows toks [] = Unit {0}
Follows toks (c ∷ t) = mem c toks ≡ true

pub Follows-Solid : (t : Text) → Follows stops t → Solid t
unfolding is_space
Follows-Solid [] h = refl
Follows-Solid (c ∷ t) h = ground (arith, h)

symbol-greater : (c : ℕ) → is_symbol c ≡ false → (c == b'>') ≡ false
unfolding is_symbol
symbol-greater c h = ground (arith, h)

blank : is_space b' ' ≡ true
unfolding is_space
blank = refl

word-append : (w t : Text) → Plain w → word (w ++ (b' ' ∷ t)) ≡ (w, b' ' ∷ t)
word-append [] t p = rw blank refl
word-append (c ∷ w) t (solid, letter, p) = rw (solid, letter, word-append w t p) refl

pub gettoken-word : (w t : Text) → IsWord w → gettoken (w ++ (b' ' ∷ t)) ≡ (b'a', w, skip t)
unfolding gettoken
gettoken-word [] t p = absurd p
gettoken-word (c ∷ w) t (solid, letter, p) =
    rw (solid, symbol-greater c letter, letter, solid, word-append w t p, blank) refl

-- A word is none of the symbols.
pub peek-word :
    (w t toks : Text)
    → IsWord w
    → ((c : ℕ) → is_symbol c ≡ false → mem c toks ≡ false)
    → peek (w ++ t) toks ≡ false
unfolding peek
peek-word [] t toks p other = absurd p
peek-word (c ∷ w) t toks (solid, letter, p) other = rw (solid) (other c letter)

pub Solid-word : (w t : Text) → IsWord w → Solid (w ++ t)
Solid-word [] t p = absurd p
Solid-word (c ∷ w) t (solid, letter, p) = rw solid refl

-- The symbols that are tokens.
pub gettoken-symbol :
    (c : ℕ) (t : Text)
    → is_space c ≡ false
    → is_symbol c ≡ true
    → (c == b'>') ≡ false
    → gettoken (c ∷ t) ≡ (c, c ∷ [], skip t)
unfolding gettoken
gettoken-symbol c t solid symbol other = rw (solid, other, symbol) refl

solid_greater : is_space b'>' ≡ false
unfolding is_space
solid_greater = refl

solid_less : is_space b'<' ≡ false
unfolding is_space
solid_less = refl

symbol_less : is_symbol b'<' ≡ true
unfolding is_symbol
symbol_less = refl

-- One that is followed by a word.
pub gettoken-greater :
    (w t : Text) → IsWord w → gettoken (b'>' ∷ (w ++ t)) ≡ (b'>', b'>' ∷ [], w ++ t)
unfolding gettoken
gettoken-greater [] t p = absurd p
gettoken-greater (c ∷ w) t (solid, letter, p) =
    rw (solid_greater, symbol-greater c letter, solid) refl

pub Solid-redirs : (qs : List Redir) (t : Text) → Solid t → Solid (print_redirs qs ++ t)
unfolding is_space
Solid-redirs [] t h = h
Solid-redirs (redirection file mode fd ∷ qs) t h = elim (Bool-cases (fd == 0)) [
  | inl e ↦ rw e refl
  | inr e ↦ rw e refl
]

-- Text that starts no redirection.
abbrev pub Ends : Text → Type 0
Ends t = Solid t × (peek t (b'<' ∷ b'>' ∷ []) ≡ false)

-- A redirection, and what follows it.
abbrev redir_then : Redir → Text → Text
redir_then (redirection file mode fd) t = (if fd == 0 then b'<' else b'>') ∷ (file ++ (b' ' ∷ t))

redir_then-append : (q : Redir) (t : Text) → print_redir q ++ t ≡ redir_then q t
redir_then-append (redirection file mode fd) t =
    ap (λ u. (if fd == 0 then b'<' else b'>') ∷ u) (append_assoc file (b' ' ∷ []) t)

parseredirs_round :
    (f : ℕ) (rs : List Redir) (q : Redir) (t : Text)
    → IsRedir q
    → Solid t
    → parseredirs (suc f) rs (redir_then q t) ≡ parseredirs f (rs ++ (q ∷ [])) t
unfolding parseredirs peek
parseredirs_round f rs (redirection file mode fd) t (w, inl (m, d)) solid =
    rw
      (
        d,
        m,
        solid_less,
        gettoken-symbol b'<' (file ++ (b' ' ∷ t)) solid_less symbol_less refl,
        Solid-word file (b' ' ∷ t) w,
        gettoken-word file t w,
        solid,
      )
      refl
parseredirs_round f rs (redirection file mode fd) t (w, inr (m, d)) solid =
    rw (d, m, solid_greater, gettoken-greater file (b' ' ∷ t) w, gettoken-word file t w, solid) refl

length-print_redir : (q : Redir) → 0 < length (print_redir q)
length-print_redir (redirection file mode fd) = omega arith

pub parseredirs-redirs :
    (f : ℕ) (rs qs : List Redir) (t : Text)
    → AreRedirs qs
    → Ends t
    → length (print_redirs qs ++ t) < f
    → parseredirs f rs (print_redirs qs ++ t) ≡ ok (rs ++ qs, t)
unfolding parseredirs
parseredirs-redirs zero rs qs t p h enough = absurd (omega arith)
parseredirs-redirs (suc f) rs [] t p (solid, none) enough = rw (none, solid, append-nil rs) refl
parseredirs-redirs (suc f) rs (q ∷ qs) t (p, ps) h enough =
    ap (parseredirs (suc f) rs) (
      append_assoc (print_redir q) (print_redirs qs) t ∙ redir_then-append q (print_redirs qs ++ t))
    ∙ parseredirs_round f rs q (print_redirs qs ++ t) p (Solid-redirs qs t (h.0))
    ∙ parseredirs-redirs f (rs ++ (q ∷ [])) qs t ps h (
        omega (
          arith,
          enough,
          length-append (print_redir q ++ print_redirs qs) t,
          length-append (print_redir q) (print_redirs qs),
          length-append (print_redirs qs) t,
          length-print_redir q,
        ))
    ∙ ap (λ r. ok (r, t)) (append_assoc rs (q ∷ []) qs)

pub Follows-Ends : (t : Text) → Follows stops t → Ends t
unfolding peek
Follows-Ends [] h = (refl, refl)
Follows-Ends (c ∷ t) h = (Follows-Solid (c ∷ t) h, rw (Follows-Solid (c ∷ t) h) (stop c h))
  where
    stop : (c : ℕ) → mem c stops ≡ true → mem c (b'<' ∷ b'>' ∷ []) ≡ false
    stop c h = ground (arith, h)

letter_redir : (c : ℕ) → is_symbol c ≡ false → mem c (b'<' ∷ b'>' ∷ []) ≡ false
unfolding is_symbol
letter_redir c h = ground (arith, h)

letter_stop : (c : ℕ) → is_symbol c ≡ false → mem c stops ≡ false
unfolding is_symbol
letter_stop c h = ground (arith, h)

pub word-Ends : (w t : Text) → IsWord w → Ends (w ++ t)
word-Ends w t p = (Solid-word w t p, peek-word w t (b'<' ∷ b'>' ∷ []) p letter_redir)

-- The end of the arguments.
pub parse_args-end :
    (f : ℕ) (args : List Text) (rs : List Redir) (t : Text)
    → Follows stops t
    → 0 < f
    → parse_args f args rs t ≡ ok ((args, rs), t)
unfolding parse_args peek gettoken
parse_args-end zero args rs t h some = absurd (omega arith)
parse_args-end (suc f) args rs [] h some = refl
parse_args-end (suc f) args rs (c ∷ t) h some = rw (Follows-Solid (c ∷ t) h, h) refl

-- One argument.
parse_args-word :
    (f : ℕ) (args : List Text) (rs : List Redir) (w t : Text)
    → IsWord w
    → length args + 1 < 10
    → parse_args (suc f) args rs (w ++ (b' ' ∷ t)) ≡ (
        parseredirs (suc (length (skip t))) rs (skip t) >>= λ (qs, u).
        parse_args f (args ++ (w ∷ [])) qs u)
unfolding parse_args
parse_args-word f args rs w t p few =
    rw
      (
        gettoken-word w t p,
        peek-word w (b' ' ∷ t) stops p letter_stop,
        lt→leb_false 10 (length args + 1) few,
      )
      refl

print_words-shape :
    (w : Text) (ws : List Text) (t : Text)
    → print_words (w ∷ ws) ++ t ≡ w ++ (b' ' ∷ (print_words ws ++ t))
print_words-shape w ws t = append_assoc w (b' ' ∷ print_words ws) t

pub words-Ends :
    (w : Text) (ws : List Text) (t : Text) → IsWord w → Ends (print_words (w ∷ ws) ++ t)
words-Ends w ws t p =
    subst Ends (sym (print_words-shape w ws t)) (word-Ends w (b' ' ∷ (print_words ws ++ t)) p)

-- The first of the arguments that are left, and then those after it and the redirections.
pub parse_args-words :
    (f : ℕ) (args : List Text) (w : Text) (ws : List Text) (qs : List Redir) (t : Text)
    → AreWords (w ∷ ws)
    → AreRedirs qs
    → Follows stops t
    → length args + length (w ∷ ws) < 10
    → length (print_words (w ∷ ws) ++ (print_redirs qs ++ t)) < f
    → parse_args f args [] (print_words (w ∷ ws) ++ (print_redirs qs ++ t))
      ≡ ok ((args ++ (w ∷ ws), qs), t)
parse_args-words zero args w ws qs t p ps h few enough = absurd (omega arith)
parse_args-words (suc f) args w [] qs t (p, _) ps h few enough =
    let tail = print_redirs qs ++ t in
    ap (parse_args (suc f) args []) (print_words-shape w [] tail)
    ∙ parse_args-word f args [] w tail p (omega (arith, few))
    ∙ rw
        (
          Solid-redirs qs t (Follows-Solid t h),
          parseredirs-redirs (suc (length tail)) [] qs t ps (Follows-Ends t h) (omega arith),
        )
        (parse_args-end f (args ++ (w ∷ [])) qs t h (
          omega (
            arith,
            enough,
            length-append (print_words (w ∷ [])) tail,
            length-append w (b' ' ∷ []),
          )))
parse_args-words (suc f) args w (v ∷ ws) qs t (p, more) ps h few enough =
    let tail = print_redirs qs ++ t in
    let rest = print_words (v ∷ ws) ++ tail in
    let ends = words-Ends v ws tail (more.0) in
    ap (parse_args (suc f) args []) (print_words-shape w (v ∷ ws) tail)
    ∙ parse_args-word f args [] w rest p (omega (arith, few))
    ∙ rw (ends.0, parseredirs-redirs (suc (length rest)) [] [] rest tt ends (omega arith))
        (parse_args-words f (args ++ (w ∷ [])) v ws qs t more ps h
          (omega (arith, few, length-append args (w ∷ [])))
          (omega (
            arith,
            enough,
            ap length (print_words-shape w (v ∷ ws) tail),
            length-append w (b' ' ∷ rest),
          )))
    ∙ ap (λ xs. ok ((xs, qs), t)) (append_assoc args (w ∷ []) (v ∷ ws))
