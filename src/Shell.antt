-- ===== src/Shell.antt =====
-- xv6-public/sh.c: the parser of the shell. `*ps` is the text from there to `es`, where the NUL is;
-- the text before it has no NUL. A word is the text between `q` and `eq`, which `nulterminate` cuts
-- out of the line.
pub mod Total
pub mod Print
mod Tests
use assignments.Base.{
  ℕ, zero, suc, ◌+◌, ◌*◌, List, [], ◌∷◌, ◌++◌, Bool, true, false, ◌==◌, leb, ◌&&◌, ◌||◌, not,
  if◌then◌else◌, length, String,
}

abbrev pub Text : Type 0
Text = List ℕ

-- `open` mode and descriptor of a redirection.
pub data Redir : Type 0 where
  redirection : Text → ℕ → ℕ → Redir

-- `struct cmd`.
pub data Cmd : Type 0 where
  exec : List Text → Cmd
  redir : Cmd → Redir → Cmd
  pipe : Cmd → Cmd → Cmd
  list : Cmd → Cmd → Cmd
  back : Cmd → Cmd

-- The parser returns, or it panics, or the fuel is not enough.
pub data Outcome {ℓ} (A : Type ℓ) : Type ℓ where
  ok : A → Outcome A
  panic : String → Outcome A
  out_of_fuel : Outcome A

infixl 5 ◌>>=◌
abbrev pub ◌>>=◌ {ℓ κ} : {A : Type ℓ} {B : Type κ} → Outcome A → (A → Outcome B) → Outcome B
ok a >>= next = next a
panic message >>= next = panic message
out_of_fuel >>= next = out_of_fuel

-- `strchr(set, c)`, as a test.
abbrev pub mem : ℕ → Text → Bool
mem c [] = false
mem c (d ∷ ds) = c == d || mem c ds

abbrev pub whitespace : Text
whitespace = b' ' ∷ 9 ∷ 13 ∷ 10 ∷ 11 ∷ []

abbrev pub symbols : Text
symbols = b'<' ∷ b'|' ∷ b'>' ∷ b'&' ∷ b';' ∷ b'(' ∷ b')' ∷ []

-- `strchr(whitespace, c)` and `strchr(symbols, c)`.
pub is_space : ℕ → Bool
is_space c = mem c whitespace

pub is_symbol : ℕ → Bool
is_symbol c = mem c symbols

abbrev pub skip : Text → Text
skip [] = []
skip (c ∷ s) = if is_space c then skip s else c ∷ s

-- The loop over the characters of a word: the word and what follows it.
abbrev pub word : Text → Text × Text
word [] = ([], [])
word (c ∷ s) =
    if not (is_space c) && not (is_symbol c) then (c ∷ (word s).0, (word s).1) else ([], c ∷ s)

-- `>` or `>>`, with the text after the first `>`.
abbrev pub greater : Text → ℕ × Text × Text
greater [] = (b'>', b'>' ∷ [], [])
greater (d ∷ s) = if d == b'>' then (b'+', b'>' ∷ b'>' ∷ [], s) else (b'>', b'>' ∷ [], d ∷ s)

-- The token at the start of a text without leading white space: `ret`, the token's text, and what
-- follows it.
abbrev pub token : Text → ℕ × Text × Text
token [] = (0, [], [])
token (c ∷ s) =
    if c == b'>'
    then greater s
    else if is_symbol c
    then (c, c ∷ [], s)
    else (b'a', (word (c ∷ s)).0, (word (c ∷ s)).1)

pub gettoken : Text → ℕ × Text × Text
gettoken s = let (ret, text, rest) = token (skip s) in (ret, text, skip rest)

-- `peek` moves to the end of the white space, which is `skip`; this is its result.
abbrev pub starts : Text → Text → Bool
starts toks [] = false
starts toks (c ∷ s) = mem c toks

pub peek : Text → Text → Bool
peek s toks = starts toks (skip s)

-- The text after the next token.
abbrev pub advance : Text → Text
advance s = (gettoken s).2

-- The calls of `redircmd`: O_RDONLY, and O_WRONLY|O_CREATE.
abbrev pub redirection_of : ℕ → Text → Redir
redirection_of tok file = if tok == b'<' then redirection file 0 0 else redirection file 0x201 1

-- A command in the redirections, the first one innermost. `parseexec` goes on filling the command
-- in the middle while `parseredirs` wraps it, so the redirections are kept in a list here.
abbrev pub wrap : Cmd → List Redir → Cmd
wrap c [] = c
wrap c (r ∷ rs) = wrap (redir c r) rs

pub parseredirs : ℕ → List Redir → Text → Outcome (List Redir × Text)
parseredirs zero rs s = out_of_fuel
parseredirs (suc f) rs s =
    let (tok, _, t) = gettoken s in
    let (kind, file, rest) = gettoken t in
    let more = parseredirs f (rs ++ (redirection_of tok file ∷ [])) rest in
    if peek s (b'<' ∷ b'>' ∷ [])
    then (if not (kind == b'a') then panic "missing file for redirection" else more)
    else ok (rs, skip s)

-- The loop of `parseexec`, with the arguments so far and the redirections so far.
pub parse_args : ℕ → List Text → List Redir → Text → Outcome ((List Text × List Redir) × Text)
parse_args zero args rs s = out_of_fuel
parse_args (suc f) args rs s =
    let (tok, text, t) = gettoken s in
    let more =
      parseredirs (suc (length t)) rs t >>= λ (qs, u). parse_args f (args ++ (text ∷ [])) qs u in
    if peek s (b'|' ∷ b')' ∷ b'&' ∷ b';' ∷ [])
    then ok ((args, rs), skip s)
    else if tok == 0
    then ok ((args, rs), t)
    else if not (tok == b'a')
    then panic "syntax"
    else if leb 10 (length args + 1)
    then panic "too many args"
    else more

-- The loop of `parseline` over `&`.
pub parse_backs : ℕ → Cmd → Text → Outcome (Cmd × Text)
parse_backs zero c s = out_of_fuel
parse_backs (suc f) c s =
    let more = parse_backs f (back c) (advance s) in
    if peek s (b'&' ∷ []) then more else ok (c, skip s)

-- What the calls leave of the text is no structural part of it, so each call costs a unit of fuel.
mutual
  pub parseline : ℕ → Text → Outcome (Cmd × Text)
  parseline zero s = out_of_fuel
  parseline (suc f) s = parsepipe f s >>= λ (c, t). parse_backs (suc (length t)) c t >>= λ (d, u).
      let more = parseline f (advance u) >>= λ (e, v). ok (list d e, v) in
      if peek u (b';' ∷ []) then more else ok (d, skip u)

  pub parsepipe : ℕ → Text → Outcome (Cmd × Text)
  parsepipe zero s = out_of_fuel
  parsepipe (suc f) s = parseexec f s >>= λ (c, t).
      let more = parsepipe f (advance t) >>= λ (d, u). ok (pipe c d, u) in
      if peek t (b'|' ∷ []) then more else ok (c, skip t)

  pub parseblock : ℕ → Text → Outcome (Cmd × Text)
  parseblock zero s = out_of_fuel
  parseblock (suc f) s =
      let inside = parseline f (advance s) >>= λ (c, t).
      if not (peek t (b')' ∷ []))
      then panic "syntax - missing )"
      else (parseredirs (suc (length (advance t))) [] (advance t) >>= λ (rs, u).
          ok (wrap c rs, u)) in
      if not (peek s (b'(' ∷ [])) then panic "parseblock" else inside

  pub parseexec : ℕ → Text → Outcome (Cmd × Text)
  parseexec zero s = out_of_fuel
  parseexec (suc f) s =
      let block = parseblock f s in
      let simple = parseredirs (suc (length s)) [] s >>= λ (rs, t).
      parse_args (suc (length t)) [] rs t >>= λ ((args, qs), u). ok (wrap (exec args) qs, u) in
      if peek s (b'(' ∷ []) then block else simple

-- Nothing may be left over.
abbrev pub finish : Cmd × Text → Outcome Cmd
finish (c, t) = elim (skip t) [ [] ↦ ok c | d ∷ rest ↦ panic "syntax" ]

pub parsecmd : Text → Outcome Cmd
parsecmd s = parseline (4 * length s + 4) s >>= finish
