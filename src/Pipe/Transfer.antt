-- ===== src/Pipe/Transfer.antt =====
-- What one call of `pipewrite` or `piperead` moves.
use assignments.Base.{
  ℕ, zero, suc, ◌-◌, ◌%◌, ◌<◌, List, [], ◌∷◌, ◌++◌, ◌≡◌, refl, ◌≢◌, ◌∙◌, inl, inr, Bool, true,
  false, ◌||◌, not, leb, if◌then◌else◌, get_or, length, arith, take, drop, take-cons, drop-cons,
  take-nil, Bool-cases, ℕ_discrete, append_assoc, append-nil, suc, le→leb, ==_refl, ==_ne,
  lt→leb_false, leb-pred,
}
use assignments.Pipe.{
  Pipe, pipe_size, put, got, is_full, Wrote, written, broken, waits, pipewrite, copy_out, Chan,
  on_nread,
}
use assignments.Pipe.Window.{
  used, free, contents, IsValid, is_full_iff, used-put, contents-put, put-IsValid, contents-got,
  got-IsValid,
}

-- How `pipewrite` ends: all bytes went in, or the writer fails or waits with the rest.
abbrev pub write_result : Pipe → Bool → List ℕ → Wrote
write_result p is_killed xs =
    if leb (length xs) (free p)
    then written
    else if not p.readopen || is_killed
    then broken
    else waits (drop (free p) xs)

-- `pipewrite` takes as many bytes as fit, in order, and its result tells which are left.
pub record Writes (p : Pipe) (is_killed : Bool) (xs : List ℕ) (out : Pipe × Wrote × List Chan)
    : Type 0 where
  pub stored : contents out.0 ≡ contents p ++ take (free p) xs
  pub result : out.1 ≡ write_result p is_killed xs
  pub valid : IsValid out.0
  pub read_end : out.0.readopen ≡ p.readopen
  pub write_end : out.0.writeopen ≡ p.writeopen

pipewrite-full_lem :
    (p : Pipe) (is_killed : Bool) (x : ℕ) (rest : List ℕ)
    → is_full p ≡ true
    → pipewrite p is_killed (x ∷ rest) ≡ (
        if not p.readopen || is_killed
        then (p, broken, [])
        else (p, waits (x ∷ rest), on_nread ∷ []))
unfolding pipewrite
pipewrite-full_lem p is_killed x rest e = rw e

pipewrite-space_lem :
    (p : Pipe) (is_killed : Bool) (x : ℕ) (rest : List ℕ)
    → is_full p ≡ false
    → pipewrite p is_killed (x ∷ rest) ≡ pipewrite (put p x) is_killed rest
unfolding pipewrite
pipewrite-space_lem p is_killed x rest e = rw e

-- A full pipe takes nothing.
stuck-Writes :
    (p : Pipe) (is_killed : Bool) (x : ℕ) (rest : List ℕ) (w : Wrote) (woken : List Chan)
    → IsValid p
    → free p ≡ 0
    → w ≡ (if not p.readopen || is_killed then broken else waits (x ∷ rest))
    → Writes p is_killed (x ∷ rest) (p, w, woken)
stuck-Writes p is_killed x rest w woken v full e = record {
  stored = rw (full, append-nil);
  result = e ∙ rw (full, lt→leb_false (suc (length rest)) 0 (omega arith));
  valid = v;
  read_end = refl;
  write_end = refl;
}

pipewrite-full :
    (p : Pipe) (is_killed : Bool) (x : ℕ) (rest : List ℕ)
    → IsValid p
    → free p ≡ 0
    → Writes p is_killed (x ∷ rest) (pipewrite p is_killed (x ∷ rest))
pipewrite-full p is_killed x rest v full =
    rw (pipewrite-full_lem p is_killed x rest ((is_full_iff p v).1 full))
      (elim (Bool-cases (not p.readopen || is_killed)) [
        | inl e ↦ rw e (stuck-Writes p is_killed x rest broken [] v full (rw e))
        | inr e ↦
            rw e (stuck-Writes p is_killed x rest (waits (x ∷ rest)) (on_nread ∷ []) v full (rw e))
      ])

-- One byte goes in, and the rest is written to the pipe that has it.
pipewrite-space :
    (p : Pipe) (is_killed : Bool) (x : ℕ) (rest : List ℕ) (out : Pipe × Wrote × List Chan)
    → IsValid p
    → used p < pipe_size
    → Writes (put p x) is_killed rest out
    → Writes p is_killed (x ∷ rest) out
pipewrite-space p is_killed x rest out v space w = record {
  stored =
      w.stored
      ∙ rw (contents-put p x v space, append_assoc, take-cons (free p) x rest (omega arith), less);
  result =
      w.result
      ∙ rw (
        drop-cons (free p) x rest (omega arith),
        less,
        leb-pred (length rest) (free p) (omega arith),
      );
  valid = w.valid;
  read_end = w.read_end;
  write_end = w.write_end;
}
  where
    less : free (put p x) ≡ free p - 1
    less = omega (arith, used-put p x v space)

-- `pipewrite`, up to its return or its next sleep, appends to the pipe as many of the bytes as fit; it
-- returns if all do, and otherwise fails if the read end is closed or the process was killed, or
-- sleeps with the bytes that are left. The pipe stays valid, and its ends as they were.
pub pipewrite_lem :
    (p : Pipe) (is_killed : Bool) (xs : List ℕ)
    → IsValid p
    → Writes p is_killed xs (pipewrite p is_killed xs)
unfolding pipewrite
pipewrite_lem p is_killed [] v = record {
  stored = rw (take-nil, append-nil);
  result = rw (le→leb 0 (free p) (omega arith));
  valid = v;
  read_end = refl;
  write_end = refl;
}
pipewrite_lem p is_killed (x ∷ rest) v = elim (ℕ_discrete (free p) 0) [
  | yes full ↦ pipewrite-full p is_killed x rest v full
  | no space ↦
      rw
        (pipewrite-space_lem p is_killed x rest
          (ground (arith, is_full_iff p v, Bool-cases (is_full p))))
        (pipewrite-space p is_killed x rest _ v (omega arith)
          (pipewrite_lem (put p x) is_killed rest (put-IsValid p x v (omega arith))))
]

copy_out-cons :
    (n : ℕ) (p : Pipe)
    → p.nread ≢ p.nwrite
    → copy_out (suc n) p
      ≡ ((copy_out n (got p)).0, get_or p.buf (p.nread % pipe_size) 0 ∷ (copy_out n (got p)).1)
unfolding copy_out
copy_out-cons n p h = rw (==_ne p.nread p.nwrite h)

copy_out-empty : (n : ℕ) (p : Pipe) → p.nread ≡ p.nwrite → copy_out n p ≡ (p, [])
unfolding copy_out
copy_out-empty zero p h = refl
copy_out-empty (suc n) p h = rw (h, ==_refl)

-- The copy loop delivers the oldest `n` bytes, or all there are, and leaves the others.
pub record Delivers (p : Pipe) (n : ℕ) (out : Pipe × List ℕ) : Type 0 where
  pub delivered : out.1 ≡ take n (contents p)
  pub left : contents out.0 ≡ drop n (contents p)
  pub valid : IsValid out.0
  pub read_end : out.0.readopen ≡ p.readopen
  pub write_end : out.0.writeopen ≡ p.writeopen

used_zero : (p : Pipe) → IsValid p → p.nread ≡ p.nwrite → used p ≡ 0
used_zero p v e = omega (arith, v)

-- The copy loop of `piperead` takes the `n` oldest bytes of the pipe, or all if there are fewer, in
-- order, and leaves the others. The pipe stays valid, and its ends as they were.
pub copy_out-Delivers : (n : ℕ) (p : Pipe) → IsValid p → Delivers p n (copy_out n p)
unfolding copy_out
copy_out-Delivers zero p v = record {
  delivered = refl;
  left = refl;
  valid = v;
  read_end = refl;
  write_end = refl;
}
copy_out-Delivers (suc n) p v = elim (ℕ_discrete p.nread p.nwrite) [
  | yes e ↦ rw (copy_out-empty (suc n) p e) (record {
    delivered = rw (used_zero p v e);
    left = rw (used_zero p v e);
    valid = v;
    read_end = refl;
    write_end = refl;
  })
  | no h ↦
      let d = copy_out-Delivers n (got p) (got-IsValid p v h) in
      rw (copy_out-cons n p h) (record {
        delivered = rw (contents-got p v h, d.delivered);
        left = rw (contents-got p v h) d.left;
        valid = d.valid;
        read_end = d.read_end;
        write_end = d.write_end;
      })
]
