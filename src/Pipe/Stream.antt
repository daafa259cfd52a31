-- ===== src/Pipe/Stream.antt =====
-- A writer and a reader that share a pipe, under every interleaving of their turns.
use assignments.Base.{
  ℕ, suc, ◌<◌, List, [], ◌∷◌, ◌++◌, ◌≡◌, refl, sym, ap, ◌∙◌, ◌⊎◌, inl, inr, true, false, leb, ◌==◌,
  ◌&&◌, length, arith, take, drop, take-append-drop, take_all, length-take, length-append, leb→le,
  Bool-cases, append_assoc, append-nil,
}
use assignments.Pipe.{
  Pipe, pipe_size, Wrote, written, broken, waits, pipewrite, copy_out, piperead, Read, bytes,
  killed, sleeps, is_full, put, on_nread, on_nwrite,
}
use assignments.Pipe.Window.{used, free, contents, IsValid, length-window}
use assignments.Pipe.Transfer.{write_result, pipewrite_lem, copy_out-Delivers}

-- The writer's bytes that have not gone in yet, and the bytes that the reader has received.
pub record Stream : Type 0 where
  pub pipe : Pipe
  pub pending : List ℕ
  pub received : List ℕ

pub data Turn : Type 0 where
  writes : Turn
  reads : ℕ → Turn

abbrev pub still_pending : Wrote → List ℕ
still_pending written = []
still_pending broken = []
still_pending (waits rest) = rest

abbrev pub bytes_of : Read → List ℕ
bytes_of (bytes out) = out
bytes_of killed = []
bytes_of sleeps = []

-- A turn runs one process, not killed, until its call returns or sleeps.
pub turn : Stream → Turn → Stream
turn s writes =
    let (q, w, woken) = pipewrite s.pipe false s.pending in
    record s { pipe = q; pending = still_pending w }
turn s (reads n) =
    let (q, r, woken) = piperead s.pipe false n in
    record s { pipe = q; received = s.received ++ bytes_of r }

pub run : Stream → List Turn → Stream
unfolding turn
run s [] = s
run s (t ∷ ts) = run (turn s t) ts

-- Everything sent, in order: received, in the pipe, to be written.
abbrev pub all_bytes : Stream → List ℕ
all_bytes s = s.received ++ (contents s.pipe ++ s.pending)

still_pending_lem :
    (p : Pipe) (xs : List ℕ)
    → p.readopen ≡ true
    → take (free p) xs ++ still_pending (write_result p false xs) ≡ xs
still_pending_lem p xs open_end = elim (Bool-cases (leb (length xs) (free p))) [
  | inl e ↦ rw (e, append-nil) (take_all (free p) xs (leb→le (length xs) (free p) e))
  | inr e ↦ rw (e, open_end) (take-append-drop (free p) xs)
]

writes-keeps :
    (s : Stream)
    → IsValid s.pipe
    → s.pipe.readopen ≡ true
    → IsValid (turn s writes).pipe
      × ((turn s writes).pipe.readopen ≡ true)
      × (all_bytes (turn s writes) ≡ all_bytes s)
unfolding turn
writes-keeps s v open_end =
    let w = pipewrite_lem s.pipe false s.pending v in
    (
      w.valid,
      w.read_end ∙ open_end,
      ap (λ xs. s.received ++ xs)
          (rw (w.stored, w.result, append_assoc)
            (ap (λ xs. contents s.pipe ++ xs) (still_pending_lem s.pipe s.pending open_end))),
    )

-- `piperead` sleeps exactly when the pipe is empty and a writer may come, and else delivers.
pub piperead_cases :
    (p : Pipe) (n : ℕ)
    → ((p.nread ≡ p.nwrite)
        × (p.writeopen ≡ true)
        × ((piperead p false n).0 ≡ p)
        × ((piperead p false n).1 ≡ sleeps))
      ⊎ (((piperead p false n).0 ≡ (copy_out n p).0)
          × ((piperead p false n).1 ≡ bytes (copy_out n p).1))
unfolding piperead
piperead_cases p n = ground arith

reads-keeps :
    (s : Stream) (n : ℕ)
    → IsValid s.pipe
    → s.pipe.readopen ≡ true
    → IsValid (turn s (reads n)).pipe
      × ((turn s (reads n)).pipe.readopen ≡ true)
      × (all_bytes (turn s (reads n)) ≡ all_bytes s)
unfolding turn
reads-keeps s n v open_end = elim (piperead_cases s.pipe n) [
  | inl (empty, may_come, same, asleep) ↦ rw (same, asleep, append-nil) (v, open_end, refl)
  | inr (same, out) ↦
      let d = copy_out-Delivers n s.pipe v in
      rw (same, out)
        (
          d.valid,
          d.read_end ∙ open_end,
          rw (d.delivered, d.left, append_assoc)
              (ap (λ xs. s.received ++ xs)
                (sym (append_assoc (take n (contents s.pipe)) (drop n (contents s.pipe)) s.pending)
                  ∙ ap (λ xs. xs ++ s.pending) (take-append-drop n (contents s.pipe)))),
        )
]

-- No interleaving loses, duplicates or reorders a byte, and the pipe stays valid: what the reader
-- has received, what the pipe holds and what is still to be written make up what was sent.
pub run-all_bytes :
    (ts : List Turn) (s : Stream)
    → IsValid s.pipe
    → s.pipe.readopen ≡ true
    → IsValid (run s ts).pipe × (all_bytes (run s ts) ≡ all_bytes s)
unfolding run
run-all_bytes [] s v open_end = (v, refl)
run-all_bytes (writes ∷ ts) s v open_end =
    let (v', open', same) = writes-keeps s v open_end in
    let (valid, rest) = run-all_bytes ts (turn s writes) v' open' in (valid, rest ∙ same)
run-all_bytes (reads n ∷ ts) s v open_end =
    let (v', open', same) = reads-keeps s n v open_end in
    let (valid, rest) = run-all_bytes ts (turn s (reads n)) v' open' in (valid, rest ∙ same)

waits_over_free :
    (p : Pipe) (xs rest : List ℕ) → write_result p false xs ≡ waits rest → free p < length xs
waits_over_free p xs rest e = ground (arith, Bool-cases (leb (length xs) (free p)))

nonempty_reads :
    (q : Pipe) (n : ℕ)
    → IsValid q
    → used q ≡ pipe_size
    → (out : List ℕ) × ((piperead q false (suc n)).1 ≡ bytes out) × (0 < length out)
nonempty_reads q n v full = elim (piperead_cases q (suc n)) [
  | inl (empty, _, _, _) ↦ absurd (omega (arith, v))
  | inr (_, out) ↦ (
    (copy_out (suc n) q).1,
    out,
    omega (
      arith,
      ap length ((copy_out-Delivers (suc n) q v).delivered),
      length-take (suc n) (contents q),
      length-window q.buf q.nread (used q),
    ),
  )
]

-- A writer that goes to sleep has woken the readers.
waits-wakes :
    (p : Pipe) (xs rest : List ℕ)
    → (pipewrite p false xs).1 ≡ waits rest
    → (pipewrite p false xs).2 ≡ on_nread ∷ []
unfolding pipewrite
waits-wakes p [] rest e = cc
waits-wakes p (x ∷ xs) rest e = elim (Bool-cases (is_full p)) [
  | inl f ↦ elim (Bool-cases p.readopen) [ inl o ↦ rw (f, o) refl | inr o ↦ cc (rw (f, o) at e) ]
  | inr f ↦ rw f (waits-wakes (put p x) xs rest (rw f at e))
]

-- A reader that gets bytes wakes the writers.
bytes-wakes :
    (q : Pipe) (n : ℕ) (out : List ℕ)
    → (piperead q false n).1 ≡ bytes out
    → (piperead q false n).2 ≡ on_nwrite ∷ []
unfolding piperead
bytes-wakes q n out e = elim (Bool-cases (q.nread == q.nwrite && q.writeopen)) [
  | inl f ↦ cc (rw f at e)
  | inr f ↦ rw f refl
]

-- When a writer that is not killed goes to sleep it has woken the readers and the pipe is full, so
-- a reader that asks for bytes gets some, and wakes the writers.
pub writer_sleeps_full :
    (p : Pipe) (xs rest : List ℕ) (n : ℕ)
    → IsValid p
    → (pipewrite p false xs).1 ≡ waits rest
    → ((pipewrite p false xs).2 ≡ on_nread ∷ [])
      × (used (pipewrite p false xs).0 ≡ pipe_size)
      × ((out : List ℕ) × ((piperead (pipewrite p false xs).0 false (suc n)).1 ≡ bytes out)
          × (0 < length out)
          × ((piperead (pipewrite p false xs).0 false (suc n)).2 ≡ on_nwrite ∷ []))
writer_sleeps_full p xs rest n v asleep =
    let w = pipewrite_lem p false xs v in
    let q : Pipe = (pipewrite p false xs).0 in
    let full : used q ≡ pipe_size = omega (
      arith,
      v,
      ap length w.stored,
      length-append (contents p) (take (free p) xs),
      length-take (free p) xs,
      length-window q.buf q.nread (used q),
      length-window p.buf p.nread (used p),
      waits_over_free p xs rest (sym w.result ∙ asleep),
    ) in
    let (out, e, some_byte) = nonempty_reads q n w.valid full in
    (waits-wakes p xs rest asleep, full, (out, e, some_byte, bytes-wakes q (suc n) out e))
