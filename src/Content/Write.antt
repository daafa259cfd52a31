-- ===== src/Content/Write.antt =====
-- The loop of `writei`.
use assignments.Base.{
  ℕ, zero, suc, ◌+◌, ◌-◌, ◌*◌, ◌/◌, ◌%◌, ◌≤◌, ◌<◌, List, [], ◌∷◌, ◌++◌, length, get_or, ◌≡◌, refl,
  sym, ◌∙◌, ap, ◌≢◌, ◌⊎◌, inl, inr, false, ◌==◌, ltb, leb, ◌&&◌, if◌then◌else◌, arith, ℕ_discrete,
  dec_lt, ==_refl, ==_ne, lt→ltb, le→leb, lt→leb_false, le→ltb_false, subst, Res, ok, panic,
}
use assignments.Memory.{Memory}
use assignments.Balloc.{Fs, store}
use assignments.Balloc.Fresh.{InUse}
use assignments.Content.{bsize, maxfile, bmap}
use assignments.Content.Map.{entry, byte_at, IsFile, Outside, byte_at-mapped}
use assignments.Content.Grow.{Maps}
use assignments.Base.{
  take, drop, min, get_or-append_left, get_or-append_right, length-append, append_assoc,
  take-append-drop, ◌>>=◌, length-take, length-drop,
}
use assignments.Content.{put_bytes, write_from}
use assignments.Content.Words.{put_bytes-at}
use assignments.Content.Bmap.{Full, bmap_lem}
use assignments.Content.Stores.{entry-store, IsFile-store, byte_at-store, frame-store}

-- The bytes of a file after a write of `src` at `off`.
abbrev pub written : ℕ → List ℕ → (ℕ → ℕ) → ℕ → ℕ
written off src before k =
    if leb off k && ltb k (off + length src) then get_or src (k - off) 0 else before k

-- The step from `s` and `addrs` to `t` and `ad` writes `src` at `off`, and no block of another file.
pub record Writes (start : ℕ) (s : Fs) (addrs : List ℕ) (off : ℕ) (src : List ℕ) (t : Fs)
    (ad : List ℕ) : Type 0 where
  pub file : IsFile start t ad
  pub view : (k : ℕ) → k < maxfile * bsize → byte_at t ad k ≡ written off src (byte_at s addrs) k
  pub keeps : (j : ℕ) → entry s addrs j ≢ 0 → entry t ad j ≢ 0
  pub covers : (k : ℕ) → off ≤ k → k < off + length src → entry t ad (k / bsize) ≢ 0
  pub settled :
      ((k : ℕ) → off ≤ k → k < off + length src → entry s addrs (k / bsize) ≢ 0) → ad ≡ addrs
  pub frame :
      (c : ℕ)
      → InUse start s c
      → Outside s addrs c
      → Outside t ad c × InUse start t c × (t.content c ≡ s.content c)

-- The write is done, or a state is reached, with some of the bytes written, where `bmap` panics
-- because the disk is full.
abbrev pub Written : ℕ → Fs → List ℕ → ℕ → List ℕ → Res (Fs × List ℕ × ℕ) → Type 0
Written start s addrs off src r =
    ((t : Fs) × (ad : List ℕ) × (r ≡ ok (t, ad, off + length src))
      × Writes start s addrs off src t ad)
    ⊎ ((r ≡ panic "balloc: out of blocks")
        × (t : Fs) × (ad : List ℕ) × (done : List ℕ) × (rest : List ℕ) × (done ++ rest ≡ src)
        × Writes start s addrs off done t ad
        × Full t)

Writes-nil :
    (start : ℕ) (s : Fs) (addrs : List ℕ) (off : ℕ)
    → IsFile start s addrs
    → Writes start s addrs off [] s addrs
Writes-nil start s addrs off f = record {
  file = f;
  view = λ k h. ground arith;
  keeps = λ j ne. ne;
  covers = λ k h below. absurd (omega arith);
  settled = λ filled. refl;
  frame = λ c used apart. (apart, used, refl);
}

written-block :
    (m : Memory) (off k x : ℕ) (src : List ℕ)
    → off % bsize + length src ≤ bsize
    → (k / bsize ≡ off / bsize → x ≡ m (k % bsize))
    → (if k / bsize == off / bsize then put_bytes m (off % bsize) src (k % bsize) else x)
      ≡ (if leb off k && ltb k (off + length src) then get_or src (k - off) 0 else x)
written-block m off k x src inside before = elim (ℕ_discrete (k / bsize) (off / bsize)) [
  | yes same ↦
      rw (same, ==_refl (off / bsize))
        (put_bytes-at m (off % bsize) src (k % bsize)
          ∙ rw (same_test k off (length src) same, same_place k off same, before same) refl)
  | no other ↦
      rw (==_ne (k / bsize) (off / bsize) other, apart k off (length src) inside other) refl
]
  where
    same_test :
        (k off n : ℕ)
        → k / bsize ≡ off / bsize
        → (leb (off % bsize) (k % bsize) && ltb (k % bsize) (off % bsize + n))
          ≡ (leb off k && ltb k (off + n))
    same_test k off n same = ground arith

    same_place : (k off : ℕ) → k / bsize ≡ off / bsize → k % bsize - off % bsize ≡ k - off
    same_place k off same = omega arith

    apart :
        (k off n : ℕ)
        → off % bsize + n ≤ bsize
        → k / bsize ≢ off / bsize
        → (leb off k && ltb k (off + n)) ≡ false
    apart k off n inside other = ground arith

-- A write within one block.
Writes-block :
    (start b : ℕ) (s t : Fs) (addrs ad : List ℕ) (off : ℕ) (src : List ℕ)
    → Maps start s addrs (off / bsize) t ad b
    → 0 < length src
    → off % bsize + length src ≤ bsize
    → off / bsize < maxfile
    → Writes start s addrs off src (store t b (put_bytes (t.content b) (off % bsize) src)) ad
Writes-block start b s t addrs ad off src maps some_byte inside low = record {
  file =
      IsFile-store start (off / bsize) b t ad bytes maps.grows.file low maps.mapped maps.some_block;
  view = λ k h.
      byte_at-store start (off / bsize) b t ad bytes maps.grows.file low maps.mapped maps.some_block
        k h
      ∙ written-block (t.content b) off k (byte_at t ad k) src inside
          (λ same. byte_at-mapped (t) ad k b (ap (entry t ad) same ∙ maps.mapped) maps.some_block)
      ∙ ap (λ x. if leb off k && ltb k (off + length src) then get_or src (k - off) 0 else x)
          (maps.grows.view k h);
  keeps = λ j ne. same_entry j (maps.grows.keeps j ne);
  covers = λ k h below.
      same_entry (k / bsize)
        (λ e. maps.some_block (sym maps.mapped ∙ ap (entry t ad) (same_block k h below) ∙ e));
  settled = λ filled. maps.settled (filled off (omega arith) (omega (arith, some_byte)));
  frame = λ c used apart.
      let grown = maps.grows.frame c used apart in
      let stored =
        frame-store start (off / bsize) b t ad bytes maps.grows.file low maps.mapped maps.some_block
          c (grown.1) (grown.0) in
      (stored.0, stored.1, stored.2 ∙ grown.2);
}
  where
    bytes : Memory
    bytes = put_bytes (t.content b) (off % bsize) src

    same_block : (k : ℕ) → off ≤ k → k < off + length src → off / bsize ≡ k / bsize
    same_block k h below = omega (arith, inside, h, below)

    same_entry : (j : ℕ) → entry t ad j ≢ 0 → entry (store t b bytes) ad j ≢ 0
    same_entry j ne e = ne (
        sym (
          entry-store start (off / bsize) b t ad bytes maps.grows.file low maps.mapped
            maps.some_block j)
        ∙ e)

written-append :
    (off k x : ℕ) (xs ys : List ℕ)
    → (if leb (off + length xs) k && ltb k (off + length xs + length ys)
        then get_or ys (k - (off + length xs)) 0
        else if leb off k && ltb k (off + length xs)
        then get_or xs (k - off) 0
        else x)
      ≡ (if leb off k && ltb k (off + length (xs ++ ys)) then get_or (xs ++ ys) (k - off) 0 else x)
written-append off k x xs ys = elim (dec_lt k (off + length xs)) [
  | yes early ↦ rw (lt→leb_false (off + length xs) k early) (elim (dec_lt k off) [
    | yes before ↦ rw (lt→leb_false off k before) refl
    | no after ↦
        rw
          (
            lt→ltb k (off + length xs) early,
            lt→ltb k (off + length (xs ++ ys)) (omega (arith, early, length-append xs ys)),
            get_or-append_left xs ys (k - off) 0 (omega (arith, early, after)),
          )
          refl
  ])
  | no late ↦
      rw
        (
          le→leb (off + length xs) k (omega (arith, late)),
          le→leb off k (omega (arith, late)),
          length-append xs ys,
          le→ltb_false k (off + length xs) (omega (arith, late)),
          place k off (length xs) (omega (arith, late)),
          get_or-append_right xs ys (k - (off + length xs)) 0,
          assoc off (length xs) (length ys),
        )
        refl
]
  where
    place : (k off m : ℕ) → off + m ≤ k → k - off ≡ m + (k - (off + m))
    place k off m h = omega arith

    assoc : (off m n : ℕ) → off + (m + n) ≡ off + m + n
    assoc off m n = omega arith

Writes-append :
    (start : ℕ) (s t u : Fs) (addrs ad bd : List ℕ) (off : ℕ) (xs ys : List ℕ)
    → Writes start s addrs off xs t ad
    → Writes start t ad (off + length xs) ys u bd
    → Writes start s addrs off (xs ++ ys) u bd
Writes-append start s t u addrs ad bd off xs ys first second = record {
  file = second.file;
  view = λ k h.
      second.view k h
      ∙ ap
          (λ x.
            if leb (off + length xs) k && ltb k (off + length xs + length ys)
            then get_or ys (k - (off + length xs)) 0
            else x)
          (first.view k h)
      ∙ written-append off k (byte_at s addrs k) xs ys;
  keeps = λ j ne. second.keeps j (first.keeps j ne);
  covers = λ k h below. elim (dec_lt k (off + length xs)) [
    | yes early ↦ second.keeps (k / bsize) (first.covers k h early)
    | no late ↦ second.covers k (omega (arith, late)) (omega (arith, below, length-append xs ys))
  ];
  settled = λ filled.
      let unchanged =
        first.settled (λ k h below. filled k h (omega (arith, below, length-append xs ys))) in
      second.settled (λ k h below.
        first.keeps (k / bsize)
          (filled k (omega (arith, h)) (omega (arith, below, length-append xs ys))))
      ∙ unchanged;
  frame = λ c used apart.
      let one = first.frame c used apart in
      let two = second.frame c (one.1) (one.0) in (two.0, two.1, two.2 ∙ one.2);
}

add_none : (n : ℕ) → n ≡ n + 0
add_none n = omega arith

-- A round of the loop, with `m` bytes to write, and the rounds after it.
write_round :
    (start fuel off m : ℕ) (src : List ℕ) (s : Fs) (addrs : List ℕ)
    → ((t : Fs) (ad : List ℕ)
        → IsFile start t ad
        → Written start t ad (off + m) (drop m src) (write_from fuel (off + m) (drop m src) t ad))
    → IsFile start s addrs
    → 0 < m
    → m ≤ length src
    → off % bsize + m ≤ bsize
    → off + length src ≤ maxfile * bsize
    → Written start s addrs off src (
        bmap (off / bsize) s addrs >>= λ (t, ad, b).
        write_from fuel
          (off + m)
          (drop m src)
          (store t b (put_bytes (t.content b) (off % bsize) (take m src)))
          ad)
write_round start fuel off m src s addrs later f some_byte low inside room =
    elim (bmap_lem start (off / bsize) s addrs f (omega arith)) [
      | inr (e, full) ↦
          inr (rw e refl, s, addrs, [], src, refl, Writes-nil start s addrs off f, full)
      | inl (t, ad, b, e, maps) ↦
          let first =
            Writes-block start b s t addrs ad off (take m src) maps
              (omega (arith, some_byte, taken)) (omega (arith, inside, taken)) (omega arith) in
          elim (later (store t b (put_bytes (t.content b) (off % bsize) (take m src))) ad
            first.file) [
              | inl (u, bd, g, second) ↦ inl (
                u,
                bd,
                rw (e, g) (ap (λ k. ok (u, bd, k)) total),
                subst (λ xs. Writes start s addrs off xs u bd) (take-append-drop m src)
                    (Writes-append start s
                      (store t b (put_bytes (t.content b) (off % bsize) (take m src))) u addrs ad bd
                      off (take m src) (drop m src) first (rw taken second)),
              )
              | inr (g, u, bd, done, rest, same, second, full) ↦ inr (
                rw (e, g) refl,
                u,
                bd,
                take m src ++ done,
                rest,
                append_assoc (take m src) done rest
                    ∙ ap (λ xs. take m src ++ xs) same
                    ∙ take-append-drop m src,
                Writes-append start s
                    (store t b (put_bytes (t.content b) (off % bsize) (take m src))) u addrs ad bd
                    off (take m src) done first (rw taken second),
                full,
              )
            ]
    ]
  where
    taken : length (take m src) ≡ m
    taken = omega (arith, length-take m src, low)

    total : off + m + length (drop m src) ≡ off + length src
    total = omega (arith, length-drop m src, low)

pub write_from-Written :
    (start fuel off : ℕ) (src : List ℕ) (s : Fs) (addrs : List ℕ)
    → IsFile start s addrs
    → length src ≤ fuel
    → off + length src ≤ maxfile * bsize
    → Written start s addrs off src (write_from fuel off src s addrs)
unfolding write_from
write_from-Written start zero off [] s addrs f enough room =
    inl (s, addrs, ap (λ k. ok (s, addrs, k)) (add_none off), Writes-nil start s addrs off f)
write_from-Written start (suc fuel) off [] s addrs f enough room =
    inl (s, addrs, ap (λ k. ok (s, addrs, k)) (add_none off), Writes-nil start s addrs off f)
write_from-Written start zero off (c ∷ cs) s addrs f enough room = absurd (omega arith)
write_from-Written start (suc fuel) off (c ∷ cs) s addrs f enough room =
    let m = min (length (c ∷ cs)) (bsize - off % bsize) in
    rw (lt→ltb 0 (length (c ∷ cs)) (omega arith)) (
      write_round start fuel off m (c ∷ cs) s addrs
        (λ t ad g.
          write_from-Written start fuel (off + m) (drop m (c ∷ cs)) t ad g
            (omega (arith, length-drop m (c ∷ cs))) (omega (arith, length-drop m (c ∷ cs))))
        f (omega arith) (omega arith) (omega arith) room)
