-- ===== src/Content/Read.antt =====
-- The loop of `readi`.
use assignments.Base.{
  ℕ, zero, suc, ◌+◌, ◌-◌, ◌*◌, ◌/◌, ◌%◌, ◌≤◌, ◌<◌, List, [], ◌∷◌, ◌++◌, length, get_or, ◌≡◌, refl,
  sym, ◌∙◌, ap, ap₂, ◌≢◌, arith, ℕ_discrete, dec_lt, ==_ne, lt→ltb, le→ltb_false, ok,
}
use assignments.Balloc.{Fs}
use assignments.Content.{bsize, ndirect, nindirect, maxfile, word_at, bmap, bmap_indirect}
use assignments.Content.Map.{
  indirect, entry, byte_at, entry-word_at, entry-direct_at, byte_at-mapped,
}
use assignments.Base.{min}
use assignments.Content.{bytes_at, read_from}

-- The `n` bytes of the file from `off` on.
abbrev pub bytes_of : Fs → List ℕ → ℕ → ℕ → List ℕ
bytes_of s addrs off zero = []
bytes_of s addrs off (suc n) = byte_at s addrs off ∷ bytes_of s addrs (off + 1) n

-- `bmap` of a block that the file has.
pub bmap-entry :
    (s : Fs) (addrs : List ℕ) (bn : ℕ)
    → bn < maxfile
    → entry s addrs bn ≢ 0
    → bmap bn s addrs ≡ ok (s, addrs, entry s addrs bn)
unfolding bmap bmap_indirect
bmap-entry s addrs bn low some_block = elim (dec_lt bn ndirect) [
  | yes direct ↦
      let listed = entry-direct_at s addrs bn direct in
      rw (lt→ltb bn ndirect direct, ==_ne (get_or addrs bn 0) 0 (λ e. some_block (listed ∙ e))) refl
  | no high ↦ elim (ℕ_discrete (indirect addrs) 0) [
    | yes z ↦ absurd (
        some_block (
          rw
            (
              le→ltb_false bn ndirect (omega (arith, high)),
              ==_ne bn maxfile (λ e. absurd (omega (arith, e))),
              z,
            )
            refl))
    | no ne ↦
        let listed = entry-word_at s addrs bn (omega (arith, high)) low ne in
        rw
          (
            le→ltb_false bn ndirect (omega (arith, high)),
            lt→ltb (bn - ndirect) nindirect (omega (arith, high, low)),
            ==_ne bn maxfile (λ e. absurd (omega (arith, e))),
            ==_ne (indirect addrs) 0 ne,
            ==_ne (word_at (s.content (indirect addrs)) (bn - ndirect)) 0
                (λ e. some_block (listed ∙ e)),
          )
          refl
  ]
]

bytes_of-block :
    (s : Fs) (addrs : List ℕ) (b base k m : ℕ)
    → base % bsize ≡ 0
    → k + m ≤ bsize
    → entry s addrs (base / bsize) ≡ b
    → b ≢ 0
    → bytes_at (s.content b) k m ≡ bytes_of s addrs (base + k) m
bytes_of-block s addrs b base k zero aligned inside mapped ne = refl
bytes_of-block s addrs b base k (suc m) aligned inside mapped ne =
    ap₂ (λ x xs. x ∷ xs)
      (sym (
        byte_at-mapped s addrs (base + k) b (ap (entry s addrs) same_block ∙ mapped) ne
        ∙ ap (s.content b) same_place))
      (bytes_of-block s addrs b base (k + 1) m aligned (omega (arith, inside)) mapped ne
        ∙ ap (λ off. bytes_of s addrs off m) next)
  where
    same_block : (base + k) / bsize ≡ base / bsize
    same_block = omega (arith, aligned, inside)

    same_place : (base + k) % bsize ≡ k
    same_place = omega (arith, aligned, inside)

    next : base + (k + 1) ≡ base + k + 1
    next = omega arith

bytes_of-append :
    (s : Fs) (addrs : List ℕ) (off m n : ℕ)
    → bytes_of s addrs off m ++ bytes_of s addrs (off + m) n ≡ bytes_of s addrs off (m + n)
bytes_of-append s addrs off zero n = same off n (off + 0) (0 + n) (omega arith) (omega arith)
  where
    same :
        (off n off' n' : ℕ)
        → off' ≡ off
        → n' ≡ n
        → bytes_of s addrs off' n ≡ bytes_of s addrs off n'
    same off n off' n' e f = rw (e, f) refl
bytes_of-append s addrs off (suc m) n =
    ap (λ xs. byte_at s addrs off ∷ xs)
      (ap (λ k. bytes_of s addrs (off + 1) m ++ bytes_of s addrs k n) after
        ∙ bytes_of-append s addrs (off + 1) m n)
    ∙ ap (bytes_of s addrs off) total
  where
    after : off + suc m ≡ off + 1 + m
    after = omega arith

    total : suc (m + n) ≡ suc m + n
    total = omega arith

-- The bytes of a round of the loop, and those after it.
read_round :
    (s : Fs) (addrs : List ℕ) (off m n : ℕ)
    → entry s addrs (off / bsize) ≢ 0
    → off % bsize + m ≤ bsize
    → m ≤ n
    → bytes_at (s.content (entry s addrs (off / bsize))) (off % bsize) m
        ++ bytes_of s addrs (off + m) (n - m)
      ≡ bytes_of s addrs off n
read_round s addrs off m n ne inside low =
    ap (λ xs. xs ++ bytes_of s addrs (off + m) (n - m))
      (bytes_of-block s addrs (entry s addrs (off / bsize)) (off - off % bsize) (off % bsize) m
          aligned inside (ap (entry s addrs) same_block) ne
        ∙ ap (λ k. bytes_of s addrs k m) here)
    ∙ bytes_of-append s addrs off m (n - m)
    ∙ ap (bytes_of s addrs off) total
  where
    aligned : (off - off % bsize) % bsize ≡ 0
    aligned = omega arith

    same_block : (off - off % bsize) / bsize ≡ off / bsize
    same_block = omega arith

    here : off - off % bsize + off % bsize ≡ off
    here = omega arith

    total : m + (n - m) ≡ n
    total = omega (arith, low)

pub length-bytes_of : (s : Fs) (addrs : List ℕ) (off n : ℕ) → length (bytes_of s addrs off n) ≡ n
length-bytes_of s addrs off zero = refl
length-bytes_of s addrs off (suc n) = ap suc (length-bytes_of s addrs (off + 1) n)

pub read_from-bytes_of :
    (fuel left off : ℕ) (s : Fs) (addrs : List ℕ)
    → left ≤ fuel
    → off + left ≤ maxfile * bsize
    → ((k : ℕ) → off ≤ k → k < off + left → entry s addrs (k / bsize) ≢ 0)
    → read_from fuel left off s addrs ≡ ok (s, addrs, bytes_of s addrs off left)
unfolding read_from
read_from-bytes_of zero zero off s addrs enough room filled = refl
read_from-bytes_of zero (suc left) off s addrs enough room filled = absurd (omega arith)
read_from-bytes_of (suc fuel) zero off s addrs enough room filled = refl
read_from-bytes_of (suc fuel) (suc left) off s addrs enough room filled =
    let m = min (suc left) (bsize - off % bsize) in
    let ne = filled off (omega arith) (omega arith) in
    rw
      (
        lt→ltb 0 (suc left) (omega arith),
        bmap-entry s addrs (off / bsize) (omega arith) ne,
        read_from-bytes_of fuel (suc left - m) (off + m) s addrs (omega arith) (omega arith)
            (λ k h below. filled k (omega (arith, h)) (omega (arith, h, below))),
      )
      (ap (λ bs. ok (s, addrs, bs))
        (read_round s addrs off m (suc left) ne (omega arith) (omega arith)))
