-- ===== src/Content/Map.antt =====
-- The blocks that a file has, as one map from the file's block numbers.
use assignments.Base.{
  ℕ, ◌+◌, ◌-◌, ◌/◌, ◌%◌, ◌≤◌, ◌<◌, List, length, get_or, set, ◌≡◌, refl, sym, ◌∙◌, ap, ◌≢◌, ◌⊎◌,
  inl, inr, ◌==◌, ltb, if◌then◌else◌, update, arith, ℕ_discrete, dec_lt, ==_refl, ==_ne, word_mod,
  lt→ltb, le→ltb_false, get_or-set_self, get_or-set_ne,
}
use assignments.Memory.{Memory}
use assignments.Balloc.{Fs, bpb, store, bitmap_block}
use assignments.Balloc.Fresh.{is_free, Laid, InUse, Allocates}
use assignments.Content.Words.{word_at-put_word}
use assignments.Content.{bsize, ndirect, maxfile, word_at, put_word}

abbrev pub indirect : List ℕ → ℕ
indirect addrs = get_or addrs ndirect 0

-- Block `i` of the file, and for `i` = MAXFILE its indirect block; 0 where there is none.
abbrev pub entry : Fs → List ℕ → ℕ → ℕ
entry s addrs i =
    if ltb i ndirect
    then get_or addrs i 0
    else if i == maxfile
    then indirect addrs
    else if indirect addrs == 0
    then 0
    else word_at (s.content (indirect addrs)) (i - ndirect)

-- A byte of a block, 0 where there is none, and a byte of the file.
abbrev pub byte_in : (ℕ → Memory) → ℕ → ℕ → ℕ
byte_in content b k = if b == 0 then 0 else content b k

abbrev pub byte_at : Fs → List ℕ → ℕ → ℕ
byte_at s addrs off = byte_in s.content (entry s addrs (off / bsize)) (off % bsize)

-- The blocks are data blocks in use, each once.
pub record Owns (start : ℕ) (s : Fs) (blocks : ℕ → ℕ) : Type 0 where
  pub owned : (i : ℕ) → i ≤ maxfile → (blocks i ≡ 0) ⊎ InUse start s (blocks i)
  pub distinct : (i j : ℕ) → i ≤ maxfile → j ≤ maxfile → blocks i ≢ 0 → blocks i ≡ blocks j → i ≡ j

-- The layout of the disk, and of a file on it.
pub record IsFile (start : ℕ) (s : Fs) (addrs : List ℕ) : Type 0 where
  pub laid : Laid start s
  pub some_meta : 0 < start
  pub room : start ≤ s.size
  pub words : s.size ≤ word_mod
  pub slots : length addrs ≡ 13
  pub owns : Owns start s (entry s addrs)

-- A block that is not of this file.
abbrev pub Outside : Fs → List ℕ → ℕ → Type 0
Outside s addrs c = (j : ℕ) → j ≤ maxfile → c ≢ entry s addrs j

pub InUse-Allocates :
    (start : ℕ) (s t : Fs) (a b : ℕ) → Allocates start s t a → InUse start s b → InUse start t b
InUse-Allocates start s t a b al (above, low, used) =
    (above, rw al.same_size low, al.free b low ∙ ground (arith, used))

pub InUse-fresh : (start : ℕ) (s t : Fs) (a b : ℕ) → Allocates start s t a → InUse start s b → b ≢ a
InUse-fresh start s t a b al (above, low, used) e = cc (al.fresh, used, e)

-- A file that has been given the free block `a` as its block `i`.
pub Owns-update :
    (start : ℕ) (s t : Fs) (blocks : ℕ → ℕ) (i a : ℕ)
    → Allocates start s t a
    → blocks i ≡ 0
    → Owns start s blocks
    → Owns start t (update blocks i a)
Owns-update start s t blocks i a al empty o = record {
  owned = λ j h. elim (ℕ_discrete j i) [
    | yes e ↦
        rw (e, ==_refl i)
          (inr (al.data_block, rw al.same_size al.low, al.free a al.low ∙ rw (==_refl a) refl))
    | no ne ↦ rw (==_ne j i ne) (elim (o.owned j h) [
      | inl z ↦ inl z
      | inr u ↦ inr (InUse-Allocates start s t a (blocks j) al u)
    ])
  ];
  distinct = λ j k low high. elim (ℕ_discrete j i) [
    | yes e ↦ elim (ℕ_discrete k i) [
      | yes f ↦ λ ne same. e ∙ sym f
      | no f ↦ rw (e, ==_refl i, ==_ne k i f) (λ ne same. absurd (other k high ne (sym same)))
    ]
    | no e ↦ elim (ℕ_discrete k i) [
      | yes f ↦
          rw (f, ==_refl i, ==_ne j i e) (λ ne same. absurd (other j low (λ z. ne (same ∙ z)) same))
      | no f ↦ rw (==_ne j i e, ==_ne k i f) (o.distinct j k low high)
    ]
  ];
}
  where
    other : (j : ℕ) → j ≤ maxfile → a ≢ 0 → blocks j ≢ a
    other j h some_block e = elim (o.owned j h) [
      | inl z ↦ some_block (sym e ∙ z)
      | inr u ↦ InUse-fresh start s t a (blocks j) al u e
    ]

-- A store into a data block changes no mark.
pub store-is_free :
    (start : ℕ) (s : Fs) (b : ℕ) (m : Memory) (c : ℕ)
    → s.size / bpb + s.bmapstart < start
    → start ≤ b
    → c < s.size
    → is_free (store s b m) c ≡ is_free s c
store-is_free start s b m c below above low =
    rw (==_ne (bitmap_block s c) b (λ e. absurd (omega (arith, e)))) refl

-- An indirect block is in use, and is none of the blocks that it lists.
pub indirect-InUse :
    (start : ℕ) (s : Fs) (addrs : List ℕ)
    → IsFile start s addrs
    → indirect addrs ≢ 0
    → InUse start s (indirect addrs)
indirect-InUse start s addrs f ne = elim (f.owns.owned maxfile (omega arith)) [
  | inl z ↦ absurd (ne z)
  | inr u ↦ u
]

pub indirect-apart :
    (start : ℕ) (s : Fs) (addrs : List ℕ) (i : ℕ)
    → IsFile start s addrs
    → i < maxfile
    → entry s addrs i ≢ 0
    → entry s addrs i ≢ indirect addrs
indirect-apart start s addrs i f h ne e =
    absurd (omega (arith, h, f.owns.distinct i maxfile (omega arith) (omega arith) ne e))

-- The entries depend on the indirect block only.
pub entry-congr :
    (s t : Fs) (addrs : List ℕ) (j : ℕ)
    → (indirect addrs ≢ 0 → t.content (indirect addrs) ≡ s.content (indirect addrs))
    → entry t addrs j ≡ entry s addrs j
entry-congr s t addrs j same = elim (ℕ_discrete (indirect addrs) 0) [
  | yes z ↦ rw z refl
  | no ne ↦ rw (same ne) refl
]

-- A new direct block.
pub entry-direct :
    (s t : Fs) (addrs : List ℕ) (bn a j : ℕ)
    → bn < ndirect
    → length addrs ≡ 13
    → (indirect addrs ≢ 0 → t.content (indirect addrs) ≡ s.content (indirect addrs))
    → entry t (set addrs bn a) j ≡ update (entry s addrs) bn a j
entry-direct s t addrs bn a j low slots same = elim (ℕ_discrete j bn) [
  | yes e ↦
      rw (e, ==_refl bn, lt→ltb bn ndirect low)
        (get_or-set_self addrs bn a 0 (omega (arith, slots)))
  | no ne ↦
      rw
        (
          ==_ne j bn ne,
          get_or-set_ne addrs bn j a 0 (λ e. ne (sym e)),
          get_or-set_ne addrs bn ndirect a 0 (λ e. absurd (omega (arith, e))),
        )
        (entry-congr s t addrs j same)
]

-- A new indirect block, whose words are all 0.
pub entry-indirect :
    (s t : Fs) (addrs : List ℕ) (a j : ℕ)
    → length addrs ≡ 13
    → indirect addrs ≡ 0
    → t.content a ≡ (λ k. 0)
    → entry t (set addrs ndirect a) j ≡ update (entry s addrs) maxfile a j
entry-indirect s t addrs a j slots none zeros = elim (dec_lt j ndirect) [
  | yes low ↦
      rw
        (
          lt→ltb j ndirect low,
          ==_ne j maxfile (λ e. absurd (omega (arith, e))),
          get_or-set_ne addrs ndirect j a 0 (λ e. absurd (omega (arith, e))),
        )
        refl
  | no high ↦
      rw
        (
          le→ltb_false j ndirect (omega (arith, high)),
          get_or-set_self addrs ndirect a 0 (omega (arith, slots)),
          none,
        )
        (elim (ℕ_discrete j maxfile) [
          | yes e ↦ rw e refl
          | no ne ↦ rw (==_ne j maxfile ne) (elim (ℕ_discrete a 0) [
            | yes e ↦ rw e refl
            | no some_block ↦ rw (==_ne a 0 some_block, zeros) refl
          ])
        ])
]

-- A new entry of the indirect block `b`.
pub entry-word :
    (s t : Fs) (addrs : List ℕ) (bn a j : ℕ)
    → ndirect ≤ bn
    → bn < maxfile
    → a < word_mod
    → indirect addrs ≢ 0
    → t.content (indirect addrs) ≡ put_word (s.content (indirect addrs)) (bn - ndirect) a
    → entry t addrs j ≡ update (entry s addrs) bn a j
entry-word s t addrs bn a j above low word some_block e = elim (dec_lt j ndirect) [
  | yes direct ↦ rw (lt→ltb j ndirect direct, ==_ne j bn (λ e. absurd (omega (arith, e)))) refl
  | no high ↦ elim (ℕ_discrete j maxfile) [
    | yes last ↦ rw (last, ==_ne maxfile bn (λ e. absurd (omega (arith, e)))) refl
    | no ne ↦
        rw
          (
            le→ltb_false j ndirect (omega (arith, high)),
            ==_ne j maxfile ne,
            ==_ne (indirect addrs) 0 some_block,
            e,
          )
          (word_at-put_word (s.content (indirect addrs)) (bn - ndirect) a (j - ndirect) word
            ∙ rw (same_word j bn (omega (arith, high)) above) refl)
  ]
]
  where
    same_word : (j bn : ℕ) → ndirect ≤ j → ndirect ≤ bn → (j - ndirect == bn - ndirect) ≡ (j == bn)
    same_word j bn h k = ground arith

pub entry-word_at :
    (s : Fs) (addrs : List ℕ) (bn : ℕ)
    → ndirect ≤ bn
    → bn < maxfile
    → indirect addrs ≢ 0
    → entry s addrs bn ≡ word_at (s.content (indirect addrs)) (bn - ndirect)
entry-word_at s addrs bn above low ne =
    rw
      (
        le→ltb_false bn ndirect above,
        ==_ne bn maxfile (λ e. absurd (omega (arith, e))),
        ==_ne (indirect addrs) 0 ne,
      )
      refl

pub entry-direct_at :
    (s : Fs) (addrs : List ℕ) (bn : ℕ) → bn < ndirect → entry s addrs bn ≡ get_or addrs bn 0
entry-direct_at s addrs bn low = rw (lt→ltb bn ndirect low) refl

pub byte_at-mapped :
    (s : Fs) (addrs : List ℕ) (k b : ℕ)
    → entry s addrs (k / bsize) ≡ b
    → b ≢ 0
    → byte_at s addrs k ≡ s.content b (k % bsize)
byte_at-mapped s addrs k b mapped ne =
    ap (λ c. byte_in s.content c (k % bsize)) mapped ∙ rw (==_ne b 0 ne) refl

pub entry-none :
    (s : Fs) (addrs : List ℕ) (bn : ℕ)
    → ndirect ≤ bn
    → bn < maxfile
    → indirect addrs ≡ 0
    → entry s addrs bn ≡ 0
entry-none s addrs bn above low z =
    rw (le→ltb_false bn ndirect above, ==_ne bn maxfile (λ e. absurd (omega (arith, e))), z) refl
