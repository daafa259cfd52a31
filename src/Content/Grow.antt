-- ===== src/Content/Grow.antt =====
-- Blocks that are added to a file.
use assignments.Base.{
  ℕ, ◌-◌, ◌*◌, ◌/◌, ◌%◌, ◌≤◌, ◌<◌, List, length, get_or, set, ◌≡◌, refl, sym, ◌∙◌, ap, ◌≢◌, inl,
  inr, ◌==◌, if◌then◌else◌, update, arith, ℕ_discrete, ==_refl, ==_ne, subst, length-set,
}
use mathlib.Core.Path.{fun_ext}
use assignments.Memory.{Memory}
use assignments.Balloc.{Fs, store}
use assignments.Balloc.Fresh.{is_free, Laid, InUse, Allocates, Laid-Allocates}
use assignments.Content.{bsize, ndirect, maxfile, put_word}
use assignments.Content.Map.{
  indirect, entry, byte_in, byte_at, Owns, IsFile, Outside, InUse-Allocates, InUse-fresh,
  Owns-update, store-is_free, indirect-InUse, indirect-apart, entry-direct, entry-indirect,
  entry-word, entry-direct_at,
}

-- The step from `s` and `addrs` to `t` and `ad`, which may add blocks to the file: no byte of this
-- file changes, nor a block of another one.
pub record Grows (start : ℕ) (s : Fs) (addrs : List ℕ) (t : Fs) (ad : List ℕ) : Type 0 where
  pub file : IsFile start t ad
  pub view : (off : ℕ) → off < maxfile * bsize → byte_at t ad off ≡ byte_at s addrs off
  pub keeps : (j : ℕ) → entry s addrs j ≢ 0 → entry t ad j ≢ 0
  pub frame :
      (c : ℕ)
      → InUse start s c
      → Outside s addrs c
      → Outside t ad c × InUse start t c × (t.content c ≡ s.content c)

-- `bmap` gives the file the block `b` at `bn`.
pub record Maps (start : ℕ) (s : Fs) (addrs : List ℕ) (bn : ℕ) (t : Fs) (ad : List ℕ) (b : ℕ)
    : Type 0 where
  pub grows : Grows start s addrs t ad
  pub mapped : entry t ad bn ≡ b
  pub some_block : b ≢ 0
  pub settled : entry s addrs bn ≢ 0 → ad ≡ addrs

pub Grows-refl :
    (start : ℕ) (s : Fs) (addrs : List ℕ) → IsFile start s addrs → Grows start s addrs s addrs
Grows-refl start s addrs f = record {
  file = f;
  view = λ off h. refl;
  keeps = λ j ne. ne;
  frame = λ c used apart. (apart, used, refl);
}

pub Grows-trans :
    (start : ℕ) (s : Fs) (addrs : List ℕ) (t : Fs) (ad : List ℕ) (u : Fs) (bd : List ℕ)
    → Grows start s addrs t ad
    → Grows start t ad u bd
    → Grows start s addrs u bd
Grows-trans start s addrs t ad u bd g h = record {
  file = h.file;
  view = λ off low. h.view off low ∙ g.view off low;
  keeps = λ j ne. h.keeps j (g.keeps j ne);
  frame = λ c used apart.
      let first = g.frame c used apart in
      let second = h.frame c (first.1) (first.0) in (second.0, second.1, second.2 ∙ first.2);
}

byte_in-update :
    (before after : ℕ → Memory) (j i a e k : ℕ)
    → (j ≡ i → e ≡ 0)
    → after a ≡ (λ k. 0)
    → (e ≢ 0 → after e ≡ before e)
    → byte_in after (if j == i then a else e) k ≡ byte_in before e k
byte_in-update before after j i a e k empty zeroed kept = elim (ℕ_discrete j i) [
  | yes same ↦
      rw (same, ==_refl i, empty same)
        (elim (ℕ_discrete a 0) [ yes z ↦ rw z refl | no ne ↦ rw (==_ne a 0 ne, zeroed) refl ])
  | no other ↦
      rw (==_ne j i other)
        (elim (ℕ_discrete e 0) [ yes z ↦ rw z refl | no ne ↦ rw (==_ne e 0 ne, kept ne) refl ])
]

-- The block `a`, allocated by the step from `s` to `u`, becomes block `i` of the file.
module _ (start : ℕ) (s u t : Fs) (addrs ad : List ℕ) (i a : ℕ) (f : IsFile start s addrs)
    (al : Allocates start s u a) (inside : i ≤ maxfile) (empty : entry s addrs i ≡ 0)
    (same_size : t.size ≡ s.size) (same_start : t.bmapstart ≡ s.bmapstart)
    (marks : (c : ℕ) → c < s.size → is_free t c ≡ is_free u c) (slots : length ad ≡ 13)
    (entries : (j : ℕ) → entry t ad j ≡ update (entry s addrs) i a j)
    (zeroed : t.content a ≡ (λ k. 0))
    (kept : (c : ℕ) → InUse start s c → c ≢ indirect addrs → t.content c ≡ s.content c) where
  used_after : (c : ℕ) → InUse start u c → InUse start t c
  used_after c (above, low, used) = (
    above,
    rw same_size (omega (arith, low, al.same_size)),
    marks c (omega (arith, low, al.same_size)) ∙ used,
  )

  Laid-after : Laid start t
  Laid-after =
      let before = Laid-Allocates start s u a f.room f.laid al in
      record {
        bitmap = rw (same_size, same_start) f.laid.bitmap;
        taken = λ b h. marks b (omega (arith, f.room, h)) ∙ before.taken b h;
      }

  Owns-after : Owns start t (entry t ad)
  Owns-after =
      let before = Owns-update start s u (entry s addrs) i a al empty f.owns in
      subst (Owns start t) (sym (fun_ext entries)) (record {
        owned = λ j h. elim (before.owned j h) [
          | inl z ↦ inl z
          | inr used ↦ inr (used_after (update (entry s addrs) i a j) used)
        ];
        distinct = before.distinct;
      })

  view_after : (off : ℕ) → off < maxfile * bsize → byte_at t ad off ≡ byte_at s addrs off
  view_after off h =
      ap (λ b. byte_in t.content b (off % bsize)) (entries (off / bsize))
      ∙ byte_in-update s.content t.content (off / bsize) i a (entry s addrs (off / bsize))
          (off % bsize) (λ e. ap (entry s addrs) e ∙ empty) zeroed
          (λ ne. elim (f.owns.owned (off / bsize) (omega (arith, h))) [
            | inl z ↦ absurd (ne z)
            | inr used ↦
                kept (entry s addrs (off / bsize)) used
                  (indirect-apart start s addrs (off / bsize) f (omega (arith, h)) ne)
          ])

  other_block :
      (c : ℕ)
      → InUse start s c
      → Outside s addrs c
      → (j : ℕ) → j ≤ maxfile
      → c ≢ update (entry s addrs) i a j
  other_block c used apart j low = elim (ℕ_discrete j i) [
    | yes same ↦ rw (same, ==_refl i) (InUse-fresh start s u a c al used)
    | no other ↦ rw (==_ne j i other) (apart j low)
  ]

  kept_block : (j : ℕ) → entry s addrs j ≢ 0 → update (entry s addrs) i a j ≢ 0
  kept_block j ne = elim (ℕ_discrete j i) [
    | yes same ↦ absurd (ne (ap (entry s addrs) same ∙ empty))
    | no other ↦ rw (==_ne j i other) ne
  ]

  Grows-Allocates : Grows start s addrs t ad
  Grows-Allocates = record {
    file = record {
      laid = Laid-after;
      some_meta = f.some_meta;
      room = rw same_size f.room;
      words = rw same_size f.words;
      slots = slots;
      owns = Owns-after;
    };
    view = view_after;
    keeps = λ j ne e. kept_block j ne (sym (entries j) ∙ e);
    frame = λ c used apart. (
      λ j low e. other_block c used apart j low (e ∙ entries j),
      used_after c (InUse-Allocates start s u a c al used),
      kept c used (apart maxfile (omega arith)),
    );
  }

abbrev pub with_word : Fs → List ℕ → ℕ → ℕ → Fs
with_word u addrs bn a =
    store u (indirect addrs) (put_word (u.content (indirect addrs)) (bn - ndirect) a)

-- The indirect block lists the new block.
pub Maps-word :
    (start bn a : ℕ) (s u : Fs) (addrs : List ℕ)
    → IsFile start s addrs
    → ndirect ≤ bn
    → bn < maxfile
    → indirect addrs ≢ 0
    → entry s addrs bn ≡ 0
    → Allocates start s u a
    → Maps start s addrs bn (with_word u addrs bn a) addrs a
Maps-word start bn a s u addrs f above low ne empty al = record {
  grows =
      Grows-Allocates start s u (with_word u addrs bn a) addrs addrs bn a f al (omega (arith, low))
        empty al.same_size al.same_start
        (λ c h.
          store-is_free start u (indirect addrs)
            (put_word (u.content (indirect addrs)) (bn - ndirect) a) c
            (omega (arith, al.same_size, al.same_start, f.laid.bitmap)) (inu.0)
            (omega (arith, h, al.same_size)))
        f.slots entries (rw (==_ne a (indirect addrs) (λ e. apart (sym e))) al.zeroed)
        (λ c used other.
          rw (==_ne c (indirect addrs) other)
            (al.kept c (used.0) (InUse-fresh start s u a c al used)));
  mapped = entries bn ∙ rw (==_refl bn) refl;
  some_block = λ e. absurd (omega (arith, al.data_block, f.some_meta, e));
  settled = λ ne. absurd (ne empty);
}
  where
    inu : InUse start s (indirect addrs)
    inu = indirect-InUse start s addrs f ne

    apart : indirect addrs ≢ a
    apart = InUse-fresh start s u a (indirect addrs) al inu

    entries : (j : ℕ) → entry (with_word u addrs bn a) addrs j ≡ update (entry s addrs) bn a j
    entries j =
        entry-word s (with_word u addrs bn a) addrs bn a j above low
          (omega (arith, al.low, f.words)) ne
          (rw (==_refl (indirect addrs), al.kept (indirect addrs) (inu.0) apart) refl)

pub Maps-direct :
    (start bn a : ℕ) (s u : Fs) (addrs : List ℕ)
    → IsFile start s addrs
    → bn < ndirect
    → get_or addrs bn 0 ≡ 0
    → Allocates start s u a
    → Maps start s addrs bn u (set addrs bn a) a
Maps-direct start bn a s u addrs f low z al = record {
  grows =
      Grows-Allocates start s u u addrs (set addrs bn a) bn a f al (omega (arith, low))
        (entry-direct_at s addrs bn low ∙ z) al.same_size al.same_start (λ c h. refl)
        (length-set addrs bn a ∙ f.slots) entries al.zeroed
        (λ c used other. al.kept c (used.0) (InUse-fresh start s u a c al used));
  mapped = entries bn ∙ rw (==_refl bn) refl;
  some_block = λ e. absurd (omega (arith, al.data_block, f.some_meta, e));
  settled = λ ne. absurd (ne (entry-direct_at s addrs bn low ∙ z));
}
  where
    entries : (j : ℕ) → entry u (set addrs bn a) j ≡ update (entry s addrs) bn a j
    entries j = entry-direct s u addrs bn a j low f.slots (λ ne.
        let used = indirect-InUse start s addrs f ne in
        al.kept (indirect addrs) (used.0) (InUse-fresh start s u a (indirect addrs) al used))

-- The file gets an indirect block.
pub Grows-indirect :
    (start a : ℕ) (s u : Fs) (addrs : List ℕ)
    → IsFile start s addrs
    → indirect addrs ≡ 0
    → Allocates start s u a
    → Grows start s addrs u (set addrs ndirect a)
Grows-indirect start a s u addrs f z al =
    Grows-Allocates start s u u addrs (set addrs ndirect a) maxfile a f al (omega arith) z
      al.same_size al.same_start (λ c h. refl) (length-set addrs ndirect a ∙ f.slots)
      (λ j. entry-indirect s u addrs a j f.slots z al.zeroed) al.zeroed
      (λ c used other. al.kept c (used.0) (InUse-fresh start s u a c al used))
