-- ===== src/Content/Trunc.antt =====
-- `itrunc` of fs.c.
use assignments.Base.{
  ℕ, suc, ◌≤◌, ◌<◌, List, length, get_or, set, ◌≡◌, refl, ◌∙◌, ◌≢◌, inl, inr, ◌==◌, ltb, arith,
  ℕ_discrete, dec_lt, ==_ne, Bool-cases, ok,
}
use assignments.Balloc.{Fs}
use assignments.Content.{ndirect, nindirect, maxfile}
use assignments.Content.Map.{indirect, entry, indirect-InUse, entry-none}
use assignments.Base.{get_or-beyond}
use assignments.Balloc.{bfree}
use assignments.Icache.{Inode, Disk, iupdate, iupdate_self}
use assignments.Content.{free_direct, free_indirect, itrunc}
use assignments.Content.File.{IsInode}
use assignments.Content.Frees.{
  Frees, Frees-none, Frees-skip, Laid-Frees, Frees-bfree, Slots-set, free_direct-Frees,
  free_indirect-Frees,
}

-- What `itrunc` does to an inode.
pub record Truncated (start : ℕ) (s : Fs) (ip : Inode) (disk : Disk) (t : Fs) (jp : Inode)
    (after : Disk) : Type 0 where
  pub frees : Frees start (suc maxfile) s (entry s ip.copy.addrs) t
  pub none_left : (j : ℕ) → get_or jp.copy.addrs j 0 ≡ 0
  pub only_copy : jp ≡ record ip { copy = record ip.copy { addrs = jp.copy.addrs; size = 0 } }
  pub synced : after ip.dev ip.inum ≡ jp.copy
  pub empty : IsInode start t jp

entry-zeros :
    (s : Fs) (addrs : List ℕ) (j : ℕ) → ((k : ℕ) → get_or addrs k 0 ≡ 0) → entry s addrs j ≡ 0
entry-zeros s addrs j zeros = elim (Bool-cases (ltb j ndirect)) [
  | inl e ↦ rw e (zeros j)
  | inr e ↦ elim (Bool-cases (j == maxfile)) [
    | inl g ↦ rw (e, g) (zeros ndirect)
    | inr g ↦ rw (e, g, zeros ndirect) refl
  ]
]

abbrev emptied : Inode → List ℕ → Inode
emptied ip ad = record ip { copy = record ip.copy { addrs = ad; size = 0 } }

-- The end of `itrunc`.
Truncated-emptied :
    (start : ℕ) (ip : Inode) (disk : Disk) (s t : Fs) (ad : List ℕ)
    → IsInode start s ip
    → Frees start (suc maxfile) s (entry s ip.copy.addrs) t
    → length ad ≡ 13
    → ((k : ℕ) → get_or ad k 0 ≡ 0)
    → Truncated start s ip disk t (emptied ip ad) (iupdate (emptied ip ad) disk)
Truncated-emptied start ip disk s t ad i frees slots zeros = record {
  frees = frees;
  none_left = zeros;
  only_copy = refl;
  synced = iupdate_self (emptied ip ad) disk;
  empty = record {
    file = record {
      laid = Laid-Frees start s ip.copy.addrs i.file (suc maxfile) t (omega arith) frees;
      some_meta = i.file.some_meta;
      room = rw frees.same_size i.file.room;
      words = rw frees.same_size i.file.words;
      slots = slots;
      owns = record {
        owned = λ j h. inl (entry-zeros t ad j zeros);
        distinct = λ j k low high ne e. absurd (ne (entry-zeros t ad j zeros));
      };
    };
    regular = i.regular;
    bounded = omega arith;
    filled = λ k h. absurd (omega arith);
  };
}

itrunc-indirect :
    (ip : Inode) (disk : Disk) (s t u v : Fs) (ad : List ℕ)
    → indirect ip.copy.addrs ≢ 0
    → free_direct ndirect 0 s ip.copy.addrs ≡ ok (t, ad)
    → get_or ad ndirect 0 ≡ indirect ip.copy.addrs
    → t.content (indirect ip.copy.addrs) ≡ s.content (indirect ip.copy.addrs)
    → free_indirect nindirect 0 (s.content (indirect ip.copy.addrs)) t ≡ ok u
    → bfree u (indirect ip.copy.addrs) ≡ ok v
    → itrunc ip disk s
      ≡ ok (v, emptied ip (set ad ndirect 0), iupdate (emptied ip (set ad ndirect 0)) disk)
unfolding itrunc
itrunc-indirect ip disk s t u v ad ne g last same h k =
    rw (g, last, ==_ne (indirect ip.copy.addrs) 0 ne, same, h, k) refl

-- `itrunc` of a file does not panic: it frees each block of the file, its indirect block included,
-- and changes no other mark and no data; the inode has no blocks and size 0, also on the disk, and
-- is a well-formed empty file.
pub itrunc_lem :
    (start : ℕ) (ip : Inode) (disk : Disk) (s : Fs)
    → IsInode start s ip
    → (t : Fs) × (jp : Inode) × (after : Disk) × (itrunc ip disk s ≡ ok (t, jp, after))
      × Truncated start s ip disk t jp after
unfolding itrunc
itrunc_lem start ip disk s i =
    let f = i.file in
    let addrs = ip.copy.addrs in
    let (t, ad, g, slots, frees) =
      free_direct-Frees start s addrs f ndirect 0 s addrs refl
        (f.slots, λ j h. absurd (omega arith), λ j h. refl) (Frees-none start s addrs f) in
    let last : get_or ad ndirect 0 ≡ indirect addrs = slots.2 ndirect (omega arith) in
    elim (ℕ_discrete (indirect addrs) 0) [
      | yes z ↦ (
        t,
        emptied ip ad,
        iupdate (emptied ip ad) disk,
        rw (g, last, z) refl,
        Truncated-emptied start ip disk s t ad i
            (Frees-skip start s addrs f ndirect (suc maxfile) t (omega arith)
              (no_indirect s addrs z) frees)
            (slots.0) (all_zero ad (slots.0) (slots.1) (last ∙ z)),
      )
      | no ne ↦
          let (u, h, listed) = free_indirect-Frees start s addrs f nindirect 0 t refl ne frees in
          let (v, k, done) =
            Frees-bfree start s addrs f maxfile (indirect addrs) u (omega arith) refl ne listed in
          let (len, cleared, _) = Slots-set start s addrs f ndirect ad (omega arith) slots in
          (
            v,
            emptied ip (set ad ndirect 0),
            iupdate (emptied ip (set ad ndirect 0)) disk,
            itrunc-indirect ip disk s t u v ad ne g last
                (frees.kept (indirect addrs) ((indirect-InUse start s addrs f ne).0)) h k,
            Truncated-emptied start ip disk s v (set ad ndirect 0) i done len (
                all_zero (set ad ndirect 0) len (λ j low. cleared j (omega (arith, low)))
                  (cleared ndirect (omega arith))),
          )
    ]
  where
    all_zero :
        (ad : List ℕ)
        → length ad ≡ 13
        → ((j : ℕ) → j < ndirect → get_or ad j 0 ≡ 0)
        → get_or ad ndirect 0 ≡ 0
        → (j : ℕ) → get_or ad j 0 ≡ 0
    all_zero ad len direct last j = elim (dec_lt j ndirect) [
      | yes low ↦ direct j low
      | no high ↦ elim (ℕ_discrete j ndirect) [
        | yes e ↦ rw e last
        | no ne ↦ get_or-beyond ad j 0 (omega (arith, len, high, ne))
      ]
    ]

    no_indirect :
        (s : Fs) (addrs : List ℕ)
        → indirect addrs ≡ 0
        → (j : ℕ) → ndirect ≤ j
        → j < suc maxfile
        → entry s addrs j ≡ 0
    no_indirect s addrs z j h low = elim (ℕ_discrete j maxfile) [
      | yes e ↦ rw e z
      | no ne ↦ entry-none s addrs j h (omega (arith, low, ne)) z
    ]
