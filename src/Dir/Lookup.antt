-- ===== src/Dir/Lookup.antt =====
-- `dirlookup` of fs.c: the entry that it returns.
use assignments.Base.{
  ℕ, zero, suc, ◌+◌, ◌-◌, ◌*◌, ◌/◌, ◌%◌, ◌≤◌, ◌<◌, List, true, false, ◌==◌, String, add32, word_mod,
  min, Option, none, some, Res, ok, ◌≡◌, refl, sym, ap, ◌⊎◌, inl, inr, arith, Bool-cases,
  ℕ_discrete, subst, dec_lt, lt→ltb, le→ltb_false, le→leb, ◌∷◌, [], ◌≢◌, ◌↔◌, take, ==_ne,
}
use assignments.Balloc.{Fs}
use assignments.CString.{text}
use assignments.CString.Compare.{Bytes, strncmp_zero}
use assignments.Icache.{Inode}
use assignments.Content.Read.{bytes_of}
use assignments.Content.File.{IsInode, readi_lem}
use assignments.Dir.{t_dir, inum_of, has_name, read_entry, lookup_from, dirlookup, name_of}

-- A directory: whole entries.
pub record IsDir (start : ℕ) (s : Fs) (dp : Inode) : Type 0 where
  pub inode : IsInode start s dp
  pub is_dir : dp.copy.kind ≡ t_dir
  pub whole : dp.copy.size % 16 ≡ 0

abbrev pub entry_at : Fs → Inode → ℕ → List ℕ
entry_at s dp off = bytes_of s dp.copy.addrs off 16

-- The result is the first entry from `off` on that has the name, or there is none.
abbrev pub FirstEntry : List ℕ → Fs → Inode → ℕ → Res (Fs × Inode × Option (ℕ × ℕ)) → Type 0
FirstEntry name s dp off r =
    ((at_off : ℕ) × (r ≡ ok (s, dp, some (at_off, inum_of (entry_at s dp at_off))))
      × (at_off < dp.copy.size)
      × (at_off % 16 ≡ 0)
      × (has_name name (entry_at s dp at_off) ≡ true)
      × ((o : ℕ) → off ≤ o → o < at_off → o % 16 ≡ 0 → has_name name (entry_at s dp o) ≡ false))
    ⊎ ((r ≡ ok (s, dp, none))
        × ((o : ℕ)
            → off ≤ o
            → o < dp.copy.size
            → o % 16 ≡ 0
            → has_name name (entry_at s dp o) ≡ false))

-- An entry in use whose name agrees with the name in the first 14 characters.
abbrev pub Names : List ℕ → List ℕ → Type 0
Names name de = (inum_of de ≢ 0) × (take 14 (text name) ≡ take 14 (text (name_of de)))

-- The entry with the smallest offset that names it, or that there is none.
abbrev pub FirstNamed : List ℕ → Fs → Inode → Res (Fs × Inode × Option (ℕ × ℕ)) → Type 0
FirstNamed name s dp r =
    ((off : ℕ) × (r ≡ ok (s, dp, some (off, inum_of (entry_at s dp off))))
      × (off < dp.copy.size)
      × (off % 16 ≡ 0)
      × Names name (entry_at s dp off)
      × ((o : ℕ) → o < off → o % 16 ≡ 0 → ¬ Names name (entry_at s dp o)))
    ⊎ ((r ≡ ok (s, dp, none))
        × ((o : ℕ) → o < dp.copy.size → o % 16 ≡ 0 → ¬ Names name (entry_at s dp o)))

name_of-Bytes : (de : List ℕ) → Bytes de → Bytes (name_of de)
name_of-Bytes [] h = tt
name_of-Bytes (a ∷ []) h = tt
name_of-Bytes (a ∷ b ∷ de) h = h.1.1

pub has_name-Names :
    (name de : List ℕ) → Bytes name → Bytes de → (has_name name de ≡ true) ↔ Names name de
unfolding has_name
has_name-Names name de h k =
    let same = strncmp_zero name (name_of de) 14 h (name_of-Bytes de k) in
    (
      λ e. (ground (arith, e), same.0 (ground (arith, e))),
      λ (used, e). rw (==_ne (inum_of de) 0 used, same.1 e) refl,
    )

module _ (device : ℕ → Option (ℕ → Option (List ℕ))) (start : ℕ) where
  pub read_entry_lem :
      (message : String) (s : Fs) (dp : Inode) (off : ℕ)
      → IsDir start s dp
      → off < dp.copy.size
      → off % 16 ≡ 0
      → read_entry device message dp s off ≡ ok (s, dp, entry_at s dp off)
  unfolding read_entry
  read_entry_lem message s dp off d low aligned =
      rw
        (
          readi_lem device start dp s off 16 d.inode (omega (arith, low, d.inode.bounded))
              (omega arith),
          le→leb off dp.copy.size (omega (arith, low)),
          lt→ltb (off + 16) word_mod (omega (arith, low, d.inode.bounded)),
          all dp.copy.size off low aligned d.whole,
        )
        refl
    where
      all : (size off : ℕ) → off < size → off % 16 ≡ 0 → size % 16 ≡ 0 → min 16 (size - off) ≡ 16
      all size off h k l = omega arith

  lookup_from-FirstEntry :
      (f : ℕ) (name : List ℕ) (s : Fs) (dp : Inode) (off : ℕ)
      → IsDir start s dp
      → off % 16 ≡ 0
      → dp.copy.size ≤ off + f * 16
      → FirstEntry name s dp off (lookup_from device f off name dp s)
  unfolding lookup_from
  lookup_from-FirstEntry zero name s dp off d aligned enough =
      inr (refl, λ o h k l. absurd (omega (arith, h, k, enough)))
  lookup_from-FirstEntry (suc f) name s dp off d aligned enough = elim (dec_lt off dp.copy.size) [
    | no past ↦ inr (
      rw (le→ltb_false off dp.copy.size (omega (arith, past))) refl,
      λ o h k l. absurd (omega (arith, past, h, k)),
    )
    | yes low ↦ elim (Bool-cases (has_name name (entry_at s dp off))) [
      | inl here ↦ inl (
        off,
        rw
            (
              lt→ltb off dp.copy.size low,
              read_entry_lem "dirlookup read" s dp off d low aligned,
              here,
            )
            refl,
        low,
        aligned,
        here,
        λ o h k l. absurd (omega (arith, h, k)),
      )
      | inr other ↦
          rw
            (
              lt→ltb off dp.copy.size low,
              read_entry_lem "dirlookup read" s dp off d low aligned,
              other,
              no_wrap off (omega (arith, low, d.inode.bounded)),
            )
            (later f name s dp off aligned other (
              lookup_from-FirstEntry f name s dp (off + 16) d (omega (arith, aligned))
                (omega (arith, enough))))
    ]
  ]
    where
      no_wrap : (off : ℕ) → off + 16 < word_mod → add32 off 16 ≡ off + 16
      no_wrap off h = omega arith

      earlier :
          (name : List ℕ) (s : Fs) (dp : Inode) (off o : ℕ)
          → off % 16 ≡ 0
          → has_name name (entry_at s dp off) ≡ false
          → off ≤ o
          → o % 16 ≡ 0
          → (off + 16 ≤ o → has_name name (entry_at s dp o) ≡ false)
          → has_name name (entry_at s dp o) ≡ false
      earlier name s dp off o aligned other h l rest = elim (ℕ_discrete o off) [
        | yes e ↦ subst (λ k. has_name name (entry_at s dp k) ≡ false) (sym e) other
        | no ne ↦ rest (omega (arith, ne, h, l, aligned))
      ]

      later :
          (f : ℕ) (name : List ℕ) (s : Fs) (dp : Inode) (off : ℕ)
          → off % 16 ≡ 0
          → has_name name (entry_at s dp off) ≡ false
          → FirstEntry name s dp (off + 16) (lookup_from device f (off + 16) name dp s)
          → FirstEntry name s dp off (lookup_from device f (off + 16) name dp s)
      later f name s dp off aligned other (inl (p, e, low, al, here, before)) = inl (
        p,
        e,
        low,
        al,
        here,
        λ o h k l. earlier name s dp off o aligned other h l (λ g. before o g k l),
      )
      later f name s dp off aligned other (inr (e, none_here)) =
          inr (e, λ o h k l. earlier name s dp off o aligned other h l (λ g. none_here o g k l))

  -- The result in terms of the code's own test.
  pub dirlookup-FirstEntry :
      (name : List ℕ) (s : Fs) (dp : Inode)
      → IsDir start s dp
      → FirstEntry name s dp 0 (dirlookup device name dp s)
  unfolding dirlookup
  dirlookup-FirstEntry name s dp d =
      let is_dir : (dp.copy.kind == t_dir) ≡ true = ap (λ k. k == t_dir) d.is_dir in
      rw is_dir (lookup_from-FirstEntry (dp.copy.size / 16 + 1) name s dp 0 d refl (omega arith))

  -- `dirlookup` of a directory of bytes gives the first entry that is in use and has the name, up to
  -- 14 characters, with its offset, or nothing if no entry has it; it changes nothing and does not
  -- panic.
  pub dirlookup_lem :
      (name : List ℕ) (s : Fs) (dp : Inode)
      → IsDir start s dp
      → Bytes name
      → ((o : ℕ) → o < dp.copy.size → o % 16 ≡ 0 → Bytes (entry_at s dp o))
      → FirstNamed name s dp (dirlookup device name dp s)
  dirlookup_lem name s dp d chars bytes = elim (dirlookup-FirstEntry name s dp d) [
    | inl (off, e, low, aligned, here, before) ↦ inl (
      off,
      e,
      low,
      aligned,
      (has_name-Names name (entry_at s dp off) chars (bytes off low aligned)).0 here,
      λ o h k. unnamed o (omega (arith, h, low)) k (before o (omega arith) h k),
    )
    | inr (e, nowhere) ↦ inr (e, λ o h k. unnamed o h k (nowhere o (omega arith) h k))
  ]
    where
      unnamed :
          (o : ℕ)
          → o < dp.copy.size
          → o % 16 ≡ 0
          → has_name name (entry_at s dp o) ≡ false
          → ¬ Names name (entry_at s dp o)
      unnamed o h k off named =
          let on = (has_name-Names name (entry_at s dp o) chars (bytes o h k)).1 named in
          cc (on, off)
