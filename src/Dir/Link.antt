-- ===== src/Dir/Link.antt =====
-- `dirlink` of fs.c, and `dirlookup` after it.
use assignments.Base.{
  ℕ, zero, suc, ◌+◌, ◌-◌, ◌*◌, ◌/◌, ◌%◌, ◌≤◌, ◌<◌, List, ◌∷◌, true, false, ◌==◌, ltb, if◌then◌else◌,
  length, add32, Option, some, ok, panic, ◌≡◌, refl, sym, ap, ap₂, ◌∙◌, inl, inr, arith, Bool-cases,
  ℕ_discrete, ==_ne, subst, dec_lt, lt→ltb, le→ltb_false, le→leb, lt→leb_false, ok-injective,
}
use assignments.Balloc.{Fs}
use assignments.Icache.{Inode, Disk}
use assignments.CString.Copy.{strncmp-strncpy, length-strncpy}
use assignments.Content.{bsize, maxfile}
use assignments.Content.Map.{byte_at}
use assignments.Content.Read.{bytes_of}
use assignments.Content.File.{Wrote, writei_lem, bytes_of-written}
use assignments.Dir.{dirsiz, inum_of, has_name, dirlookup, empty_from, new_entry, dirlink}
use assignments.Dir.Lookup.{IsDir, entry_at, read_entry_lem, dirlookup-FirstEntry}

-- Bytes of a file that are the same give the same entry.
bytes_of-congr :
    (s t : Fs) (addrs ad : List ℕ) (off n : ℕ)
    → ((k : ℕ) → off ≤ k → k < off + n → byte_at t ad k ≡ byte_at s addrs k)
    → bytes_of t ad off n ≡ bytes_of s addrs off n
bytes_of-congr s t addrs ad off zero same = refl
bytes_of-congr s t addrs ad off (suc n) same =
    ap₂ (λ x xs. x ∷ xs) (same off (omega arith) (omega arith))
      (bytes_of-congr s t addrs ad (off + 1) n
        (λ k h below. same k (omega (arith, h)) (omega (arith, below))))

-- The directory after the entry `de` is written at `off`.
module _ (start : ℕ) (s t : Fs) (dp jp : Inode) (disk after : Disk) (off : ℕ) (de : List ℕ)
    (d : IsDir start s dp) (aligned : off % 16 ≡ 0) (low : off ≤ dp.copy.size)
    (fits : off + length de ≤ maxfile * bsize) (sixteen : length de ≡ 16)
    (w : Wrote start s dp disk off de t jp after) where
  size_after : jp.copy.size ≡ (if ltb dp.copy.size (off + 16) then off + 16 else dp.copy.size)
  size_after =
      w.new_size ∙ ap (λ k. if ltb dp.copy.size (off + k) then off + k else dp.copy.size) sixteen

  IsDir-after : IsDir start t jp
  IsDir-after = record {
    inode = w.inode;
    is_dir = ap (λ ip. ip.copy.kind) w.only_copy ∙ d.is_dir;
    whole = ground (arith, size_after, d.whole, aligned);
  }

  entry_after : entry_at t jp off ≡ de
  entry_after =
      ap (bytes_of t jp.copy.addrs off) (sym sixteen)
      ∙ bytes_of-written t jp.copy.addrs off de (λ k h.
        w.view (off + k) (omega (arith, h, fits))
        ∙ rw
            (
              le→leb off (off + k) (omega arith),
              lt→ltb (off + k) (off + length de) (omega (arith, h)),
              place off k,
            )
            refl)
    where
      place : (off k : ℕ) → off + k - off ≡ k
      place off k = omega arith

  entry_before : (o : ℕ) → o + 16 ≤ off → entry_at t jp o ≡ entry_at s dp o
  entry_before o h = bytes_of-congr s t dp.copy.addrs jp.copy.addrs o 16 (λ k g below.
      w.view k (omega (arith, h, below, fits))
      ∙ rw (lt→leb_false off k (omega (arith, h, below))) refl)

  -- The new entry is the first with the name.
  lookup_after :
      (device : ℕ → Option (ℕ → Option (List ℕ))) (name : List ℕ)
      → has_name name de ≡ true
      → ((o : ℕ) → 0 ≤ o → o < dp.copy.size → o % 16 ≡ 0 → has_name name (entry_at s dp o) ≡ false)
      → dirlookup device name jp t ≡ ok (t, jp, some (off, inum_of de))
  lookup_after device name named absent =
      elim (dirlookup-FirstEntry device start name t jp IsDir-after) [
        | inr (e, no_entry) ↦
            cc (no_entry off (omega arith) (ground (arith, size_after)) aligned, entry_after, named)
        | inl (p, e, under, al, here, before) ↦ elim (ℕ_discrete p off) [
          | yes same ↦
              e
              ∙ ap₂ (λ q r. ok (t, jp, some (q, inum_of r))) same
                  (ap (entry_at t jp) same ∙ entry_after)
          | no ne ↦ elim (dec_lt p off) [
            | yes early ↦ cc (
              here,
              entry_before p (omega (arith, early, al, aligned)),
              absent p (omega arith) (omega (arith, early, low)) al,
            )
            | no late ↦
                cc (before off (omega arith) (omega (arith, late, ne)) aligned, entry_after, named)
          ]
        ]
      ]

-- The new entry has the name.
new_entry-has_name :
    (old name : List ℕ) (inum : ℕ)
    → length old ≡ dirsiz
    → 0 < inum
    → inum < 65536
    → (has_name name (new_entry old name inum) ≡ true) × (inum_of (new_entry old name inum) ≡ inum)
unfolding has_name
new_entry-has_name old name inum len positive low = (
  rw
      (
        ==_ne (inum_of (new_entry old name inum)) 0 (λ z. absurd (omega (arith, z, positive, low))),
        strncmp-strncpy dirsiz old name len,
      )
      refl,
  omega (arith, low),
)

-- The loop of `dirlink` ends within the directory or at its end, at an entry.
empty_from-place :
    (device : ℕ → Option (ℕ → Option (List ℕ))) (start f : ℕ) (s : Fs) (dp : Inode) (off : ℕ)
    → IsDir start s dp
    → off % 16 ≡ 0
    → off ≤ dp.copy.size
    → (at_off : ℕ) × (empty_from device f off dp s ≡ ok (s, dp, at_off))
      × (at_off % 16 ≡ 0)
      × (at_off ≤ dp.copy.size)
unfolding empty_from
empty_from-place device start zero s dp off d aligned low = (off, refl, aligned, low)
empty_from-place device start (suc f) s dp off d aligned low = elim (dec_lt off dp.copy.size) [
  | no past ↦ (off, rw (le→ltb_false off dp.copy.size (omega (arith, past))) refl, aligned, low)
  | yes under ↦ elim (Bool-cases (inum_of (entry_at s dp off) == 0)) [
    | inl e ↦ (
      off,
      rw
          (
            lt→ltb off dp.copy.size under,
            read_entry_lem device start "dirlink read" s dp off d under aligned,
            e,
          )
          refl,
      aligned,
      low,
    )
    | inr e ↦
        let (p, g, al, l) =
          empty_from-place device start f s dp (add32 off 16) d (omega (arith, aligned))
            (omega (arith, under, aligned, d.whole, d.inode.bounded)) in
        (
          p,
          rw
              (
                lt→ltb off dp.copy.size under,
                read_entry_lem device start "dirlink read" s dp off d under aligned,
                e,
              )
              g,
          al,
          l,
        )
  ]
]

-- After `dirlink` has added a name, `dirlookup` finds it, with its inode number.
pub dirlookup-dirlink :
    (reader : ℕ → Option (ℕ → Option (List ℕ))) (writer : ℕ → Option (List ℕ → Option ℕ))
    (start : ℕ) (old name : List ℕ) (inum : ℕ) (s t : Fs) (dp jp : Inode) (disk after : Disk)
    → IsDir start s dp
    → length old ≡ dirsiz
    → 0 < inum
    → inum < 65536
    → dirlink reader writer old name inum dp disk s ≡ ok (t, jp, after, true)
    → (off : ℕ) × (dirlookup reader name jp t ≡ ok (t, jp, some (off, inum)))
unfolding dirlink
dirlookup-dirlink reader writer start old name inum s t dp jp disk after d len positive low done =
    elim (dirlookup-FirstEntry reader start name s dp d) [
      | inl (p, e, _, _, _, _) ↦
          let found : dirlink reader writer old name inum dp disk s ≡ ok (s, dp, disk, false) =
            rw e refl in
          cc (found, done)
      | inr (e, absent) ↦
          let (off, g, aligned, inside) =
            empty_from-place reader start (dp.copy.size / 16 + 1) s dp 0 d refl (omega arith) in
          elim (writei_lem writer start dp disk s off (new_entry old name inum) d.inode
            (omega (arith, inside, d.inode.bounded))
            (omega (arith, len, length-strncpy old name dirsiz))) [
              | inl (h, w) ↦
                  let refused : dirlink reader writer old name inum dp disk s ≡ panic "dirlink" =
                    rw (e, g, w) refl in
                  cc (refused, done)
              | inr (h, k, inr p) ↦
                  let full : dirlink reader writer old name inum dp disk s
                      ≡ panic "balloc: out of blocks" =
                    rw (e, g, p.0) refl in
                  cc (full, done)
              | inr (h, k, inl (u, kp, later, w, wrote)) ↦
                  let sixteen : length (new_entry old name inum) ≡ 16 =
                    omega (arith, len, length-strncpy old name dirsiz) in
                  let linked : dirlink reader writer old name inum dp disk s
                      ≡ ok (u, kp, later, true) =
                    rw (e, g, w, sixteen) refl in
                  let (named, number) = new_entry-has_name old name inum len positive low in
                  (
                    off,
                    subst (λ r. dirlookup reader name (r.1) (r.0) ≡ ok (r.0, r.1, some (off, inum)))
                        (ok-injective (sym linked ∙ done))
                        (lookup_after start s u dp kp disk later off (new_entry old name inum) d
                            aligned inside k sixteen wrote reader name named absent
                          ∙ ap (λ i. ok (u, kp, some (off, i))) number),
                  )
            ]
    ]
