-- ===== src/Content/File.antt =====
-- `readi` and `writei` of fs.c on a file seen as an array of bytes.
use assignments.Base.{
  ℕ, suc, ◌+◌, ◌-◌, ◌*◌, ◌/◌, ◌≤◌, ◌<◌, List, [], ◌∷◌, ◌++◌, length, get_or, ◌≡◌, refl, sym, ◌∙◌,
  ap, ap₂, ◌≢◌, ◌⊎◌, inl, inr, Bool, true, false, ltb, leb, ◌&&◌, if◌then◌else◌, arith, dec_lt,
  ==_ne, word_mod, lt→ltb, le→ltb_false, Bool-cases, subst, Res, ok, panic,
}
use assignments.Balloc.{Fs}
use assignments.Balloc.Fresh.{InUse}
use assignments.Content.{bsize, maxfile}
use assignments.Content.Map.{entry, byte_at, IsFile, Outside}
use assignments.Base.{min, ◌||◌, not, Option, none, some, add32, le→leb, ok-injective}
use assignments.Icache.{Inode, Disk, iupdate, iupdate_self}
use assignments.Content.{t_dev, with_addrs, readi, writei}
use assignments.Content.Bmap.{Full}
use assignments.Content.Write.{Writes, written, write_from-Written}
use assignments.Content.Read.{bytes_of, read_from-bytes_of}

-- The inode of a regular file or a directory: its blocks are well-formed, and it has one for each
-- byte below its size.
pub record IsInode (start : ℕ) (s : Fs) (ip : Inode) : Type 0 where
  pub file : IsFile start s ip.copy.addrs
  pub regular : ip.copy.kind ≢ t_dev
  pub bounded : ip.copy.size ≤ maxfile * bsize
  pub filled : (k : ℕ) → k < ip.copy.size → entry s ip.copy.addrs (k / bsize) ≢ 0

-- What `readi` gives of a file: -1 for an offset beyond the end or a range that wraps around, and
-- else the bytes up to the end.
abbrev pub bytes_read : Fs → Inode → ℕ → ℕ → Option (List ℕ)
bytes_read s ip off n =
    if leb off ip.copy.size && ltb (off + n) word_mod
    then some (bytes_of s ip.copy.addrs off (min n (ip.copy.size - off)))
    else none

-- The tests of `readi` and `writei`.
refused_test :
    (size off n : ℕ)
    → off < word_mod
    → n < word_mod
    → (ltb size off || ltb (add32 off n) off) ≡ not (leb off size && ltb (off + n) word_mod)
refused_test size off n h k = ground arith

-- `readi` of a file reads the bytes from the offset up to the end of the file or of the range,
-- changes neither the blocks nor the inode, and does not panic; it returns -1 exactly when the
-- offset is beyond the end or the range wraps around.
pub readi_lem :
    (device : ℕ → Option (ℕ → Option (List ℕ))) (start : ℕ) (ip : Inode) (s : Fs) (off n : ℕ)
    → IsInode start s ip
    → off < word_mod
    → n < word_mod
    → readi device ip s off n ≡ ok (s, ip, bytes_read s ip off n)
unfolding readi
readi_lem device start ip s off n i low short =
    rw (==_ne ip.copy.kind t_dev i.regular, refused_test ip.copy.size off n low short)
      (elim (Bool-cases (leb off ip.copy.size && ltb (off + n) word_mod)) [
        | inr e ↦ rw e refl
        | inl e ↦
            rw
              (
                e,
                clipped ip.copy.size off n e,
                read_from-bytes_of (min n (ip.copy.size - off)) (min n (ip.copy.size - off)) off s
                    ip.copy.addrs (omega arith) (within ip.copy.size off n e i.bounded)
                    (λ k h below. i.filled k (under ip.copy.size off n k e below)),
              )
              refl
      ])
  where
    clipped :
        (size off n : ℕ)
        → (leb off size && ltb (off + n) word_mod) ≡ true
        → (if ltb size (add32 off n) then size - off else n) ≡ min n (size - off)
    clipped size off n e = ground arith

    within :
        (size off n : ℕ)
        → (leb off size && ltb (off + n) word_mod) ≡ true
        → size ≤ maxfile * bsize
        → off + min n (size - off) ≤ maxfile * bsize
    within size off n e h = ground arith

    under :
        (size off n k : ℕ)
        → (leb off size && ltb (off + n) word_mod) ≡ true
        → k < off + min n (size - off)
        → k < size
    under size off n k e below = ground arith

-- A write of `src` at `off`: the bytes of the file, its size and its blocks, the copy on the disk,
-- and the blocks of other files.
pub record Wrote (start : ℕ) (s : Fs) (ip : Inode) (disk : Disk) (off : ℕ) (src : List ℕ) (t : Fs)
    (jp : Inode) (after : Disk) : Type 0 where
  pub inode : IsInode start t jp
  pub only_copy :
      jp ≡ record ip { copy = record ip.copy { addrs = jp.copy.addrs; size = jp.copy.size } }
  pub new_size :
      jp.copy.size
      ≡ (if ltb ip.copy.size (off + length src) then off + length src else ip.copy.size)
  pub view :
      (k : ℕ)
      → k < maxfile * bsize
      → byte_at t jp.copy.addrs k ≡ written off src (byte_at s ip.copy.addrs) k
  pub synced : disk ip.dev ip.inum ≡ ip.copy → after ip.dev ip.inum ≡ jp.copy
  pub frame :
      (c : ℕ)
      → InUse start s c
      → Outside s ip.copy.addrs c
      → Outside t jp.copy.addrs c × InUse start t c × (t.content c ≡ s.content c)

-- The write is refused and nothing changes; or it is within the bounds, and is done; or `bmap` finds
-- the disk full after a part of it.
abbrev pub WriteResult :
    ℕ → Fs → Inode → Disk → ℕ → List ℕ → Res (Fs × Inode × Disk × Option ℕ) → Type 0
WriteResult start s ip disk off src r =
    ((ip.copy.size < off ⊎ (maxfile * bsize < off + length src)) × (r ≡ ok (s, ip, disk, none)))
    ⊎ (off ≤ ip.copy.size
        × off + length src ≤ maxfile * bsize
        × (((t : Fs) × (jp : Inode) × (after : Disk) × (r ≡ ok (t, jp, after, some (length src)))
              × Wrote start s ip disk off src t jp after)
            ⊎ ((r ≡ panic "balloc: out of blocks")
                × (t : Fs) × (ad : List ℕ) × (done : List ℕ) × (rest : List ℕ) × (done ++ rest
                    ≡ src)
                × Writes start s ip.copy.addrs off done t ad
                × Full t)))

-- What `writei` ends with, once the loop has written everything.
abbrev finish : Inode → Disk → ℕ → List ℕ → Fs → List ℕ → Fs × Inode × Disk × Option ℕ
finish ip disk off src t ad =
    let same = with_addrs ip ad in
    let grown = record same { copy = record same.copy { size = off + length src } } in
    if ltb 0 (length src) && ltb ip.copy.size (off + length src)
    then (t, grown, iupdate grown disk, some (length src))
    else (t, same, disk, some (length src))

finish-Wrote :
    (start : ℕ) (ip : Inode) (disk : Disk) (s : Fs) (off : ℕ) (src : List ℕ) (t : Fs) (ad : List ℕ)
    → IsInode start s ip
    → off ≤ ip.copy.size
    → off + length src ≤ maxfile * bsize
    → Writes start s ip.copy.addrs off src t ad
    → (jp : Inode) × (after : Disk) × (finish ip disk off src t ad
        ≡ (t, jp, after, some (length src)))
      × Wrote start s ip disk off src t jp after
finish-Wrote start ip disk s off src t ad i low room w =
    elim (dec_lt ip.copy.size (off + length src)) [
      | yes grows ↦
          let grown : Inode = record ip {
            copy = record ip.copy { addrs = ad; size = off + length src };
          } in
          (
            grown,
            iupdate grown disk,
            rw (lt→ltb 0 (length src) (omega arith), lt→ltb ip.copy.size (off + length src) grows)
                refl,
            record {
              inode = record {
                file = w.file;
                regular = i.regular;
                bounded = room;
                filled = λ k h. filled_after k (λ late. h);
              };
              only_copy = refl;
              new_size = rw (lt→ltb ip.copy.size (off + length src) grows) refl;
              view = w.view;
              synced = λ e. iupdate_self grown disk;
              frame = w.frame;
            },
          )
      | no fits ↦ (
        with_addrs ip ad,
        disk,
        rw
            (
              le→ltb_false ip.copy.size (off + length src) (omega (arith, fits)),
              and_false (ltb 0 (length src)),
            )
            refl,
        record {
          inode = record {
            file = w.file;
            regular = i.regular;
            bounded = i.bounded;
            filled = λ k h. filled_after k (λ late. absurd (omega arith));
          };
          only_copy = refl;
          new_size = rw (le→ltb_false ip.copy.size (off + length src) (omega (arith, fits))) refl;
          view = w.view;
          synced = λ e.
              e
              ∙ ap (λ bd. record ip.copy { addrs = bd })
                  (sym (w.settled (λ k h below. i.filled k (omega (arith, fits, below)))));
          frame = w.frame;
        },
      )
    ]
  where
    and_false : (b : Bool) → (b && false) ≡ false
    and_false true = refl
    and_false false = refl

    filled_after : (k : ℕ) → (ip.copy.size ≤ k → k < off + length src) → entry t ad (k / bsize) ≢ 0
    filled_after k h = elim (dec_lt k ip.copy.size) [
      | yes early ↦ w.keeps (k / bsize) (i.filled k early)
      | no late ↦ w.covers k (omega (arith, late, low)) (h (omega (arith, late)))
    ]

-- `writei` of a file refuses exactly a range that starts beyond the end or ends beyond MAXFILE
-- blocks, and then nothing changes. Else it writes all bytes: the file has the new bytes in the
-- range and the old ones elsewhere, its size is the end of the range if that is larger, it has
-- blocks for all its bytes, the inode on the disk follows the cached one, and no block of another
-- file changes. It panics only in a state where some of the bytes are written and at most one
-- block of the disk is free.
pub writei_lem :
    (device : ℕ → Option (List ℕ → Option ℕ)) (start : ℕ) (ip : Inode) (disk : Disk) (s : Fs)
    (off : ℕ) (src : List ℕ)
    → IsInode start s ip
    → off < word_mod
    → length src < word_mod
    → WriteResult start s ip disk off src (writei device ip disk s off src)
unfolding writei
writei_lem device start ip disk s off src i low short = elim (dec_lt ip.copy.size off) [
  | yes beyond ↦
      inl (inl beyond, rw (==_ne ip.copy.kind t_dev i.regular, lt→ltb ip.copy.size off beyond) refl)
  | no inside ↦ elim (dec_lt (maxfile * bsize) (off + length src)) [
    | yes large ↦ inl (
      inr large,
      elim (Bool-cases (ltb ip.copy.size off || ltb (add32 off (length src)) off)) [
        | inl e ↦ rw (==_ne ip.copy.kind t_dev i.regular, e) refl
        | inr e ↦
            rw
              (
                ==_ne ip.copy.kind t_dev i.regular,
                e,
                too_large ip.copy.size off (length src) e low short large,
              )
              refl
      ],
    )
    | no fits ↦ inr (
      omega (arith, inside),
      omega (arith, fits),
      elim (write_from-Written start (length src) off src s ip.copy.addrs i.file (omega arith)
          (omega (arith, fits))) [
            | inr (e, t, ad, done, rest, same, w, full) ↦ inr (
              rw
                  (
                    ==_ne ip.copy.kind t_dev i.regular,
                    allowed ip.copy.size off (length src) (omega (arith, inside))
                        (omega (arith, fits)),
                    small off (length src) (omega (arith, fits)),
                    e,
                  )
                  refl,
              t,
              ad,
              done,
              rest,
              same,
              w,
              full,
            )
            | inl (t, ad, e, w) ↦
                let (jp, after, g, wrote) =
                  finish-Wrote start ip disk s off src t ad i (omega (arith, inside))
                    (omega (arith, fits)) w in
                inl (
                  t,
                  jp,
                  after,
                  rw
                      (
                        ==_ne ip.copy.kind t_dev i.regular,
                        allowed ip.copy.size off (length src) (omega (arith, inside))
                            (omega (arith, fits)),
                        small off (length src) (omega (arith, fits)),
                        e,
                      )
                      (ap ok g),
                  wrote,
                )
          ],
    )
  ]
]
  where
    allowed :
        (size off n : ℕ)
        → off ≤ size
        → off + n ≤ maxfile * bsize
        → (ltb size off || ltb (add32 off n) off) ≡ false
    allowed size off n h k = ground arith

    small : (off n : ℕ) → off + n ≤ maxfile * bsize → ltb (maxfile * bsize) (add32 off n) ≡ false
    small off n h = ground arith

    too_large :
        (size off n : ℕ)
        → (ltb size off || ltb (add32 off n) off) ≡ false
        → off < word_mod
        → n < word_mod
        → maxfile * bsize < off + n
        → ltb (maxfile * bsize) (add32 off n) ≡ true
    too_large size off n e h k l = ground arith

pub bytes_of-written :
    (s : Fs) (addrs : List ℕ) (off : ℕ) (src : List ℕ)
    → ((k : ℕ) → k < length src → byte_at s addrs (off + k) ≡ get_or src k 0)
    → bytes_of s addrs off (length src) ≡ src
bytes_of-written s addrs off [] view = refl
bytes_of-written s addrs off (c ∷ cs) view =
    ap₂ (λ x xs. x ∷ xs) (ap (byte_at s addrs) (here off) ∙ view 0 (omega arith))
      (bytes_of-written s addrs (off + 1) cs
        (λ k h. ap (byte_at s addrs) (next off k) ∙ view (suc k) (omega arith)))
  where
    here : (off : ℕ) → off ≡ off + 0
    here off = omega arith

    next : (off k : ℕ) → off + 1 + k ≡ off + suc k
    next off k = omega arith

reads_back :
    (reader : ℕ → Option (ℕ → Option (List ℕ))) (start : ℕ) (ip jp : Inode) (disk after : Disk)
    (s t : Fs) (off : ℕ) (src : List ℕ)
    → off ≤ ip.copy.size
    → off + length src ≤ maxfile * bsize
    → Wrote start s ip disk off src t jp after
    → readi reader jp t off (length src) ≡ ok (t, jp, some src)
reads_back reader start ip jp disk after s t off src inside fits w =
    readi_lem reader start jp t off (length src) w.inode (omega (arith, fits)) (omega (arith, fits))
    ∙ ap (λ o. ok (t, jp, o))
        (rw
          (
            le→leb off jp.copy.size (omega (arith, end, inside)),
            lt→ltb (off + length src) word_mod (omega (arith, fits)),
            all,
          )
          (ap some (
            bytes_of-written t jp.copy.addrs off src (λ k h.
              w.view (off + k) (omega (arith, h, fits))
              ∙ rw
                  (
                    le→leb off (off + k) (omega arith),
                    lt→ltb (off + k) (off + length src) (omega (arith, h)),
                    place off k,
                  )
                  refl))))
  where
    end : (off + length src ≤ jp.copy.size) × (ip.copy.size ≤ jp.copy.size)
    end = ground (arith, w.new_size)

    all : min (length src) (jp.copy.size - off) ≡ length src
    all = omega (arith, end)

    place : (off k : ℕ) → off + k - off ≡ k
    place off k = omega arith

-- What `writei` has written, `readi` of the same range reads back: if a write to a file returns
-- that all bytes are written, a read of as many bytes at the same offset returns these bytes.
pub readi-writei :
    (writer : ℕ → Option (List ℕ → Option ℕ)) (reader : ℕ → Option (ℕ → Option (List ℕ)))
    (start : ℕ) (ip jp : Inode) (disk after : Disk) (s t : Fs) (off : ℕ) (src : List ℕ)
    → IsInode start s ip
    → off < word_mod
    → length src < word_mod
    → writei writer ip disk s off src ≡ ok (t, jp, after, some (length src))
    → readi reader jp t off (length src) ≡ ok (t, jp, some src)
readi-writei writer reader start ip jp disk after s t off src i low short e =
    elim (writei_lem writer start ip disk s off src i low short) [
      | inl (h, g) ↦ cc (e, g)
      | inr (h, k, inr p) ↦ cc (e, p.0)
      | inr (h, k, inl (u, kp, later, g, w)) ↦
          subst (λ r. readi reader (r.1) (r.0) off (length src) ≡ ok (r.0, r.1, some src))
            (ok-injective (sym g ∙ e)) (reads_back reader start ip kp disk later s u off src h k w)
    ]
