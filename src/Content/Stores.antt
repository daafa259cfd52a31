-- ===== src/Content/Stores.antt =====
-- A store into a block of a file.
use assignments.Base.{
  ℕ, ◌*◌, ◌/◌, ◌%◌, ◌<◌, List, ◌≡◌, refl, sym, ◌∙◌, ap, ◌≢◌, inl, inr, ◌==◌, if◌then◌else◌, update,
  arith, ℕ_discrete, ==_refl, ==_ne, subst,
}
use mathlib.Core.Path.{fun_ext}
use assignments.Memory.{Memory}
use assignments.Balloc.{Fs, store}
use assignments.Balloc.Fresh.{InUse}
use assignments.Content.{bsize, maxfile}
use assignments.Content.Map.{
  indirect, entry, byte_in, byte_at, Owns, IsFile, Outside, store-is_free, indirect-apart,
  entry-congr,
}

byte_in-store :
    (content : ℕ → Memory) (b : ℕ) (m : Memory) (c k : ℕ)
    → (c ≢ 0 → c ≢ b)
    → byte_in (update content b m) c k ≡ byte_in content c k
byte_in-store content b m c k other = elim (ℕ_discrete c 0) [
  | yes z ↦ rw z refl
  | no ne ↦ rw (==_ne c 0 ne, ==_ne c b (other ne)) refl
]

-- The step that stores `m` into block `bn` of the file, which is the block `b`.
module _ (start bn b : ℕ) (s : Fs) (addrs : List ℕ) (m : Memory) (f : IsFile start s addrs)
    (low : bn < maxfile) (mapped : entry s addrs bn ≡ b) (some_block : b ≢ 0) where
  stored-InUse : InUse start s b
  stored-InUse = elim (f.owns.owned bn (omega (arith, low))) [
    | inl z ↦ absurd (some_block (sym mapped ∙ z))
    | inr used ↦ subst (InUse start s) mapped used
  ]

  pub entry-store : (j : ℕ) → entry (store s b m) addrs j ≡ entry s addrs j
  entry-store j = entry-congr s (store s b m) addrs j (λ ne.
      rw
        (==_ne (indirect addrs) b (λ e.
          indirect-apart start s addrs bn f low (λ z. some_block (sym mapped ∙ z))
            (mapped ∙ sym e)))
        refl)

  InUse-store : (c : ℕ) → InUse start s c → InUse start (store s b m) c
  InUse-store c (above, under, used) =
      (above, under, store-is_free start s b m c f.laid.bitmap (stored-InUse.0) under ∙ used)

  pub IsFile-store : IsFile start (store s b m) addrs
  IsFile-store = record {
    laid = record {
      bitmap = f.laid.bitmap;
      taken = λ c h.
          store-is_free start s b m c f.laid.bitmap (stored-InUse.0) (omega (arith, f.room, h))
          ∙ f.laid.taken c h;
    };
    some_meta = f.some_meta;
    room = f.room;
    words = f.words;
    slots = f.slots;
    owns = subst (Owns start (store s b m)) (sym (fun_ext entry-store)) (record {
      owned = λ j h. elim (f.owns.owned j h) [
        | inl z ↦ inl z
        | inr used ↦ inr (InUse-store (entry s addrs j) used)
      ];
      distinct = f.owns.distinct;
    });
  }

  pub byte_at-store :
      (k : ℕ)
      → k < maxfile * bsize
      → byte_at (store s b m) addrs k
        ≡ (if k / bsize == bn then m (k % bsize) else byte_at s addrs k)
  byte_at-store k h =
      ap (λ c. byte_in (update s.content b m) c (k % bsize)) (entry-store (k / bsize))
      ∙ elim (ℕ_discrete (k / bsize) bn) [
        | yes same ↦ rw (same, ==_refl bn, mapped, ==_ne b 0 some_block, ==_refl b) refl
        | no other ↦ rw (==_ne (k / bsize) bn other) (
            byte_in-store s.content b m (entry s addrs (k / bsize)) (k % bsize) (λ ne e. other (
              sym (
                f.owns.distinct bn (k / bsize) (omega (arith, low)) (omega (arith, h))
                  (λ z. some_block (sym mapped ∙ z)) (mapped ∙ sym e)))))
      ]

  pub frame-store :
      (c : ℕ)
      → InUse start s c
      → Outside s addrs c
      → Outside (store s b m) addrs c
        × InUse start (store s b m) c
        × (update s.content b m c ≡ s.content c)
  frame-store c used apart = (
    λ j h e. apart j h (e ∙ entry-store j),
    InUse-store c used,
    rw (==_ne c b (λ e. apart bn (omega (arith, low)) (e ∙ sym mapped))) refl,
  )
