-- ===== src/Content/Sample.antt =====
-- A disk of 20 blocks whose blocks 0 to 2 are not for data, with a file of one block, block 3.
use assignments.Base.{
  ℕ, zero, suc, ◌+◌, ◌<◌, List, ◌∷◌, get_or, ◌≡◌, refl, ◌∙◌, ◌≢◌, ◌⊎◌, inl, inr, false, ◌==◌, ltb,
  if◌then◌else◌, arith, Bool-cases,
}
use assignments.Balloc.{Fs}
use assignments.Balloc.Fresh.{is_free, InUse}
use assignments.Content.{ndirect, maxfile}
use assignments.Content.Map.{entry, IsFile}
use assignments.Base.{replicate}

abbrev pub small_disk : Fs
small_disk = record {
  size = 20;
  bmapstart = 1;
  content = λ b k. if b == 1 then if k == 0 then 15 else 0 else if b == 3 then k + 1 else 0;
}

abbrev pub small_addrs : List ℕ
small_addrs = 3 ∷ replicate 12 0

get_or-zeros : (n i : ℕ) → get_or {A = ℕ} (replicate n 0) i 0 ≡ 0
get_or-zeros zero i = refl
get_or-zeros (suc n) zero = refl
get_or-zeros (suc n) (suc i) = get_or-zeros n i

-- The file has one block.
pub small_entry : (i : ℕ) → entry small_disk small_addrs (suc i) ≡ 0
small_entry i = elim (Bool-cases (ltb (suc i) ndirect)) [
  | inl e ↦ rw e (get_or-zeros 12 i)
  | inr e ↦ rw e (elim (Bool-cases (suc i == maxfile)) [ inl f ↦ rw f refl | inr f ↦ rw f refl ])
]

pub small-IsFile : IsFile 3 small_disk small_addrs
small-IsFile = record {
  laid = record { bitmap = omega arith; taken = taken };
  some_meta = omega arith;
  room = omega arith;
  words = omega arith;
  slots = refl;
  owns = record { owned = λ i h. owned i; distinct = λ i j h k. distinct i j };
}
  where
    taken : (b : ℕ) → b < 3 → is_free small_disk b ≡ false
    taken zero h = refl
    taken (suc zero) h = refl
    taken (suc (suc zero)) h = refl
    taken (suc (suc (suc b))) h = absurd (omega arith)

    owned :
        (i : ℕ)
        → (entry small_disk small_addrs i ≡ 0) ⊎ InUse 3 small_disk (entry small_disk small_addrs i)
    owned zero = inr (omega arith, omega arith, refl)
    owned (suc i) = inl (small_entry i)

    distinct :
        (i j : ℕ)
        → entry small_disk small_addrs i ≢ 0
        → entry small_disk small_addrs i ≡ entry small_disk small_addrs j
        → i ≡ j
    distinct zero zero ne e = refl
    distinct zero (suc j) ne e = absurd (ne (e ∙ small_entry j))
    distinct (suc i) j ne e = absurd (ne (small_entry i))
