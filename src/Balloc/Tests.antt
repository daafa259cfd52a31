-- ===== src/Balloc/Tests.antt =====
-- A disk of 20 blocks of which the first five are in use.
use assignments.Base.{
  ℕ, zero, suc, ◌<◌, ◌≤◌, ◌≡◌, refl, ◌⊎◌, true, false, ◌==◌, if◌then◌else◌, ok, panic, arith,
}
use assignments.Balloc.{Fs, find_bit, claim, balloc_from, balloc, bfree}
use assignments.Balloc.Fresh.{is_free, Laid, Allocates, balloc_lem, bfree_lem}

abbrev small_disk : Fs
small_disk = record {
  size = 20;
  bmapstart = 1;
  content = λ b k. if b == 1 then if k == 0 then 31 else 0 else 7;
}

small-Laid : Laid 3 small_disk
small-Laid = record { bitmap = omega arith; taken = taken }
  where
    taken : (b : ℕ) → b < 3 → is_free small_disk b ≡ false
    taken zero h = refl
    taken (suc zero) h = refl
    taken (suc (suc zero)) h = refl
    taken (suc (suc (suc b))) h = absurd (omega arith)

balloc_example :
    ((t : Fs) × (a : ℕ) × (balloc small_disk ≡ ok (t, a)) × Allocates 3 small_disk t a)
    ⊎ ((balloc small_disk ≡ panic "balloc: out of blocks")
        × ((c : ℕ) → c < 20 → is_free small_disk c ≡ false))
balloc_example = balloc_lem 3 small_disk small-Laid

bfree_example :
    (is_free small_disk 4 ≡ true × (bfree small_disk 4 ≡ panic "freeing free block"))
    ⊎ ((is_free small_disk 4 ≡ false)
        × (t : Fs) × (bfree small_disk 4 ≡ ok t)
        × ((c : ℕ) → c < 20 → is_free t c ≡ (if c == 4 then true else is_free small_disk c))
        × ((c : ℕ) → 3 ≤ c → t.content c ≡ small_disk.content c)
        × (t.size ≡ 20)
        × (t.bmapstart ≡ 1))
bfree_example = bfree_lem 3 small_disk 4 small-Laid (omega arith)

-- The first free block is block 5.
first_free : balloc small_disk ≡ ok (claim small_disk 0 5, 5)
unfolding balloc balloc_from find_bit
first_free = refl
