-- ===== src/Bcache/Tests.antt =====
-- Runs of the buffer cache, and concrete cases of its theorems.
use assignments.Base.{List, [], ◌∷◌, ◌≡◌, refl, true, false, ok, panic, arith}
use assignments.Bcache.{Buf, find_cached, recycle, bget, read_in, at_slot, take_out, brelse}
use assignments.Bcache.Unique.{count, Once, bget-Once, brelse-count}
use assignments.Bcache.Pinned.{lookup, bget-pinned}

abbrev boot_buf : Buf
boot_buf = record {
  slot = 0;
  dev = 0;
  blockno = 0;
  valid = false;
  dirty = false;
  refcnt = 0;
  locked = false;
  words = [];
}

-- Block 40 of device 1, which the log has pinned, and block 7, in use.
abbrev pinned_buf : Buf
pinned_buf = record boot_buf {
  slot = 1;
  dev = 1;
  blockno = 40;
  valid = true;
  dirty = true;
  words = 5 ∷ [];
}

abbrev used_buf : Buf
used_buf = record boot_buf {
  slot = 2;
  dev = 1;
  blockno = 7;
  valid = true;
  refcnt = 1;
  locked = true;
}

abbrev cache : List Buf
cache = used_buf ∷ boot_buf ∷ pinned_buf ∷ []

abbrev fetched : Buf
fetched = record boot_buf { dev = 1; blockno = 9; refcnt = 1 }

abbrev cache_after : List Buf
cache_after = used_buf ∷ fetched ∷ pinned_buf ∷ []

bget_spare : bget 1 9 cache ≡ ok (cache_after, 0)
unfolding bget find_cached recycle
bget_spare = refl

cache-Once : Once cache
cache-Once d n real = ground arith

bget-Once_example : Once cache_after
bget-Once_example = bget-Once 1 9 cache cache_after 0 cache-Once bget_spare

bget-pinned_example : lookup 1 40 cache_after ≡ lookup 1 40 cache
bget-pinned_example = bget-pinned 1 9 1 40 cache cache_after 0 refl bget_spare

bget_panics : bget 1 9 (used_buf ∷ pinned_buf ∷ []) ≡ panic "bget: no buffers"
unfolding bget find_cached recycle
bget_panics = refl

abbrev idle_buf : Buf
idle_buf = record used_buf { refcnt = 0; locked = false }

brelse_used : brelse 2 cache ≡ ok (idle_buf ∷ boot_buf ∷ pinned_buf ∷ [])
unfolding brelse take_out at_slot
brelse_used = refl

brelse-count_example : count 1 7 (idle_buf ∷ boot_buf ∷ pinned_buf ∷ []) ≡ count 1 7 cache
brelse-count_example = brelse-count 2 1 7 cache (idle_buf ∷ boot_buf ∷ pinned_buf ∷ []) brelse_used

brelse_unlocked : brelse 1 cache ≡ panic "brelse"
unfolding brelse take_out
brelse_unlocked = refl

reads_disk : (read_in (λ b. b ∷ []) fetched).words ≡ 9 ∷ []
unfolding read_in
reads_disk = refl
