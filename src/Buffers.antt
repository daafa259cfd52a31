-- ===== src/Buffers.antt =====
-- Disk blocks as the layers above the buffer cache see them: the disk, which survives a crash, and
-- the content that `bread` returns for a block, with its B_DIRTY flag. `Bcache` has the cache itself.
use assignments.Base.{ℕ, ◌-◌, List, Bool, false, ◌==◌, if◌then◌else◌, update}

-- The 512 bytes of a block, as 128 words of 32 bits.
abbrev pub Block : Type 0
Block = List ℕ

-- The power fails after `power` more writes: a later write does not reach the disk.
pub record Disk : Type 0 where
  pub blocks : ℕ → Block
  pub power : ℕ

abbrev pub write : Disk → ℕ → Block → Disk
write d b v =
    if d.power == 0 then d else record { blocks = update d.blocks b v; power = d.power - 1 }

pub record Buffers : Type 0 where
  pub content : ℕ → Block
  pub dirty : ℕ → Bool
  pub disk : Disk

-- The holder of a locked buffer assigns to its `data`.
abbrev pub modify : Buffers → ℕ → Block → Buffers
modify s b v = record s { content = update s.content b v }

-- `bwrite`: sets B_DIRTY and calls the disk driver, which writes the block and clears the flag.
abbrev pub bwrite : Buffers → ℕ → Buffers
bwrite s b = record s { disk = write s.disk b (s.content b); dirty = update s.dirty b false }

-- What a reboot finds: nothing is cached, so every read is of the disk.
abbrev pub boot : Disk → ℕ → Buffers
boot d power = record { content = d.blocks; dirty = λ b. false; disk = record d { power = power } }
