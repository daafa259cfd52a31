-- ===== src/Log/Replay.antt =====
-- What a disk with a log on it stands for: the home blocks, overlaid by the logged blocks.
use assignments.Base.{
  ℕ, zero, suc, ◌+◌, ◌≤◌, ◌<◌, List, [], ◌∷◌, ◌≡◌, refl, ◌⊎◌, inl, inr, ◌==◌, if◌then◌else◌, get_or,
  length, arith,
}
pub use assignments.Base.{All, Distinct, Listed}
use assignments.Buffers.{Block}
use assignments.Log.{log_size}

-- The entries `i`, ..., `i + rounds - 1` of an array whose first entry is word `b`.
abbrev pub entries : List ℕ → ℕ → ℕ → ℕ → List ℕ
entries src b zero i = []
entries src b (suc rounds) i = get_or src (i + b) 0 ∷ entries src b rounds (i + 1)

-- The block numbers that a header block lists.
abbrev pub targets : Block → List ℕ
targets w = entries w 1 (get_or w 0 0) 0

-- Block `b` of the disk `d`, where the blocks from `pos` on hold the new contents of `ts`.
abbrev pub overlay : List ℕ → ℕ → (ℕ → Block) → ℕ → Block
overlay [] pos d b = d b
overlay (t ∷ ts) pos d b = if t == b then d pos else overlay ts (pos + 1) d b

-- The file system that a disk stands for: recovery makes every block read so.
abbrev pub logical : ℕ → (ℕ → Block) → ℕ → Block
logical start d b = overlay (targets (d start)) (start + 1) d b

-- The blocks of `ts` with the contents `f`, all others as on `d`.
abbrev pub changed : List ℕ → (ℕ → Block) → (ℕ → Block) → ℕ → Block
changed [] f d b = d b
changed (t ∷ ts) f d b = if t == b then f t else changed ts f d b

-- A block outside the log.
abbrev pub IsHome : ℕ → ℕ → Type 0
IsHome start b = (b < start) ⊎ (start + log_size < b)

-- The blocks from `pos` on hold the contents `f` of the blocks `ts`.
abbrev pub Logged : (ℕ → Block) → ℕ → List ℕ → (ℕ → Block) → Type 0
Logged d pos [] f = Unit {0}
Logged d pos (t ∷ ts) f = (d pos ≡ f t) × Logged d (pos + 1) ts f

abbrev pub Installed : (ℕ → Block) → ℕ → List ℕ → Type 0
Installed d pos [] = Unit {0}
Installed d pos (t ∷ ts) = (d t ≡ d pos) × Installed d (pos + 1) ts

pub length-entries : (src : List ℕ) (b r i : ℕ) → length (entries src b r i) ≡ r
length-entries src b zero i = refl
length-entries src b (suc r) i = omega (arith, length-entries src b r (i + 1))

-- The overlay reads only its positions and, for an unlisted block, the block itself.
pub overlay-congr :
    (ts : List ℕ) (pos : ℕ) (d e : ℕ → Block) (b : ℕ)
    → ((j : ℕ) → pos ≤ j → j < pos + length ts → d j ≡ e j)
    → (d b ≡ e b) ⊎ Listed b ts
    → overlay ts pos d b ≡ overlay ts pos e b
overlay-congr [] pos d e b h (inl k) = k
overlay-congr [] pos d e b h (inr k) = elim k [ ]
overlay-congr (t ∷ ts) pos d e b h k = ground (
  arith,
  h pos (omega arith) (omega arith),
  overlay-congr ts (pos + 1) d e b (λ j p q. h j (omega arith) (omega arith)),
)

pub overlay-Logged :
    (ts : List ℕ) (pos : ℕ) (d f : ℕ → Block) (b : ℕ)
    → Logged d pos ts f
    → overlay ts pos d b ≡ changed ts f d b
overlay-Logged [] pos d f b h = refl
overlay-Logged (t ∷ ts) pos d f b h = ground (arith, overlay-Logged ts (pos + 1) d f b h.1)

pub overlay-Installed :
    (ts : List ℕ) (pos : ℕ) (d : ℕ → Block) (b : ℕ) → Installed d pos ts → overlay ts pos d b ≡ d b
overlay-Installed [] pos d b h = refl
overlay-Installed (t ∷ ts) pos d b h = ground (arith, overlay-Installed ts (pos + 1) d b h.1)

pub changed-congr :
    (ts : List ℕ) (f d e : ℕ → Block) (b : ℕ) → d b ≡ e b → changed ts f d b ≡ changed ts f e b
changed-congr [] f d e b h = h
changed-congr (t ∷ ts) f d e b h = ground (arith, changed-congr ts f d e b h)
