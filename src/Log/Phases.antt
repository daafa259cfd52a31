-- ===== src/Log/Phases.antt =====
-- The loops of `write_log` and `install_trans`: what they write and what they leave alone.
use native.Mathlib.Nat.{add-zero}
use assignments.Base.{
  ℕ, zero, suc, ◌+◌, ◌-◌, ◌≤◌, ◌<◌, List, [], ◌∷◌, ◌≡◌, refl, ◌∙◌, ◌⊎◌, inl, inr, ◌≢◌, get_or,
  length, arith, ℕ_discrete,
}
use assignments.Buffers.{Block, bwrite, modify}
use assignments.Log.{System, log_size, install_from, write_log_from}
use assignments.Log.Replay.{
  entries, overlay, IsHome, All, Distinct, Listed, Logged, Installed, overlay-congr,
}

pub Home-ne :
    (start j : ℕ) (ts : List ℕ)
    → All (IsHome start) ts
    → start ≤ j
    → j ≤ start + log_size
    → All (λ t. t ≢ j) ts
Home-ne start j [] h p q = tt
Home-ne start j (t ∷ ts) h p q = (ground arith, Home-ne start j ts h.1 p q)

pub Listed-cases : (b : ℕ) (ts : List ℕ) → Listed b ts ⊎ All (λ t. t ≢ b) ts
Listed-cases b [] = inr tt
Listed-cases b (t ∷ ts) = ground (arith, Listed-cases b ts, ℕ_discrete t b)

-- One round of `install_trans`.
abbrev pub installed : System → ℕ → System
installed s tail =
    let dst = get_or s.block tail 0 in
    record s { buffers = bwrite (modify s.buffers dst (s.content (s.start + tail + 1))) dst }

-- One round of `write_log`.
abbrev pub logged : System → ℕ → System
logged s tail =
    let to = s.start + tail + 1 in
    record s { buffers = bwrite (modify s.buffers to (s.content (get_or s.block tail 0))) to }

next_pos : (a b : ℕ) → a + b + 1 + 1 ≡ a + (b + 1) + 1
next_pos a b = omega arith

pub log-install_from : (r tail : ℕ) (s : System) → (install_from r tail s).log ≡ s.log
unfolding install_from
log-install_from zero tail s = refl
log-install_from (suc r) tail s = log-install_from r (tail + 1) (installed s tail)

pub power-install_from :
    (r tail : ℕ) (s : System) → (install_from r tail s).disk.power ≡ s.disk.power - r
unfolding install_from
power-install_from zero tail s = omega arith
power-install_from (suc r) tail s =
    ground (arith, power-install_from r (tail + 1) (installed s tail))

-- A block that is not installed keeps its content, in memory and on the disk.
pub install_from_other :
    (r tail : ℕ) (s : System) (j : ℕ)
    → All (λ t. t ≢ j) (entries s.block 0 r tail)
    → ((install_from r tail s).content j ≡ s.content j)
      × ((install_from r tail s).disk.blocks j ≡ s.disk.blocks j)
unfolding install_from
install_from_other zero tail s j h = (refl, refl)
install_from_other (suc r) tail s j h =
    ground (arith, add-zero tail, install_from_other r (tail + 1) (installed s tail) j h.1)

-- Whenever the power fails, the disk stands for the same file system.
pub install_from-overlay :
    (ts : List ℕ) (r tail : ℕ) (s : System) (b : ℕ)
    → All (IsHome s.start) (entries s.block 0 r tail)
    → length ts ≤ log_size
    → Listed b ts ⊎ All (λ t. t ≢ b) (entries s.block 0 r tail)
    → overlay ts (s.start + 1) (install_from r tail s).disk.blocks b
      ≡ overlay ts (s.start + 1) s.disk.blocks b
install_from-overlay ts r tail s b homes len k =
    overlay-congr ts (s.start + 1) _ _ b
      (λ j p q.
        (install_from_other r tail s j (Home-ne s.start j _ homes (omega arith) (omega arith))).1)
      (unlisted k)
  where
    unlisted :
        Listed b ts ⊎ All (λ t. t ≢ b) (entries s.block 0 r tail)
        → ((install_from r tail s).disk.blocks b ≡ s.disk.blocks b) ⊎ Listed b ts
    unlisted (inl l) = inr l
    unlisted (inr n) = inl (install_from_other r tail s b n).1

-- With the power on to the end, every listed block has been installed.
pub install_from-Installed :
    (r tail : ℕ) (s : System)
    → All (IsHome s.start) (entries s.block 0 r tail)
    → Distinct (entries s.block 0 r tail)
    → tail + r ≤ log_size
    → r ≤ s.disk.power
    → ((j : ℕ) → s.start + tail < j → j ≤ s.start + tail + r → s.content j ≡ s.disk.blocks j)
    → Installed (install_from r tail s).disk.blocks (s.start + tail + 1) (entries s.block 0 r tail)
unfolding install_from
install_from-Installed zero tail s homes distinct len power synced = tt
install_from-Installed (suc r) tail s homes distinct len power synced = (
  ground (
    arith,
    add-zero tail,
    install_from_other r (tail + 1) (installed s tail) (get_or s.block (tail + 0) 0) distinct.0,
    install_from_other r (tail + 1) (installed s tail) (s.start + tail + 1)
        (Home-ne s.start (s.start + tail + 1) _ homes.1 (omega arith) (omega arith)),
    synced (s.start + tail + 1) (omega arith) (omega arith),
  ),
  rw (next_pos s.start tail) (
      install_from-Installed r (tail + 1) (installed s tail) homes.1 distinct.1 (omega arith)
        (ground arith)
        (λ j p q. ground (arith, add-zero tail, synced j (omega arith) (omega arith)))),
)

pub log-write_log_from : (r tail : ℕ) (s : System) → (write_log_from r tail s).log ≡ s.log
unfolding write_log_from
log-write_log_from zero tail s = refl
log-write_log_from (suc r) tail s = log-write_log_from r (tail + 1) (logged s tail)

pub power-write_log_from :
    (r tail : ℕ) (s : System) → (write_log_from r tail s).disk.power ≡ s.disk.power - r
unfolding write_log_from
power-write_log_from zero tail s = omega arith
power-write_log_from (suc r) tail s =
    ground (arith, power-write_log_from r (tail + 1) (logged s tail))

-- Only the log blocks in range are written.
pub write_log_from_other :
    (r tail : ℕ) (s : System) (j : ℕ)
    → (j ≤ s.start + tail) ⊎ (s.start + tail + r < j)
    → ((write_log_from r tail s).content j ≡ s.content j)
      × ((write_log_from r tail s).disk.blocks j ≡ s.disk.blocks j)
unfolding write_log_from
write_log_from_other zero tail s j h = (refl, refl)
write_log_from_other (suc r) tail s j h =
    ground (arith, write_log_from_other r (tail + 1) (logged s tail) j)

-- With the power on to the end, memory and disk agree on those blocks.
pub write_log_from_synced :
    (r tail : ℕ) (s : System) (j : ℕ)
    → r ≤ s.disk.power
    → s.start + tail < j
    → j ≤ s.start + tail + r
    → (write_log_from r tail s).content j ≡ (write_log_from r tail s).disk.blocks j
unfolding write_log_from
write_log_from_synced zero tail s j power p q = absurd (omega arith)
write_log_from_synced (suc r) tail s j power p q = ground (
  arith,
  write_log_from_synced r (tail + 1) (logged s tail) j,
  write_log_from_other r (tail + 1) (logged s tail) j,
)

-- And they hold the new contents of the listed blocks.
pub write_log_from-Logged :
    (r tail : ℕ) (s : System) (f : ℕ → Block)
    → All (IsHome s.start) (entries s.block 0 r tail)
    → ((j : ℕ) → IsHome s.start j → s.content j ≡ f j)
    → tail + r ≤ log_size
    → r ≤ s.disk.power
    → Logged (write_log_from r tail s).disk.blocks (s.start + tail + 1) (entries s.block 0 r tail) f
unfolding write_log_from
write_log_from-Logged zero tail s f homes agree len power = tt
write_log_from-Logged (suc r) tail s f homes agree len power = (
  ground (
    arith,
    add-zero tail,
    write_log_from_other r (tail + 1) (logged s tail) (s.start + tail + 1),
    agree (get_or s.block tail 0) (rw (← add-zero tail) homes.0),
  ),
  rw (next_pos s.start tail) (
      write_log_from-Logged r (tail + 1) (logged s tail) f homes.1
        (λ j h. ground (arith, agree j h)) (omega arith) (ground arith)),
)

-- Without power nothing reaches the disk.
pub install_from_off :
    (r tail : ℕ) (s : System) → s.disk.power ≡ 0 → (install_from r tail s).disk ≡ s.disk
unfolding install_from
install_from_off zero tail s off = refl
install_from_off (suc r) tail s off =
    install_from_off r (tail + 1) (installed s tail) (ground arith) ∙ ground arith
