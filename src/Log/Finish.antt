-- ===== src/Log/Finish.antt =====
-- The common end of `commit` and `recover_from_log`: install the logged blocks, clear the header.
use assignments.Base.{
  ℕ, ◌+◌, ◌-◌, ◌≤◌, ◌<◌, List, [], ◌≡◌, sym, ◌∙◌, ap, subst, ◌⊎◌, inl, inr, ◌≢◌, get_or, set,
  length, arith, length-set, get_or-set_self, ℕ_discrete,
}
use assignments.Buffers.{Block}
use assignments.Log.{System, Log, log_size, copy_from, write_head, install_trans, install_from}
use assignments.Log.Replay.{
  entries, targets, overlay, logical, IsHome, All, Distinct, Installed, length-entries,
  overlay-Installed,
}
use assignments.Log.Head.{copy_from_below, entries-copy_from}
use assignments.Log.Phases.{
  log-install_from, power-install_from, install_from_other, install_from-overlay,
  install_from-Installed, install_from_off, Home-ne, Listed-cases,
}

-- A list of block numbers that fits the log: distinct blocks outside it.
pub record Fits (start : ℕ) (ts : List ℕ) : Type 0 where
  pub homes : All (IsHome start) ts
  pub distinct : Distinct ts
  pub few : length ts ≤ log_size

-- The block that `write_head` writes.
abbrev pub head_words : System → Block
head_words s = copy_from 1 0 s.n 0 s.block (set (s.content s.start) 0 s.n)

pub targets-head_words :
    (s : System)
    → s.n < length (s.content s.start)
    → targets (head_words s) ≡ entries s.block 0 s.n 0
targets-head_words s room =
    let count : get_or (head_words s) 0 0 ≡ s.n =
      copy_from_below 1 0 s.n 0 s.block (set (s.content s.start) 0 s.n) 0 (omega arith)
      ∙ get_or-set_self (s.content s.start) 0 s.n 0 (omega arith) in
    rw count (
      entries-copy_from 1 0 s.n 0 s.block (set (s.content s.start) 0 s.n)
        (omega (arith, length-set (s.content s.start) 0 s.n)))

-- The end of `commit` and of `recover_from_log`: install, then clear the header.
abbrev pub cleared : System → System
cleared s = record s { log = record s.log { n = 0 } }

abbrev pub finish : System → System
finish s = write_head (cleared (install_trans s))

-- A header whose transaction recovery can replay.
pub record IsReplayable (start : ℕ) (d : ℕ → Block) : Type 0 where
  pub fits : Fits start (targets (d start))
  pub room : log_size < length (d start)

-- The header on the disk lists the log in memory, whose blocks have reached the disk.
pub record Pending (s : System) : Type 0 where
  pub listed : targets (s.disk.blocks s.start) ≡ entries s.block 0 s.n 0
  pub fits : Fits s.start (entries s.block 0 s.n 0)
  pub room : log_size < length (s.content s.start)
  pub synced : (j : ℕ) → s.start < j → j ≤ s.start + s.n → s.content j ≡ s.disk.blocks j

pub no_targets : (w : Block) → get_or w 0 0 ≡ 0 → targets w ≡ []
no_targets w e = rw e

-- `write_head` writes the header or, without power, nothing.
pub write_head_cases :
    (s : System)
    → ((s.disk.power ≡ 0) × ((write_head s).disk ≡ s.disk))
      ⊎ ((0 < s.disk.power)
          × ((write_head s).disk.blocks s.start ≡ head_words s)
          × ((j : ℕ) → j ≢ s.start → (write_head s).disk.blocks j ≡ s.disk.blocks j))
unfolding write_head
write_head_cases s = elim (ℕ_discrete s.disk.power 0) [
  | yes e ↦ inl (e, ground arith)
  | no ne ↦ inr (omega arith, ground arith, λ j h. ground arith)
]

-- In memory the header is replaced, whether or not it reaches the disk.
pub write_head_content :
    (s : System)
    → ((write_head s).content s.start ≡ head_words s)
      × ((j : ℕ) → j ≢ s.start → (write_head s).content j ≡ s.content j)
unfolding write_head
write_head_content s = (ground arith, λ j h. ground arith)

pub n-le : (s : System) → Fits s.start (entries s.block 0 s.n 0) → s.n ≤ log_size
n-le s f = omega (arith, length-entries s.block 0 s.n 0, f.few)

pub Home-ne_start : {start b : ℕ} → IsHome start b → b ≢ start
Home-ne_start h = ground arith

pub install_trans-start :
    (s : System)
    → Fits s.start (entries s.block 0 s.n 0)
    → ((install_trans s).content s.start ≡ s.content s.start)
      × ((install_trans s).disk.blocks s.start ≡ s.disk.blocks s.start)
unfolding install_trans
install_trans-start s f =
    install_from_other s.n 0 s s.start
      (Home-ne s.start s.start _ f.homes (omega arith) (omega arith))

-- Installing changes nothing of what the disk stands for.
install_trans-logical :
    (s : System) (b : ℕ)
    → Pending s
    → logical s.start (install_trans s).disk.blocks b ≡ logical s.start s.disk.blocks b
unfolding install_trans
install_trans-logical s b p =
    rw ((install_trans-start s p.fits).1, p.listed)
      (install_from-overlay (entries s.block 0 s.n 0) s.n 0 s b p.fits.homes p.fits.few
        (Listed-cases b _))

-- With power for all of them, every block that the log holds is installed.
install_trans-Installed :
    (s : System)
    → Pending s
    → s.n ≤ s.disk.power
    → Installed (install_trans s).disk.blocks (s.start + 1) (entries s.block 0 s.n 0)
unfolding install_trans
install_trans-Installed s p power =
    subst (λ k. Installed (install_from s.n 0 s).disk.blocks k (entries s.block 0 s.n 0))
      (omega arith)
      (install_from-Installed s.n 0 s p.fits.homes p.fits.distinct (omega (arith, n-le s p.fits))
        power (λ j h k. p.synced j (omega arith) (omega arith)))

pub install_trans-power : (s : System) → (install_trans s).disk.power ≡ s.disk.power - s.n
unfolding install_trans
install_trans-power s = power-install_from s.n 0 s

pub install_trans-log : (s : System) → (install_trans s).log ≡ s.log
unfolding install_trans
install_trans-log s = log-install_from s.n 0 s

-- The header that `finish` writes lists nothing.
cleared-targets :
    (s : System) → 0 < length (s.content s.start) → get_or (head_words (cleared s)) 0 0 ≡ 0
unfolding copy_from
cleared-targets s room = get_or-set_self (s.content s.start) 0 0 0 room

-- Wherever the power fails, `finish` changes nothing of what the disk stands for.
pub finish-logical :
    (s : System) (b : ℕ)
    → Pending s
    → IsHome s.start b
    → logical s.start (finish s).disk.blocks b ≡ logical s.start s.disk.blocks b
finish-logical s b p home = elim (write_head_cases (cleared t)) [
  | inl (off, same) ↦ rw same (install_trans-logical s b p)
  | inr (on, head, others) ↦
      ap (λ ts. overlay ts (s.start + 1) (finish s).disk.blocks b)
        (no_targets ((finish s).disk.blocks s.start)
          (ap (λ w. get_or w 0 0) (at_start ∙ head) ∙ cleared-targets t room))
      ∙ others b (λ e. Home-ne_start home (e ∙ start_eq))
      ∙ sym (
          overlay-Installed (entries s.block 0 s.n 0) (s.start + 1) t.disk.blocks b
            (install_trans-Installed s p (omega (arith, install_trans-power s))))
      ∙ ap (λ ts. overlay ts (s.start + 1) t.disk.blocks b) (sym listed)
      ∙ install_trans-logical s b p
]
  where
    t : System
    t = install_trans s

    start_eq : t.start ≡ s.start
    start_eq = ap (λ (l : Log). l.start) (install_trans-log s)

    at_start : (finish s).disk.blocks s.start ≡ (finish s).disk.blocks t.start
    at_start = ap (finish s).disk.blocks (sym start_eq)

    room : 0 < length (t.content t.start)
    room = rw (start_eq, (install_trans-start s p.fits).0) (omega (arith, p.room))

    listed : targets (t.disk.blocks s.start) ≡ entries s.block 0 s.n 0
    listed = rw ((install_trans-start s p.fits).1) p.listed

-- With power to the end, it leaves an empty header: every block is home.
pub finish-clean :
    (s : System) → Pending s → s.n < s.disk.power → get_or ((finish s).disk.blocks s.start) 0 0 ≡ 0
finish-clean s p power = elim (write_head_cases (cleared t)) [
  | inl (off, same) ↦ absurd (omega (arith, install_trans-power s))
  | inr (on, head, others) ↦
      ap (λ w. get_or w 0 0) (ap (finish s).disk.blocks (sym start_eq) ∙ head)
      ∙ cleared-targets t (rw (start_eq, (install_trans-start s p.fits).0) (omega (arith, p.room)))
]
  where
    t : System
    t = install_trans s

    start_eq : t.start ≡ s.start
    start_eq = ap (λ (l : Log). l.start) (install_trans-log s)

-- Without power, `finish` does not change the disk.
pub finish_off : (s : System) → s.disk.power ≡ 0 → (finish s).disk ≡ s.disk
unfolding write_head install_trans
finish_off s off = ground (arith, install_from_off s.n 0 s off)

pub IsReplayable-idle :
    (start : ℕ) (d : ℕ → Block)
    → get_or (d start) 0 0 ≡ 0
    → log_size < length (d start)
    → IsReplayable start d
IsReplayable-idle start d idle room = record {
  fits = rw (no_targets (d start) idle) (record { homes = tt; distinct = tt; few = omega arith });
  room = room;
}

-- `finish` leaves the header it found, or an empty one.
pub finish-IsReplayable :
    (s : System)
    → Pending s
    → log_size < length (s.disk.blocks s.start)
    → IsReplayable s.start (finish s).disk.blocks
unfolding copy_from
finish-IsReplayable s p disk_room = elim (write_head_cases (cleared t)) [
  | inl (off, same) ↦
      rw same (record { fits = rw (at_start, p.listed) p.fits; room = rw at_start disk_room })
  | inr (on, head, others) ↦
      IsReplayable-idle s.start (finish s).disk.blocks
        (ap (λ w. get_or w 0 0) (written head) ∙ cleared-targets t (omega (arith, room)))
        (rw (written head) (omega (arith, room, length-set (t.content t.start) 0 0)))
]
  where
    t : System
    t = install_trans s

    start_eq : t.start ≡ s.start
    start_eq = ap (λ (l : Log). l.start) (install_trans-log s)

    at_start : t.disk.blocks s.start ≡ s.disk.blocks s.start
    at_start = (install_trans-start s p.fits).1

    room : log_size < length (t.content t.start)
    room = rw (start_eq, (install_trans-start s p.fits).0) p.room

    written :
        (finish s).disk.blocks t.start ≡ head_words (cleared t)
        → (finish s).disk.blocks s.start ≡ head_words (cleared t)
    written head = ap (finish s).disk.blocks (sym start_eq) ∙ head
