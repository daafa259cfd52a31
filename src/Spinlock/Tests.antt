-- ===== src/Spinlock/Tests.antt =====
-- Runs of the locks, and concrete cases of their theorems.
use assignments.Base.{ℕ, ◌≡◌, refl, true, false, none, some, ok, panic, arith}
use assignments.Spinlock.{
  Cpu, pushcli, popcli, Machine, owned_by, holding, acquire_start, acquire_try, release, SleepLock,
  acquiresleep, releasesleep, holdingsleep,
}
use assignments.Spinlock.Exclusion.{Nested, popped, pushes, pops, pops-pushes, acquire-release}

abbrev running : Cpu
running = record { ncli = 0; intena = false; interrupts = true }

running-Nested : Nested running
running-Nested = record { off = λ h. absurd (omega (arith, h)) }

pops-pushes_example : pops 3 (pushes 3 running) ≡ ok (popped running)
pops-pushes_example = pops-pushes 2 running running-Nested

abbrev unlocked : Machine
unlocked = record { cpus = λ k. running; lock = record { held = false; owner = none } }

acquire-release_example :
    (n : Machine) × (u : Machine) × (w : Machine) × (acquire_start 1 unlocked ≡ ok n)
    × (acquire_try 1 n ≡ some u)
    × (owned_by 1 u.lock ≡ true)
    × ((u.cpus 1).interrupts ≡ false)
    × ((j : ℕ) → acquire_try j u ≡ none)
    × (release 1 u ≡ ok w)
    × (w.lock.held ≡ false)
    × (w.cpus 1 ≡ popped running)
acquire-release_example = acquire-release 1 unlocked running-Nested refl

unmatched_popcli : popcli (record running { interrupts = false }) ≡ panic "popcli"
unfolding popcli
unmatched_popcli = refl

-- Taking a lock twice on one processor, and releasing one that is not held, panics.
acquire_twice :
    acquire_start 1 (record unlocked { lock = record { held = true; owner = some 1 } })
    ≡ panic "acquire"
unfolding acquire_start holding popcli pushcli
acquire_twice = refl

release_free : release 1 unlocked ≡ panic "release"
unfolding release holding popcli pushcli
release_free = refl

abbrev free_sleep : SleepLock
free_sleep = record { locked = false; pid = 0 }

abbrev held_sleep : SleepLock
held_sleep = record { locked = true; pid = 3 }

acquiresleep_free : acquiresleep 3 free_sleep ≡ some held_sleep
unfolding acquiresleep
acquiresleep_free = refl

acquiresleep_held : acquiresleep 4 held_sleep ≡ none
unfolding acquiresleep
acquiresleep_held = refl

holdingsleep_held : holdingsleep 4 held_sleep ≡ false
unfolding holdingsleep
holdingsleep_held = refl

releasesleep_held : releasesleep held_sleep ≡ free_sleep
unfolding releasesleep
releasesleep_held = refl
