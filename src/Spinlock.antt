-- ===== src/Spinlock.antt =====
-- xv6-public/spinlock.c and sleeplock.c: spin locks with the nesting of disabled interrupts, and
-- sleep locks. A processor is known by a number, and a process by its pid.
pub mod Exclusion
mod Tests
use assignments.Base.{
  ℕ, zero, suc, ◌+◌, ◌-◌, Bool, true, false, ◌==◌, ◌&&◌, ◌||◌, not, if◌then◌else◌, update, Option,
  none, some, Res, ok, panic, check, ◌>>=◌,
}

-- `ncli` and `intena` of `struct cpu`, and the interrupt flag of the processor.
pub record Cpu : Type 0 where
  pub ncli : ℕ
  pub intena : Bool
  pub interrupts : Bool

pub pushcli : Cpu → Cpu
pushcli c = record {
  ncli = c.ncli + 1;
  intena = if c.ncli == 0 then c.interrupts else c.intena;
  interrupts = false;
}

pub popcli : Cpu → Res Cpu
popcli c = check (not c.interrupts) "popcli - interruptible" (
    check (not (c.ncli == 0)) "popcli" (
      ok (record c {
        ncli = c.ncli - 1;
        interrupts = if c.ncli - 1 == 0 && c.intena then true else c.interrupts;
      })))

-- `locked` and `cpu` of `struct spinlock`; the recorded call stack is for debugging only.
pub record Lock : Type 0 where
  pub held : Bool
  pub owner : Option ℕ

pub record Machine : Type 0 where
  pub cpus : ℕ → Cpu
  pub lock : Lock

abbrev pub owned_by : ℕ → Lock → Bool
owned_by k l = l.held && elim l.owner [ none ↦ false | some j ↦ j == k ]

-- `holding` on processor `k`.
pub holding : ℕ → Machine → Res (Machine × Bool)
unfolding pushcli popcli
holding k m = popcli (pushcli (m.cpus k)) >>= λ c.
    ok (record m { cpus = update m.cpus k c }, owned_by k m.lock)

-- The start of `acquire`, up to the loop on `xchg`.
pub acquire_start : ℕ → Machine → Res Machine
unfolding holding pushcli
acquire_start k m =
    holding k (record m { cpus = update m.cpus k (pushcli (m.cpus k)) }) >>= λ (n, own).
    check (not own) "acquire" (ok n)

-- One `xchg`: the lock is taken, or (`none`) it is held and the loop goes on.
pub acquire_try : ℕ → Machine → Option Machine
acquire_try k m =
    if m.lock.held then none else some (record m { lock = record { held = true; owner = some k } })

pub release : ℕ → Machine → Res Machine
unfolding holding popcli
release k m = holding k m >>= λ (n, own). check own "release" (
    popcli (n.cpus k) >>= λ c.
    ok (record { cpus = update n.cpus k c; lock = record { held = false; owner = none } }))

-- `struct sleeplock`, whose spin lock makes each of these one step.
pub record SleepLock : Type 0 where
  pub locked : Bool
  pub pid : ℕ

-- A round of `acquiresleep`; `none` is `sleep`.
pub acquiresleep : ℕ → SleepLock → Option SleepLock
acquiresleep pid l = if l.locked then none else some (record { locked = true; pid = pid })

-- The lock; the caller also wakes the sleepers.
pub releasesleep : SleepLock → SleepLock
releasesleep l = record { locked = false; pid = 0 }

pub holdingsleep : ℕ → SleepLock → Bool
holdingsleep pid l = l.locked && l.pid == pid
