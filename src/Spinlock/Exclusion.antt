-- ===== src/Spinlock/Exclusion.antt =====
-- `pushcli` and `popcli`, `acquire` and `release` of spinlock.c in pairs.
use assignments.Base.{
  ℕ, zero, suc, ◌<◌, ◌≡◌, refl, ◌∙◌, true, false, ◌==◌, if◌then◌else◌, update, none, some, Res, ok,
  ◌>>=◌, arith, ==_refl, ==_ne,
}
use assignments.Spinlock.{
  Cpu, pushcli, popcli, Machine, owned_by, holding, acquire_start, acquire_try, release,
}

-- Interrupts are off while any `pushcli` is open.
pub record Nested (c : Cpu) : Type 0 where
  pub off : 0 < c.ncli → c.interrupts ≡ false

-- What `popcli` after `pushcli` leaves: `intena` is set anew at the outermost level.
abbrev pub popped : Cpu → Cpu
popped c = record c { intena = if c.ncli == 0 then c.interrupts else c.intena }

popcli-pushcli : (c : Cpu) → Nested c → popcli (pushcli c) ≡ ok (popped c)
unfolding popcli pushcli
popcli-pushcli c v = ground (arith, v.off)

popcli-pushcli_inner : (c : Cpu) → Nested c → 0 < c.ncli → popcli (pushcli c) ≡ ok c
popcli-pushcli_inner c v h =
    popcli-pushcli c v ∙ rw (==_ne c.ncli 0 (λ e. absurd (omega (arith, h, e)))) refl

pushcli-Nested : (c : Cpu) → Nested (pushcli c) × (0 < (pushcli c).ncli)
unfolding pushcli
pushcli-Nested c = (record { off = λ h. refl }, omega arith)

abbrev pub pushes : ℕ → Cpu → Cpu
pushes zero c = c
pushes (suc n) c = pushcli (pushes n c)

abbrev pub pops : ℕ → Cpu → Res Cpu
pops zero c = ok c
pops (suc n) c = popcli c >>= pops n

-- However deeply `pushcli` is nested, as many `popcli` bring the interrupts back to what they were
-- at the outermost level, without a panic.
pub pops-pushes : (n : ℕ) (c : Cpu) → Nested c → pops (suc n) (pushes (suc n) c) ≡ ok (popped c)
pops-pushes zero c v = rw (popcli-pushcli c v) refl
pops-pushes (suc n) c v =
    let (nested, inner) = pushcli-Nested (pushes n c) in
    rw (popcli-pushcli_inner (pushcli (pushes n c)) nested inner) (pops-pushes n c v)

-- A free lock is taken by `acquire` with the interrupts off, keeps other processors in their loop
-- while it is held, and `release` gives it back with the interrupts as they were; none of it panics.
pub acquire-release :
    (k : ℕ) (m : Machine)
    → Nested (m.cpus k)
    → m.lock.held ≡ false
    → (n : Machine) × (u : Machine) × (w : Machine) × (acquire_start k m ≡ ok n)
      × (acquire_try k n ≡ some u)
      × (owned_by k u.lock ≡ true)
      × ((u.cpus k).interrupts ≡ false)
      × ((j : ℕ) → acquire_try j u ≡ none)
      × (release k u ≡ ok w)
      × (w.lock.held ≡ false)
      × (w.cpus k ≡ popped (m.cpus k))
unfolding acquire_start acquire_try release holding
acquire-release k m v free =
    let c = m.cpus k in
    let (nested, inner) = pushcli-Nested c in
    let on : ℕ → Cpu = update (update m.cpus k (pushcli c)) k (pushcli c) in
    let u : Machine = record { cpus = on; lock = record { held = true; owner = some k } } in
    (
      record m { cpus = on },
      u,
      record {
        cpus = update (update on k (pushcli c)) k (popped c);
        lock = record { held = false; owner = none };
      },
      rw (==_refl k, popcli-pushcli_inner (pushcli c) nested inner, free) refl,
      rw free refl,
      rw (==_refl k) refl,
      rw (==_refl k) (nested.off inner),
      λ j. refl,
      rw (==_refl k, popcli-pushcli_inner (pushcli c) nested inner, ==_refl k, popcli-pushcli c v)
          refl,
      refl,
      rw (==_refl k) refl,
    )
