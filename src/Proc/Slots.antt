-- ===== src/Proc/Slots.antt =====
-- The loops over the process table, slot by slot.
use assignments.Base.{
  ℕ, zero, suc, ◌+◌, ◌≤◌, ◌<◌, ◌≡◌, refl, ◌∙◌, ◌⊎◌, inl, inr, ◌≢◌, Bool, true, false, ◌==◌, ltb,
  leb, ◌&&◌, ◌||◌, if◌then◌else◌, update, Option, none, some, arith, Bool-cases, ℕ_discrete,
  lt→leb_false, le→leb, lt→ltb, ==_refl, ==_ne,
}
use assignments.Proc.{
  nproc, State, sleeping, runnable, is_sleeping, Proc, find_slot, woken, wakeup1_from,
}

-- The search finds the first slot in range that passes the test, or none passes.
pub data Found (test : Proc → Bool) (procs : ℕ → Proc) (from to : ℕ) : Option ℕ → Type 0 where
  found :
      (i : ℕ)
      → from ≤ i
      → i < to
      → test (procs i) ≡ true
      → ((j : ℕ) → from ≤ j → j < i → test (procs j) ≡ false)
      → Found test procs from to (some i)
  missing : ((j : ℕ) → from ≤ j → j < to → test (procs j) ≡ false) → Found test procs from to none

widen :
    (test : Proc → Bool) (procs : ℕ → Proc) (i r : ℕ) (o : Option ℕ)
    → test (procs i) ≡ false
    → Found test procs (i + 1) (i + 1 + r) o
    → Found test procs i (i + suc r) o
widen test procs i r _ f (found k low high t first) =
    found k (omega arith) (omega arith) t
      (λ j h m. elim (ℕ_discrete j i) [ yes e ↦ rw e f | no ne ↦ first j (omega arith) m ])
widen test procs i r _ f (missing all) =
    missing (λ j h m. elim (ℕ_discrete j i) [
      | yes e ↦ rw e f
      | no ne ↦ all j (omega arith) (omega arith)
    ])

pub find_slot-Found :
    (test : Proc → Bool) (r i : ℕ) (procs : ℕ → Proc)
    → Found test procs i (i + r) (find_slot test r i procs)
unfolding find_slot
find_slot-Found test zero i procs = missing (λ j h k. absurd (omega arith))
find_slot-Found test (suc r) i procs = elim (Bool-cases (test (procs i))) [
  | inl t ↦ rw t (found i (omega arith) (omega arith) t (λ j h k. absurd (omega arith)))
  | inr f ↦ rw f (widen test procs i r _ f (find_slot-Found test r (i + 1) procs))
]

range_step :
    (i j r : ℕ) → j ≢ i → (leb (i + 1) j && ltb j (i + 1 + r)) ≡ (leb i j && ltb j (i + suc r))
range_step i j r h = ground arith

pub wakeup1_from_lem :
    (r i chan : ℕ) (procs : ℕ → Proc) (j : ℕ)
    → wakeup1_from r i chan procs j
      ≡ (if leb i j && ltb j (i + r) then woken chan (procs j) else procs j)
unfolding wakeup1_from
wakeup1_from_lem zero i chan procs j = ground arith
wakeup1_from_lem (suc r) i chan procs j = elim (ℕ_discrete j i) [
  | yes e ↦
      wakeup1_from_lem r (i + 1) chan (update procs i (woken chan (procs i))) j
      ∙ rw (
        lt→leb_false (i + 1) j (omega arith),
        e,
        ==_refl i,
        le→leb i i (omega arith),
        lt→ltb i (i + suc r) (omega arith),
      )
  | no ne ↦
      wakeup1_from_lem r (i + 1) chan (update procs i (woken chan (procs i))) j
      ∙ rw (==_ne j i ne, range_step i j r ne)
]

-- A process before and after children were passed to init: its parent is replaced if `adopt` says
-- so, it may have been woken as a sleeper on init's channel, and the rest that a parent reads is
-- the same.
pub record Passed (adopt : Bool) (curproc init : ℕ) (p q : Proc) : Type 0 where
  pub parent : q.parent ≡ (if adopt && p.parent == curproc then init else p.parent)
  pub pid : q.pid ≡ p.pid
  pub chan : q.chan ≡ p.chan
  pub exitstatus : q.exitstatus ≡ p.exitstatus
  pub woke : (q.state ≡ p.state) ⊎ ((p.state ≡ sleeping) × (p.chan ≡ init) × (q.state ≡ runnable))

pub Passed-refl : (curproc init : ℕ) (p : Proc) → Passed false curproc init p p
Passed-refl curproc init p = record {
  parent = refl;
  pid = refl;
  chan = refl;
  exitstatus = refl;
  woke = inl refl;
}

pub is_sleeping_eq : (s : State) → is_sleeping s ≡ true → s ≡ sleeping
is_sleeping_eq s h = ground arith

pub woken-Passed : (curproc init : ℕ) (p : Proc) → Passed false curproc init p (woken init p)
woken-Passed curproc init p = elim (Bool-cases (is_sleeping p.state && p.chan == init)) [
  | inl e ↦ rw e (record {
    parent = refl;
    pid = refl;
    chan = refl;
    exitstatus = refl;
    woke = inr (is_sleeping_eq p.state (ground arith), ground arith, refl);
  })
  | inr e ↦ rw e (Passed-refl curproc init p)
]

pub Passed-trans :
    (a b : Bool) (curproc init : ℕ) (p q r : Proc)
    → (a && b) ≡ false
    → Passed a curproc init p q
    → Passed b curproc init q r
    → Passed (a || b) curproc init p r
Passed-trans a b curproc init p q r apart f g = record {
  parent = parents a b apart f.parent g.parent;
  pid = g.pid ∙ f.pid;
  chan = g.chan ∙ f.chan;
  exitstatus = g.exitstatus ∙ f.exitstatus;
  woke = ground (arith, f.woke, g.woke, f.chan, g.chan);
}
  where
    parents :
        (c d : Bool)
        → (c && d) ≡ false
        → q.parent ≡ (if c && p.parent == curproc then init else p.parent)
        → r.parent ≡ (if d && q.parent == curproc then init else q.parent)
        → r.parent ≡ (if (c || d) && p.parent == curproc then init else p.parent)
    parents true true h x y = cc
    parents true false h x y = y ∙ x
    parents false d h x y = rw (← x) y

pub all_woken-Passed :
    (curproc init : ℕ) (procs : ℕ → Proc) (j : ℕ)
    → Passed false curproc init (procs j) (wakeup1_from nproc 0 init procs j)
all_woken-Passed curproc init procs j =
    rw (wakeup1_from_lem nproc 0 init procs j) (elim (Bool-cases (leb 0 j && ltb j (0 + nproc))) [
      | inl e ↦ rw e (woken-Passed curproc init (procs j))
      | inr e ↦ rw e (Passed-refl curproc init (procs j))
    ])
