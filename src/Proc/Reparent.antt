-- ===== src/Proc/Reparent.antt =====
-- The loop of `exit` that passes children to init.
use assignments.Base.{
  ℕ, zero, suc, ◌+◌, ◌≡◌, refl, inl, inr, Bool, true, false, ◌==◌, ltb, leb, ◌&&◌, ◌||◌,
  if◌then◌else◌, update, arith, Bool-cases, ℕ_discrete, subst, ==_refl, ==_ne,
}
use assignments.Proc.{nproc, is_zombie, Proc, wakeup1_from, reparent_from}
use assignments.Proc.Slots.{Passed, Passed-refl, Passed-trans, all_woken-Passed}

or_false : (b : Bool) → (b || false) ≡ b
or_false true = refl
or_false false = refl

and_false : (b : Bool) → (b && false) ≡ false
and_false true = refl
and_false false = refl

range_cases :
    (i j r : ℕ)
    → ((j == i) || (leb (i + 1) j && ltb j (i + 1 + r))) ≡ (leb i j && ltb j (i + suc r))
range_cases i j r = ground arith

-- One round of the loop.
abbrev round : ℕ → ℕ → ℕ → (ℕ → Proc) → ℕ → Proc
round i curproc init procs =
    let p = procs i in
    let adopted = update procs i (record p { parent = init }) in
    if p.parent == curproc
    then (if is_zombie p.state then wakeup1_from nproc 0 init adopted else adopted)
    else procs

adopted-Passed :
    (i curproc init : ℕ) (procs : ℕ → Proc) (j : ℕ)
    → ((procs i).parent == curproc) ≡ true
    → Passed (j == i) curproc init (procs j) (update procs i (record (procs i) { parent = init }) j)
adopted-Passed i curproc init procs j e = elim (ℕ_discrete j i) [
  | yes h ↦
      rw (h, ==_refl i)
        (record { parent = rw e; pid = refl; chan = refl; exitstatus = refl; woke = inl refl })
  | no ne ↦ rw (==_ne j i ne) (Passed-refl curproc init (procs j))
]

round-Passed :
    (i curproc init : ℕ) (procs : ℕ → Proc) (j : ℕ)
    → Passed (j == i) curproc init (procs j) (round i curproc init procs j)
round-Passed i curproc init procs j = elim (Bool-cases ((procs i).parent == curproc)) [
  | inr e ↦ rw e (elim (ℕ_discrete j i) [
    | yes h ↦
        rw (h, ==_refl i)
          (record { parent = rw e; pid = refl; chan = refl; exitstatus = refl; woke = inl refl })
    | no ne ↦ rw (==_ne j i ne) (Passed-refl curproc init (procs j))
  ])
  | inl e ↦ rw e (elim (Bool-cases (is_zombie (procs i).state)) [
    | inr z ↦ rw z (adopted-Passed i curproc init procs j e)
    | inl z ↦ rw z (
        subst
          (λ b.
            Passed b curproc init (procs j)
              (wakeup1_from nproc 0 init (update procs i (record (procs i) { parent = init })) j))
          (or_false (j == i))
          (Passed-trans (j == i) false curproc init _ _ _ (and_false (j == i))
            (adopted-Passed i curproc init procs j e)
            (all_woken-Passed curproc init (update procs i (record (procs i) { parent = init }))
              j)))
  ])
]

-- The loop passes the children in its range to init and changes no other parent.
pub reparent_from-Passed :
    (r i curproc init : ℕ) (procs : ℕ → Proc) (j : ℕ)
    → Passed
        (leb i j && ltb j (i + r))
        curproc
        init
        (procs j)
        (reparent_from r i curproc init procs j)
unfolding reparent_from
reparent_from-Passed zero i curproc init procs j =
    subst (λ b. Passed b curproc init (procs j) (procs j)) {x = false} (ground arith)
      (Passed-refl curproc init (procs j))
reparent_from-Passed (suc r) i curproc init procs j =
    subst (λ b. Passed b curproc init (procs j) (reparent_from (suc r) i curproc init procs j))
      (range_cases i j r)
      (Passed-trans (j == i) (leb (i + 1) j && ltb j (i + 1 + r)) curproc init _ _ _ (ground arith)
        (round-Passed i curproc init procs j)
        (reparent_from-Passed r (i + 1) curproc init (round i curproc init procs) j))
