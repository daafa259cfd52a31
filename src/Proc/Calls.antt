-- ===== src/Proc/Calls.antt =====
-- `wakeup` and `kill` of proc.c, branch by branch.
use assignments.Base.{
  ℕ, ◌+◌, ◌<◌, ◌≡◌, refl, ◌∙◌, ◌⊎◌, inl, inr, ◌≢◌, Bool, true, false, ◌==◌, ltb, leb, ◌&&◌,
  if◌then◌else◌, update, arith, ℕ_discrete, ==_refl, ==_ne, ==_iff, Bool-cases, Option, ok, lt→ltb,
  le→leb,
}
use assignments.Proc.{
  nproc, minus_one, sleeping, runnable, is_sleeping, Proc, Ptable, find_slot, woken, wakeup1_from,
  wakeup, kill,
}
use assignments.Proc.Slots.{
  Found, found, missing, find_slot-Found, wakeup1_from_lem, is_sleeping_eq,
}
use assignments.Proc.Invariant.{Inv, Mild, Mild-Inv}

Mild-refl : (p : Proc) → Mild p p
Mild-refl p = record {
  unused_same = refl;
  zombie_same = refl;
  active_kept = λ h. h;
  pid_same = refl;
  parent_same = refl;
}

pub update-Inv :
    (t : Ptable) (i : ℕ) (q : Proc) (b : Bool)
    → Mild (t.procs i) q
    → Inv t
    → Inv (record t { locked = b; procs = update t.procs i q })
update-Inv t i q b m v =
    Mild-Inv t (record t { locked = b; procs = update t.procs i q }) mild refl refl v
  where
    mild : (j : ℕ) → Mild (t.procs j) (update t.procs i q j)
    mild j = elim (ℕ_discrete j i) [
      | yes e ↦ rw (e, ==_refl i) m
      | no ne ↦ rw (==_ne j i ne) (Mild-refl (t.procs j))
    ]

pub woken-Mild : (chan : ℕ) (p : Proc) → Mild p (woken chan p)
woken-Mild chan p = elim (Bool-cases (is_sleeping p.state && p.chan == chan)) [
  | inl e ↦
      let s : p.state ≡ sleeping = is_sleeping_eq p.state (ground arith) in
      rw e (record {
        unused_same = rw s;
        zombie_same = rw s;
        active_kept = λ h. refl;
        pid_same = refl;
        parent_same = refl;
      })
  | inr e ↦ rw e (Mild-refl p)
]

pub wakeup1_from-Mild :
    (chan : ℕ) (procs : ℕ → Proc) (j : ℕ) → Mild (procs j) (wakeup1_from nproc 0 chan procs j)
wakeup1_from-Mild chan procs j =
    rw (wakeup1_from_lem nproc 0 chan procs j) (elim (Bool-cases (leb 0 j && ltb j (0 + nproc))) [
      | inl e ↦ rw e (woken-Mild chan (procs j))
      | inr e ↦ rw e (Mild-refl (procs j))
    ])

-- `wakeup` makes every sleeper on the channel runnable, touches no other process of the table, and
-- gives the lock back; with the lock held it panics.
pub wakeup_lem :
    (chan : ℕ) (t : Ptable)
    → t.locked ≡ false
    → Inv t
    → (u : Ptable) × (wakeup chan t ≡ ok u)
      × ((j : ℕ) → j < nproc → u.procs j ≡ woken chan (t.procs j))
      × (u.locked ≡ false)
      × Inv u
unfolding wakeup
wakeup_lem chan t free v = (
  record t { locked = false; procs = wakeup1_from nproc 0 chan t.procs },
  rw free,
  λ j h.
      wakeup1_from_lem nproc 0 chan t.procs j
      ∙ rw (le→leb 0 j (omega arith), lt→ltb j (0 + nproc) (omega arith)),
  refl,
  Mild-Inv t _ (wakeup1_from-Mild chan t.procs) refl refl v,
)

-- The slot that `kill` leaves for its victim.
abbrev pub victim : Proc → Proc
victim p = record p { killed = true; state = if is_sleeping p.state then runnable else p.state }

victim-Mild : (p : Proc) → Mild p (victim p)
victim-Mild p = elim (Bool-cases (is_sleeping p.state)) [
  | inl e ↦
      let s : p.state ≡ sleeping = is_sleeping_eq p.state e in
      rw s (record {
        unused_same = refl;
        zombie_same = refl;
        active_kept = λ h. h;
        pid_same = refl;
        parent_same = refl;
      })
  | inr e ↦ rw e (record {
    unused_same = refl;
    zombie_same = refl;
    active_kept = λ h. h;
    pid_same = refl;
    parent_same = refl;
  })
]

abbrev pub has_pid : ℕ → Proc → Bool
has_pid pid p = p.pid == pid

-- The two ways in which `kill` ends.
abbrev pub Kills : ℕ → Ptable → Type 0
Kills pid t =
    ((i : ℕ) × (i < nproc)
      × ((t.procs i).pid ≡ pid)
      × ((j : ℕ) → j < i → (t.procs j).pid ≢ pid)
      × (kill pid t
          ≡ ok (record t { locked = false; procs = update t.procs i (victim (t.procs i)) }, 0))
      × Inv (record t { locked = false; procs = update t.procs i (victim (t.procs i)) }))
    ⊎ (((j : ℕ) → j < nproc → (t.procs j).pid ≢ pid)
        × (kill pid t ≡ ok (record t { locked = false }, minus_one)))

-- `kill` marks the first slot with this pid, wakes it if it sleeps, and returns 0; if no slot has
-- the pid it returns -1 and changes nothing. The lock is given back.
pub kill_lem : (pid : ℕ) (t : Ptable) → t.locked ≡ false → Inv t → Kills pid t
unfolding kill
kill_lem pid t free v =
    go (find_slot (has_pid pid) nproc 0 t.procs) refl
      (find_slot-Found (has_pid pid) nproc 0 t.procs)
  where
    differs : (p : Proc) → has_pid pid p ≡ false → p.pid ≢ pid
    differs p f e = ground arith

    go :
        (o : Option ℕ)
        → find_slot (has_pid pid) nproc 0 t.procs ≡ o
        → Found (has_pid pid) t.procs 0 (0 + nproc) o
        → Kills pid t
    go _ e (found i low high hit first) = inl (
      i,
      omega arith,
      (==_iff (t.procs i).pid pid).0 hit,
      λ j h. differs (t.procs j) (first j (omega arith) h),
      ground (arith, free, e),
      update-Inv t i (victim (t.procs i)) false (victim-Mild (t.procs i)) v,
    )
    go _ e (missing all) =
        inr
          (λ j h. differs (t.procs j) (all j (omega arith) (omega arith)), ground (arith, free, e))
