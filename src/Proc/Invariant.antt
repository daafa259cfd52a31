-- ===== src/Proc/Invariant.antt =====
-- The invariant of the process table, and the changes that keep it.
use assignments.Base.{
  ℕ, ◌+◌, ◌<◌, ◌≡◌, refl, sym, ap, ◌∙◌, ◌⊎◌, inl, inr, ◌≢◌, Bool, true, false, update, arith,
  ℕ_discrete, ==_refl, ==_ne, subst,
}
use assignments.Proc.{
  unused, embryo, sleeping, runnable, running, zombie, nproc, State, is_unused, is_zombie, Proc,
  Ptable,
}

-- A process that runs or will run: it can have children.
abbrev pub is_active : State → Bool
is_active sleeping = true
is_active runnable = true
is_active running = true
is_active _ = false

pub active_live : (s : State) → is_active s ≡ true → is_unused s ≡ false
active_live unused h = cc h
active_live embryo h = refl
active_live sleeping h = refl
active_live runnable h = refl
active_live running h = refl
active_live zombie h = refl

pub active_not_zombie : (s : State) → is_active s ≡ true → is_zombie s ≡ false
active_not_zombie unused h = refl
active_not_zombie embryo h = refl
active_not_zombie sleeping h = refl
active_not_zombie runnable h = refl
active_not_zombie running h = refl
active_not_zombie zombie h = cc h

-- The address of a slot whose process can have children.
abbrev pub IsActive : (ℕ → Proc) → ℕ → Type 0
IsActive procs a = (k : ℕ) × (a ≡ k + 1) × (k < nproc) × (is_active (procs k).state ≡ true)

pub record Inv (t : Ptable) : Type 0 where
  -- Pids in use are positive, issued, and distinct.
  pub pids :
      (i : ℕ)
      → i < nproc
      → is_unused (t.procs i).state ≡ false
      → (0 < (t.procs i).pid) × ((t.procs i).pid < t.next_pid)
  pub unique :
      (i j : ℕ)
      → i < nproc
      → j < nproc
      → is_unused (t.procs i).state ≡ false
      → is_unused (t.procs j).state ≡ false
      → (t.procs i).pid ≡ (t.procs j).pid
      → i ≡ j
  -- A parent is a process that can still wait.
  pub parents :
      (i : ℕ)
      → i < nproc
      → ((t.procs i).parent ≡ 0)
        ⊎ ((is_unused (t.procs i).state ≡ false) × IsActive t.procs (t.procs i).parent)
  pub init : IsActive t.procs t.initproc
  pub issued : 0 < t.next_pid

-- A change of states that neither frees a slot nor ends a process.
pub record Mild (p q : Proc) : Type 0 where
  pub unused_same : is_unused q.state ≡ is_unused p.state
  pub zombie_same : is_zombie q.state ≡ is_zombie p.state
  pub active_kept : is_active p.state ≡ true → is_active q.state ≡ true
  pub pid_same : q.pid ≡ p.pid
  pub parent_same : q.parent ≡ p.parent

-- A change that may also give a process a live parent.
pub Adopts-Inv :
    (t u : Ptable)
    → ((j : ℕ) → is_unused (u.procs j).state ≡ is_unused (t.procs j).state)
    → ((j : ℕ) → is_active (t.procs j).state ≡ true → is_active (u.procs j).state ≡ true)
    → ((j : ℕ) → (u.procs j).pid ≡ (t.procs j).pid)
    → ((j : ℕ)
        → ((u.procs j).parent ≡ (t.procs j).parent)
          ⊎ ((is_unused (t.procs j).state ≡ false) × IsActive t.procs (u.procs j).parent))
    → u.next_pid ≡ t.next_pid
    → u.initproc ≡ t.initproc
    → Inv t
    → Inv u
Adopts-Inv t u unused_same active_kept pid_same parent next init v = record {
  pids = λ i h l. ground (arith, v.pids i h, unused_same i, pid_same i);
  unique = λ i j h k l l' e.
      v.unique i j h k (sym (unused_same i) ∙ l) (sym (unused_same j) ∙ l')
        (sym (pid_same i) ∙ e ∙ pid_same j);
  parents = λ i h. moved i (v.parents i h) (parent i);
  init = rw init (active t.initproc v.init);
  issued = rw next v.issued;
}
  where
    active : (a : ℕ) → IsActive t.procs a → IsActive u.procs a
    active a (k, e, h, s) = (k, e, h, active_kept k s)

    moved :
        (i : ℕ)
        → ((t.procs i).parent ≡ 0)
          ⊎ ((is_unused (t.procs i).state ≡ false) × IsActive t.procs (t.procs i).parent)
        → ((u.procs i).parent ≡ (t.procs i).parent)
          ⊎ ((is_unused (t.procs i).state ≡ false) × IsActive t.procs (u.procs i).parent)
        → ((u.procs i).parent ≡ 0)
          ⊎ ((is_unused (u.procs i).state ≡ false) × IsActive u.procs (u.procs i).parent)
    moved i (inl z) (inl e) = inl (e ∙ z)
    moved i (inr (l, a)) (inl e) =
        inr (unused_same i ∙ l, subst (IsActive u.procs) (sym e) (active _ a))
    moved i old (inr (l, a)) = inr (unused_same i ∙ l, active _ a)

pub Mild-Inv :
    (t u : Ptable)
    → ((j : ℕ) → Mild (t.procs j) (u.procs j))
    → u.next_pid ≡ t.next_pid
    → u.initproc ≡ t.initproc
    → Inv t
    → Inv u
Mild-Inv t u m next init v =
    Adopts-Inv t u (λ j. (m j).unused_same) (λ j. (m j).active_kept) (λ j. (m j).pid_same)
      (λ j. inl (m j).parent_same) next init v

-- What may take a free slot: a free slot again, or a process with the next pid and a live parent.
pub record Fills (t : Ptable) (q : Proc) : Type 0 where
  pub pid : (is_unused q.state ≡ true) ⊎ (q.pid ≡ t.next_pid)
  pub parent : (q.parent ≡ 0) ⊎ ((is_unused q.state ≡ false) × IsActive t.procs q.parent)

module _ (t : Ptable) (j : ℕ) (q : Proc) (low : j < nproc)
    (free : is_unused (t.procs j).state ≡ true) (f : Fills t q) (v : Inv t) where
  filled : Ptable
  filled = record t { procs = update t.procs j q; next_pid = t.next_pid + 1 }

  fills-at : filled.procs j ≡ q
  unfolding filled
  fills-at = rw (==_refl j)

  fills-other : (i : ℕ) → i ≢ j → filled.procs i ≡ t.procs i
  unfolding filled
  fills-other i ne = rw (==_ne i j ne)

  fills-IsActive : (a : ℕ) → IsActive t.procs a → IsActive filled.procs a
  fills-IsActive a (k, e, h, s) = (
    k,
    e,
    h,
    elim (ℕ_discrete k j) [
      | yes same ↦ cc (active_live (t.procs j).state (rw same at s), free)
      | no ne ↦ rw (fills-other k ne) s
    ],
  )

  fills-eq : (i : ℕ) → i ≡ j → filled.procs i ≡ q
  fills-eq i e = ap filled.procs e ∙ fills-at

  filler-pid : is_unused q.state ≡ false → q.pid ≡ t.next_pid
  filler-pid l = ground (arith, f.pid)

  fills-pids :
      (i : ℕ)
      → i < nproc
      → is_unused (filled.procs i).state ≡ false
      → (0 < (filled.procs i).pid) × ((filled.procs i).pid < t.next_pid + 1)
  fills-pids i h l = elim (ℕ_discrete i j) [
    | yes e ↦
        let pid = filler-pid (rw (fills-eq i e) at l) in
        rw (fills-eq i e) (omega (arith, v.issued, pid))
    | no ne ↦
        let old = v.pids i h (rw (fills-other i ne) at l) in
        rw (fills-other i ne) (omega (arith, old))
  ]

  fills-old :
      (i : ℕ)
      → i < nproc
      → i ≢ j
      → is_unused (filled.procs i).state ≡ false
      → (filled.procs i).pid < t.next_pid
  fills-old i h ne l = rw (fills-other i ne) ((v.pids i h (rw (fills-other i ne) at l)).1)

  fills-new :
      (i : ℕ) → i ≡ j → is_unused (filled.procs i).state ≡ false → (filled.procs i).pid ≡ t.next_pid
  fills-new i e l = rw (fills-eq i e) (filler-pid (rw (fills-eq i e) at l))

  fills_unique :
      (i k : ℕ)
      → i < nproc
      → k < nproc
      → is_unused (filled.procs i).state ≡ false
      → is_unused (filled.procs k).state ≡ false
      → (filled.procs i).pid ≡ (filled.procs k).pid
      → i ≡ k
  fills_unique i k hi hk li lk e = elim (ℕ_discrete i j) [
    | yes ei ↦ elim (ℕ_discrete k j) [
      | yes ek ↦ ei ∙ sym ek
      | no nk ↦ absurd (omega (arith, fills-new i ei li, fills-old k hk nk lk))
    ]
    | no ni ↦ elim (ℕ_discrete k j) [
      | yes ek ↦ absurd (omega (arith, fills-new k ek lk, fills-old i hi ni li))
      | no nk ↦
          v.unique i k hi hk (rw (fills-other i ni) at li) (rw (fills-other k nk) at lk)
            (rw (fills-other i ni, fills-other k nk) at e)
    ]
  ]

  fills-parent :
      (p : Proc)
      → (p.parent ≡ 0) ⊎ ((is_unused p.state ≡ false) × IsActive t.procs p.parent)
      → (p.parent ≡ 0) ⊎ ((is_unused p.state ≡ false) × IsActive filled.procs p.parent)
  fills-parent p (inl z) = inl z
  fills-parent p (inr (l, a)) = inr (l, fills-IsActive p.parent a)

  fills-parents :
      (i : ℕ)
      → i < nproc
      → ((filled.procs i).parent ≡ 0)
        ⊎ ((is_unused (filled.procs i).state ≡ false)
            × IsActive filled.procs (filled.procs i).parent)
  fills-parents i h = elim (ℕ_discrete i j) [
    | yes e ↦
        subst (λ p. (p.parent ≡ 0) ⊎ ((is_unused p.state ≡ false) × IsActive filled.procs p.parent))
          (sym (fills-eq i e)) (fills-parent q f.parent)
    | no ne ↦
        subst (λ p. (p.parent ≡ 0) ⊎ ((is_unused p.state ≡ false) × IsActive filled.procs p.parent))
          (sym (fills-other i ne)) (fills-parent (t.procs i) (v.parents i h))
  ]

  -- Filling a free slot keeps the invariant.
  pub Fills-Inv : Inv (record t { procs = update t.procs j q; next_pid = t.next_pid + 1 })
  unfolding filled
  Fills-Inv = record {
    pids = fills-pids;
    unique = fills_unique;
    parents = fills-parents;
    init = fills-IsActive t.initproc v.init;
    issued = omega arith;
  }
