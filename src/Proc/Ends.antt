-- ===== src/Proc/Ends.antt =====
-- The table after `exit` of proc.c, and after `wait` has reaped a child.
use assignments.Base.{
  ℕ, ◌+◌, ◌<◌, ◌≡◌, sym, ap, ◌∙◌, ◌⊎◌, inl, inr, ◌≢◌, true, false, ◌==◌, if◌then◌else◌, update,
  arith, ℕ_discrete, ==_refl, ==_ne, subst,
}
use assignments.Proc.{nproc, unused, zombie, is_unused, is_zombie, Proc, Ptable}
use assignments.Proc.Invariant.{is_active, active_live, IsActive, Inv}

-- The table when the process of slot `i` has ended and its children have gone to init.
pub record Ends (i : ℕ) (t u : Ptable) : Type 0 where
  pub pid : (k : ℕ) → (u.procs k).pid ≡ (t.procs k).pid
  pub free : (k : ℕ) → k ≢ i → is_unused (u.procs k).state ≡ is_unused (t.procs k).state
  pub dead : (k : ℕ) → k ≢ i → is_zombie (u.procs k).state ≡ is_zombie (t.procs k).state
  pub alive :
      (k : ℕ) → k ≢ i → is_active (t.procs k).state ≡ true → is_active (u.procs k).state ≡ true
  pub parent :
      (k : ℕ)
      → k < nproc
      → (u.procs k).parent
        ≡ (if (t.procs k).parent == i + 1 then t.initproc else (t.procs k).parent)
  pub ended : (u.procs i).state ≡ zombie
  pub next : u.next_pid ≡ t.next_pid
  pub init : u.initproc ≡ t.initproc

module _ (t u : Ptable) (i : ℕ) (e : Ends i t u) (v : Inv t)
    (alive : is_active (t.procs i).state ≡ true) (other : i + 1 ≢ t.initproc) where
  live_before : (k : ℕ) → is_unused (u.procs k).state ≡ false → is_unused (t.procs k).state ≡ false
  live_before k l = elim (ℕ_discrete k i) [
    | yes same ↦ rw same (active_live (t.procs i).state alive)
    | no ne ↦ sym (e.free k ne) ∙ l
  ]

  live_after : (k : ℕ) → is_unused (t.procs k).state ≡ false → is_unused (u.procs k).state ≡ false
  live_after k l = elim (ℕ_discrete k i) [ yes same ↦ rw (same, e.ended) | no ne ↦ e.free k ne ∙ l ]

  -- Every process but the one that ends can still have children.
  stays-IsActive : (a : ℕ) → a ≢ i + 1 → IsActive t.procs a → IsActive u.procs a
  stays-IsActive a ne (k, at, h, s) =
      let differs : k ≢ i = λ same. ne (at ∙ ap (λ m. m + 1) same) in
      (k, at, h, e.alive k differs s)

  new_parent :
      (k : ℕ)
      → k < nproc
      → ((t.procs k).parent ≡ 0)
        ⊎ ((is_unused (t.procs k).state ≡ false) × IsActive t.procs (t.procs k).parent)
      → ((u.procs k).parent ≡ 0)
        ⊎ ((is_unused (u.procs k).state ≡ false) × IsActive u.procs (u.procs k).parent)
  new_parent k h (inl z) = inl (e.parent k h ∙ rw (z, ==_ne 0 (i + 1) (omega arith)))
  new_parent k h (inr (l, a)) = elim (ℕ_discrete (t.procs k).parent (i + 1)) [
    | yes was ↦ inr (
      live_after k l,
      subst (IsActive u.procs) (sym (e.parent k h ∙ rw (was, ==_refl (i + 1))))
          (stays-IsActive t.initproc (λ w. other (sym w)) v.init),
    )
    | no ne ↦ inr (
      live_after k l,
      subst (IsActive u.procs) (sym (e.parent k h ∙ rw (==_ne _ _ ne)))
          (stays-IsActive (t.procs k).parent ne a),
    )
  ]

  pub Ends-Inv : Inv u
  Ends-Inv = record {
    pids = λ k h l. rw (e.pid k, e.next) (v.pids k h (live_before k l));
    unique = λ k m hk hm lk lm same.
        v.unique k m hk hm (live_before k lk) (live_before m lm) (sym (e.pid k) ∙ same ∙ e.pid m);
    parents = λ k h. new_parent k h (v.parents k h);
    init = rw e.init (stays-IsActive t.initproc (λ w. other (sym w)) v.init);
    issued = rw e.next v.issued;
  }

module _ (t : Ptable) (j : ℕ) (q : Proc) (v : Inv t) (dead : is_active (t.procs j).state ≡ false)
    (gone : q.state ≡ unused) (orphan : q.parent ≡ 0) where
  reaped_table : Ptable
  reaped_table = record t { procs = update t.procs j q }

  reaped-other : (i : ℕ) → i ≢ j → reaped_table.procs i ≡ t.procs i
  unfolding reaped_table
  reaped-other i ne = rw (==_ne i j ne)

  reaped-at : (i : ℕ) → i ≡ j → reaped_table.procs i ≡ q
  unfolding reaped_table
  reaped-at i e = rw (e, ==_refl j)

  -- A slot in use is not the one that was reaped.
  reaped_live : (i : ℕ) → is_unused (reaped_table.procs i).state ≡ false → i ≢ j
  reaped_live i l e = cc (rw (reaped-at i e, gone) at l)

  reaped-live :
      (i : ℕ) → is_unused (reaped_table.procs i).state ≡ false → reaped_table.procs i ≡ t.procs i
  reaped-live i l = reaped-other i (reaped_live i l)

  reaped-IsActive : (a : ℕ) → IsActive t.procs a → IsActive reaped_table.procs a
  reaped-IsActive a (k, at, h, s) = elim (ℕ_discrete k j) [
    | yes e ↦ cc (rw e at s, dead)
    | no ne ↦ (k, at, h, rw (reaped-other k ne) s)
  ]

  reaped-parent :
      (i : ℕ)
      → ((t.procs i).parent ≡ 0)
        ⊎ ((is_unused (t.procs i).state ≡ false) × IsActive t.procs (t.procs i).parent)
      → ((reaped_table.procs i).parent ≡ 0)
        ⊎ ((is_unused (reaped_table.procs i).state ≡ false)
            × IsActive reaped_table.procs (reaped_table.procs i).parent)
  reaped-parent i p = elim (ℕ_discrete i j) [
    | yes e ↦ inl (rw (reaped-at i e) orphan)
    | no ne ↦ rw (reaped-other i ne) (keep p)
  ]
    where
      keep :
          ((t.procs i).parent ≡ 0)
            ⊎ ((is_unused (t.procs i).state ≡ false) × IsActive t.procs (t.procs i).parent)
          → ((t.procs i).parent ≡ 0)
            ⊎ ((is_unused (t.procs i).state ≡ false)
                × IsActive reaped_table.procs (t.procs i).parent)
      keep (inl z) = inl z
      keep (inr (l, a)) = inr (l, reaped-IsActive (t.procs i).parent a)

  pub Reaps-Inv : Inv (record t { procs = update t.procs j q })
  unfolding reaped_table
  Reaps-Inv = record {
    pids = λ i h l. rw (reaped-live i l) (v.pids i h (rw (reaped-live i l) at l));
    unique = λ i k hi hk li lk e.
        v.unique i k hi hk (rw (reaped-live i li) at li) (rw (reaped-live k lk) at lk)
          (rw (reaped-live i li, reaped-live k lk) at e);
    parents = λ i h. reaped-parent i (v.parents i h);
    init = reaped-IsActive t.initproc v.init;
    issued = v.issued;
  }
