-- ===== src/Proc/Fork.antt =====
-- `allocproc` and `fork`: what a new process starts with.
use assignments.Base.{
  ℕ, zero, suc, List, [], ◌∷◌, ◌+◌, ◌<◌, ◌≡◌, refl, sym, ap, ◌∙◌, ◌⊎◌, inl, inr, ◌≢◌, Bool, true,
  false, ◌==◌, update, arith, ==_refl, ==_ne, Option, none, some, ok, word_mod, subst, get_or,
  length, take, dec_lt, ℕ_discrete,
}
use std.Path.{fun_ext}
use assignments.CString.{text, safestrcpy}
use assignments.CString.Copy.{safestrcpy-text}
use assignments.Proc.{
  nproc, minus_one, State, unused, embryo, sleeping, runnable, running, zombie, is_unused, RtcDate,
  Proc, Ptable, find_slot, allocproc_slot, allocproc,
}
use assignments.Proc.Slots.{Found, found, missing, find_slot-Found}
use assignments.Proc.Invariant.{is_active, active_live, Inv, Fills, Fills-Inv}
use assignments.Proc.Reap.{unlocked}
use assignments.Proc.Wait.{fork, dup_files}

abbrev pub is_free : Proc → Bool
is_free p = is_unused p.state

-- The slot that `allocproc` takes, before the stack page is known.
abbrev pub started : RtcDate → ℕ → Proc → Proc
started now pid p = record p { created = now; switched_out = now; state = embryo; pid = pid }

-- What the child in slot `j` has, `p` before the call and `c` after it; `parent` is its parent's
-- slot `i`. A file of the parent that is closed leaves the child's entry as it was.
pub record IsChild (now : RtcDate) (page pgdir pid i : ℕ) (parent p c : Proc) : Type 0 where
  pub ready : c.state ≡ runnable
  pub has_pid : c.pid ≡ pid
  pub stack : c.kstack ≡ page
  pub pages : c.pgdir ≡ pgdir
  pub size : c.sz ≡ parent.sz
  pub of_parent : c.parent ≡ i + 1
  pub directory : c.cwd ≡ parent.cwd
  pub opened : (k : ℕ) → get_or parent.ofile k 0 ≢ 0 → get_or c.ofile k 0 ≡ get_or parent.ofile k 0
  pub closed : (k : ℕ) → get_or parent.ofile k 0 ≡ 0 → get_or c.ofile k 0 ≡ get_or p.ofile k 0
  pub called : text c.name ≡ take 15 (text parent.name)
  pub dates : (c.created ≡ now) × (c.switched_out ≡ now)

dup_files-open :
    (fs gs : List ℕ) (k : ℕ)
    → length fs ≡ length gs
    → get_or fs k 0 ≢ 0
    → get_or (dup_files fs gs) k 0 ≡ get_or fs k 0
dup_files-open [] gs k h ne = absurd (ne refl)
dup_files-open (f ∷ fs) [] k h ne = absurd (omega (arith, h))
dup_files-open (f ∷ fs) (g ∷ gs) zero h ne = rw (==_ne f 0 ne) refl
dup_files-open (f ∷ fs) (g ∷ gs) (suc k) h ne = dup_files-open fs gs k (omega (arith, h)) ne

dup_files-closed :
    (fs gs : List ℕ) (k : ℕ)
    → length fs ≡ length gs
    → get_or fs k 0 ≡ 0
    → get_or (dup_files fs gs) k 0 ≡ get_or gs k 0
dup_files-closed [] gs k h e = refl
dup_files-closed (f ∷ fs) [] k h e = absurd (omega (arith, h))
dup_files-closed (f ∷ fs) (g ∷ gs) zero h e = rw e refl
dup_files-closed (f ∷ fs) (g ∷ gs) (suc k) h e = dup_files-closed fs gs k (omega (arith, h)) e

module _ (now : RtcDate) (page pgdir i : ℕ) (t : Ptable) where
  pub allocproc_slot-none :
      t.locked ≡ false
      → find_slot is_free nproc 0 t.procs ≡ none
      → allocproc_slot now t ≡ ok (record t { locked = false }, none)
  unfolding allocproc_slot
  allocproc_slot-none free e = ground (arith, free, e)

  pub allocproc_slot-some :
      (j : ℕ)
      → t.locked ≡ false
      → find_slot is_free nproc 0 t.procs ≡ some j
      → t.next_pid + 1 < word_mod
      → allocproc_slot now t
        ≡ ok (
          record t {
            locked = false;
            procs = update t.procs j (started now t.next_pid (t.procs j));
            next_pid = t.next_pid + 1;
          },
          some j,
        )
  unfolding allocproc_slot
  allocproc_slot-some j free e room = ground (arith, free, e)

  -- Without a free slot `fork` fails and changes nothing.
  pub fork_full :
      t.locked ≡ false
      → ((j : ℕ) → j < nproc → is_unused (t.procs j).state ≡ false)
      → fork now page pgdir i t ≡ ok (record t { locked = false }, minus_one)
  unfolding fork allocproc
  fork_full free busy =
      full (find_slot is_free nproc 0 t.procs) refl (find_slot-Found is_free nproc 0 t.procs)
    where
      full :
          (o : Option ℕ)
          → find_slot is_free nproc 0 t.procs ≡ o
          → Found is_free t.procs 0 (0 + nproc) o
          → fork now page pgdir i t ≡ ok (record t { locked = false }, minus_one)
      full _ e (found j low high hit first) = cc (hit, busy j (omega arith))
      full _ e (missing all) = rw (allocproc_slot-none free e)

  update_twice : (f : ℕ → Proc) (j : ℕ) (p q : Proc) → update (update f j p) j q ≡ update f j q
  update_twice f j p q = fun_ext (λ k. ground arith)

  -- The child's slot when `allocproc` returns it.
  staged : ℕ → Ptable
  staged j = record t {
    locked = false;
    procs = update t.procs j (record (started now t.next_pid (t.procs j)) { kstack = page });
    next_pid = t.next_pid + 1;
  }

  allocproc-some :
      (j : ℕ)
      → t.locked ≡ false
      → find_slot is_free nproc 0 t.procs ≡ some j
      → t.next_pid + 1 < word_mod
      → page ≢ 0
      → allocproc now page t ≡ ok (staged j, suc j)
  unfolding allocproc staged
  allocproc-some j free e room has_page =
      rw
        (
          allocproc_slot-some j free e room,
          ==_ne page 0 has_page,
          ==_refl j,
          update_twice,
          plus_one j,
        )
        refl
    where
      plus_one : (k : ℕ) → k + 1 ≡ suc k
      plus_one k = omega arith

  -- The first free slot.
  first_slot :
      (j : ℕ)
      → j < nproc
      → is_unused (t.procs j).state ≡ true
      → ((k : ℕ) → k < j → is_unused (t.procs k).state ≡ false)
      → find_slot is_free nproc 0 t.procs ≡ some j
  first_slot j low idle first =
      only (find_slot is_free nproc 0 t.procs) (find_slot-Found is_free nproc 0 t.procs)
    where
      only : (o : Option ℕ) → Found is_free t.procs 0 (0 + nproc) o → o ≡ some j
      only _ (missing all) = cc (all j (omega arith) (omega (arith, low)), idle)
      only _ (found k _ high hit before) = elim (dec_lt k j) [
        | yes early ↦ cc (first k early, hit)
        | no late ↦ elim (dec_lt j k) [
          | yes later ↦ cc (before j (omega arith) later, idle)
          | no same ↦ ap some (omega (arith, late, same))
        ]
      ]

  -- The slot of the child after the sections of `fork`.
  child : ℕ → Proc
  child j = record (t.procs j) {
    created = now;
    switched_out = now;
    state = runnable;
    pid = t.next_pid;
    kstack = page;
    pgdir = pgdir;
    sz = (t.procs i).sz;
    parent = i + 1;
    ofile = dup_files (t.procs i).ofile (t.procs j).ofile;
    cwd = (t.procs i).cwd;
    name = safestrcpy (t.procs j).name (t.procs i).name 16;
  }

  -- The slot that a call without memory leaves free again.
  left : ℕ → ℕ → Proc
  left j dir = record (t.procs j) {
    created = now;
    switched_out = now;
    pid = t.next_pid;
    kstack = 0;
    pgdir = dir;
  }

  abbrev with_slot : ℕ → Proc → Ptable
  with_slot j q = record t { locked = false; procs = update t.procs j q; next_pid = t.next_pid + 1 }

  module _ (j : ℕ) (free : t.locked ≡ false) (room : t.next_pid + 1 < word_mod)
      (e : find_slot is_free nproc 0 t.procs ≡ some j)
      (idle : is_unused (t.procs j).state ≡ true) where
    unused_eq : (s : State) → is_unused s ≡ true → s ≡ unused
    unused_eq unused h = refl
    unused_eq embryo h = cc h
    unused_eq sleeping h = cc h
    unused_eq runnable h = cc h
    unused_eq running h = cc h
    unused_eq zombie h = cc h

    fork_no_stack :
        page ≡ 0 → fork now page pgdir i t ≡ ok (with_slot j (left j (t.procs j).pgdir), minus_one)
    unfolding fork allocproc left
    fork_no_stack z =
        rw (allocproc_slot-some j free e room, z, ==_refl j, unused_eq (t.procs j).state idle)
          (ap
            (λ f. ok (record t { locked = false; procs = f; next_pid = t.next_pid + 1 }, minus_one))
            (fun_ext (λ k. ground arith)))

    fork_no_dir :
        page ≢ 0 → pgdir ≡ 0 → fork now page pgdir i t ≡ ok (with_slot j (left j 0), minus_one)
    unfolding fork left staged
    fork_no_dir has_page z =
        rw (allocproc-some j free e room has_page, z, unused_eq (t.procs j).state idle)
          (ap
            (λ f. ok (record t { locked = false; procs = f; next_pid = t.next_pid + 1 }, minus_one))
            (fun_ext (λ k. ground arith)))

    fork_done :
        page ≢ 0
        → pgdir ≢ 0
        → (i == j) ≡ false
        → fork now page pgdir i t ≡ ok (with_slot j (child j), t.next_pid)
    unfolding fork child staged
    fork_done has_page has_dir other =
        rw (allocproc-some j free e room has_page, ==_ne pgdir 0 has_dir, ==_refl j, other)
          (ap
            (λ f.
              ok (record t { locked = false; procs = f; next_pid = t.next_pid + 1 }, t.next_pid))
            (fun_ext (λ k. ground arith)))

  -- How `fork` ends when there is a free slot `j`: without memory, or with a child in it.
  abbrev pub ForkEnds : ℕ → Ptable → ℕ → Type 0
  ForkEnds j u r =
      (((page ≡ 0) ⊎ (pgdir ≡ 0))
        × (r ≡ minus_one)
        × ((u.procs j).state ≡ unused)
        × ((u.procs j).kstack ≡ 0))
      ⊎ ((page ≢ 0)
          × (pgdir ≢ 0)
          × (r ≡ t.next_pid)
          × IsChild now page pgdir t.next_pid i (t.procs i) (t.procs j) (u.procs j))

  at_slot : (j : ℕ) (q : Proc) → (with_slot j q).procs j ≡ q
  at_slot j q = rw (==_refl j) refl

  child-IsChild :
      (j : ℕ)
      → length (t.procs i).ofile ≡ length (t.procs j).ofile
      → length (t.procs j).name ≡ 16
      → IsChild now page pgdir t.next_pid i (t.procs i) (t.procs j) (child j)
  unfolding child
  child-IsChild j files name = record {
    ready = refl;
    has_pid = refl;
    stack = refl;
    pages = refl;
    size = refl;
    of_parent = refl;
    directory = refl;
    opened = λ k ne. dup_files-open (t.procs i).ofile (t.procs j).ofile k files ne;
    closed = λ k z. dup_files-closed (t.procs i).ofile (t.procs j).ofile k files z;
    called = (safestrcpy-text (t.procs j).name (t.procs i).name 15 (omega (arith, name))).0;
    dates = (refl, refl);
  }

  -- `fork` of an active process, when `j` is the first free slot, takes the next pid and touches no
  -- other slot. Without a stack page or a page directory it returns -1 and leaves the slot free.
  -- (The tables of files and the name have their full lengths, and the next pid fits a word.)
  -- Otherwise it returns the pid, and the slot has a runnable child with the parent's size,
  -- directory, name and, wherever the parent has an open file, the same file.
  pub fork_lem :
      (j : ℕ)
      → t.locked ≡ false
      → i < nproc
      → is_active (t.procs i).state ≡ true
      → j < nproc
      → is_unused (t.procs j).state ≡ true
      → ((k : ℕ) → k < j → is_unused (t.procs k).state ≡ false)
      → t.next_pid + 1 < word_mod
      → length (t.procs i).ofile ≡ length (t.procs j).ofile
      → length (t.procs j).name ≡ 16
      → Inv t
      → (u : Ptable) × (r : ℕ) × (fork now page pgdir i t ≡ ok (u, r))
        × Inv u
        × (u.locked ≡ false)
        × (u.next_pid ≡ t.next_pid + 1)
        × ((k : ℕ) → k ≢ j → u.procs k ≡ t.procs k)
        × ForkEnds j u r
  unfolding child left
  fork_lem j free low alive here idle first room files name v = elim (ℕ_discrete page 0) [
    | yes z ↦ gives_up (t.procs j).pgdir (fork_no_stack j free room slot idle z) (inl z)
    | no has_page ↦ elim (ℕ_discrete pgdir 0) [
      | yes z ↦ gives_up 0 (fork_no_dir j free room slot idle has_page z) (inr z)
      | no has_dir ↦ (
        with_slot j (child j),
        t.next_pid,
        fork_done j free room slot idle has_page has_dir other,
        unlocked (Fills-Inv t j (child j) here idle (child-Fills j) v),
        refl,
        refl,
        others (child j),
        inr (
          has_page,
          has_dir,
          refl,
          subst (IsChild now page pgdir t.next_pid i (t.procs i) (t.procs j))
              (sym (at_slot j (child j))) (child-IsChild j files name),
        ),
      )
    ]
  ]
    where
      slot : find_slot is_free nproc 0 t.procs ≡ some j
      slot = first_slot j here idle first

      other : (i == j) ≡ false
      other = ==_ne i j (λ h. cc (active_live (t.procs j).state (rw h at alive), idle))

      others : (q : Proc) (k : ℕ) → k ≢ j → (with_slot j q).procs k ≡ t.procs k
      others q k ne = rw (==_ne k j ne) refl

      child-Fills : (j : ℕ) → Fills t (child j)
      child-Fills j = record { pid = inr refl; parent = inr (refl, (i, refl, low, alive)) }

      no_parent : (t.procs j).parent ≡ 0
      no_parent = elim (v.parents j here) [ inl z ↦ z | inr (l, _) ↦ cc (l, idle) ]

      left-Fills : (dir : ℕ) → Fills t (left j dir)
      left-Fills dir = record { pid = inl idle; parent = inl no_parent }

      left_free : (dir : ℕ) → ((left j dir).state ≡ unused) × ((left j dir).kstack ≡ 0)
      left_free dir = (unused_eq j free room slot idle (t.procs j).state idle, refl)

      gives_up :
          (dir : ℕ)
          → fork now page pgdir i t ≡ ok (with_slot j (left j dir), minus_one)
          → (page ≡ 0) ⊎ (pgdir ≡ 0)
          → (u : Ptable) × (r : ℕ) × (fork now page pgdir i t ≡ ok (u, r))
            × Inv u
            × (u.locked ≡ false)
            × (u.next_pid ≡ t.next_pid + 1)
            × ((k : ℕ) → k ≢ j → u.procs k ≡ t.procs k)
            × ForkEnds j u r
      gives_up dir e lack = (
        with_slot j (left j dir),
        minus_one,
        e,
        unlocked (Fills-Inv t j (left j dir) here idle (left-Fills dir) v),
        refl,
        refl,
        others (left j dir),
        inl (
          lack,
          refl,
          ap (λ (p : Proc). p.state) (at_slot j (left j dir)) ∙ (left_free dir).0,
          ap (λ (p : Proc). p.kstack) (at_slot j (left j dir)) ∙ (left_free dir).1,
        ),
      )
