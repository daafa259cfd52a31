-- ===== src/Icache/Unique.antt =====
-- `iget` of fs.c: how many entries of the cache an inode has.
use assignments.Base.{
  ℕ, zero, suc, ◌+◌, ◌≤◌, ◌<◌, ◌≡◌, refl, sym, ◌∙◌, ◌≢◌, inl, inr, true, false, update, add32,
  Option, none, some, ok, arith, Bool-cases, ℕ_discrete, ==_refl, ==_ne, ok-injective, subst,
}
use assignments.Icache.{
  ninode, Inode, holds, Scan, cached, not_cached, remember, search_from, claimed, iget,
}

-- What the loop of `iget` reports about the entries from `i` on; a remembered entry is free.
pub data Scanned (dev inum : ℕ) (nodes : ℕ → Inode) (i top : ℕ) : Scan → Type 0 where
  hit :
      (j : ℕ) → j < top → holds dev inum (nodes j) ≡ true → Scanned dev inum nodes i top (cached j)
  free :
      (j : ℕ)
      → j < top
      → (nodes j).ref ≡ 0
      → ((k : ℕ) → i ≤ k → k < top → holds dev inum (nodes k) ≡ false)
      → Scanned dev inum nodes i top (not_cached (some j))
  full : Scanned dev inum nodes i top (not_cached none)

-- The entry remembered so far.
abbrev Remembered : (ℕ → Inode) → ℕ → Option ℕ → Type 0
Remembered nodes top none = Unit {0}
Remembered nodes top (some j) = (j < top) × ((nodes j).ref ≡ 0)

remember-Remembered :
    (nodes : ℕ → Inode) (top i : ℕ) (o : Option ℕ)
    → i < top
    → Remembered nodes top o
    → Remembered nodes top (remember o i (nodes i))
remember-Remembered nodes top i (some j) h r = r
remember-Remembered nodes top i none h r = elim (ℕ_discrete (nodes i).ref 0) [
  | yes e ↦ rw (e) (h, e)
  | no ne ↦ rw (==_ne (nodes i).ref 0 ne) tt
]

wider :
    (dev inum : ℕ) (nodes : ℕ → Inode) (i top : ℕ) (s : Scan)
    → holds dev inum (nodes i) ≡ false
    → Scanned dev inum nodes (i + 1) top s
    → Scanned dev inum nodes i top s
wider dev inum nodes i top _ e (hit j low h) = hit j low h
wider dev inum nodes i top _ e full = full
wider dev inum nodes i top _ e (free j low z all) =
    free j low z
      (λ k a b. elim (ℕ_discrete k i) [ yes same ↦ rw same e | no other ↦ all k (omega arith) b ])

search_from-Scanned :
    (r i : ℕ) (o : Option ℕ) (dev inum : ℕ) (nodes : ℕ → Inode)
    → Remembered nodes (i + r) o
    → Scanned dev inum nodes i (i + r) (search_from r i o dev inum nodes)
unfolding search_from
search_from-Scanned zero i none dev inum nodes h = full
search_from-Scanned zero i (some j) dev inum nodes (low, z) =
    free j low z (λ k a b. absurd (omega arith))
search_from-Scanned (suc r) i o dev inum nodes h = elim (Bool-cases (holds dev inum (nodes i))) [
  | inl e ↦ rw e (hit i (omega arith) e)
  | inr e ↦
      let top : i + 1 + r ≡ i + suc r = omega arith in
      rw e (
        wider dev inum nodes i (i + suc r) _ e (
          subst
            (λ t.
              Scanned dev inum nodes (i + 1) t
                (search_from r (i + 1) (remember o i (nodes i)) dev inum nodes))
            top
            (search_from-Scanned r (i + 1) (remember o i (nodes i)) dev inum nodes (
              subst (λ t. Remembered nodes t (remember o i (nodes i))) (sym top)
                (remember-Remembered nodes (i + suc r) i o (omega arith) h)))))
]

-- Two entries in use for the same inode are one entry.
abbrev pub Unique : (ℕ → Inode) → Type 0
Unique nodes =
    (i j : ℕ)
    → i < ninode
    → j < ninode
    → 0 < (nodes i).ref
    → 0 < (nodes j).ref
    → (nodes i).dev ≡ (nodes j).dev
    → (nodes i).inum ≡ (nodes j).inum
    → i ≡ j

-- The counts are far from overflow.
abbrev pub Small : (ℕ → Inode) → Type 0
Small nodes = (i : ℕ) → i < ninode → (nodes i).ref < 0x7FFFFFFF

holds_iff :
    (dev inum : ℕ) (ip : Inode)
    → ip.ref < 0x7FFFFFFF
    → holds dev inum ip ≡ true
    → (0 < ip.ref) × (ip.dev ≡ dev) × (ip.inum ≡ inum)
holds_iff dev inum ip small h = (ground arith, ground arith, ground arith)

held_more :
    (dev inum : ℕ) (ip : Inode)
    → ip.ref < 0x7FFFFFFF
    → holds dev inum ip ≡ true
    → holds dev inum (record ip { ref = add32 ip.ref 1 }) ≡ true
held_more dev inum ip small h = ground arith

not_held :
    (dev inum : ℕ) (ip : Inode)
    → ip.ref < 0x7FFFFFFF
    → holds dev inum ip ≡ false
    → 0 < ip.ref
    → ip.dev ≡ dev
    → ip.inum ≢ inum
not_held dev inum ip small h used d n = ground arith

claimed-Unique :
    (dev inum j : ℕ) (nodes : ℕ → Inode)
    → Small nodes
    → Unique nodes
    → ((k : ℕ) → 0 ≤ k → k < ninode → holds dev inum (nodes k) ≡ false)
    → Unique (update nodes j (claimed dev inum (nodes j)))
claimed-Unique dev inum j nodes small v none_holds i k low high = elim (ℕ_discrete i j) [
  | yes i_j ↦ elim (ℕ_discrete k j) [
    | yes k_j ↦ λ a b d n. i_j ∙ sym k_j
    | no k_ne ↦
        rw (==_ne k j k_ne, i_j, ==_refl j)
          (λ a b d n. absurd (
            not_held dev inum (nodes k) (small k high) (none_holds k (omega arith) high) b (sym d)
              (sym n)))
  ]
  | no i_ne ↦ elim (ℕ_discrete k j) [
    | yes k_j ↦
        rw (==_ne i j i_ne, k_j, ==_refl j)
          (λ a b d n.
            absurd
              (not_held dev inum (nodes i) (small i low) (none_holds i (omega arith) low) a d n))
    | no k_ne ↦ rw (==_ne i j i_ne, ==_ne k j k_ne) (v i k low high)
  ]
]

shared-Unique :
    (j : ℕ) (nodes : ℕ → Inode)
    → 0 < (nodes j).ref
    → Unique nodes
    → Unique (update nodes j (record (nodes j) { ref = add32 (nodes j).ref 1 }))
shared-Unique j nodes used v i k low high a b d n =
    v i k low high (still i a) (still k b) (sym (same i).0 ∙ d ∙ (same k).0)
      (sym (same i).1 ∙ n ∙ (same k).1)
  where
    after : ℕ → Inode
    after = update nodes j (record (nodes j) { ref = add32 (nodes j).ref 1 })

    still : (i : ℕ) → 0 < (after i).ref → 0 < (nodes i).ref
    still i h = elim (ℕ_discrete i j) [ yes e ↦ rw e used | no ne ↦ rw (==_ne i j ne) at h ]

    same : (i : ℕ) → ((after i).dev ≡ (nodes i).dev) × ((after i).inum ≡ (nodes i).inum)
    same i = elim (ℕ_discrete i j) [
      | yes e ↦ rw (e, ==_refl j) (refl, refl)
      | no ne ↦ rw (==_ne i j ne) (refl, refl)
    ]

-- `iget` returns an entry for the inode, in use, and keeps every inode in at most one entry.
pub iget-Unique :
    (dev inum : ℕ) (nodes ms : ℕ → Inode) (i : ℕ)
    → Small nodes
    → Unique nodes
    → iget dev inum nodes ≡ ok (ms, i)
    → (i < ninode) × (holds dev inum (ms i) ≡ true) × Unique ms
unfolding iget
iget-Unique dev inum nodes ms i small v e =
    result (search_from ninode 0 none dev inum nodes) refl
      (search_from-Scanned ninode 0 none dev inum nodes tt)
  where
    result :
        (s : Scan)
        → search_from ninode 0 none dev inum nodes ≡ s
        → Scanned dev inum nodes 0 (0 + ninode) s
        → (i < ninode) × (holds dev inum (ms i) ≡ true) × Unique ms
    result _ f full = cc (rw (iget, f) at e)
    result _ f (hit j low h) =
        let (used, d, n) = holds_iff dev inum (nodes j) (small j (omega arith)) h in
        subst (λ q. (q.1 < ninode) × (holds dev inum (q.0 q.1) ≡ true) × Unique q.0)
          (ok-injective (rw (iget, f) at e))
          (
            omega arith,
            rw (==_refl j) (held_more dev inum (nodes j) (small j (omega arith)) h),
            shared-Unique j nodes used v,
          )
    result _ f (free j low z all) =
        subst (λ q. (q.1 < ninode) × (holds dev inum (q.0 q.1) ≡ true) × Unique q.0)
          (ok-injective (rw (iget, f) at e))
          (
            omega arith,
            rw (==_refl j, ==_refl dev, ==_refl inum) refl,
            claimed-Unique dev inum j nodes small v (λ k a b. all k a (omega arith)),
          )
