-- ===== src/Kalloc/Tests.antt =====
-- Runs of the allocator, and concrete cases of its theorems.
use assignments.Base.{
  ℕ, ◌-◌, ◌/◌, ◌∷◌, [], List, ◌≡◌, ◌≢◌, refl, arith, true, false, All, ok, panic,
}
use assignments.Kalloc.{Kmem, page_size, page_round_up, kfree, kinit1, kinit2, kalloc}
use assignments.Kalloc.FreeList.{IsFree, kfree-IsFree, kalloc-IsFree}
use assignments.Kalloc.Range.{freed, kinit1_lem}
use assignments.Kalloc.Owners.{Owned, Step, allocates, Step-Owned}

-- The kernel ends at 0x80100000; the first two pages after it.
abbrev kernel_end : ℕ
kernel_end = 0x80100000

abbrev first_page : ℕ
first_page = 0x80100000

abbrev second_page : ℕ
second_page = 0x80101000

abbrev no_memory : Kmem
no_memory = record { word = λ a. 0; use_lock = true; freelist = 0 }

abbrev nobody : List ℕ
nobody = []

no_memory-IsFree : IsFree kernel_end no_memory nobody
no_memory-IsFree = record { chain = refl; distinct = tt; pages = tt }

kfree-IsFree_example :
    (n : Kmem) × (kfree kernel_end no_memory first_page ≡ ok n)
    × IsFree kernel_end n (first_page ∷ [])
    × (n.use_lock ≡ true)
kfree-IsFree_example = kfree-IsFree kernel_end no_memory [] first_page no_memory-IsFree refl tt

abbrev one_page : Kmem
one_page = record no_memory { freelist = first_page }

one_page-IsFree : IsFree kernel_end one_page (first_page ∷ [])
one_page-IsFree = record {
  chain = (refl, (λ e. absurd (omega (arith, e))), refl);
  distinct = (tt, tt);
  pages = (refl, tt);
}

kalloc-IsFree_example :
    ((kalloc one_page).1 ≡ first_page)
    × IsFree kernel_end (kalloc one_page).0 []
    × ((kalloc one_page).0.word ≡ one_page.word)
    × (first_page ≢ 0)
    × All (λ q. q ≢ first_page) nobody
kalloc-IsFree_example = kalloc-IsFree kernel_end one_page first_page [] one_page-IsFree

one_page-Owned : Owned kernel_end one_page (first_page ∷ []) nobody
one_page-Owned = record { free = one_page-IsFree; distinct = tt; separate = tt; pages = tt }

takes_page : Step kernel_end one_page nobody no_memory (first_page ∷ [])
unfolding kalloc
takes_page = allocates no_memory first_page refl (λ e. absurd (omega (arith, e)))

Step-Owned_example : (qs : List ℕ) × Owned kernel_end no_memory qs (first_page ∷ [])
Step-Owned_example = Step-Owned takes_page (first_page ∷ []) one_page-Owned

kinit1_example :
    (n : Kmem) × (kinit1 kernel_end no_memory 0x80100001 0x80103FFF ≡ ok n)
    × IsFree kernel_end n
        (freed ((0x80103FFF - page_round_up 0x80100001) / page_size) (page_round_up 0x80100001) [])
    × (n.use_lock ≡ false)
kinit1_example =
    kinit1_lem kernel_end 0x80100001 0x80103FFF no_memory (omega arith) (omega arith) (omega arith)
      (omega arith) refl

-- `kinit2` switches the lock on; here its range holds no whole page.
kinit2_locks : kinit2 kernel_end no_memory 0x80100001 0x80101000 ≡ ok no_memory
unfolding kinit2
kinit2_locks = refl

-- The end of the kernel's last page is no page to free.
kfree_panics : kfree kernel_end no_memory 0x800FF000 ≡ panic "kfree"
unfolding kfree
kfree_panics = refl
