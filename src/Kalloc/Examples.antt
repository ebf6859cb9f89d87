-- ===== src/Kalloc/Examples.antt =====
-- The theorems on kalloc.c at a concrete kernel.
use cserl_bootcamp.Common.{ℕ, ◌≡◌, ◌≤◌, refl, false, [], ◌∷◌, count, arith}
use cserl_bootcamp.Kalloc.{Kmem, kalloc, kfree}
use cserl_bootcamp.Kalloc.Owners.{Reach, here, next, allocates, frees, Reach-kalloc}

abbrev no_pages : Kmem
no_pages = record { use_lock = false; freelist = [] }

abbrev two_pages : Kmem
two_pages = record { use_lock = false; freelist = 2148536320 ∷ 2148540416 ∷ [] }

two_pages-once : (a : ℕ) → count a two_pages.freelist ≤ 1
two_pages-once a = ground arith

-- The first page is allocated, and freed again.
reached :
    Reach 2148532224
      (record { kmem = two_pages; held = [] })
      (record { kmem = two_pages; held = [] })
unfolding kalloc kfree
reached =
    next (next here (allocates 2148536320 refl refl))
      (frees 2148536320 two_pages (omega arith) refl refl)

Reach-kalloc_example :
    (count 2148536320 [] ≡ 0) × (count 2148536320 (kalloc two_pages).1.freelist ≡ 0)
unfolding kalloc
Reach-kalloc_example = Reach-kalloc 2148532224 2148536320 two_pages-once reached refl
