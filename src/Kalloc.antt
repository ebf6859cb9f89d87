-- ===== src/Kalloc.antt =====
-- xv6-public/kalloc.c: the list of free pages. A page is its address; the link to the next page, which
-- is kept in the free page itself, is the order of the list. `end_addr` is the linker's `end`.
pub mod Pages
pub mod Owners
mod Examples
use cserl_bootcamp.Common.{
  ℕ, zero, suc, ◌+◌, ◌-◌, ◌*◌, ◌/◌, ◌%◌, ◌^◌, Bool, true, false, ◌&&◌, ◌||◌, not, Option, none,
  some, List, [], ◌∷◌, ◌==◌, ltb, leb, if◌then◌else◌,
}

abbrev pub pgsize : ℕ
pgsize = 4096

abbrev pub kernbase : ℕ
kernbase = 2147483648

abbrev pub phystop : ℕ
phystop = 234881024

abbrev pub pgroundup : ℕ → ℕ
pgroundup sz = (sz + pgsize - 1) / pgsize * pgsize

-- `V2P` on addresses of 32 bits
abbrev pub v2p : ℕ → ℕ
v2p v = (v + kernbase) % 2 ^ 32

-- `kmem`
pub record Kmem : Type 0 where
  pub use_lock : Bool
  pub freelist : List ℕ

-- The page, or null.
unfoldable pub kalloc : Kmem → Option ℕ × Kmem
kalloc k = elim k.freelist [ [] ↦ (none, k) | r ∷ rs ↦ (some r, record k { freelist = rs }) ]

module _ (end_addr : ℕ) where
  -- The guard of `kfree`, which panics.
  abbrev pub refuses : ℕ → Bool
  refuses v = not (v % pgsize == 0) || ltb v end_addr || leb phystop (v2p v)

  unfoldable pub kfree : ℕ → Kmem → Option Kmem
  kfree v k = if refuses v then none else some (record k { freelist = v ∷ k.freelist })

  -- The loop of `freerange` from `p` on.
  unfoldable pub free_from : (fuel p vend : ℕ) → Kmem → Option Kmem
  unfolding kfree
  free_from zero p vend k = some k
  free_from (suc fuel) p vend k =
      if leb (p + pgsize) vend
      then elim (kfree p k) [ none ↦ none | some k' ↦ free_from fuel (p + pgsize) vend k' ]
      else some k

  -- The loop has fewer rounds than there are pages below `vend`.
  unfoldable pub freerange : (vstart vend : ℕ) → Kmem → Option Kmem
  unfolding free_from
  freerange vstart vend k = free_from (vend / pgsize + 1) (pgroundup vstart) vend k

  unfoldable pub kinit1 : (vstart vend : ℕ) → Kmem → Option Kmem
  unfolding freerange
  kinit1 vstart vend k = freerange vstart vend (record k { use_lock = false })

  unfoldable pub kinit2 : (vstart vend : ℕ) → Kmem → Option Kmem
  unfolding freerange
  kinit2 vstart vend k = elim (freerange vstart vend k) [
    | none ↦ none
    | some k' ↦ some (record k' { use_lock = true })
  ]
