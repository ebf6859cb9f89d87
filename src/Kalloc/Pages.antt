-- ===== src/Kalloc/Pages.antt =====
-- What `freerange` puts on the list of free pages.
use cserl_bootcamp.Common.{
  ℕ, zero, suc, ◌+◌, ◌-◌, ◌*◌, ◌/◌, ◌%◌, ◌≤◌, ◌<◌, ◌≡◌, ◌≢◌, inl, inr, refl, ap, ◌∙◌, Bool, ◌&&◌,
  some, ◌∷◌, ◌==◌, leb, Bool-cases, arith, bit, count,
}
use cserl_bootcamp.Kalloc.{
  pgsize, kernbase, phystop, pgroundup, v2p, Kmem, kfree, free_from, freerange,
}

-- Whether `a` is the address of a page that lies in the range.
abbrev pub is_page : (p vend a : ℕ) → Bool
is_page p vend a = (a % pgsize == 0) && leb p a && leb (a + pgsize) vend

next_page : (p a : ℕ) → p % pgsize ≡ 0 → a % pgsize ≡ 0 → p ≤ a → a ≢ p → p + pgsize ≤ a
next_page p a e e' le ne = omega (arith, le_ne p a le ne)
  where
    le_ne : (p a : ℕ) → p ≤ a → a ≢ p → p < a
    le_ne p a le ne = ground arith

is_page-step :
    (p vend a : ℕ)
    → p % pgsize ≡ 0
    → p + pgsize ≤ vend
    → bit (a == p) + bit (is_page (p + pgsize) vend a) ≡ bit (is_page p vend a)
is_page-step p vend a aligned fits = ground (arith, next_page p a)

kfree-some :
    (end_addr v : ℕ) (k : Kmem)
    → v % pgsize ≡ 0
    → end_addr ≤ v
    → kernbase ≤ v
    → v < kernbase + phystop
    → kfree end_addr v k ≡ some (record k { freelist = v ∷ k.freelist })
unfolding kfree
kfree-some end_addr v k aligned low kern high =
    let phys : v2p v ≡ v - kernbase = omega arith in rw phys (ground arith)

module _ (end_addr vend : ℕ) (high : vend ≤ kernbase + phystop) where
  free_from-count :
      (fuel p : ℕ) (k : Kmem)
      → end_addr ≤ p
      → kernbase ≤ p
      → p % pgsize ≡ 0
      → vend < p + fuel * pgsize
      → (k' : Kmem) × (free_from end_addr fuel p vend k ≡ some k')
        × ((a : ℕ) → count a k'.freelist ≡ count a k.freelist + bit (is_page p vend a))
  unfolding free_from
  free_from-count zero p k low kern aligned enough = (k, refl, λ a. ground arith)
  free_from-count (suc fuel) p k low kern aligned enough =
      elim (Bool-cases (leb (p + pgsize) vend)) [
        | inl more ↦
            let fits : p + pgsize ≤ vend = ground arith in
            let (k', run, counts) =
              free_from-count fuel (p + pgsize) (record k { freelist = p ∷ k.freelist })
                (omega arith) (omega arith) (omega arith) (omega arith) in
            let freed = kfree-some end_addr p k aligned low kern (omega arith) in
            (
              k',
              rw (more, freed) run,
              λ a. counts a ∙ omega (arith, is_page-step p vend a aligned fits),
            )
        | inr stop ↦ (k, rw stop refl, λ a. ground arith)
      ]

  -- `freerange` frees every page that lies whole between the two addresses, once, and nothing else;
  -- it does not panic, provided that the range lies in the physical memory above the kernel.
  pub freerange-pages :
      (vstart : ℕ) (k : Kmem)
      → end_addr ≤ vstart
      → kernbase ≤ vstart
      → (k' : Kmem) × (freerange end_addr vstart vend k ≡ some k')
        × ((a : ℕ) → count a k'.freelist ≡ count a k.freelist + bit (is_page vstart vend a))
  unfolding freerange
  freerange-pages vstart k low kern =
      let p = pgroundup vstart in
      let up : vstart ≤ p = omega arith in
      let (k', run, counts) =
        free_from-count (vend / pgsize + 1) p k (omega arith) (omega arith) (omega arith)
          (omega arith) in
      (k', run, λ a. counts a ∙ ap (λ n. count a k.freelist + n) (same_pages vstart vend a))
    where
      same_pages :
          (vstart vend a : ℕ)
          → bit (is_page (pgroundup vstart) vend a) ≡ bit (is_page vstart vend a)
      same_pages vstart vend a =
          let round : a % pgsize ≡ 0 → vstart ≤ a → pgroundup vstart ≤ a = λ e le. omega arith in
          let up : vstart ≤ pgroundup vstart = omega arith in ground (arith, round, up)
