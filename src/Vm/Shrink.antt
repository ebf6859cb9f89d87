-- ===== src/Vm/Shrink.antt =====
-- That `deallocuvm` ends, and a page that is taken from the free list.
use mathlib.Core.Path.{subst}
use cserl_bootcamp.Common.{
  take_then, take_else, not_equal, ℕ, zero, suc, ◌+◌, ◌*◌, ◌/◌, ◌%◌, ◌^◌, ◌≤◌, ◌<◌, ◌≡◌, ◌≢◌, sym,
  ap, ◌∙◌, false, List, ◌∷◌, ◌==◌, leb, ltb, ltb→lt, inl, inr, count, Bool-cases, Option-cases,
  arith,
}
use cserl_bootcamp.Kalloc.{pgsize, kernbase, kfree}
use cserl_bootcamp.Vm.{
  Vm, absent, pdx, ptx, p2v, put, pgroundup, Run, ok, panic, spent, bind, walkpgdir, clear_page,
  free_page, dealloc_loop, deallocuvm,
}
use cserl_bootcamp.Vm.Walk.{translate, IsShaped, FreePages}

-- A result that is not for want of fuel.
abbrev pub Ends {ℓ} : {A : Type ℓ} → Run A → Type 0
Ends (ok v s) = Unit
Ends panic = Unit
Ends spent = ⊥

Ends-bind {ℓ κ} :
    {A : Type ℓ} {B : Type κ} (m : Run A) (f : A → Vm → Run B)
    → Ends m
    → ((a : A) (s : Vm) → Ends (f a s))
    → Ends (bind m f)
unfolding bind
Ends-bind (ok a s) f h k = k a s
Ends-bind panic f h k = tt
Ends-bind spent f h k = h

module _ (end_addr : ℕ) where
  pub free_page-Ends : (v : ℕ) (s : Vm) → Ends (free_page end_addr v s)
  unfolding free_page
  free_page-Ends v s = elim (Option-cases (kfree end_addr v s.kmem)) [
    | inl refused ↦ rw (refused, free_page) tt
    | inr (k, freed) ↦ rw (freed, free_page) tt
  ]

  dealloc_loop-Ends :
      (fuel pgdir a oldsz newsz : ℕ) (s : Vm)
      → a % 4096 ≡ 0
      → oldsz ≤ kernbase
      → a < 2 ^ 32
      → 0 < fuel
      → oldsz + 4096 ≤ a + fuel * 4096
      → Ends (dealloc_loop end_addr fuel pgdir a oldsz newsz s)
  unfolding dealloc_loop
  dealloc_loop-Ends zero pgdir a oldsz newsz s al small word pos enough = absurd (omega arith)
  dealloc_loop-Ends (suc fuel) pgdir a oldsz newsz s al small word pos enough =
      elim (Bool-cases (ltb a oldsz)) [
        | inr done ↦ rw (done, dealloc_loop) tt
        | inl more ↦
            let lt : a < oldsz = ltb→lt a oldsz more in
            let up : (a + pgsize) % 2 ^ 32 ≡ a + pgsize = omega arith in
            let jump : (pdx a + 1) * 4194304 % 2 ^ 32 ≡ (pdx a + 1) * 4194304 = omega arith in
            let far : a + 4096 ≤ (pdx a + 1) * 4194304 = omega arith in
            let next : (s' : Vm)
                → Ends (dealloc_loop end_addr fuel pgdir ((a + pgsize) % 2 ^ 32) oldsz newsz s') =
              λ s'.
                dealloc_loop-Ends fuel pgdir ((a + pgsize) % 2 ^ 32) oldsz newsz s' (omega arith)
                  small (omega arith) (omega arith) (omega arith) in
            elim (Option-cases (walkpgdir pgdir a false s).0) [
              | inl gone ↦
                  rw (more, gone, dealloc_loop)
                    (dealloc_loop-Ends fuel pgdir ((pdx a + 1) * 4194304 % 2 ^ 32) oldsz newsz s
                      (omega arith) small (omega arith) (omega arith) (omega arith))
              | inr ((t, i), found) ↦ elim (Bool-cases (s.entry t i).p) [
                | inr off ↦ rw (more, found, off, dealloc_loop) (next s)
                | inl on ↦ elim (Bool-cases ((s.entry t i).addr == 0)) [
                  | inl nil ↦ rw (more, found, on, nil, dealloc_loop) tt
                  | inr some_page ↦
                      rw (more, found, on, some_page, dealloc_loop)
                        (Ends-bind (free_page end_addr (p2v (s.entry t i).addr) s) _
                          (free_page-Ends (p2v (s.entry t i).addr) s)
                          (λ v s'. next (put t i absent s')))
                ]
              ]
            ]
      ]

  -- `deallocuvm` ends: it returns or it panics, however far apart the two sizes are.
  pub deallocuvm-Ends :
      (pgdir oldsz newsz : ℕ) (s : Vm)
      → oldsz ≤ kernbase
      → Ends (deallocuvm end_addr pgdir oldsz newsz s)
  unfolding deallocuvm
  deallocuvm-Ends pgdir oldsz newsz s small = elim (Bool-cases (leb oldsz newsz)) [
    | inl le ↦ rw le tt
    | inr gt ↦ rw gt (
        dealloc_loop-Ends (oldsz / pgsize + 2) pgdir (pgroundup newsz) oldsz newsz s (omega arith)
          small (omega arith) (omega arith) (omega arith))
  ]

module _ (pgdir mem : ℕ) (free : List ℕ) (s : Vm) (shaped : IsShaped pgdir s)
    (list : s.kmem.freelist ≡ mem ∷ free) where
  abbrev pub s0 : Vm
  s0 = clear_page mem (record s { kmem = record s.kmem { freelist = free } })

  counted : (x : ℕ) → count x s.kmem.freelist ≡ 0 → (x ≢ mem) × (count x free ≡ 0)
  counted x c =
      let all : count x (mem ∷ free) ≡ 0 = ap (count x) (sym list) ∙ c in
      (λ e. ground arith, ground arith)

  all_free : FreePages (mem ∷ free)
  all_free = subst (λ l. FreePages l) list shaped.free

  cleared : (q i : ℕ) → q ≢ mem → s0.entry q i ≡ s.entry q i
  cleared q i ne = take_else (q == mem) _ _ (not_equal q mem ne)

  dir : (i : ℕ) → s0.entry pgdir i ≡ s.entry pgdir i
  dir i = cleared pgdir i (counted pgdir shaped.dir_used).0

  pub cleared-IsShaped : IsShaped pgdir s0
  cleared-IsShaped = record {
    free = all_free.2;
    dir_used = (counted pgdir shaped.dir_used).1;
    apart = λ i j pi pj h.
        shaped.apart i j (ap (λ x. x.p) (sym (dir i)) ∙ pi) (ap (λ x. x.p) (sym (dir j)) ∙ pj)
          (ap (λ x. p2v x.addr) (sym (dir i)) ∙ h ∙ ap (λ x. p2v x.addr) (dir j));
    granted = λ i pi.
        let (w, u) = shaped.granted i (ap (λ x. x.p) (sym (dir i)) ∙ pi) in
        (ap (λ x. x.w) (dir i) ∙ w, ap (λ x. x.u) (dir i) ∙ u);
    own = λ i pi h.
        shaped.own i (ap (λ x. x.p) (sym (dir i)) ∙ pi) (ap (λ x. p2v x.addr) (sym (dir i)) ∙ h);
    used = λ i pi.
        ap (λ x. count (p2v x.addr) free) (dir i)
        ∙ (counted (p2v (s.entry pgdir i).addr)
            (shaped.used i (ap (λ x. x.p) (sym (dir i)) ∙ pi))).1;
  }

  pub cleared-translate : (x : ℕ) → translate pgdir x s0 ≡ translate pgdir x s
  unfolding translate
  cleared-translate x = elim (Bool-cases (s.entry pgdir (pdx x)).p) [
    | inr gone ↦
        take_else (s0.entry pgdir (pdx x)).p _ _ (ap (λ y. y.p) (dir (pdx x)) ∙ gone)
        ∙ sym (take_else (s.entry pgdir (pdx x)).p _ _ gone)
    | inl there ↦
        let ne = (counted (p2v (s.entry pgdir (pdx x)).addr) (shaped.used (pdx x) there)).0 in
        take_then (s0.entry pgdir (pdx x)).p _ _ (ap (λ y. y.p) (dir (pdx x)) ∙ there)
        ∙ ap (λ y. s0.entry (p2v y.addr) (ptx x)) (dir (pdx x))
        ∙ cleared (p2v (s.entry pgdir (pdx x)).addr) (ptx x) ne
        ∙ sym (take_then (s.entry pgdir (pdx x)).p _ _ there)
  ]
