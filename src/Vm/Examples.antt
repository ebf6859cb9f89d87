-- ===== src/Vm/Examples.antt =====
-- Page tables at two pages of kernel memory.
use mathlib.Core.Path.{subst}
use cserl_bootcamp.Vm.Grow.{AllocPost, allocuvm-AllocPost}
use cserl_bootcamp.Common.{
  count, ◌≢◌, ℕ, ◌+◌, ◌-◌, ◌*◌, ◌/◌, ◌%◌, ◌^◌, ◌<◌, ◌≡◌, refl, sym, ◌∙◌, ==_iff, inl, inr,
  Bool-cases, true, false, ◌&&◌, ◌==◌, List, [], ◌∷◌, ◌⊎◌, if◌then◌else◌, arith,
}
use cserl_bootcamp.Kalloc.{pgsize, kernbase}
use cserl_bootcamp.Vm.{
  Vm, absent, p2v, pgroundup, allocuvm, pdx, ptx, pgrounddown, ok, walkpgdir, mappages, read_pte,
  uva2ka, copyout_loop, copyout,
}
use cserl_bootcamp.Vm.Walk.{translate, IsShaped}
use cserl_bootcamp.Vm.Range.{MapPost}
use cserl_bootcamp.Vm.Map.{mappages-MapPost}
use cserl_bootcamp.Vm.Uva.{IsUser, NoAlias, read_user}
use cserl_bootcamp.Vm.Copyout.{copyout-copies, copyout-ends}

abbrev page : ℕ → ℕ
page n = 2148532224 + n * pgsize

-- An empty directory at page 0, and pages 1 and 2 free.
abbrev empty : Vm
empty = record {
  entry = λ q i. absent;
  byte = λ q i. 0;
  kmem = record { use_lock = true; freelist = page 1 ∷ page 2 ∷ [] };
}

empty-IsShaped : IsShaped (page 0) empty
empty-IsShaped = record {
  free = (
    (omega arith, omega arith, omega arith),
    refl,
    ((omega arith, omega arith, omega arith), refl, tt),
  );
  dir_used = refl;
  apart = λ i j pi pj e. absurd (ground arith);
  granted = λ i pi. absurd (ground arith);
  own = λ i pi e. ground arith;
  used = λ i pi. absurd (ground arith);
}

mappages-MapPost_example :
    MapPost
      (page 0)
      (pgrounddown 4100)
      ((pgrounddown (4100 + 8000 - 1) - pgrounddown 4100) / pgsize + 1)
      8192
      true
      true
      empty
      (mappages (page 0) 4100 8000 8192 true true empty)
mappages-MapPost_example =
    mappages-MapPost (page 0) 4100 8000 8192 true true empty empty-IsShaped (omega arith)
      (omega arith) (omega arith) (omega arith)

-- A directory at page 0 with a table at page 1, which has page 2 at the user page 1.
abbrev mapped_page : Vm
mapped_page = record {
  entry = λ q i.
      if q == page 0 && i == 0
      then record { addr = page 1 - kernbase; p = true; w = true; u = true }
      else if q == page 1 && i == 1
      then record { addr = page 2 - kernbase; p = true; w = true; u = true }
      else absent;
  byte = λ q i. 0;
  kmem = record { use_lock = true; freelist = [] };
}

mapped_page-dir : (x : ℕ) → (pdx x == 0) ≡ false → (translate (page 0) x mapped_page).p ≡ false
unfolding translate
mapped_page-dir x other = rw other refl

mapped_page-table :
    (x : ℕ)
    → (pdx x == 0) ≡ true
    → (ptx x == 1) ≡ false
    → (translate (page 0) x mapped_page).p ≡ false
unfolding translate
mapped_page-table x same other = rw (same, other) refl

mapped_page-user :
    (x : ℕ)
    → (translate (page 0) x mapped_page).p ≡ true
    → ((pdx x == 0) ≡ true) × ((ptx x == 1) ≡ true)
mapped_page-user x p = elim (Bool-cases (pdx x == 0)) [
  | inr other ↦ absurd (no_confusion (sym p ∙ mapped_page-dir x other))
  | inl same ↦ elim (Bool-cases (ptx x == 1)) [
    | inr other ↦ absurd (no_confusion (sym p ∙ mapped_page-table x same other))
    | inl at ↦ (same, at)
  ]
]
  where
    no_confusion : ¬ true ≡ false
    no_confusion e = ground arith

mapped_page-NoAlias : NoAlias (page 0) mapped_page
mapped_page-NoAlias x y ux uy e =
    let (dx, tx) = mapped_page-user x ux.0 in
    let (dy, ty) = mapped_page-user y uy.0 in place x dx tx ∙ sym (place y dy ty)
  where
    place : (x : ℕ) → (pdx x == 0) ≡ true → (ptx x == 1) ≡ true → pgrounddown (x % 2 ^ 32) ≡ 4096
    place x d t =
        let d' : pdx x ≡ 0 = (==_iff (pdx x) 0).0 d in
        let t' : ptx x ≡ 1 = (==_iff (ptx x) 1).0 t in
        let same : x % 2 ^ 32 / 4194304 ≡ 0 = omega arith in omega arith

abbrev hello : List ℕ
hello = 104 ∷ 105 ∷ []

copyout_hello : (s' : Vm) × (copyout absent (page 0) 5000 hello mapped_page ≡ ok true s')
unfolding copyout copyout_loop uva2ka read_pte walkpgdir
copyout_hello = (_, refl)

copyout-copies_example :
    IsUser (page 0) 5001 mapped_page
    × (read_user (page 0) 5001 copyout_hello.0 ≡ 105)
    × (copyout_hello.0.entry ≡ mapped_page.entry)
copyout-copies_example =
    copyout-copies absent (page 0) 5000 hello mapped_page copyout_hello.0 1 refl mapped_page-NoAlias
      (omega arith) copyout_hello.1 (omega arith)

copyout-ends_example :
    ((s' : Vm) × (copyout absent (page 0) 8190 (1 ∷ 2 ∷ 3 ∷ []) mapped_page ≡ ok true s'))
    ⊎ ((s' : Vm) × (k : ℕ) × (copyout absent (page 0) 8190 (1 ∷ 2 ∷ 3 ∷ []) mapped_page
          ≡ ok false s')
        × (k < 3)
        × (¬ IsUser (page 0) (8190 + k) mapped_page))
copyout-ends_example =
    copyout-ends absent (page 0) 8190 (1 ∷ 2 ∷ 3 ∷ []) mapped_page refl mapped_page-NoAlias
      (omega arith)

-- A directory with a table at page 1 and nothing mapped; pages 2 and 3 are free.
abbrev bare : Vm
bare = record {
  entry = λ q i.
      if q == page 0 && i == 0
      then record { addr = page 1 - kernbase; p = true; w = true; u = true }
      else absent;
  byte = λ q i. 0;
  kmem = record { use_lock = true; freelist = page 2 ∷ page 3 ∷ [] };
}

bare-table : (i : ℕ) → (bare.entry (page 0) i).p ≡ true → i ≡ 0
bare-table i p = elim (Bool-cases (i == 0)) [
  | inl zero_index ↦ (==_iff i 0).0 zero_index
  | inr other ↦ absurd (no_confusion (sym p ∙ gone other))
]
  where
    gone : (i == 0) ≡ false → (bare.entry (page 0) i).p ≡ false
    gone other = rw other refl

    no_confusion : ¬ true ≡ false
    no_confusion e = ground arith

bare-IsShaped : IsShaped (page 0) bare
bare-IsShaped = record {
  free = (
    (omega arith, omega arith, omega arith),
    refl,
    ((omega arith, omega arith, omega arith), refl, tt),
  );
  dir_used = refl;
  apart = λ i j pi pj e. bare-table i pi ∙ sym (bare-table j pj);
  granted = λ i pi.
      subst (λ k. ((bare.entry (page 0) k).w ≡ true) × ((bare.entry (page 0) k).u ≡ true))
        (sym (bare-table i pi)) (refl, refl);
  own = λ i pi.
      subst (λ k. p2v (bare.entry (page 0) k).addr ≢ page 0) (sym (bare-table i pi))
        (λ e. omega arith);
  used = λ i pi.
      subst (λ k. count (p2v (bare.entry (page 0) k).addr) bare.kmem.freelist ≡ 0)
        (sym (bare-table i pi)) refl;
}

allocuvm-AllocPost_example :
    AllocPost (page 0) (pgroundup 100) 9000 bare (allocuvm (page 0) (page 0) 100 9000 bare)
allocuvm-AllocPost_example =
    allocuvm-AllocPost (page 0) (page 0) 100 9000 bare bare-IsShaped (omega arith) (omega arith)
