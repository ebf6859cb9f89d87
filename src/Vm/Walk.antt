-- ===== src/Vm/Walk.antt =====
-- What `walkpgdir` does to the translations of a page directory.
use mathlib.Core.Path.{subst}
use cserl_bootcamp.Common.{
  take_then, take_else, not_equal, ℕ, ◌%◌, ◌^◌, ◌≤◌, ◌<◌, ◌≡◌, ◌≢◌, refl, sym, ap, ◌∙◌, Bool, true,
  false, ◌&&◌, Option, none, some, List, [], ◌∷◌, ◌==◌, ◌⊎◌, inl, inr, if◌then◌else◌, count,
  Bool-cases, arith,
}
use cserl_bootcamp.Kalloc.{kernbase, v2p}
use cserl_bootcamp.Vm.{Pte, Vm, absent, pdx, ptx, p2v, put, clear_page, walkpgdir}

-- The entry that the hardware finds for an address.
unfoldable pub translate : ℕ → ℕ → Vm → Pte
translate pgdir va s =
    let pde = s.entry pgdir (pdx va) in if pde.p then s.entry (p2v pde.addr) (ptx va) else absent

-- A page that `kalloc` may hand out.
abbrev pub KernelPage : ℕ → Type 0
KernelPage v = (kernbase ≤ v) × (v < 2 ^ 32) × (v % 4096 ≡ 0)

abbrev pub FreePages : List ℕ → Type 0
FreePages [] = Unit
FreePages (v ∷ free) = KernelPage v × (count v free ≡ 0) × FreePages free

-- The tables of a directory are pages of their own, and none of them is free, nor is the directory; and
-- its entries have PTE_W and PTE_U, so that the flags of a translation are those of its table.
pub record IsShaped (pgdir : ℕ) (s : Vm) : Type 0 where
  pub free : FreePages s.kmem.freelist
  pub dir_used : count pgdir s.kmem.freelist ≡ 0
  pub apart :
      (i j : ℕ)
      → (s.entry pgdir i).p ≡ true
      → (s.entry pgdir j).p ≡ true
      → p2v (s.entry pgdir i).addr ≡ p2v (s.entry pgdir j).addr
      → i ≡ j
  pub granted :
      (i : ℕ)
      → (s.entry pgdir i).p ≡ true
      → ((s.entry pgdir i).w ≡ true) × ((s.entry pgdir i).u ≡ true)
  pub own : (i : ℕ) → (s.entry pgdir i).p ≡ true → p2v (s.entry pgdir i).addr ≢ pgdir
  pub used :
      (i : ℕ) → (s.entry pgdir i).p ≡ true → count (p2v (s.entry pgdir i).addr) s.kmem.freelist ≡ 0

-- `walkpgdir` that may allocate: it finds the place of the entry that the hardware reads for `va`, and
-- changes no translation; or nothing is free and nothing changes.
pub record Walked (pgdir va : ℕ) (s : Vm) (t i : ℕ) (s' : Vm) : Type 0 where
  pub shaped : IsShaped pgdir s'
  pub same : (x : ℕ) → translate pgdir x s' ≡ translate pgdir x s
  pub table : (s'.entry pgdir (pdx va)).p ≡ true
  pub at : p2v (s'.entry pgdir (pdx va)).addr ≡ t
  pub index : i ≡ ptx va

p2v-v2p : (v : ℕ) → KernelPage v → p2v (v2p v) ≡ v
p2v-v2p v (lo, hi, al) = omega arith

walk-present :
    (pgdir va : ℕ) (s : Vm)
    → IsShaped pgdir s
    → (s.entry pgdir (pdx va)).p ≡ true
    → Walked pgdir va s (p2v (s.entry pgdir (pdx va)).addr) (ptx va) s
walk-present pgdir va s shaped here = record {
  shaped = shaped;
  same = λ x. refl;
  table = here;
  at = refl;
  index = refl;
}

-- The memory with `v` as the table for `va`.
abbrev grown : ℕ → ℕ → ℕ → List ℕ → Vm → Vm
grown pgdir va v free s =
    put pgdir (pdx va) (record { addr = v2p v; p = true; w = true; u = true })
      (clear_page v (record s { kmem = record s.kmem { freelist = free } }))

module _ (pgdir va v : ℕ) (free : List ℕ) (s : Vm) (shaped : IsShaped pgdir s)
    (list : s.kmem.freelist ≡ v ∷ free) (missing : (s.entry pgdir (pdx va)).p ≡ false) where
  counted : (x : ℕ) → count x s.kmem.freelist ≡ 0 → (x ≢ v) × (count x free ≡ 0)
  counted x c =
      let all : count x (v ∷ free) ≡ 0 = ap (count x) (sym list) ∙ c in
      (λ e. ground arith, ground arith)

  all_free : FreePages (v ∷ free)
  all_free = subst (λ l. FreePages l) list shaped.free

  dir_ne : pgdir ≢ v
  dir_ne = (counted pgdir shaped.dir_used).0

  grown_here :
      (grown pgdir va v free s).entry pgdir (pdx va)
      ≡ record { addr = v2p v; p = true; w = true; u = true }
  grown_here = take_then ((pgdir == pgdir) && (pdx va == pdx va)) _ _ (ground arith)

  grown_dir : (i : ℕ) → i ≢ pdx va → (grown pgdir va v free s).entry pgdir i ≡ s.entry pgdir i
  grown_dir i ne =
      take_else ((pgdir == pgdir) && (i == pdx va)) _ _ (ground arith)
      ∙ take_else (pgdir == v) _ _ (not_equal pgdir v dir_ne)

  grown_table : (q i : ℕ) → q ≢ pgdir → q ≢ v → (grown pgdir va v free s).entry q i ≡ s.entry q i
  grown_table q i ne nv =
      take_else ((q == pgdir) && (i == pdx va)) _ _ (ground arith)
      ∙ take_else (q == v) _ _ (not_equal q v nv)

  grown_new : (i : ℕ) → (grown pgdir va v free s).entry v i ≡ absent
  grown_new i =
      take_else ((v == pgdir) && (i == pdx va)) _ _ (ground (arith, dir_ne))
      ∙ take_then (v == v) _ _ (ground arith)

  abbrev g : Vm
  g = grown pgdir va v free s

  page : p2v (v2p v) ≡ v
  page = p2v-v2p v all_free.0

  -- A directory entry is the new one, or it is as it was and its table is neither the new one nor
  -- the directory.
  Entry : ℕ → Type 0
  Entry i =
      ((i ≡ pdx va) × ((g.entry pgdir i).p ≡ true) × (p2v (g.entry pgdir i).addr ≡ v))
      ⊎ ((i ≢ pdx va) × (g.entry pgdir i ≡ s.entry pgdir i))

  Entry-cases : (i : ℕ) → Entry i
  unfolding Entry
  Entry-cases i = elim (Bool-cases (i == pdx va)) [
    | inl same ↦
        let e : i ≡ pdx va = ground arith in
        let now = ap (g.entry pgdir) e ∙ grown_here in
        inl (e, ap (λ x. x.p) now, ap (λ x. p2v x.addr) now ∙ page)
    | inr other ↦ let ne : i ≢ pdx va = λ e. ground arith in inr (ne, grown_dir i ne)
  ]

  old_table :
      (i : ℕ)
      → g.entry pgdir i ≡ s.entry pgdir i
      → (g.entry pgdir i).p ≡ true
      → (p2v (g.entry pgdir i).addr ≢ v)
        × (p2v (g.entry pgdir i).addr ≢ pgdir)
        × (count (p2v (g.entry pgdir i).addr) free ≡ 0)
  old_table i e there =
      let was : (s.entry pgdir i).p ≡ true = ap (λ x. x.p) (sym e) ∙ there in
      let (ne, free_zero) = counted (p2v (s.entry pgdir i).addr) (shaped.used i was) in
      let own = shaped.own i was in
      let a : p2v (g.entry pgdir i).addr ≡ p2v (s.entry pgdir i).addr = ap (λ x. p2v x.addr) e in
      (λ h. ne (sym a ∙ h), λ h. own (sym a ∙ h), ap (λ x. count x free) a ∙ free_zero)

  grown-apart :
      (i j : ℕ)
      → (g.entry pgdir i).p ≡ true
      → (g.entry pgdir j).p ≡ true
      → p2v (g.entry pgdir i).addr ≡ p2v (g.entry pgdir j).addr
      → i ≡ j
  unfolding Entry
  grown-apart i j pi pj e = elim (Entry-cases i) [
    | inl (ei, _, vi) ↦ elim (Entry-cases j) [
      | inl (ej, _, vj) ↦ ei ∙ sym ej
      | inr (nj, oj) ↦ absurd ((old_table j oj pj).0 (sym e ∙ vi))
    ]
    | inr (ni, oi) ↦ elim (Entry-cases j) [
      | inl (ej, _, vj) ↦ absurd ((old_table i oi pi).0 (e ∙ vj))
      | inr (nj, oj) ↦
          shaped.apart i j (ap (λ x. x.p) (sym oi) ∙ pi) (ap (λ x. x.p) (sym oj) ∙ pj)
            (ap (λ x. p2v x.addr) (sym oi) ∙ e ∙ ap (λ x. p2v x.addr) oj)
    ]
  ]

  grown-granted :
      (i : ℕ)
      → (g.entry pgdir i).p ≡ true
      → ((g.entry pgdir i).w ≡ true) × ((g.entry pgdir i).u ≡ true)
  grown-granted i pi = elim (Bool-cases (i == pdx va)) [
    | inl same ↦
        let e : i ≡ pdx va = ground arith in
        let now = ap (g.entry pgdir) e ∙ grown_here in (ap (λ x. x.w) now, ap (λ x. x.u) now)
    | inr other ↦
        let ne : i ≢ pdx va = λ e. ground arith in
        let old = grown_dir i ne in
        let (w, u) = shaped.granted i (ap (λ x. x.p) (sym old) ∙ pi) in
        (ap (λ x. x.w) old ∙ w, ap (λ x. x.u) old ∙ u)
  ]

  grown-own : (i : ℕ) → (g.entry pgdir i).p ≡ true → p2v (g.entry pgdir i).addr ≢ pgdir
  unfolding Entry
  grown-own i pi e = elim (Entry-cases i) [
    | inl (ei, _, vi) ↦ dir_ne (sym e ∙ vi)
    | inr (ni, oi) ↦ (old_table i oi pi).1 e
  ]

  grown-used : (i : ℕ) → (g.entry pgdir i).p ≡ true → count (p2v (g.entry pgdir i).addr) free ≡ 0
  unfolding Entry
  grown-used i pi = elim (Entry-cases i) [
    | inl (ei, _, vi) ↦ ap (λ x. count x free) vi ∙ all_free.1
    | inr (ni, oi) ↦ (old_table i oi pi).2
  ]

  grown-IsShaped : IsShaped pgdir g
  grown-IsShaped = record {
    free = all_free.2;
    dir_used = (counted pgdir shaped.dir_used).1;
    apart = grown-apart;
    granted = grown-granted;
    own = grown-own;
    used = grown-used;
  }

  grown-translate : (x : ℕ) → translate pgdir x g ≡ translate pgdir x s
  unfolding translate Entry
  grown-translate x = elim (Entry-cases (pdx x)) [
    | inl (e, there, at) ↦
        let was : (s.entry pgdir (pdx x)).p ≡ false = ap (λ k. (s.entry pgdir k).p) e ∙ missing in
        take_then (g.entry pgdir (pdx x)).p _ _ there
        ∙ ap (λ q. g.entry q (ptx x)) at
        ∙ grown_new (ptx x)
        ∙ sym (take_else (s.entry pgdir (pdx x)).p _ _ was)
    | inr (ne, old) ↦ elim (Bool-cases (g.entry pgdir (pdx x)).p) [
      | inr none_there ↦
          let was : (s.entry pgdir (pdx x)).p ≡ false = ap (λ y. y.p) (sym old) ∙ none_there in
          take_else (g.entry pgdir (pdx x)).p _ _ none_there
          ∙ sym (take_else (s.entry pgdir (pdx x)).p _ _ was)
      | inl there ↦
          let was : (s.entry pgdir (pdx x)).p ≡ true = ap (λ y. y.p) (sym old) ∙ there in
          let (nv, np, z) = old_table (pdx x) old there in
          take_then (g.entry pgdir (pdx x)).p _ _ there
          ∙ grown_table (p2v (g.entry pgdir (pdx x)).addr) (ptx x) np nv
          ∙ ap (λ y. s.entry (p2v y.addr) (ptx x)) old
          ∙ sym (take_then (s.entry pgdir (pdx x)).p _ _ was)
    ]
  ]

  grown-Walked : Walked pgdir va s v (ptx va) g
  grown-Walked = record {
    shaped = grown-IsShaped;
    same = grown-translate;
    table = ap (λ x. x.p) grown_here;
    at = ap (λ x. p2v x.addr) grown_here ∙ page;
    index = refl;
  }

-- What `walkpgdir` returns when it may allocate.
abbrev pub WalkPost : ℕ → ℕ → Vm → Option (ℕ × ℕ) × Vm → Type 0
WalkPost pgdir va s (none, s') =
    (s' ≡ s) × (s.kmem.freelist ≡ []) × ((s.entry pgdir (pdx va)).p ≡ false)
WalkPost pgdir va s (some (t, i), s') = Walked pgdir va s t i s'

pub walk_here :
    (pgdir va : ℕ) (alloc : Bool) (s : Vm)
    → (s.entry pgdir (pdx va)).p ≡ true
    → walkpgdir pgdir va alloc s ≡ (some (p2v (s.entry pgdir (pdx va)).addr, ptx va), s)
unfolding walkpgdir
walk_here pgdir va alloc s here = take_then (s.entry pgdir (pdx va)).p _ _ here

pub case_nil :
    {A : Type 0} (l : List ℕ) (x : A) (f : ℕ → List ℕ → A)
    → l ≡ []
    → (elim l [ [] ↦ x | v ∷ free ↦ f v free ]) ≡ x
case_nil l x f e = rw e refl

pub case_cons :
    {A : Type 0} (l : List ℕ) (x : A) (f : ℕ → List ℕ → A) (v : ℕ) (free : List ℕ)
    → l ≡ v ∷ free
    → (elim l [ [] ↦ x | v ∷ free ↦ f v free ]) ≡ f v free
case_cons l x f v free e = rw e refl

pub walk_missing :
    (pgdir va : ℕ) (s : Vm)
    → (s.entry pgdir (pdx va)).p ≡ false
    → walkpgdir pgdir va false s ≡ (none, s)
unfolding walkpgdir
walk_missing pgdir va s missing = take_else (s.entry pgdir (pdx va)).p _ _ missing

walk_empty :
    (pgdir va : ℕ) (s : Vm)
    → (s.entry pgdir (pdx va)).p ≡ false
    → s.kmem.freelist ≡ []
    → walkpgdir pgdir va true s ≡ (none, s)
unfolding walkpgdir
walk_empty pgdir va s missing list =
    take_else (s.entry pgdir (pdx va)).p _ _ missing ∙ case_nil s.kmem.freelist _ _ list

walk_grown :
    (pgdir va v : ℕ) (free : List ℕ) (s : Vm)
    → (s.entry pgdir (pdx va)).p ≡ false
    → s.kmem.freelist ≡ v ∷ free
    → walkpgdir pgdir va true s ≡ (some (v, ptx va), grown pgdir va v free s)
unfolding walkpgdir
walk_grown pgdir va v free s missing list =
    take_else (s.entry pgdir (pdx va)).p _ _ missing ∙ case_cons s.kmem.freelist _ _ v free list

pub List-cases : (l : List ℕ) → (l ≡ []) ⊎ ((v : ℕ) × (free : List ℕ) × (l ≡ v ∷ free))
List-cases [] = inl refl
List-cases (v ∷ free) = inr (v, free, refl)

pub walkpgdir-WalkPost :
    (pgdir va : ℕ) (s : Vm) → IsShaped pgdir s → WalkPost pgdir va s (walkpgdir pgdir va true s)
walkpgdir-WalkPost pgdir va s shaped = elim (Bool-cases (s.entry pgdir (pdx va)).p) [
  | inl here ↦
      subst (λ r. WalkPost pgdir va s r) (sym (walk_here pgdir va true s here))
        (walk-present pgdir va s shaped here)
  | inr missing ↦ elim (List-cases s.kmem.freelist) [
    | inl list ↦
        subst (λ r. WalkPost pgdir va s r) (sym (walk_empty pgdir va s missing list))
          (refl, list, missing)
    | inr (v, free, list) ↦
        subst (λ r. WalkPost pgdir va s r) (sym (walk_grown pgdir va v free s missing list))
          (grown-Walked pgdir va v free s shaped list missing)
  ]
]
