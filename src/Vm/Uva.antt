-- ===== src/Vm/Uva.antt =====
-- What `uva2ka` finds, and the user addresses of a page directory.
use cserl_bootcamp.Common.{
  take_then, take_else, ℕ, ◌-◌, ◌/◌, ◌%◌, ◌^◌, ◌≡◌, refl, sym, ap, ◌∙◌, true, false, none, some,
  not, List, ltb, ◌⊎◌, inl, inr, if◌then◌else◌, length, Bool-cases, arith,
}
use cserl_bootcamp.Kalloc.{pgsize}
use cserl_bootcamp.Vm.{Pte, Vm, pdx, ptx, p2v, pgrounddown, walkpgdir, read_pte, uva2ka}
use cserl_bootcamp.Vm.Walk.{translate, walk_here, walk_missing}

-- An address that a user program can read.
abbrev pub IsUser : ℕ → ℕ → Vm → Type 0
IsUser pgdir x s = ((translate pgdir x s).p ≡ true) × ((translate pgdir x s).u ≡ true)

-- The page of memory and the byte that a user address stands for.
abbrev pub frame : ℕ → ℕ → Vm → ℕ
frame pgdir x s = p2v (translate pgdir x s).addr

abbrev pub read_user : ℕ → ℕ → Vm → ℕ
read_user pgdir x s = s.byte (frame pgdir x s) (x % 4096)

-- No page of memory stands at two user pages.
abbrev pub NoAlias : ℕ → Vm → Type 0
NoAlias pgdir s =
    (x y : ℕ)
    → IsUser pgdir x s
    → IsUser pgdir y s
    → frame pgdir x s ≡ frame pgdir y s
    → pgrounddown (x % 2 ^ 32) ≡ pgrounddown (y % 2 ^ 32)

pub translate-page :
    (pgdir x y : ℕ) (s : Vm)
    → pgrounddown x ≡ pgrounddown y
    → translate pgdir x s ≡ translate pgdir y s
unfolding translate
translate-page pgdir x y s e =
    let q : x / 4096 ≡ y / 4096 = omega arith in
    let d : pdx x ≡ pdx y = omega arith in let t : ptx x ≡ ptx y = omega arith in rw (d, t) refl

read_found :
    (null : Pte) (pgdir va t i : ℕ) (s : Vm)
    → walkpgdir pgdir va false s ≡ (some (t, i), s)
    → read_pte null pgdir va s ≡ s.entry t i
unfolding read_pte
read_found null pgdir va t i s e =
    ap (λ r. elim (r.0) [ none ↦ null | some (t, i) ↦ s.entry t i ]) e

read_missing :
    (null : Pte) (pgdir va : ℕ) (s : Vm)
    → walkpgdir pgdir va false s ≡ (none, s)
    → read_pte null pgdir va s ≡ null
unfolding read_pte
read_missing null pgdir va s e = ap (λ r. elim (r.0) [ none ↦ null | some (t, i) ↦ s.entry t i ]) e

-- Where a page table is missing, what `uva2ka` reads is what stands at the null pointer.
read_pte-cases :
    (null : Pte) (pgdir va : ℕ) (s : Vm)
    → (read_pte null pgdir va s ≡ translate pgdir va s) ⊎ (read_pte null pgdir va s ≡ null)
unfolding translate
read_pte-cases null pgdir va s = elim (Bool-cases (s.entry pgdir (pdx va)).p) [
  | inl there ↦ inl (
      read_found null pgdir va (p2v (s.entry pgdir (pdx va)).addr) (ptx va) s
        (walk_here pgdir va false s there)
      ∙ sym (take_then (s.entry pgdir (pdx va)).p _ _ there))
  | inr gone ↦ inr (read_missing null pgdir va s (walk_missing pgdir va s gone))
]

checked :
    (e : Pte) (pa : ℕ)
    → (if not e.p then none else if not e.u then none else some (p2v e.addr)) ≡ some pa
    → (e.p ≡ true) × (e.u ≡ true) × (p2v e.addr ≡ pa)
checked e pa run = elim (Bool-cases e.p) [
  | inr off ↦ absurd (ground arith)
  | inl on ↦ elim (Bool-cases e.u) [
    | inr kernel ↦ absurd (ground arith)
    | inl user ↦ (on, user, ground arith)
  ]
]

no_confusion : ¬ true ≡ false
no_confusion e = ground arith

unchecked :
    (e : Pte)
    → e.p ≡ true
    → e.u ≡ true
    → ¬ (if not e.p then none else if not e.u then none else some (p2v e.addr)) ≡ none
unchecked e p u run = ground arith

-- What `uva2ka` finds is the page of memory that the hardware finds.
pub uva2ka-some :
    (null : Pte) (pgdir va pa : ℕ) (s : Vm)
    → null.p ≡ false
    → uva2ka null pgdir va s ≡ some pa
    → IsUser pgdir va s × (frame pgdir va s ≡ pa)
unfolding uva2ka
uva2ka-some null pgdir va pa s off run =
    let (p, u, at) = checked (read_pte null pgdir va s) pa run in
    elim (read_pte-cases null pgdir va s) [
      | inl same ↦ (
        (ap (λ e. e.p) (sym same) ∙ p, ap (λ e. e.u) (sym same) ∙ u),
        ap (λ e. p2v e.addr) (sym same) ∙ at,
      )
      | inr at_null ↦
          let on : null.p ≡ true = ap (λ e. e.p) (sym at_null) ∙ p in absurd (ground arith)
    ]

-- A user address has a page of memory for `uva2ka`.
pub uva2ka-none :
    (null : Pte) (pgdir va : ℕ) (s : Vm) → uva2ka null pgdir va s ≡ none → ¬ IsUser pgdir va s
unfolding uva2ka translate
uva2ka-none null pgdir va s run (p, u) = elim (Bool-cases (s.entry pgdir (pdx va)).p) [
  | inr gone ↦
      let off : (translate pgdir va s).p ≡ false =
        ap {A = Pte} (λ e. e.p) (take_else (s.entry pgdir (pdx va)).p _ _ gone) in
      absurd (no_confusion (sym p ∙ off))
  | inl there ↦
      let e : read_pte null pgdir va s ≡ translate pgdir va s =
        read_found null pgdir va (p2v (s.entry pgdir (pdx va)).addr) (ptx va) s
          (walk_here pgdir va false s there)
        ∙ sym (take_then (s.entry pgdir (pdx va)).p _ _ there) in
      absurd (unchecked (read_pte null pgdir va s) (ap (λ x. x.p) e ∙ p) (ap (λ x. x.u) e ∙ u) run)
]

-- The bytes that a round of the loop writes.
abbrev pub most : ℕ → ℕ
most va = pgsize - (va - pgrounddown va)

abbrev pub part : ℕ → List ℕ → ℕ
part va buf = if ltb (length buf) (most va) then length buf else most va
