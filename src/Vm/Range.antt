-- ===== src/Vm/Range.antt =====
-- The pages of a range of addresses, and the translations of a range that is mapped.
use cserl_bootcamp.Common.{
  take_then, take_else, ℕ, suc, ◌+◌, ◌-◌, ◌*◌, ◌/◌, ◌%◌, ◌^◌, ◌≤◌, ◌<◌, ◌≡◌, ◌≢◌, refl, sym, ap,
  ◌∙◌, Bool, true, false, ◌&&◌, [], ◌==◌, leb, ltb, lt→ltb, leb→le, ==_iff, inl, inr, if◌then◌else◌,
  Bool-cases, arith,
}
use cserl_bootcamp.Kalloc.{pgsize}
use cserl_bootcamp.Vm.{Pte, Vm, pdx, ptx, pgrounddown, Run, ok, panic, spent}
use cserl_bootcamp.Vm.Walk.{translate, IsShaped}
use cserl_bootcamp.Vm.Entry.{same_page}

split_page : (x : ℕ) → x < 2 ^ 32 → pgrounddown x ≡ pdx x * 4194304 + ptx x * 4096
split_page x hx =
    let up : x / 4194304 ≡ x / 4096 / 1024 = omega arith in
    let small : x / 4194304 < 1024 = omega arith in
    let d : pdx x ≡ x / 4194304 = omega arith in omega arith

pub same_page→ :
    (x a : ℕ) → x < 2 ^ 32 → a < 2 ^ 32 → same_page x a ≡ true → pgrounddown x ≡ pgrounddown a
same_page→ x a hx ha same =
    let d : pdx x ≡ pdx a = ground arith in
    let t : ptx x ≡ ptx a = ground arith in omega (arith, split_page x hx, split_page a ha)

pub →same_page : (x a : ℕ) → pgrounddown x ≡ pgrounddown a → same_page x a ≡ true
→same_page x a e =
    let q : x / 4096 ≡ a / 4096 = omega arith in
    let d : pdx x ≡ pdx a = omega arith in
    let t : ptx x ≡ ptx a = omega arith in
    let d' : (pdx x == pdx a) ≡ true = (==_iff (pdx x) (pdx a)).1 d in
    let t' : (ptx x == ptx a) ≡ true = (==_iff (ptx x) (ptx a)).1 t in rw (d', t') refl

-- The translation of `x` once the pages from `a` on, `n` of them, are mapped from `pa` on.
abbrev pub mapped : (a n pa : ℕ) → (w u : Bool) → (x : ℕ) → Pte → Pte
mapped a n pa w u x old =
    if leb a (pgrounddown x) && ltb (pgrounddown x) (a + n * pgsize)
    then record { addr = (pa + (pgrounddown x - a)) % 2 ^ 32; p = true; w = w; u = u }
    else old

-- The first `n` pages are mapped, and no other translation has changed.
abbrev pub Mapped : (pgdir a n pa : ℕ) → (w u : Bool) → Vm → Vm → Type 0
Mapped pgdir a n pa w u s s' =
    IsShaped pgdir s'
    × ((x : ℕ)
        → translate pgdir (x % 2 ^ 32) s'
          ≡ mapped a n pa w u (x % 2 ^ 32) (translate pgdir (x % 2 ^ 32) s))

-- What the loop over `n` pages ends in: all are mapped; or there was no page for a table, and some of
-- them are mapped; or one of them was mapped before.
abbrev pub MapPost : (pgdir a n pa : ℕ) → (w u : Bool) → Vm → Run Bool → Type 0
MapPost pgdir a n pa w u s (ok true s') = Mapped pgdir a n pa w u s s'
MapPost pgdir a n pa w u s (ok false s') =
    (m : ℕ) × (m < n) × (s'.kmem.freelist ≡ []) × Mapped pgdir a m pa w u s s'
MapPost pgdir a n pa w u s panic =
    (m : ℕ) × (m < n) × ((translate pgdir (a + m * pgsize) s).p ≡ true)
MapPost pgdir a n pa w u s spent = ⊥

if_same :
    (b c : Bool) (x y z : Pte)
    → b ≡ c
    → (b ≡ true → x ≡ y)
    → (if b then x else z) ≡ (if c then y else z)
if_same true c x y z e f = rw (sym e) (f refl)
if_same false c x y z e f = rw (sym e) refl

pub shift_low : (a y : ℕ) → a % 4096 ≡ 0 → y % 4096 ≡ 0 → y ≢ a → leb (a + pgsize) y ≡ leb a y
shift_low a y al yl ne = elim (Bool-cases (leb a y)) [
  | inl le ↦
      let le' : a ≤ y = ground arith in
      let ne' : a ≢ y = λ e. ne (sym e) in
      let far : a + 4096 ≤ y = omega arith in rw le (ground arith)
  | inr gt ↦ rw gt (ground arith)
]

first_out :
    (a n y : ℕ)
    → (a + pgsize) % 2 ^ 32 ≡ a + pgsize
    → y ≡ a
    → (leb ((a + pgsize) % 2 ^ 32) y && ltb y ((a + pgsize) % 2 ^ 32 + n * pgsize)) ≡ false
first_out a n y up at = let no_le : leb (a + pgsize) y ≡ false = ground arith in rw (up, no_le) refl

pub first_in : (a n y : ℕ) → y ≡ a → (leb a y && ltb y (a + suc n * pgsize)) ≡ true
first_in a n y at =
    let lo : leb a y ≡ true = ground arith in
    let lt : y < a + suc n * pgsize = omega arith in
    let hi : ltb y (a + suc n * pgsize) ≡ true = lt→ltb y (a + suc n * pgsize) lt in
    rw (lo, hi) refl

other_page : (x a : ℕ) → same_page x a ≡ false → pgrounddown x ≢ pgrounddown a
other_page x a other e = let same = →same_page x a e in ground arith

within :
    (a n y : ℕ)
    → (a + pgsize) % 2 ^ 32 ≡ a + pgsize
    → (leb ((a + pgsize) % 2 ^ 32) y && ltb y ((a + pgsize) % 2 ^ 32 + n * pgsize)) ≡ true
    → a + pgsize ≤ y
within a n y up inside =
    let lo : leb ((a + pgsize) % 2 ^ 32) y ≡ true = ground arith in
    let le = leb→le ((a + pgsize) % 2 ^ 32) y lo in omega arith

pub address :
    (a pa y : ℕ)
    → (a + pgsize) % 2 ^ 32 ≡ a + pgsize
    → a + pgsize ≤ y
    → ((pa + pgsize) % 2 ^ 32 + (y - (a + pgsize) % 2 ^ 32)) % 2 ^ 32 ≡ (pa + (y - a)) % 2 ^ 32
address a pa y up le = omega arith

shift_test :
    (a n y : ℕ)
    → a % 4096 ≡ 0
    → y % 4096 ≡ 0
    → y ≢ a
    → (leb (a + pgsize) y && ltb y (a + pgsize + n * pgsize))
      ≡ (leb a y && ltb y (a + suc n * pgsize))
shift_test a n y al yl ne =
    let total : a + pgsize + n * pgsize ≡ a + suc n * pgsize = omega arith in
    let low : leb (a + pgsize) y ≡ leb a y = shift_low a y al yl ne in rw (total, low) refl

pub mapped_step :
    (a n pa : ℕ) (w u : Bool) (x : ℕ) (old : Pte)
    → x < 2 ^ 32
    → a % 4096 ≡ 0
    → a + pgsize < 2 ^ 32
    → pa < 2 ^ 32
    → mapped
        ((a + pgsize) % 2 ^ 32)
        n
        ((pa + pgsize) % 2 ^ 32)
        w
        u
        x
        (if same_page x a then record { addr = pa; p = true; w = w; u = u } else old)
      ≡ mapped a (suc n) pa w u x old
mapped_step a n pa w u x old hx al fits hpa =
    let y = pgrounddown x in
    let yl : y % 4096 ≡ 0 = omega arith in
    let up : (a + pgsize) % 2 ^ 32 ≡ a + pgsize = omega arith in
    let self : pgrounddown a ≡ a = omega arith in
    elim (Bool-cases (same_page x a)) [
      | inl same ↦
          let at : y ≡ a = same_page→ x a hx (omega arith) same ∙ self in
          let below : (leb ((a + pgsize) % 2 ^ 32) y && ltb y ((a + pgsize) % 2 ^ 32 + n * pgsize))
              ≡ false =
            first_out a n y up at in
          let inside : (leb a y && ltb y (a + suc n * pgsize)) ≡ true = first_in a n y at in
          let pa_same : pa ≡ (pa + (y - a)) % 2 ^ 32 = omega arith in
          take_else _ _ _ below
          ∙ take_then (same_page x a) _ _ same
          ∙ ap (λ v. record { addr = v; p = true; w = w; u = u }) pa_same
          ∙ sym (take_then _ _ _ inside)
      | inr other ↦
          let ne : y ≢ a = λ e. other_page x a other (e ∙ sym self) in
          let test = shift_test a n y al yl ne in
          let test' : (leb ((a + pgsize) % 2 ^ 32) y && ltb y ((a + pgsize) % 2 ^ 32 + n * pgsize))
              ≡ (leb a y && ltb y (a + suc n * pgsize)) =
            rw up test in
          ap
            (λ z.
              if leb ((a + pgsize) % 2 ^ 32) y && ltb y ((a + pgsize) % 2 ^ 32 + n * pgsize)
              then record {
                addr = ((pa + pgsize) % 2 ^ 32 + (y - (a + pgsize) % 2 ^ 32)) % 2 ^ 32;
                p = true;
                w = w;
                u = u;
              }
              else z)
            (take_else (same_page x a) _ _ other)
          ∙ if_same _ _ _ _ old test' (λ inside.
            ap (λ v. record { addr = v; p = true; w = w; u = u })
              (address a pa y up (within a n y up inside)))
    ]

pub mapped_zero : (a pa : ℕ) (w u : Bool) (x : ℕ) (old : Pte) → mapped a 0 pa w u x old ≡ old
mapped_zero a pa w u x old =
    take_else (leb a (pgrounddown x) && ltb (pgrounddown x) (a + 0 * pgsize)) _ _ (ground arith)

pub one_page :
    (a y : ℕ) → a % 4096 ≡ 0 → y % 4096 ≡ 0 → y ≢ a → (leb a y && ltb y (a + 1 * pgsize)) ≡ false
one_page a y al yl ne = elim (Bool-cases (leb a y)) [
  | inr gt ↦ rw gt refl
  | inl le ↦
      let le' : a ≤ y = leb→le a y le in
      let far : a + 4096 ≤ y = omega (arith, ne) in
      let out : ltb y (a + 1 * pgsize) ≡ false = ground arith in rw (le, out) refl
]

pub mapped_one :
    (a pa : ℕ) (w u : Bool) (x : ℕ) (old : Pte)
    → x < 2 ^ 32
    → a < 2 ^ 32
    → a % 4096 ≡ 0
    → pa < 2 ^ 32
    → (if same_page x a then record { addr = pa; p = true; w = w; u = u } else old)
      ≡ mapped a 1 pa w u x old
mapped_one a pa w u x old hx ha al hpa =
    let y = pgrounddown x in
    let self : pgrounddown a ≡ a = omega arith in
    elim (Bool-cases (same_page x a)) [
      | inl same ↦
          let at : y ≡ a = same_page→ x a hx ha same ∙ self in
          let pa_same : pa ≡ (pa + (y - a)) % 2 ^ 32 = omega arith in
          take_then (same_page x a) _ _ same
          ∙ ap (λ v. record { addr = v; p = true; w = w; u = u }) pa_same
          ∙ sym (take_then _ _ _ (first_in a 0 y at))
      | inr other ↦
          let ne : y ≢ a = λ e. other_page x a other (e ∙ sym self) in
          take_else (same_page x a) _ _ other
          ∙ sym (take_else _ _ _ (one_page a y al (omega arith) ne))
    ]
