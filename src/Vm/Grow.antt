-- ===== src/Vm/Grow.antt =====
-- What `allocuvm` does to the translations of a page directory, and that it and `deallocuvm` end.
use mathlib.Core.Path.{subst}
use cserl_bootcamp.Common.{
  take_then, take_else, ℕ, zero, suc, ◌+◌, ◌-◌, ◌*◌, ◌/◌, ◌%◌, ◌^◌, ◌≤◌, ◌<◌, ◌≡◌, ◌≢◌, refl, sym,
  ap, ◌∙◌, Bool, true, false, ◌&&◌, List, [], ◌∷◌, ◌==◌, ==_iff, leb, ltb, ltb→lt, leb→le, lt→ltb,
  ◌⊎◌, inl, inr, if◌then◌else◌, Bool-cases, arith,
}
use cserl_bootcamp.Kalloc.{pgsize, kernbase, v2p}
use cserl_bootcamp.Vm.{
  Pte, Vm, pgrounddown, pgroundup, Run, ok, panic, spent, bind, mappages, free_page, deallocuvm,
  alloc_loop, allocuvm,
}
use cserl_bootcamp.Vm.Walk.{translate, IsShaped, FreePages, case_nil, case_cons, List-cases}
use cserl_bootcamp.Vm.Range.{mapped, Mapped, MapPost, shift_low, first_in}
use cserl_bootcamp.Vm.Map.{mappages-MapPost}
use cserl_bootcamp.Vm.Range.{one_page}
use cserl_bootcamp.Vm.Shrink.{
  Ends, free_page-Ends, deallocuvm-Ends, s0, cleared-IsShaped, cleared-translate,
}

-- The translation of a page that is mapped now, or as it was.
abbrev pub Maps : Bool → Pte → Pte → Type 0
Maps true new old = (new.p ≡ true) × (new.w ≡ true) × (new.u ≡ true)
Maps false new old = new ≡ old

-- The pages from `a` up to `newsz` are user pages that can be written, and the others translate as
-- they did.
abbrev pub Grown : (pgdir a newsz : ℕ) → Vm → Vm → Type 0
Grown pgdir a newsz s s' =
    IsShaped pgdir s'
    × ((x : ℕ)
        → Maps (leb a (pgrounddown (x % 2 ^ 32)) && ltb (pgrounddown (x % 2 ^ 32)) newsz)
            (translate pgdir (x % 2 ^ 32) s') (translate pgdir (x % 2 ^ 32) s))

-- What growing to `newsz` ends in: that, or the result 0, or a panic.
abbrev pub AllocPost : (pgdir a newsz : ℕ) → Vm → Run ℕ → Type 0
AllocPost pgdir a newsz s (ok v s') = ((v ≡ newsz) × Grown pgdir a newsz s s') ⊎ (v ≡ 0)
AllocPost pgdir a newsz s panic = Unit
AllocPost pgdir a newsz s spent = ⊥

Maps-first :
    (a newsz y v : ℕ) (new mid old : Pte)
    → a % 4096 ≡ 0
    → y % 4096 ≡ 0
    → a < newsz
    → mid ≡ (
        if leb a y && ltb y (a + 1 * pgsize)
        then record { addr = v; p = true; w = true; u = true }
        else old)
    → Maps (leb (a + pgsize) y && ltb y newsz) new mid
    → Maps (leb a y && ltb y newsz) new old
Maps-first a newsz y v new mid old al yl lt m h = elim (Bool-cases (y == a)) [
  | inl at ↦
      let e : y ≡ a = (==_iff y a).0 at in
      let out : (leb (a + pgsize) y && ltb y newsz) ≡ false =
        let low : leb (a + pgsize) y ≡ false = ground arith in rw low refl in
      let inside : (leb a y && ltb y newsz) ≡ true =
        let lo : leb a y ≡ true = ground arith in
        let hi : ltb y newsz ≡ true = lt→ltb y newsz (omega arith) in rw (lo, hi) refl in
      let same : new ≡ mid = subst (λ b. Maps b new mid) out h in
      let first : mid ≡ record { addr = v; p = true; w = true; u = true } =
        m ∙ take_then (leb a y && ltb y (a + 1 * pgsize)) _ _ (first_in a 0 y e) in
      let all = same ∙ first in
      subst (λ b. Maps b new old) (sym inside)
        (ap (λ x. x.p) all, ap (λ x. x.w) all, ap (λ x. x.u) all)
  | inr far ↦
      let ne : y ≢ a = λ e. ground arith in
      let kept : mid ≡ old =
        m ∙ take_else (leb a y && ltb y (a + 1 * pgsize)) _ _ (one_page a y al yl ne) in
      subst (λ o. Maps (leb a y && ltb y newsz) new o) kept
        (subst (λ b. Maps (b && ltb y newsz) new mid) (shift_low a y al yl ne) h)
]

outside : (a newsz y : ℕ) → ltb a newsz ≡ false → (leb a y && ltb y newsz) ≡ false
outside a newsz y done = elim (Bool-cases (leb a y)) [
  | inr no_le ↦ rw no_le refl
  | inl le ↦
      let le' = leb→le a y le in let hi : ltb y newsz ≡ false = ground arith in rw (le, hi) refl
]

-- The ways out of `allocuvm` without memory.
AllocPost-zero :
    (pgdir a newsz : ℕ) (s : Vm) (m : Run ℕ)
    → Ends m
    → AllocPost pgdir a newsz s (bind m λ _ s. ok 0 s)
unfolding bind
AllocPost-zero pgdir a newsz s (ok v s') h = inr refl
AllocPost-zero pgdir a newsz s panic h = tt
AllocPost-zero pgdir a newsz s spent h = h

AllocPost-free :
    (end_addr mem pgdir a newsz : ℕ) (s : Vm) (m : Run ℕ)
    → Ends m
    → AllocPost pgdir a newsz s (bind m λ _ s. bind (free_page end_addr mem s) λ _ s. ok 0 s)
unfolding bind
AllocPost-free end_addr mem pgdir a newsz s (ok v s') h =
    freed (free_page end_addr mem s') (free_page-Ends end_addr mem s')
  where
    freed : (r : Run (Unit {0})) → Ends r → AllocPost pgdir a newsz s (bind r λ _ s. ok 0 s)
    freed (ok v s') h = inr refl
    freed panic h = tt
    freed spent h = h
AllocPost-free end_addr mem pgdir a newsz s panic h = tt
AllocPost-free end_addr mem pgdir a newsz s spent h = h

module _ (pgdir a newsz mem : ℕ) (free : List ℕ) (s : Vm) (shaped : IsShaped pgdir s)
    (list : s.kmem.freelist ≡ mem ∷ free) (al : a % 4096 ≡ 0) (lt : a < newsz)
    (small : newsz < kernbase) where
  map_one :
      MapPost pgdir a 1
        (v2p mem)
        true
        true
        (s0 pgdir mem free s shaped list)
        (mappages pgdir a pgsize (v2p mem) true true (s0 pgdir mem free s shaped list))
  map_one =
      let page : mem % 4096 ≡ 0 = (subst (λ l. FreePages l) list shaped.free).0.2 in
      let start : pgrounddown a ≡ a = omega arith in
      let pages : (pgrounddown (a + pgsize - 1) - pgrounddown a) / pgsize + 1 ≡ 1 = omega arith in
      subst
        (λ n.
          MapPost pgdir a n (v2p mem) true true (s0 pgdir mem free s shaped list)
            (mappages pgdir a pgsize (v2p mem) true true (s0 pgdir mem free s shaped list)))
        pages
        (subst
          (λ b.
            MapPost pgdir b ((pgrounddown (a + pgsize - 1) - pgrounddown a) / pgsize + 1) (v2p mem)
              true true (s0 pgdir mem free s shaped list)
              (mappages pgdir a pgsize (v2p mem) true true (s0 pgdir mem free s shaped list)))
          start
          (mappages-MapPost pgdir a pgsize (v2p mem) true true (s0 pgdir mem free s shaped list)
            (cleared-IsShaped pgdir mem free s shaped list) (omega arith) (omega arith)
            (omega arith) (omega arith)))

  Grown-first :
      (s1 s' : Vm)
      → Mapped pgdir a 1 (v2p mem) true true (s0 pgdir mem free s shaped list) s1
      → Grown pgdir (a + pgsize) newsz s1 s'
      → Grown pgdir a newsz s s'
  Grown-first s1 s' (m, same) (g, rest) = (
    g,
    λ x.
        Maps-first a newsz (pgrounddown (x % 2 ^ 32))
          ((v2p mem + (pgrounddown (x % 2 ^ 32) - a)) % 2 ^ 32) (translate pgdir (x % 2 ^ 32) s')
          (translate pgdir (x % 2 ^ 32) s1) (translate pgdir (x % 2 ^ 32) s) al (omega arith) lt
          (same x
            ∙ ap (mapped a 1 (v2p mem) true true (x % 2 ^ 32))
                (cleared-translate pgdir mem free s shaped list (x % 2 ^ 32)))
          (rest x),
  )

  AllocPost-first :
      (s1 : Vm) (r : Run ℕ)
      → Mapped pgdir a 1 (v2p mem) true true (s0 pgdir mem free s shaped list) s1
      → AllocPost pgdir (a + pgsize) newsz s1 r
      → AllocPost pgdir a newsz s r
  AllocPost-first s1 (ok v s') m (inl (e, g)) = inl (e, Grown-first s1 s' m g)
  AllocPost-first s1 (ok v s') m (inr z) = inr z
  AllocPost-first s1 panic m h = tt
  AllocPost-first s1 spent m h = h

module _ (end_addr pgdir newsz oldsz : ℕ) (small : newsz < kernbase) where
  -- What the loop does once `mappages` has its result.
  abbrev after_map : ℕ → ℕ → ℕ → Bool → Vm → Run ℕ
  after_map fuel a mem done s = elim done [
    | true ↦ alloc_loop end_addr fuel pgdir ((a + pgsize) % 2 ^ 32) oldsz newsz s
    | false ↦
        bind (deallocuvm end_addr pgdir newsz oldsz s)
          λ _ s. bind (free_page end_addr mem s) λ _ s. ok 0 s
  ]

  alloc_done :
      (fuel a : ℕ) (s : Vm)
      → ltb a newsz ≡ false
      → alloc_loop end_addr (suc fuel) pgdir a oldsz newsz s ≡ ok newsz s
  unfolding alloc_loop
  alloc_done fuel a s done = rw (done, alloc_loop) refl

  alloc_empty :
      (fuel a : ℕ) (s : Vm)
      → ltb a newsz ≡ true
      → s.kmem.freelist ≡ []
      → alloc_loop end_addr (suc fuel) pgdir a oldsz newsz s
        ≡ bind (deallocuvm end_addr pgdir newsz oldsz s) λ _ s. ok 0 s
  unfolding alloc_loop
  alloc_empty fuel a s more list = rw (more, alloc_loop) (case_nil s.kmem.freelist _ _ list)

  alloc_page :
      (fuel a mem : ℕ) (free : List ℕ) (s : Vm) (shaped : IsShaped pgdir s)
      (list : s.kmem.freelist ≡ mem ∷ free)
      → ltb a newsz ≡ true
      → alloc_loop end_addr (suc fuel) pgdir a oldsz newsz s
        ≡ bind
            (mappages pgdir a pgsize (v2p mem) true true (s0 pgdir mem free s shaped list))
            (after_map fuel a mem)
  unfolding alloc_loop
  alloc_page fuel a mem free s shaped list more =
      rw (more, alloc_loop) (case_cons s.kmem.freelist _ _ mem free list)

  after_map-AllocPost :
      (fuel a mem : ℕ) (free : List ℕ) (s : Vm) (shaped : IsShaped pgdir s)
      (list : s.kmem.freelist ≡ mem ∷ free) (r : Run Bool)
      → a % 4096 ≡ 0
      → a < newsz
      → MapPost pgdir a 1 (v2p mem) true true (s0 pgdir mem free s shaped list) r
      → ((s1 : Vm)
          → IsShaped pgdir s1
          → AllocPost pgdir
              (a + pgsize)
              newsz
              s1
              (alloc_loop end_addr fuel pgdir ((a + pgsize) % 2 ^ 32) oldsz newsz s1))
      → AllocPost pgdir a newsz s (bind r (after_map fuel a mem))
  unfolding bind
  after_map-AllocPost fuel a mem free s shaped list (ok true s1) al lt post next =
      AllocPost-first pgdir a newsz mem free s shaped list al lt small s1 _ post (next s1 post.0)
  after_map-AllocPost fuel a mem free s shaped list (ok false s1) al lt post next =
      AllocPost-free end_addr mem pgdir a newsz s (deallocuvm end_addr pgdir newsz oldsz s1)
        (deallocuvm-Ends end_addr pgdir newsz oldsz s1 (omega arith))
  after_map-AllocPost fuel a mem free s shaped list panic al lt post next = tt
  after_map-AllocPost fuel a mem free s shaped list spent al lt post next = post

  nothing-Grown :
      (a : ℕ) (s : Vm) → IsShaped pgdir s → ltb a newsz ≡ false → Grown pgdir a newsz s s
  nothing-Grown a s shaped done = (
    shaped,
    λ x.
        subst (λ b. Maps b (translate pgdir (x % 2 ^ 32) s) (translate pgdir (x % 2 ^ 32) s))
          (sym (outside a newsz (pgrounddown (x % 2 ^ 32)) done)) refl,
  )

  next_page_of :
      (fuel a : ℕ) (s1 : Vm)
      → a < newsz
      → AllocPost pgdir
          (a + pgsize)
          newsz
          s1
          (alloc_loop end_addr fuel pgdir (a + pgsize) oldsz newsz s1)
      → AllocPost pgdir
          (a + pgsize)
          newsz
          s1
          (alloc_loop end_addr fuel pgdir ((a + pgsize) % 2 ^ 32) oldsz newsz s1)
  next_page_of fuel a s1 lt post =
      let up : a + pgsize ≡ (a + pgsize) % 2 ^ 32 = omega arith in
      subst
        (λ b.
          AllocPost pgdir (a + pgsize) newsz s1 (alloc_loop end_addr fuel pgdir b oldsz newsz s1))
        up post

  alloc_loop-AllocPost :
      (fuel a : ℕ) (s : Vm)
      → IsShaped pgdir s
      → a % 4096 ≡ 0
      → 0 < fuel
      → newsz + 4096 ≤ a + fuel * 4096
      → AllocPost pgdir a newsz s (alloc_loop end_addr fuel pgdir a oldsz newsz s)
  alloc_loop-AllocPost zero a s shaped al pos enough = absurd (omega arith)
  alloc_loop-AllocPost (suc fuel) a s shaped al pos enough = elim (Bool-cases (ltb a newsz)) [
    | inr done ↦
        subst (AllocPost pgdir a newsz s) (sym (alloc_done fuel a s done))
          (inl (refl, nothing-Grown a s shaped done))
    | inl more ↦
        let lt = ltb→lt a newsz more in
        elim (List-cases s.kmem.freelist) [
          | inl list ↦ subst (AllocPost pgdir a newsz s) (sym (alloc_empty fuel a s more list)) (
              AllocPost-zero pgdir a newsz s (deallocuvm end_addr pgdir newsz oldsz s)
                (deallocuvm-Ends end_addr pgdir newsz oldsz s (omega arith)))
          | inr (mem, free, list) ↦
              subst (AllocPost pgdir a newsz s)
                (sym (alloc_page fuel a mem free s shaped list more))
                (after_map-AllocPost fuel a mem free s shaped list _ al lt
                  (map_one pgdir a newsz mem free s shaped list al lt small)
                  (λ s1 shaped1. next_page_of fuel a s1 lt (
                    alloc_loop-AllocPost fuel (a + pgsize) s1 shaped1 (omega arith) (omega arith)
                      (omega arith))))
        ]
  ]

-- `allocuvm` from `oldsz` to a larger `newsz` below the kernel, on a directory whose tables are pages of
-- their own and whose entries have PTE_W and PTE_U. It ends. If it returns `newsz`, every page from the end of the old size up to `newsz` is
-- a page that the user can read and write, every other address translates as it did, and the
-- tables and the entries of the directory are still so; otherwise it returns 0 or panics.
pub allocuvm-AllocPost :
    (end_addr pgdir oldsz newsz : ℕ) (s : Vm)
    → IsShaped pgdir s
    → oldsz ≤ newsz
    → newsz < kernbase
    → AllocPost pgdir (pgroundup oldsz) newsz s (allocuvm end_addr pgdir oldsz newsz s)
unfolding allocuvm
allocuvm-AllocPost end_addr pgdir oldsz newsz s shaped le small =
    let low : leb kernbase newsz ≡ false = ground arith in
    let grow : ltb newsz oldsz ≡ false = ground arith in
    rw (low, grow)
      (alloc_loop-AllocPost end_addr pgdir newsz oldsz small (newsz / pgsize + 2) (pgroundup oldsz)
        s shaped (omega arith) (omega arith) (omega arith))
