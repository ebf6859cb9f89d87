-- ===== src/Vm/Map.antt =====
-- What `mappages` does to the translations of a page directory.
use mathlib.Core.Path.{subst}
use cserl_bootcamp.Common.{
  take_then, take_else, not_equal, ◌≢◌, ◌||◌, ℕ, zero, suc, ◌+◌, ◌-◌, ◌*◌, ◌/◌, ◌%◌, ◌^◌, ◌≤◌, ◌<◌,
  ◌≡◌, refl, sym, ap, ◌∙◌, Bool, true, false, none, some, ◌==◌, ==_iff, inl, inr, if◌then◌else◌,
  Bool-cases, Option-cases, arith,
}
use cserl_bootcamp.Kalloc.{pgsize}
use cserl_bootcamp.Vm.{
  Pte, Vm, put, pte_of, pgrounddown, Run, ok, panic, spent, walkpgdir, map_loop, last_page,
  mappages,
}
use cserl_bootcamp.Vm.Walk.{translate, IsShaped, Walked, WalkPost, walkpgdir-WalkPost}
use cserl_bootcamp.Vm.Entry.{
  same_page, put-IsShaped, put-translate_here, put-translate_other, walked-entry,
}
use cserl_bootcamp.Vm.Range.{
  same_page→, mapped, Mapped, MapPost, mapped_step, mapped_zero, mapped_one,
}

next_page :
    (a m : ℕ)
    → a % 4096 ≡ 0
    → 0 < m
    → a + m * pgsize < 2 ^ 32
    → same_page (a + m * pgsize) a ≡ false
next_page a m al pos fits = elim (Bool-cases (same_page (a + m * pgsize) a)) [
  | inr other ↦ other
  | inl same ↦ let e = same_page→ (a + m * pgsize) a fits (omega arith) same in absurd (omega arith)
]

zero_place : (a : ℕ) → a + 0 * pgsize ≡ a
zero_place a = omega arith

single_page : (a n last : ℕ) → last ≡ a + n * pgsize → (a == last) ≡ true → n ≡ 0
single_page a n last end at = let e : a ≡ last = (==_iff a last).0 at in omega arith

not_single : (a last : ℕ) → last ≡ a + 0 * pgsize → ¬ (a == last) ≡ false
not_single a last end more = ground arith

abbrev page_pte : (pa : ℕ) → (w u : Bool) → Pte
page_pte pa w u = record { addr = pa; p = true; w = w; u = u }

pte_plain :
    (x y : ℕ) (b c w u : Bool)
    → x ≡ y
    → b ≡ false
    → c ≡ false
    → page_pte x (w || b) (u || c) ≡ page_pte y w u
pte_plain x y b c true true e f g = ap (λ v. page_pte v true true) e
pte_plain x y b c true false e f g = ap (λ v. page_pte v true c) e ∙ ap (page_pte y true) g
pte_plain x y b c false true e f g = ap (λ v. page_pte v b true) e ∙ ap (λ v. page_pte y v true) f
pte_plain x y b c false false e f g =
    ap (λ v. page_pte v b c) e ∙ ap (λ v. page_pte y v c) f ∙ ap (page_pte y false) g

-- An address of a page has no flags.
pte_of-aligned : (pa : ℕ) (w u : Bool) → pa % 4096 ≡ 0 → pte_of pa w u ≡ page_pte pa w u
pte_of-aligned pa w u al =
    let second : pa / 2 % 2 ≢ 1 = omega arith in
    let third : pa / 4 % 2 ≢ 1 = omega arith in
    pte_plain (pgrounddown pa) pa (pa / 2 % 2 == 1) (pa / 4 % 2 == 1) w u (omega arith)
      (not_equal (pa / 2 % 2) 1 second) (not_equal (pa / 4 % 2) 1 third)

module _ (pgdir : ℕ) (w u : Bool) where
  abbrev entry_for : ℕ → Pte
  entry_for pa = record { addr = pa; p = true; w = w; u = u }

  put-translate :
      (a : ℕ) (s : Vm) (t i : ℕ) (s' : Vm) (pa x : ℕ)
      → Walked pgdir a s t i s'
      → translate pgdir x (put t i (entry_for pa) s')
        ≡ (if same_page x a then entry_for pa else translate pgdir x s)
  put-translate a s t i s' pa x walk = elim (Bool-cases (same_page x a)) [
    | inl same ↦
        put-translate_here pgdir a s t i s' walk (entry_for pa) x same
        ∙ sym (take_then (same_page x a) _ _ same)
    | inr other ↦
        put-translate_other pgdir a s t i s' walk (entry_for pa) x other
        ∙ sym (take_else (same_page x a) _ _ other)
  ]

  map_first :
      (a n pa : ℕ) (s : Vm) (t i : ℕ) (s1 s2 : Vm)
      → Walked pgdir a s t i s1
      → a % 4096 ≡ 0
      → a + pgsize < 2 ^ 32
      → pa < 2 ^ 32
      → Mapped pgdir
          ((a + pgsize) % 2 ^ 32)
          n
          ((pa + pgsize) % 2 ^ 32)
          w
          u
          (put t i (entry_for pa) s1)
          s2
      → Mapped pgdir a (suc n) pa w u s s2
  map_first a n pa s t i s1 s2 walk al fits hpa (shaped, same) = (
    shaped,
    λ x.
        same x
        ∙ ap (mapped ((a + pgsize) % 2 ^ 32) n ((pa + pgsize) % 2 ^ 32) w u (x % 2 ^ 32))
            (put-translate a s t i s1 pa (x % 2 ^ 32) walk)
        ∙ mapped_step a n pa w u (x % 2 ^ 32) (translate pgdir (x % 2 ^ 32) s) (omega arith) al fits
            hpa,
  )

  -- One round of the loop, at each of what it can find.
  abbrev walked : ℕ → Vm → Vm
  walked a s = (walkpgdir pgdir a true s).1

  map_none :
      (fuel a last pa : ℕ) (s : Vm)
      → (walkpgdir pgdir a true s).0 ≡ none
      → map_loop (suc fuel) pgdir a last pa w u s ≡ ok false (walked a s)
  unfolding map_loop
  map_none fuel a last pa s e = rw (e, map_loop) refl

  map_remap :
      (fuel a last pa : ℕ) (s : Vm) (t i : ℕ)
      → (walkpgdir pgdir a true s).0 ≡ some (t, i)
      → ((walked a s).entry t i).p ≡ true
      → map_loop (suc fuel) pgdir a last pa w u s ≡ panic
  unfolding map_loop
  map_remap fuel a last pa s t i e there = rw (e, map_loop, there) refl

  map_last :
      (fuel a last pa : ℕ) (s : Vm) (t i : ℕ)
      → (walkpgdir pgdir a true s).0 ≡ some (t, i)
      → ((walked a s).entry t i).p ≡ false
      → (a == last) ≡ true
      → pa % 4096 ≡ 0
      → map_loop (suc fuel) pgdir a last pa w u s ≡ ok true (put t i (entry_for pa) (walked a s))
  unfolding map_loop
  map_last fuel a last pa s t i e there at pal =
      rw (e, map_loop, there, at)
        (ap (λ v. ok true (put t i v (walked a s))) (pte_of-aligned pa w u pal))

  map_next :
      (fuel a last pa : ℕ) (s : Vm) (t i : ℕ)
      → (walkpgdir pgdir a true s).0 ≡ some (t, i)
      → ((walked a s).entry t i).p ≡ false
      → (a == last) ≡ false
      → pa % 4096 ≡ 0
      → map_loop (suc fuel) pgdir a last pa w u s
        ≡ map_loop fuel pgdir
            ((a + pgsize) % 2 ^ 32)
            last
            ((pa + pgsize) % 2 ^ 32)
            w
            u
            (put t i (entry_for pa) (walked a s))
  unfolding map_loop
  map_next fuel a last pa s t i e there at pal =
      rw (e, map_loop, there, at)
        (ap
          (λ v.
            map_loop fuel pgdir ((a + pgsize) % 2 ^ 32) last ((pa + pgsize) % 2 ^ 32) w u
              (put t i v (walked a s)))
          (pte_of-aligned pa w u pal))

  MapPost-first :
      (a n pa : ℕ) (s : Vm) (t i : ℕ) (s1 : Vm) (r : Run Bool)
      → Walked pgdir a s t i s1
      → a % 4096 ≡ 0
      → a + pgsize < 2 ^ 32
      → a + n * pgsize < 2 ^ 32
      → pa < 2 ^ 32
      → MapPost pgdir
          ((a + pgsize) % 2 ^ 32)
          n
          ((pa + pgsize) % 2 ^ 32)
          w
          u
          (put t i (entry_for pa) s1)
          r
      → MapPost pgdir a (suc n) pa w u s r
  MapPost-first a n pa s t i s1 (ok true s2) walk al fits all hpa post =
      map_first a n pa s t i s1 s2 walk al fits hpa post
  MapPost-first a n pa s t i s1 (ok false s2) walk al fits all hpa (m, lt, out, post) =
      (suc m, omega arith, out, map_first a m pa s t i s1 s2 walk al fits hpa post)
  MapPost-first a n pa s t i s1 panic walk al fits all hpa (m, lt, there) =
      let place : (a + pgsize) % 2 ^ 32 + m * pgsize ≡ a + suc m * pgsize = omega arith in
      let other : same_page (a + suc m * pgsize) a ≡ false =
        next_page a (suc m) al (omega arith) (omega arith) in
      let kept =
        put-translate_other pgdir a s t i s1 walk (entry_for pa) (a + suc m * pgsize) other in
      (
        suc m,
        omega arith,
        ap (λ x. x.p) (sym kept)
            ∙ ap (λ x. (translate pgdir x (put t i (entry_for pa) s1)).p) (sym place)
            ∙ there,
      )
  MapPost-first a n pa s t i s1 spent walk al fits all hpa post = post

  round-MapPost :
      (n a last pa : ℕ) (s : Vm)
      → IsShaped pgdir s
      → a % 4096 ≡ 0
      → last ≡ a + n * pgsize
      → last < 2 ^ 32
      → pa < 2 ^ 32
      → pa % 4096 ≡ 0
      → ((t i : ℕ)
          → Walked pgdir a s t i (walked a s)
          → (a == last) ≡ false
          → MapPost pgdir a (suc n) pa w u s (
              map_loop n pgdir
                ((a + pgsize) % 2 ^ 32)
                last
                ((pa + pgsize) % 2 ^ 32)
                w
                u
                (put t i (entry_for pa) (walked a s))))
      → MapPost pgdir a (suc n) pa w u s (map_loop (suc n) pgdir a last pa w u s)
  round-MapPost n a last pa s shaped al end hl hpa pal next =
      elim (Option-cases (walkpgdir pgdir a true s).0) [
        | inl e ↦
            let (same, out, missing) =
              subst (λ o. WalkPost pgdir a s (o, walked a s)) e
                (walkpgdir-WalkPost pgdir a s shaped) in
            subst (MapPost pgdir a (suc n) pa w u s)
              (sym (map_none n a last pa s e ∙ ap (ok false) same))
              (
                0,
                omega arith,
                out,
                (
                  shaped,
                  λ x. sym (mapped_zero a pa w u (x % 2 ^ 32) (translate pgdir (x % 2 ^ 32) s)),
                ),
              )
        | inr ((t, i), e) ↦
            let walk : Walked pgdir a s t i (walked a s) =
              subst (λ o. WalkPost pgdir a s (o, walked a s)) e
                (walkpgdir-WalkPost pgdir a s shaped) in
            elim (Bool-cases ((walked a s).entry t i).p) [
              | inl there ↦
                  subst (MapPost pgdir a (suc n) pa w u s)
                    (sym (map_remap n a last pa s t i e there))
                    (
                      0,
                      omega arith,
                      ap (λ x. (translate pgdir x s).p) (zero_place a)
                          ∙ ap (λ x. x.p)
                              (sym (walked-entry pgdir a s t i (walked a s) walk (entry_for pa)))
                          ∙ there,
                    )
              | inr free ↦ elim (Bool-cases (a == last)) [
                | inl at ↦
                    let one : n ≡ 0 = single_page a n last end at in
                    subst (MapPost pgdir a (suc n) pa w u s)
                      (sym (map_last n a last pa s t i e free at pal))
                      (
                        put-IsShaped pgdir a s t i (walked a s) walk (entry_for pa),
                        λ x.
                            put-translate a s t i (walked a s) pa (x % 2 ^ 32) walk
                            ∙ mapped_one a pa w u (x % 2 ^ 32) (translate pgdir (x % 2 ^ 32) s)
                                (omega arith) (omega arith) al hpa
                            ∙ ap
                                (λ k.
                                  mapped a (suc k) pa w u (x % 2 ^ 32)
                                    (translate pgdir (x % 2 ^ 32) s))
                                (sym one),
                      )
                | inr more ↦
                    subst (MapPost pgdir a (suc n) pa w u s)
                      (sym (map_next n a last pa s t i e free more pal)) (next t i walk more)
              ]
            ]
      ]

  map_loop-MapPost :
      (n a last pa : ℕ) (s : Vm)
      → IsShaped pgdir s
      → a % 4096 ≡ 0
      → last ≡ a + n * pgsize
      → last < 2 ^ 32
      → pa < 2 ^ 32
      → pa % 4096 ≡ 0
      → MapPost pgdir a (suc n) pa w u s (map_loop (suc n) pgdir a last pa w u s)
  map_loop-MapPost zero a last pa s shaped al end hl hpa pal =
      round-MapPost zero a last pa s shaped al end hl hpa pal
        (λ t i walk more. absurd (not_single a last end more))
  map_loop-MapPost (suc n) a last pa s shaped al end hl hpa pal =
      round-MapPost (suc n) a last pa s shaped al end hl hpa pal (λ t i walk more.
        MapPost-first a (suc n) pa s t i (walked a s) _ walk al (omega arith) (omega arith) hpa (
          map_loop-MapPost n ((a + pgsize) % 2 ^ 32) last ((pa + pgsize) % 2 ^ 32)
            (put t i (entry_for pa) (walked a s))
            (put-IsShaped pgdir a s t i (walked a s) walk (entry_for pa)) (omega arith)
            (omega arith) hl (omega arith) (omega arith)))

-- `mappages` of a range of `size` bytes from `va` on, that does not wrap around, to physical memory from
-- the start of a page on, in a directory whose tables are pages of their own and whose entries have
-- PTE_W and PTE_U, as they still have afterwards. It ends. If it returns 0, every page that holds a byte of the range is
-- mapped to the page of physical memory at the same distance from `pa`, with the permissions and as
-- present, and every other address translates as it did. If it returns -1, no page is free and the
-- same holds of fewer pages, from the first on. It panics only where a page of the range was mapped.
pub mappages-MapPost :
    (pgdir va size pa : ℕ) (w u : Bool) (s : Vm)
    → IsShaped pgdir s
    → 0 < size
    → va + size ≤ 2 ^ 32
    → pa < 2 ^ 32
    → pa % 4096 ≡ 0
    → MapPost pgdir
        (pgrounddown va)
        ((pgrounddown (va + size - 1) - pgrounddown va) / pgsize + 1)
        pa
        w
        u
        s
        (mappages pgdir va size pa w u s)
unfolding mappages
mappages-MapPost pgdir va size pa w u s shaped pos fits hpa pal =
    let a = pgrounddown va in
    let last = pgrounddown (va + size - 1) in
    let n = (last - a) / pgsize in
    let whole : (va + size + (2 ^ 32 - 1)) % 2 ^ 32 ≡ va + size - 1 = omega arith in
    let last_same : last_page va size ≡ last = ap pgrounddown whole in
    let order : a ≤ last = omega arith in
    let rounds : (last + (2 ^ 32 - a)) % 2 ^ 32 / pgsize + 1 ≡ suc n = omega arith in
    let end : last ≡ a + n * pgsize = omega arith in
    let run : mappages pgdir va size pa w u s ≡ map_loop (suc n) pgdir a last pa w u s =
      ap (λ l. map_loop ((l + (2 ^ 32 - a)) % 2 ^ 32 / pgsize + 1) pgdir a l pa w u s) last_same
      ∙ ap (λ k. map_loop k pgdir a last pa w u s) rounds in
    let one : n + 1 ≡ suc n = omega arith in
    subst (λ k. MapPost pgdir a k pa w u s (mappages pgdir va size pa w u s)) (sym one)
      (subst (MapPost pgdir a (suc n) pa w u s) (sym run)
        (map_loop-MapPost pgdir w u n a last pa s shaped (omega arith) end (omega arith) hpa pal))
