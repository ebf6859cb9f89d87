-- ===== src/Vm/Copyout.antt =====
-- What `copyout` writes, as the owner of the page directory reads it.
use mathlib.Core.Path.{subst}
use cserl_bootcamp.Common.{
  take_then, take_else, get_or-drop, ℕ, zero, suc, ◌+◌, ◌-◌, ◌%◌, ◌^◌, ◌≤◌, ◌<◌, ◌≡◌, ◌≢◌, refl,
  sym, ap, ◌∙◌, Bool, true, false, ◌&&◌, none, some, List, ◌==◌, leb, ltb, ltb→lt, lt→ltb, ◌⊎◌, inl,
  inr, length, drop, get_or, length-drop, Bool-cases, Option-cases, arith,
}
use cserl_bootcamp.Kalloc.{pgsize}
use cserl_bootcamp.Vm.{
  Pte, Vm, p2v, pgrounddown, Run, ok, panic, spent, uva2ka, write_bytes, copyout_loop, copyout,
}
use cserl_bootcamp.Vm.Walk.{translate}
use cserl_bootcamp.Vm.Uva.{
  IsUser, frame, read_user, NoAlias, translate-page, uva2ka-some, uva2ka-none, most, part,
}

module _ (null : Pte) (pgdir : ℕ) where
  round :
      (fuel va : ℕ) (buf : List ℕ) (s : Vm) (pa0 : ℕ)
      → ltb 0 (length buf) ≡ true
      → uva2ka null pgdir (pgrounddown va) s ≡ some pa0
      → copyout_loop (suc fuel) null pgdir va buf s
        ≡ copyout_loop fuel null pgdir
            ((pgrounddown va + pgsize) % 2 ^ 32)
            (drop (part va buf) buf)
            (write_bytes pa0 (va - pgrounddown va) (part va buf) buf s)
  unfolding copyout_loop
  round fuel va buf s pa0 more found = rw (more, found, copyout_loop) refl

  stop :
      (fuel va : ℕ) (buf : List ℕ) (s : Vm)
      → ltb 0 (length buf) ≡ false
      → copyout_loop (suc fuel) null pgdir va buf s ≡ ok true s
  unfolding copyout_loop
  stop fuel va buf s done = rw (done, copyout_loop) refl

  fault :
      (fuel va : ℕ) (buf : List ℕ) (s : Vm)
      → ltb 0 (length buf) ≡ true
      → uva2ka null pgdir (pgrounddown va) s ≡ none
      → copyout_loop (suc fuel) null pgdir va buf s ≡ ok false s
  unfolding copyout_loop
  fault fuel va buf s more none_there = rw (more, none_there, copyout_loop) refl

  -- The buffer stands at the user addresses from `va` on, and no other byte has changed.
  abbrev Copied : ℕ → List ℕ → Vm → Vm → Type 0
  Copied va buf s s' =
      ((k : ℕ)
        → k < length buf
        → IsUser pgdir (va + k) s
          × (s'.byte (frame pgdir (va + k) s) ((va + k) % 4096) ≡ get_or buf k 0))
      × (s'.entry ≡ s.entry)
      × ((q i : ℕ)
          → ((k : ℕ) → k < length buf → frame pgdir (va + k) s ≢ q)
          → s'.byte q i ≡ s.byte q i)

  -- The loop ends: the whole buffer is copied, or an address of the range is no user address.
  abbrev CopyPost : ℕ → List ℕ → Vm → Run Bool → Type 0
  CopyPost va buf s (ok true s') = Copied va buf s s'
  CopyPost va buf s (ok false s') = (k : ℕ) × (k < length buf) × (¬ IsUser pgdir (va + k) s)
  CopyPost va buf s panic = ⊥
  CopyPost va buf s spent = ⊥

  empty-Copied : (va : ℕ) (buf : List ℕ) (s : Vm) → ltb 0 (length buf) ≡ false → Copied va buf s s
  empty-Copied va buf s done =
      let none_left : length buf ≡ 0 = ground arith in
      (λ k lt. absurd (omega arith), refl, λ q i out. refl)

  module _ (va : ℕ) (buf : List ℕ) (s : Vm) (pa0 : ℕ) (more : 0 < length buf)
      (fits : va + length buf ≤ 2 ^ 32) (user : IsUser pgdir (pgrounddown va) s)
      (at : frame pgdir (pgrounddown va) s ≡ pa0) (alias : NoAlias pgdir s) where
    abbrev n : ℕ
    n = part va buf

    abbrev s1 : Vm
    s1 = write_bytes pa0 (va - pgrounddown va) n buf s

    n-bounds : (0 < n) × (n ≤ length buf) × (n ≤ most va)
    n-bounds = elim (Bool-cases (ltb (length buf) (most va))) [
      | inl short ↦
          let lt = ltb→lt (length buf) (most va) short in rw short (more, omega arith, omega arith)
      | inr long ↦
          let le : most va ≤ length buf = ground arith in rw long (omega arith, le, omega arith)
    ]

    -- Where more is left, the round has come to the end of the page.
    n-rest : n < length buf → n ≡ most va
    n-rest lt = elim (Bool-cases (ltb (length buf) (most va))) [
      | inl short ↦ absurd (omega (arith, short_part short))
      | inr long ↦ rw long refl
    ]
      where
        short_part : ltb (length buf) (most va) ≡ true → n ≡ length buf
        short_part e = rw e refl

    page_of : (k : ℕ) → k < n → pgrounddown (va + k) ≡ pgrounddown (pgrounddown va)
    page_of k lt = let b = n-bounds in omega arith

    frame_of : (k : ℕ) → k < n → IsUser pgdir (va + k) s × (frame pgdir (va + k) s ≡ pa0)
    frame_of k lt =
        let same = translate-page pgdir (va + k) (pgrounddown va) s (page_of k lt) in
        ((ap (λ e. e.p) same ∙ user.0, ap (λ e. e.u) same ∙ user.1), ap (λ e. p2v e.addr) same ∙ at)

    written : (k : ℕ) → k < n → s1.byte pa0 ((va + k) % 4096) ≡ get_or buf k 0
    written k lt =
        let b = n-bounds in
        let place : (va + k) % 4096 ≡ va - pgrounddown va + k = omega arith in
        let self : (pa0 == pa0) ≡ true = ground arith in
        let low : va - pgrounddown va ≤ (va + k) % 4096 = omega arith in
        let high : (va + k) % 4096 < va - pgrounddown va + n = omega arith in
        let lo : leb (va - pgrounddown va) ((va + k) % 4096) ≡ true = ground arith in
        let hi = lt→ltb ((va + k) % 4096) (va - pgrounddown va + n) high in
        let back : (va + k) % 4096 - (va - pgrounddown va) ≡ k = omega arith in
        take_then
          ((pa0 == pa0)
            && leb (va - pgrounddown va) ((va + k) % 4096)
            && ltb ((va + k) % 4096) (va - pgrounddown va + n))
          _ _ (rw (self, lo, hi) refl)
        ∙ ap (λ j. get_or buf j 0) back

    unwritten : (q i : ℕ) → pa0 ≢ q → s1.byte q i ≡ s.byte q i
    unwritten q i ne =
        let other : (q == pa0) ≡ false = ground arith in
        take_else ((q == pa0) && leb (va - pgrounddown va) i && ltb i (va - pgrounddown va + n)) _ _
          (rw other refl)

    abbrev va1 : ℕ
    va1 = (pgrounddown va + pgsize) % 2 ^ 32

    abbrev buf1 : List ℕ
    buf1 = drop n buf

    -- Where more is left, the next round starts at the next page.
    next_place : (k : ℕ) → k < length buf1 → va1 + k ≡ va + (n + k)
    next_place k lt =
        let (lo, le, hi) = n-bounds in
        let left : length buf1 ≡ length buf - n = length-drop n buf in
        let whole : n ≡ most va = n-rest (omega arith) in omega arith

    next_fits : va1 + length buf1 ≤ 2 ^ 32
    next_fits =
        let (lo, le, hi) = n-bounds in
        let left : length buf1 ≡ length buf - n = length-drop n buf in
        elim (Bool-cases (ltb n (length buf))) [
          | inl lt ↦
              let lt' = ltb→lt n (length buf) lt in
              let whole : n ≡ most va = n-rest lt' in
              let here : (pgrounddown va + pgsize) % 2 ^ 32 ≡ va + n = omega arith in omega arith
          | inr ge ↦ let ge' : length buf ≤ n = ground arith in omega arith
        ]

    get_or-next : (k : ℕ) → n ≤ k → get_or buf1 (k - n) 0 ≡ get_or buf k 0
    get_or-next k le = get_or-drop buf n (k - n) 0 ∙ ap (λ j. get_or buf j 0) (omega arith)

    apart_next :
        (s' : Vm)
        → Copied va1 buf1 s1 s'
        → (k : ℕ) → k < length buf1
        → frame pgdir (va1 + k) s1 ≢ pa0
    unfolding translate
    apart_next s' copied k lt e =
        let (lo, le, hi) = n-bounds in
        let left : length buf1 ≡ length buf - n = length-drop n buf in
        let whole : n ≡ most va = n-rest (omega arith) in
        let place = next_place k lt in
        let same : pgrounddown ((va1 + k) % 2 ^ 32) ≡ pgrounddown (pgrounddown va % 2 ^ 32) =
          alias (va1 + k) (pgrounddown va) (copied.0 k lt).0 user (e ∙ sym at) in
        absurd (omega arith)

    out_next :
        (q : ℕ)
        → ((k : ℕ) → k < length buf → frame pgdir (va + k) s ≢ q)
        → (k : ℕ) → k < length buf1
        → frame pgdir (va1 + k) s ≢ q
    out_next q out k lt e =
        let left : length buf1 ≡ length buf - n = length-drop n buf in
        out (n + k) (omega arith) (ap (λ x. frame pgdir x s) (sym (next_place k lt)) ∙ e)

    step-Copied : (s' : Vm) → Copied va1 buf1 s1 s' → Copied va buf s s'
    unfolding translate
    step-Copied s' copied = (
      λ k lt. elim (Bool-cases (ltb k n)) [
        | inl here ↦
            let (u, f) = frame_of k (ltb→lt k n here) in
            (
              u,
              ap (λ q. s'.byte q ((va + k) % 4096)) f
                  ∙ copied.2 pa0 ((va + k) % 4096) (apart_next s' copied)
                  ∙ written k (ltb→lt k n here),
            )
        | inr later ↦
            let le : n ≤ k = ground arith in
            let left : length buf1 ≡ length buf - n = length-drop n buf in
            let less : k - n < length buf1 = omega arith in
            let place : va1 + (k - n) ≡ va + k =
              next_place (k - n) less ∙ ap (λ j. va + j) (omega arith) in
            let (u, f) = copied.0 (k - n) less in
            (
              subst (λ x. IsUser pgdir x s) place u,
              ap (λ x. s'.byte (frame pgdir x s) (x % 4096)) (sym place) ∙ f ∙ get_or-next k le,
            )
      ],
      copied.1,
      λ q i out.
          copied.2 q i (λ k lt e. out_next q out k lt e)
          ∙ unwritten q i (λ e. out 0 more ((frame_of 0 n-bounds.0).1 ∙ e)),
    )

  not-IsUser :
      (va : ℕ) (s : Vm) → uva2ka null pgdir (pgrounddown va) s ≡ none → ¬ IsUser pgdir (va + 0) s
  not-IsUser va s gone user =
      let same = translate-page pgdir (va + 0) (pgrounddown va) s (omega arith) in
      uva2ka-none null pgdir (pgrounddown va) s gone
        (ap (λ e. e.p) (sym same) ∙ user.0, ap (λ e. e.u) (sym same) ∙ user.1)

  step-CopyPost :
      (va : ℕ) (buf : List ℕ) (s : Vm) (pa0 : ℕ) (more : 0 < length buf)
      (fits : va + length buf ≤ 2 ^ 32) (user : IsUser pgdir (pgrounddown va) s)
      (at : frame pgdir (pgrounddown va) s ≡ pa0) (alias : NoAlias pgdir s) (r : Run Bool)
      → CopyPost
          ((pgrounddown va + pgsize) % 2 ^ 32)
          (drop (part va buf) buf)
          (write_bytes pa0 (va - pgrounddown va) (part va buf) buf s)
          r
      → CopyPost va buf s r
  unfolding translate
  step-CopyPost va buf s pa0 more fits user at alias (ok true s') post =
      step-Copied va buf s pa0 more fits user at alias s' post
  step-CopyPost va buf s pa0 more fits user at alias (ok false s') (k, lt, out) =
      let left : length (drop (part va buf) buf) ≡ length buf - part va buf =
        length-drop (part va buf) buf in
      (
        part va buf + k,
        omega arith,
        λ u. out (
            subst (λ x. IsUser pgdir x s)
              (sym (next_place va buf s pa0 more fits user at alias k lt)) u),
      )
  step-CopyPost va buf s pa0 more fits user at alias panic post = post
  step-CopyPost va buf s pa0 more fits user at alias spent post = post

  copyout_loop-CopyPost :
      (fuel va : ℕ) (buf : List ℕ) (s : Vm)
      → null.p ≡ false
      → NoAlias pgdir s
      → va + length buf ≤ 2 ^ 32
      → length buf < fuel
      → CopyPost va buf s (copyout_loop fuel null pgdir va buf s)
  unfolding translate
  copyout_loop-CopyPost zero va buf s off alias fits enough = absurd (omega arith)
  copyout_loop-CopyPost (suc fuel) va buf s off alias fits enough =
      elim (Bool-cases (ltb 0 (length buf))) [
        | inr done ↦
            subst (CopyPost va buf s) (sym (stop fuel va buf s done)) (empty-Copied va buf s done)
        | inl more ↦ elim (Option-cases (uva2ka null pgdir (pgrounddown va) s)) [
          | inl gone ↦
              subst (CopyPost va buf s) (sym (fault fuel va buf s more gone))
                (0, ltb→lt 0 (length buf) more, not-IsUser va s gone)
          | inr (pa0, found) ↦
              let lt = ltb→lt 0 (length buf) more in
              let (user, at) = uva2ka-some null pgdir (pgrounddown va) pa0 s off found in
              let n = part va buf in
              let (lo, le, hi) = n-bounds va buf s pa0 lt fits user at alias in
              let left : length (drop n buf) ≡ length buf - n = length-drop n buf in
              subst (CopyPost va buf s) (sym (round fuel va buf s pa0 more found)) (
                step-CopyPost va buf s pa0 lt fits user at alias _ (
                  copyout_loop-CopyPost fuel ((pgrounddown va + pgsize) % 2 ^ 32) (drop n buf)
                    (write_bytes pa0 (va - pgrounddown va) n buf s) off alias
                    (next_fits va buf s pa0 lt fits user at alias) (omega arith)))
        ]
      ]

  copyout-CopyPost :
      (va : ℕ) (buf : List ℕ) (s : Vm)
      → null.p ≡ false
      → NoAlias pgdir s
      → va + length buf ≤ 2 ^ 32
      → CopyPost va buf s (copyout null pgdir va buf s)
  unfolding copyout
  copyout-CopyPost va buf s off alias fits =
      copyout_loop-CopyPost (length buf + 1) va buf s off alias fits (omega arith)

  translate-entry :
      (x : ℕ) (s s' : Vm) → s'.entry ≡ s.entry → translate pgdir x s' ≡ translate pgdir x s
  unfolding translate
  translate-entry x s s' e = ap (λ en. translate pgdir x (record s { entry = en })) e

  -- `copyout` of a buffer to a range of user addresses that does not wrap around, where no page of
  -- memory stands at two user pages and the null pointer holds no present entry: if it returns 0,
  -- every address of the range is a user address, the user reads the byte of the buffer there, and no
  -- entry of any page table has changed.
  pub copyout-copies :
      (va : ℕ) (buf : List ℕ) (s s' : Vm) (k : ℕ)
      → null.p ≡ false
      → NoAlias pgdir s
      → va + length buf ≤ 2 ^ 32
      → copyout null pgdir va buf s ≡ ok true s'
      → k < length buf
      → IsUser pgdir (va + k) s
        × (read_user pgdir (va + k) s' ≡ get_or buf k 0)
        × (s'.entry ≡ s.entry)
  copyout-copies va buf s s' k off alias fits run lt =
      let (bytes, entries, others) =
        subst (CopyPost va buf s) run (copyout-CopyPost va buf s off alias fits) in
      let (user, at) = bytes k lt in
      (
        user,
        ap (λ e. s'.byte (p2v e.addr) ((va + k) % 4096)) (translate-entry (va + k) s s' entries)
            ∙ at,
        entries,
      )

  ends_in :
      (va : ℕ) (buf : List ℕ) (s : Vm) (r : Run Bool)
      → CopyPost va buf s r
      → ((s' : Vm) × (r ≡ ok true s'))
        ⊎ ((s' : Vm) × (k : ℕ) × (r ≡ ok false s') × (k < length buf) × (¬ IsUser pgdir (va + k) s))
  ends_in va buf s (ok true s') post = inl (s', refl)
  ends_in va buf s (ok false s') (k, lt, out) = inr (s', k, refl, lt, out)
  ends_in va buf s panic post = absurd post
  ends_in va buf s spent post = absurd post

  -- On the same conditions `copyout` ends without a panic: it returns 0, or it returns -1 and an
  -- address of the range is no user address.
  pub copyout-ends :
      (va : ℕ) (buf : List ℕ) (s : Vm)
      → null.p ≡ false
      → NoAlias pgdir s
      → va + length buf ≤ 2 ^ 32
      → ((s' : Vm) × (copyout null pgdir va buf s ≡ ok true s'))
        ⊎ ((s' : Vm) × (k : ℕ) × (copyout null pgdir va buf s ≡ ok false s')
            × (k < length buf)
            × (¬ IsUser pgdir (va + k) s))
  copyout-ends va buf s off alias fits =
      ends_in va buf s (copyout null pgdir va buf s) (copyout-CopyPost va buf s off alias fits)
