-- ===== src/Kalloc/Owners.antt =====
-- Who holds which page: the list of free pages and the pages that `kalloc` has given out.
use cserl_bootcamp.Common.{
  ℕ, ◌+◌, ◌≤◌, ◌≡◌, refl, sym, some, List, [], ◌∷◌, ◌==◌, arith, inl, inr, Bool-cases, bit, count,
  drop_one, drop_one-count,
}
use cserl_bootcamp.Kalloc.{Kmem, refuses, kalloc, kfree}

-- The allocator, and the pages that are in use.
pub record Owners : Type 0 where
  pub kmem : Kmem
  pub held : List ℕ

-- Pages are allocated, and pages that are held are freed.
pub data Step (end_addr : ℕ) (s t : Owners) : Type 0 where
  allocates :
      (r : ℕ)
      → (kalloc s.kmem).0 ≡ some r
      → t ≡ record { kmem = (kalloc s.kmem).1; held = r ∷ s.held }
      → Step end_addr s t
  frees :
      (v : ℕ) (k : Kmem)
      → 1 ≤ count v s.held
      → kfree end_addr v s.kmem ≡ some k
      → t ≡ record { kmem = k; held = drop_one v s.held }
      → Step end_addr s t

pub data Reach (end_addr : ℕ) (s : Owners) : Owners → Type 0 where
  here : Reach end_addr s s
  next : {t u : Owners} → Reach end_addr s t → Step end_addr t u → Reach end_addr s u

abbrev pub shares : ℕ → Owners → ℕ
shares a s = count a s.kmem.freelist + count a s.held

kalloc-count :
    (a : ℕ) (k : Kmem) (r : ℕ)
    → (kalloc k).0 ≡ some r
    → count a k.freelist ≡ bit (a == r) + count a (kalloc k).1.freelist
unfolding kalloc
kalloc-count a k r e = go k.freelist refl
  where
    go :
        (rs : List ℕ)
        → k.freelist ≡ rs
        → count a k.freelist ≡ bit (a == r) + count a (kalloc k).1.freelist
    go [] nil = absurd (cc (rw (nil, kalloc) at e))
    go (q ∷ rs) eq =
        let same : q ≡ r = cc (rw (eq, kalloc) at e) in rw (eq, kalloc) (ground (arith, same))

kfree-count :
    (end_addr a v : ℕ) (k k' : Kmem)
    → kfree end_addr v k ≡ some k'
    → count a k'.freelist ≡ bit (a == v) + count a k.freelist
unfolding kfree
kfree-count end_addr a v k k' e = elim (Bool-cases (refuses end_addr v)) [
  | inl panic ↦ absurd (cc (rw panic at e))
  | inr fine ↦
      let same : record k { freelist = v ∷ k.freelist } ≡ k' = cc (rw fine at e) in
      rw (sym same) refl
]

Reach-shares :
    {end_addr : ℕ} {s t : Owners}
    → ((a : ℕ) → shares a s ≤ 1)
    → Reach end_addr s t
    → (a : ℕ) → shares a t ≤ 1
Reach-shares start here a = start a
Reach-shares {end_addr} start (next {t = w} r (allocates q e to)) a =
    rw to (omega (arith, kalloc-count a w.kmem q e, Reach-shares start r a))
Reach-shares {end_addr} start (next {t = w} r (frees v k h e to)) a = rw to (
    omega (
      arith,
      kfree-count end_addr a v w.kmem k e,
      drop_one-count a v w.held h,
      Reach-shares start r a,
    ))

-- From a list of free pages that names none twice, whatever pages are then allocated, and freed by
-- who holds them: `kalloc` returns a page that nobody holds, and takes it off the free list.
pub Reach-kalloc :
    (end_addr : ℕ) {k : Kmem} {t : Owners} (r : ℕ)
    → ((a : ℕ) → count a k.freelist ≤ 1)
    → Reach end_addr (record { kmem = k; held = [] }) t
    → (kalloc t.kmem).0 ≡ some r
    → (count r t.held ≡ 0) × (count r (kalloc t.kmem).1.freelist ≡ 0)
Reach-kalloc end_addr {k} {t} r once reach e =
    let all : shares r t ≤ 1 = Reach-shares (λ a. omega (arith, once a)) reach r in
    let one : bit (r == r) ≡ 1 = ground arith in
    (omega (arith, kalloc-count r t.kmem r e), omega (arith, kalloc-count r t.kmem r e))
