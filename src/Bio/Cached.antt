-- ===== src/Bio/Cached.antt =====
-- No block is cached twice, and the buffer that is used again is the one that was released first.
use cserl_bootcamp.Common.{
  ℕ, zero, suc, ◌+◌, ◌≤◌, ◌<◌, ◌≡◌, ◌≢◌, refl, sym, ap, ◌∙◌, Bool, true, false, none, some, List,
  [], ◌∷◌, get_elem?, modify, find_index, bit, Bool-cases, Option-cases, inl, inr, arith,
}
use cserl_bootcamp.Bio.{Buf, is_block, find_last, hold, recycle, remove}

-- How many buffers cache a block.
abbrev pub copies : (dev blockno : ℕ) → List Buf → ℕ
copies dev blockno [] = 0
copies dev blockno (b ∷ bs) = bit (is_block dev blockno b) + copies dev blockno bs

module _ (dev blockno : ℕ) where
  copies-zero : (n : ℕ) → n ≡ 0 → 0 + n ≡ 0
  copies-zero n e = omega arith

  pub copies-modify :
      (c : List Buf) (i : ℕ) (f : Buf → Buf) (b : Buf)
      → get_elem? c i ≡ some b
      → copies dev blockno (modify c i f) + bit (is_block dev blockno b)
        ≡ copies dev blockno c + bit (is_block dev blockno (f b))
  copies-modify [] i f b at = absurd (cc at)
  copies-modify (x ∷ xs) zero f b at = let same : x ≡ b = cc at in rw same (omega arith)
  copies-modify (x ∷ xs) (suc i) f b at = omega (arith, copies-modify xs i f b at)

  pub copies-remove :
      (c : List Buf) (i : ℕ) (b : Buf)
      → get_elem? c i ≡ some b
      → copies dev blockno (remove c i) + bit (is_block dev blockno b) ≡ copies dev blockno c
  copies-remove [] i b at = absurd (cc at)
  copies-remove (x ∷ xs) zero b at = let same : x ≡ b = cc at in rw same (omega arith)
  copies-remove (x ∷ xs) (suc i) b at = omega (arith, copies-remove xs i b at)

  pub copies-none :
      (c : List Buf) → find_index (is_block dev blockno) c ≡ none → copies dev blockno c ≡ 0
  copies-none [] e = refl
  copies-none (x ∷ xs) e = elim (Bool-cases (is_block dev blockno x)) [
    | inl hit ↦ absurd (cc (rw hit at e))
    | inr miss ↦ elim (Option-cases (find_index (is_block dev blockno) xs)) [
      | inl nothing ↦ rw miss (copies-zero (copies dev blockno xs) (copies-none xs nothing))
      | inr (k, got) ↦ absurd (cc (rw (miss, got) at e))
    ]
  ]

pub find_last-none :
    (p : Buf → Bool) (c : List Buf) (j : ℕ) (d : Buf)
    → find_last p c ≡ none
    → get_elem? c j ≡ some d
    → p d ≡ false
unfolding find_last
find_last-none p [] j d e at = absurd (cc at)
find_last-none p (x ∷ xs) j d e at = elim (Option-cases (find_last p xs)) [
  | inr (k, got) ↦ absurd (cc (rw got at e))
  | inl nothing ↦ elim (Bool-cases (p x)) [
    | inl hit ↦ absurd (cc (rw (nothing, hit) at e))
    | inr miss ↦ place j at miss (λ k. find_last-none p xs k d nothing)
  ]
]
  where
    place :
        (j : ℕ)
        → get_elem? (x ∷ xs) j ≡ some d
        → p x ≡ false
        → ((k : ℕ) → get_elem? xs k ≡ some d → p d ≡ false)
        → p d ≡ false
    place zero at miss rest = let same : x ≡ d = cc at in rw (sym same) miss
    place (suc j) at miss rest = rest j at

pub find_last-some :
    (p : Buf → Bool) (c : List Buf) (i : ℕ)
    → find_last p c ≡ some i
    → (b : Buf) × (get_elem? c i ≡ some b)
      × (p b ≡ true)
      × ((j : ℕ) (d : Buf) → i < j → get_elem? c j ≡ some d → p d ≡ false)
unfolding find_last
find_last-some p [] i e = absurd (cc e)
find_last-some p (x ∷ xs) i e = elim (Option-cases (find_last p xs)) [
  | inr (k, got) ↦
      let here : suc k ≡ i = cc (rw got at e) in
      let (b, at, hit, later) = find_last-some p xs k got in
      rw (sym here) (b, at, hit, λ j d lt. after k later j d lt)
  | inl nothing ↦ elim (Bool-cases (p x)) [
    | inr miss ↦ absurd (cc (rw (nothing, miss) at e))
    | inl hit ↦
        let here : 0 ≡ i = cc (rw (nothing, hit) at e) in
        rw (sym here) (x, refl, hit, λ j d lt. none_after nothing j d lt)
  ]
]
  where
    after :
        (k : ℕ)
        → ((j : ℕ) (d : Buf) → k < j → get_elem? xs j ≡ some d → p d ≡ false)
        → (j : ℕ) (d : Buf) → suc k < j
        → get_elem? (x ∷ xs) j ≡ some d
        → p d ≡ false
    after k later zero d lt = absurd (omega arith)
    after k later (suc j) d lt = later j d (omega arith)

    none_after :
        find_last p xs ≡ none
        → (j : ℕ) (d : Buf) → 0 < j
        → get_elem? (x ∷ xs) j ≡ some d
        → p d ≡ false
    none_after nothing zero d lt = absurd (omega arith)
    none_after nothing (suc j) d lt = find_last-none p xs j d nothing

-- No block of a device other than 0, which stands for none, is in two buffers.
abbrev pub Distinct : List Buf → Type 0
Distinct c = (dev blockno : ℕ) → dev ≢ 0 → copies dev blockno c ≤ 1

pub hold-Distinct :
    (c : List Buf) (i : ℕ) (b : Buf)
    → get_elem? c i ≡ some b
    → Distinct c
    → Distinct (modify c i hold)
hold-Distinct c i b at v dev blockno ne =
    omega (arith, copies-modify dev blockno c i hold b at, v dev blockno ne)

pub recycle-Distinct :
    (dev blockno : ℕ) (c : List Buf) (i : ℕ) (b : Buf)
    → get_elem? c i ≡ some b
    → copies dev blockno c ≡ 0
    → Distinct c
    → Distinct (modify c i (recycle dev blockno))
recycle-Distinct dev blockno c i b at absent v dev' blockno' ne =
    elim (Bool-cases (is_block dev' blockno' (recycle dev blockno b))) [
      | inl same ↦
          let same_dev : dev ≡ dev' = ground arith in
          let same_block : blockno ≡ blockno' = ground arith in
          let zero_before : copies dev' blockno' c ≡ 0 =
            ap (λ k. copies k blockno' c) (sym same_dev)
            ∙ ap (λ k. copies dev k c) (sym same_block)
            ∙ absent in
          omega (arith, copies-modify dev' blockno' c i (recycle dev blockno) b at, ap bit same)
      | inr other ↦ omega (
        arith,
        copies-modify dev' blockno' c i (recycle dev blockno) b at,
        ap bit other,
        v dev' blockno' ne,
      )
    ]
