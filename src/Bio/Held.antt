-- ===== src/Bio/Held.antt =====
-- Who holds which block of the buffer cache.
use cserl_bootcamp.Common.{
  ℕ, zero, suc, ◌+◌, ◌-◌, ◌≤◌, ◌<◌, ◌^◌, ◌≡◌, ◌≢◌, ◌⊎◌, refl, sym, ap, ◌∙◌, Bool, true, false, not,
  some, List, [], ◌∷◌, ◌&&◌, ◌==◌, if◌then◌else◌, get_elem?, modify, find_index, find_index-some,
  replicate, bit, Bool-cases, Option-cases, inl, inr, take_then, take_else, arith,
}
use cserl_bootcamp.Bio.{Buf, blank_buf, binit, nbuf, is_block, bget, remove, dec, brelse}
use cserl_bootcamp.Bio.Cached.{copies, copies-remove, copies-none, Distinct}
use cserl_bootcamp.Bio.Get.{
  GetPost, bget-GetPost, bget-Distinct, released, modify-Distinct, brelse-Distinct, binit-Distinct,
}

-- The references that a buffer gives to a block, and those of all buffers.
abbrev weight : (dev blockno : ℕ) → Buf → ℕ
weight dev blockno b = if is_block dev blockno b then b.refcnt else 0

abbrev refs : (dev blockno : ℕ) → List Buf → ℕ
refs dev blockno [] = 0
refs dev blockno (b ∷ bs) = weight dev blockno b + refs dev blockno bs

plus_zero : (n : ℕ) → 0 + n ≡ n
plus_zero n = omega arith

module _ (dev blockno : ℕ) where
  refs-modify :
      (c : List Buf) (i : ℕ) (f : Buf → Buf) (b : Buf)
      → get_elem? c i ≡ some b
      → refs dev blockno (modify c i f) + weight dev blockno b
        ≡ refs dev blockno c + weight dev blockno (f b)
  refs-modify [] i f b at = absurd (cc at)
  refs-modify (x ∷ xs) zero f b at =
      let same : x ≡ b = cc at in
      ap (λ y. weight dev blockno (f y) + refs dev blockno xs + weight dev blockno b) same
      ∙ swap (weight dev blockno (f b)) (refs dev blockno xs) (weight dev blockno b)
      ∙ ap (λ y. weight dev blockno y + refs dev blockno xs + weight dev blockno (f b)) (sym same)
    where
      swap : (x y z : ℕ) → x + y + z ≡ z + y + x
      swap x y z = omega arith
  refs-modify (x ∷ xs) (suc i) f b at =
      shift (weight dev blockno x) _ _ _ _ (refs-modify xs i f b at)
    where
      shift : (x a b c d : ℕ) → a + b ≡ c + d → x + a + b ≡ x + c + d
      shift x a b c d e = omega arith

  refs-remove :
      (c : List Buf) (i : ℕ) (b : Buf)
      → get_elem? c i ≡ some b
      → refs dev blockno (remove c i) + weight dev blockno b ≡ refs dev blockno c
  refs-remove [] i b at = absurd (cc at)
  refs-remove (x ∷ xs) zero b at =
      let same : x ≡ b = cc at in
      swap (refs dev blockno xs) (weight dev blockno b)
      ∙ ap (λ y. weight dev blockno y + refs dev blockno xs) (sym same)
    where
      swap : (x y : ℕ) → x + y ≡ y + x
      swap x y = omega arith
  refs-remove (x ∷ xs) (suc i) b at = shift (weight dev blockno x) _ _ _ (refs-remove xs i b at)
    where
      shift : (x a b c : ℕ) → a + b ≡ c → x + a + b ≡ x + c
      shift x a b c e = omega arith

  refs-none : (c : List Buf) → copies dev blockno c ≡ 0 → refs dev blockno c ≡ 0
  refs-none [] e = refl
  refs-none (x ∷ xs) e = elim (Bool-cases (is_block dev blockno x)) [
    | inl hit ↦
        absurd (one (copies dev blockno xs) (ap (λ k. bit k + copies dev blockno xs) (sym hit) ∙ e))
    | inr miss ↦
        let rest : copies dev blockno xs ≡ 0 =
          sym (plus_zero (copies dev blockno xs))
          ∙ ap (λ k. bit k + copies dev blockno xs) (sym miss)
          ∙ e in
        ap (λ k. k + refs dev blockno xs) (take_else (is_block dev blockno x) x.refcnt 0 miss)
        ∙ plus_zero (refs dev blockno xs)
        ∙ refs-none xs rest
  ]
    where
      one : (n : ℕ) → 1 + n ≡ 0 → ⊥
      one n h = omega arith

  -- Where one buffer has the block, its count is that of the block.
  refs-single :
      (c : List Buf) (i : ℕ) (b : Buf)
      → copies dev blockno c ≤ 1
      → get_elem? c i ≡ some b
      → is_block dev blockno b ≡ true
      → (copies dev blockno c ≡ 1) × (refs dev blockno c ≡ b.refcnt)
  refs-single c i b few at hit =
      let left : copies dev blockno (remove c i) + 1 ≡ copies dev blockno c =
        ap (λ k. copies dev blockno (remove c i) + bit k) (sym hit)
        ∙ copies-remove dev blockno c i b at in
      let no_more : copies dev blockno (remove c i) ≡ 0 = omega arith in
      let nothing : refs dev blockno (remove c i) ≡ 0 = refs-none (remove c i) no_more in
      let own : weight dev blockno b ≡ b.refcnt =
        take_then (is_block dev blockno b) b.refcnt 0 hit in
      (
        omega arith,
        sym (refs-remove c i b at)
            ∙ ap (λ k. k + weight dev blockno b) nothing
            ∙ plus_zero (weight dev blockno b)
            ∙ own,
      )

-- The cache, and the number of references that are held to each block.
pub record Holders : Type 0 where
  pub cache : List Buf
  pub held : (dev blockno : ℕ) → ℕ

abbrev pub same_block : (dev blockno d k : ℕ) → Bool
same_block dev blockno d k = (dev == d) && (blockno == k)

-- Processes get buffers of a device other than 0, where no count wraps around; change what they hold of
-- them but for the block and the count; and release them.
pub data Step (s t : Holders) : Type 0 where
  gets :
      (dev blockno i : ℕ) (c : List Buf)
      → dev ≢ 0
      → s.held dev blockno + 1 < 2 ^ 32
      → bget dev blockno s.cache ≡ some (i, c)
      → t ≡ record {
        cache = c;
        held = λ d k. if same_block dev blockno d k then s.held d k + 1 else s.held d k;
      }
      → Step s t
  changes :
      (i : ℕ) (f : Buf → Buf)
      → ((b : Buf) → ((f b).dev ≡ b.dev) × ((f b).blockno ≡ b.blockno) × ((f b).refcnt ≡ b.refcnt))
      → t ≡ record { cache = modify s.cache i f; held = s.held }
      → Step s t
  releases :
      (i : ℕ) (b : Buf) (c : List Buf)
      → get_elem? s.cache i ≡ some b
      → 1 ≤ s.held b.dev b.blockno
      → brelse i s.cache ≡ some c
      → t
        ≡ record { cache = c; held = λ d k. if is_block d k b then s.held d k - 1 else s.held d k }
      → Step s t

pub data Reach (s : Holders) : Holders → Type 0 where
  here : Reach s s
  next : {t u : Holders} → Reach s t → Step t u → Reach s u

record IsHeld (s : Holders) : Type 0 where
  distinct : Distinct s.cache
  counted : (dev blockno : ℕ) → refs dev blockno s.cache ≡ s.held dev blockno
  bounded : (dev blockno : ℕ) → s.held dev blockno < 2 ^ 32
  no_device : (blockno : ℕ) → s.held 0 blockno ≡ 0

-- The count of a block after a change of one buffer.
recount : (r r' w w' h h' : ℕ) → r' + w ≡ r + w' → r ≡ h → h' + w ≡ h + w' → r' ≡ h'
recount r r' w w' h h' e counted same = omega arith

weight_hit : (d k : ℕ) (b : Buf) → is_block d k b ≡ true → weight d k b ≡ b.refcnt
weight_hit d k b hit = take_then (is_block d k b) b.refcnt 0 hit

weight_miss : (d k : ℕ) (b : Buf) → is_block d k b ≡ false → weight d k b ≡ 0
weight_miss d k b miss = take_else (is_block d k b) b.refcnt 0 miss

get-counted :
    (dev blockno i : ℕ) (s : Holders) (c : List Buf)
    → IsHeld s
    → GetPost dev blockno s.cache (some (i, c))
    → (d k : ℕ) → refs d k c ≡ (if same_block dev blockno d k then s.held d k + 1 else s.held d k)
get-counted dev blockno i s c v (b, at, inl (e, f, eq)) d k =
    let up : Buf → Buf = λ b. record b { refcnt = b.refcnt + 1 } in
    let sum : refs d k c + weight d k b ≡ refs d k s.cache + weight d k (up b) =
      ap (λ l. refs d k l + weight d k b) eq ∙ refs-modify d k s.cache i up b at in
    let test : is_block d k b ≡ same_block dev blockno d k =
      ap (λ x. (x == d) && (b.blockno == k)) e ∙ ap (λ y. (dev == d) && (y == k)) f in
    elim (Bool-cases (same_block dev blockno d k)) [
      | inl same ↦
          let now = weight_hit d k (up b) (test ∙ same) in
          let was = weight_hit d k b (test ∙ same) in
          recount (refs d k s.cache) (refs d k c) _ _ (s.held d k) (s.held d k + 1) sum
            (v.counted d k) (omega arith)
          ∙ sym (take_then (same_block dev blockno d k) _ _ same)
      | inr other ↦
          let now = weight_miss d k (up b) (test ∙ other) in
          let was = weight_miss d k b (test ∙ other) in
          recount (refs d k s.cache) (refs d k c) _ _ (s.held d k) (s.held d k) sum (v.counted d k)
            (omega arith)
          ∙ sym (take_else (same_block dev blockno d k) _ _ other)
    ]
get-counted dev blockno i s c v (b, at, inr (absent, (idle, clean), later, eq)) d k =
    let new : Buf → Buf = λ b. record {
      valid = false;
      dirty = false;
      dev = dev;
      blockno = blockno;
      refcnt = 1;
      locked = b.locked;
      bytes = b.bytes;
    } in
    let sum : refs d k c + weight d k b ≡ refs d k s.cache + weight d k (new b) =
      ap (λ l. refs d k l + weight d k b) eq ∙ refs-modify d k s.cache i new b at in
    let was : weight d k b ≡ 0 = elim (Bool-cases (is_block d k b)) [
      | inl hit ↦ weight_hit d k b hit ∙ idle
      | inr miss ↦ weight_miss d k b miss
    ] in
    elim (Bool-cases (same_block dev blockno d k)) [
      | inl same ↦
          let now = weight_hit d k (new b) same in
          recount (refs d k s.cache) (refs d k c) _ _ (s.held d k) (s.held d k + 1) sum
            (v.counted d k) (omega arith)
          ∙ sym (take_then (same_block dev blockno d k) _ _ same)
      | inr other ↦
          let now = weight_miss d k (new b) other in
          recount (refs d k s.cache) (refs d k c) _ _ (s.held d k) (s.held d k) sum (v.counted d k)
            (omega arith)
          ∙ sym (take_else (same_block dev blockno d k) _ _ other)
    ]

brelse-cases :
    (i : ℕ) (c d : List Buf) (b : Buf)
    → get_elem? c i ≡ some b
    → brelse i c ≡ some d
    → (d ≡ released b ∷ remove c i) ⊎ (d ≡ modify c i released)
unfolding brelse
brelse-cases i c d b at run = elim (Bool-cases (not b.locked)) [
  | inl panic ↦ absurd (cc (rw (at, panic, brelse) at run))
  | inr fine ↦ elim (Bool-cases (dec b.refcnt == 0)) [
    | inl last ↦
        let moved : released b ∷ remove c i ≡ d = cc (rw (at, fine, last, brelse) at run) in
        inl (sym moved)
    | inr more ↦
        let kept : modify c i released ≡ d = cc (rw (at, fine, more, brelse) at run) in
        inr (sym kept)
  ]
]

release-counted :
    (i : ℕ) (b : Buf) (s : Holders) (c : List Buf)
    → IsHeld s
    → get_elem? s.cache i ≡ some b
    → 1 ≤ s.held b.dev b.blockno
    → brelse i s.cache ≡ some c
    → (d k : ℕ) → refs d k c ≡ (if is_block d k b then s.held d k - 1 else s.held d k)
release-counted i b s c v at some_held run d k =
    let sum : refs d k c + weight d k b ≡ refs d k s.cache + weight d k (released b) =
      elim (brelse-cases i s.cache c b at run) [
        | inl eq ↦
            let rest = refs-remove d k s.cache i b at in
            ap (λ l. refs d k l + weight d k b) eq ∙ omega (arith, rest)
        | inr eq ↦ ap (λ l. refs d k l + weight d k b) eq ∙ refs-modify d k s.cache i released b at
      ] in
    elim (Bool-cases (is_block d k b)) [
      | inl hit ↦
          let dev : b.dev ≡ d = ground arith in
          let block : b.blockno ≡ k = ground arith in
          let held : s.held b.dev b.blockno ≡ s.held d k =
            ap (λ x. s.held x b.blockno) dev ∙ ap (s.held d) block in
          let real : d ≢ 0 = λ z.
            let none_held : s.held d k ≡ 0 = ap (λ x. s.held x k) z ∙ v.no_device k in
            omega arith in
          let (one, all) = refs-single d k s.cache i b (v.distinct d k real) at hit in
          let own : b.refcnt ≡ s.held d k = sym all ∙ v.counted d k in
          let small = v.bounded d k in
          let fewer : dec b.refcnt ≡ b.refcnt - 1 = omega arith in
          let now : weight d k (released b) ≡ b.refcnt - 1 =
            weight_hit d k (released b) hit ∙ fewer in
          let was = weight_hit d k b hit in
          recount (refs d k s.cache) (refs d k c) _ _ (s.held d k) (s.held d k - 1) sum
            (v.counted d k) (omega arith)
          ∙ sym (take_then (is_block d k b) _ _ hit)
      | inr miss ↦
          let now = weight_miss d k (released b) miss in
          let was = weight_miss d k b miss in
          recount (refs d k s.cache) (refs d k c) _ _ (s.held d k) (s.held d k) sum (v.counted d k)
            (omega arith)
          ∙ sym (take_else (is_block d k b) _ _ miss)
    ]

change-counted :
    (f : Buf → Buf)
    → ((b : Buf) → ((f b).dev ≡ b.dev) × ((f b).blockno ≡ b.blockno) × ((f b).refcnt ≡ b.refcnt))
    → (d k : ℕ) (c : List Buf) (i : ℕ) → refs d k (modify c i f) ≡ refs d k c
change-counted f same d k [] i = refl
change-counted f same d k (x ∷ xs) zero =
    let (dev, block, count) = same x in
    ap (λ y. (if (y == d) && ((f x).blockno == k) then (f x).refcnt else 0) + refs d k xs) dev
    ∙ ap (λ y. (if (x.dev == d) && (y == k) then (f x).refcnt else 0) + refs d k xs) block
    ∙ ap (λ y. (if is_block d k x then y else 0) + refs d k xs) count
change-counted f same d k (x ∷ xs) (suc i) =
    ap (λ y. weight d k x + y) (change-counted f same d k xs i)

Step-IsHeld : {s t : Holders} → Step s t → IsHeld s → IsHeld t
Step-IsHeld {s} (gets dev blockno i c real room run to) v = rw to (record {
  distinct = bget-Distinct dev blockno i s.cache c run v.distinct;
  counted = get-counted dev blockno i s c v (rw run at (bget-GetPost dev blockno s.cache));
  bounded = λ d k. elim (Bool-cases (same_block dev blockno d k)) [
    | inl same ↦
        let dev_d : dev ≡ d = ground arith in
        let block_k : blockno ≡ k = ground arith in
        let held : s.held dev blockno ≡ s.held d k =
          ap (λ x. s.held x blockno) dev_d ∙ ap (s.held d) block_k in
        let now = take_then (same_block dev blockno d k) (s.held d k + 1) (s.held d k) same in
        omega arith
    | inr other ↦
        let now = take_else (same_block dev blockno d k) (s.held d k + 1) (s.held d k) other in
        let small = v.bounded d k in omega arith
  ];
  no_device = λ k.
      let other : same_block dev blockno 0 k ≡ false = ground arith in
      take_else (same_block dev blockno 0 k) _ _ other ∙ v.no_device k;
})
Step-IsHeld {s} (changes i f same to) v = rw to (record {
  distinct =
      modify-Distinct s.cache i f
        (λ dev blockno b.
          ap (λ y. (y == dev) && ((f b).blockno == blockno)) (same b).0
          ∙ ap (λ y. (b.dev == dev) && (y == blockno)) (same b).1)
        v.distinct;
  counted = λ d k. change-counted f same d k s.cache i ∙ v.counted d k;
  bounded = v.bounded;
  no_device = v.no_device;
})
Step-IsHeld {s} (releases i b c at some_held run to) v = rw to (record {
  distinct = brelse-Distinct i s.cache c run v.distinct;
  counted = release-counted i b s c v at some_held run;
  bounded = λ d k. less (is_block d k b) (s.held d k) (v.bounded d k);
  no_device = λ k. zero_less (is_block 0 k b) (s.held 0 k) (v.no_device k);
})
  where
    less : (b : Bool) (h : ℕ) → h < 2 ^ 32 → (if b then h - 1 else h) < 2 ^ 32
    less true h lt = omega arith
    less false h lt = lt

    zero_less : (b : Bool) (h : ℕ) → h ≡ 0 → (if b then h - 1 else h) ≡ 0
    zero_less true h e = omega arith
    zero_less false h e = e

-- The cache after `binit`, with no reference to it.
abbrev pub no_blocks : Holders
no_blocks = record { cache = binit; held = λ d k. 0 }

refs-blank : (d k n : ℕ) → refs d k (replicate n blank_buf) ≡ 0
refs-blank d k zero = refl
refs-blank d k (suc n) =
    ap (λ y. y + refs d k (replicate n blank_buf)) (same (is_block d k blank_buf) 0)
    ∙ plus_zero (refs d k (replicate n blank_buf))
    ∙ refs-blank d k n
  where
    same : (b : Bool) (z : ℕ) → (if b then z else z) ≡ z
    same true z = refl
    same false z = refl

no_blocks-IsHeld : IsHeld no_blocks
no_blocks-IsHeld = record {
  distinct = binit-Distinct;
  counted = λ d k. refs-blank d k nbuf;
  bounded = λ d k. omega arith;
  no_device = λ k. refl;
}

Reach-IsHeld : {s t : Holders} → IsHeld s → Reach s t → IsHeld t
Reach-IsHeld v here = v
Reach-IsHeld v (next r step) = Step-IsHeld step (Reach-IsHeld v r)

-- In every state of the buffer cache that is reached from its start: no block of a device other than 0 is
-- in two buffers, and a block to which references are held is in one, whose count is the number of those
-- references; so that no buffer is taken from those who hold it.
pub Reach-copies :
    (dev blockno : ℕ) {s : Holders}
    → dev ≢ 0
    → Reach no_blocks s
    → (copies dev blockno s.cache ≤ 1)
      × ((s.held dev blockno ≡ 0)
          ⊎ ((copies dev blockno s.cache ≡ 1)
              × ((i : ℕ) × (b : Buf) × (get_elem? s.cache i ≡ some b)
                  × (b.dev ≡ dev)
                  × (b.blockno ≡ blockno)
                  × (b.refcnt ≡ s.held dev blockno))))
Reach-copies dev blockno {s} real r =
    let v = Reach-IsHeld no_blocks-IsHeld r in
    (
      v.distinct dev blockno real,
      elim (Option-cases (find_index (is_block dev blockno) s.cache)) [
        | inl miss ↦
            let absent = copies-none dev blockno s.cache miss in
            inl (sym (v.counted dev blockno) ∙ refs-none dev blockno s.cache absent)
        | inr (i, got) ↦
            let (b, at, hit) = find_index-some (is_block dev blockno) s.cache i got in
            let (one, all) =
              refs-single dev blockno s.cache i b (v.distinct dev blockno real) at hit in
            inr (one, (i, b, at, ground arith, ground arith, sym all ∙ v.counted dev blockno))
      ],
    )
