-- ===== src/Fs/Icache/Steps.antt =====
-- `iget`, `idup` and `iput` keep inodes shared.
use cserl_bootcamp.Common.{
  take_then, take_else, get_elem?-modify, true, ℕ, ◌+◌, ◌≤◌, ◌<◌, ◌≡◌, ◌≢◌, ◌⊎◌, refl, sym, ap, ◌∙◌,
  false, some, [], ◌∷◌, ◌==◌, get_elem?, modify, find_index, find_index-some, find_index-none,
  get_elem?-replicate, replicate, count, bit, drop_one, drop_one-count, Bool-cases, Option-cases,
  inl, inr, arith,
}
use cserl_bootcamp.Fs.Icache.{
  Inode, Icache, is_inode, is_empty_slot, assign, add_ref, is_dropped, drop_inode, put_ref, iget,
  idup, iput_drop, iput_ref,
}
use cserl_bootcamp.Fs.Icache.Sharing.{
  Holders, gets, dups, loads, drops, puts, Reach, here, next, IsShared, modify-slot, keep-IsShared,
}

add-IsShared :
    (s : Holders) (i : ℕ)
    → IsShared s
    → ((p : Inode) → get_elem? s.cache i ≡ some p → 0 < p.ref)
    → IsShared (record { cache = modify s.cache i add_ref; held = i ∷ s.held })
add-IsShared s i v used =
    keep-IsShared s v i add_ref (i ∷ s.held) (λ p. refl) (λ p. refl) used
      (λ p at. ground (arith, v.counted i p at)) (λ j ne. ground arith)

-- A change of a slot that keeps its inode and its count.
change-IsShared :
    (s : Holders) (i : ℕ) (h : Inode → Inode)
    → IsShared s
    → 1 ≤ count i s.held
    → ((p : Inode) → (h p).dev ≡ p.dev)
    → ((p : Inode) → (h p).inum ≡ p.inum)
    → ((p : Inode) → (h p).ref ≡ p.ref)
    → IsShared (record { cache = modify s.cache i h; held = s.held })
change-IsShared s i h v some_held dev inum ref =
    keep-IsShared s v i h s.held dev inum (λ p at. omega (arith, v.counted i p at, some_held))
      (λ p at. ref p ∙ v.counted i p at) (λ j ne. refl)

drop_inode-kept :
    (p : Inode)
    → ((drop_inode p).dev ≡ p.dev) × ((drop_inode p).inum ≡ p.inum) × ((drop_inode p).ref ≡ p.ref)
drop_inode-kept p = elim (Bool-cases (is_dropped p)) [
  | inl e ↦ rw e (refl, refl, refl)
  | inr e ↦ rw e (refl, refl, refl)
]

put-IsShared :
    (s : Holders) (i : ℕ)
    → IsShared s
    → 1 ≤ count i s.held
    → IsShared (record { cache = modify s.cache i put_ref; held = drop_one i s.held })
put-IsShared s i v h =
    keep-IsShared s v i put_ref (drop_one i s.held) (λ p. refl) (λ p. refl)
      (λ p at. omega (arith, v.counted i p at, h))
      (λ p at. fewer p (v.counted i p at) (drop_one-count i i s.held h))
      (λ j ne. ground (arith, drop_one-count j i s.held h))
  where
    fewer :
        (p : Inode)
        → p.ref ≡ count i s.held
        → bit (i == i) + count i (drop_one i s.held) ≡ count i s.held
        → (put_ref p).ref ≡ count i (drop_one i s.held)
    fewer p c e = ground arith

-- An inode that no slot in use has is put in a slot that nobody holds.
module _ (dev inum : ℕ) (s : Holders) (v : IsShared s) (i : ℕ) (e : Inode)
    (at_e : get_elem? s.cache i ≡ some e) (free : e.ref ≡ 0)
    (absent : (j : ℕ) (p : Inode)
      → get_elem? s.cache j ≡ some p
      → is_inode dev inum p ≡ false) where
  assign-counted :
      (j : ℕ) (p : Inode)
      → get_elem? (modify s.cache i (assign dev inum)) j ≡ some p
      → p.ref ≡ count j (i ∷ s.held)
  assign-counted j p at = go (modify-slot s.cache i j (assign dev inum) p at)
    where
      go :
          (q : Inode) × (get_elem? s.cache j ≡ some q)
            × (((i ≡ j) × (p ≡ assign dev inum q)) ⊎ ((i ≢ j) × (p ≡ q)))
          → p.ref ≡ count j (i ∷ s.held)
      go (q, there, inl (same, eq)) =
          let nobody : count i s.held ≡ 0 = sym (v.counted i e at_e) ∙ free in
          let nobody_j : count j s.held ≡ 0 = ap (λ k. count k s.held) (sym same) ∙ nobody in
          ap (λ (x : Inode). x.ref) eq ∙ ground arith
      go (q, there, inr (ne, eq)) =
          let old : q.ref ≡ count j s.held = v.counted j q there in
          ap (λ (x : Inode). x.ref) eq ∙ ground arith

  other_inode :
      (q : Inode) → is_inode dev inum q ≡ false → 0 < q.ref → dev ≡ q.dev → inum ≡ q.inum → ⊥
  other_inode q miss up d n = ground arith

  assign-IsShared :
      IsShared (record { cache = modify s.cache i (assign dev inum); held = i ∷ s.held })
  assign-IsShared = record {
    counted = assign-counted;
    single = λ a b p q at at' up up' d n.
        go a b p q up up' d n (modify-slot s.cache i a (assign dev inum) p at)
          (modify-slot s.cache i b (assign dev inum) q at');
  }
    where
      go :
          (a b : ℕ) (p q : Inode)
          → 0 < p.ref
          → 0 < q.ref
          → p.dev ≡ q.dev
          → p.inum ≡ q.inum
          → (p0 : Inode) × (get_elem? s.cache a ≡ some p0)
            × (((i ≡ a) × (p ≡ assign dev inum p0)) ⊎ ((i ≢ a) × (p ≡ p0)))
          → (q0 : Inode) × (get_elem? s.cache b ≡ some q0)
            × (((i ≡ b) × (q ≡ assign dev inum q0)) ⊎ ((i ≢ b) × (q ≡ q0)))
          → a ≡ b
      go a b p q up up' d n (p0, p_at, inl (ea, pe)) (q0, q_at, inl (eb, qe)) = sym ea ∙ eb
      go a b p q up up' d n (p0, p_at, inl (ea, pe)) (q0, q_at, inr (nb, qe)) = absurd (
          other_inode q (absent b q (q_at ∙ ap (λ x. some x) (sym qe))) up'
            (sym (ap (λ (x : Inode). x.dev) pe) ∙ d) (sym (ap (λ (x : Inode). x.inum) pe) ∙ n))
      go a b p q up up' d n (p0, p_at, inr (na, pe)) (q0, q_at, inl (eb, qe)) = absurd (
          other_inode p (absent a p (p_at ∙ ap (λ x. some x) (sym pe))) up
            (sym (ap (λ (x : Inode). x.dev) qe) ∙ sym d)
            (sym (ap (λ (x : Inode). x.inum) qe) ∙ sym n))
      go a b p q up up' d n (p0, p_at, inr (na, pe)) (q0, q_at, inr (nb, qe)) =
          v.single a b p q (p_at ∙ ap (λ x. some x) (sym pe)) (q_at ∙ ap (λ x. some x) (sym qe)) up
            up' d n

iget-IsShared :
    (dev inum i : ℕ) (c : Icache) (s : Holders)
    → IsShared s
    → iget dev inum s.cache ≡ some (i, c)
    → IsShared (record { cache = c; held = i ∷ s.held })
unfolding iget
iget-IsShared dev inum i c s v run = elim (Option-cases (find_index (is_inode dev inum) s.cache)) [
  | inr (k, got) ↦
      let slot : k ≡ i = cc (rw (got, iget) at run) in
      let same : modify s.cache k add_ref ≡ c = cc (rw (got, iget) at run) in
      let (p, at, hit) = find_index-some (is_inode dev inum) s.cache k got in
      rw (sym slot, sym same)
        (add-IsShared s k v
          λ q there. let one : p ≡ q = cc (at, there) in rw (sym one) (ground arith))
  | inl miss ↦ elim (Option-cases (find_index is_empty_slot s.cache)) [
    | inl full ↦ absurd (cc (rw (miss, full, iget) at run))
    | inr (k, got) ↦
        let slot : k ≡ i = cc (rw (miss, got, iget) at run) in
        let same : modify s.cache k (assign dev inum) ≡ c = cc (rw (miss, got, iget) at run) in
        let (p, at, hit) = find_index-some is_empty_slot s.cache k got in
        rw (sym slot, sym same)
          (assign-IsShared dev inum s v k p at (ground arith)
            (λ j q there. find_index-none (is_inode dev inum) s.cache j q miss there))
  ]
]

module _ {S : Type 0} (itrunc iupdate : Inode → S → S) where
  iput_drop-IsShared :
      (s : Holders) (i : ℕ) (disk : S)
      → IsShared s
      → 1 ≤ count i s.held
      → IsShared (record { cache = (iput_drop itrunc iupdate i s.cache disk).0; held = s.held })
  unfolding iput_drop
  iput_drop-IsShared s i disk v h = elim (Option-cases (get_elem? s.cache i)) [
    | inr (p, at) ↦
        rw (at, iput_drop)
          (change-IsShared s i drop_inode v h (λ p. (drop_inode-kept p).0)
            (λ p. (drop_inode-kept p).1) (λ p. (drop_inode-kept p).2))
    | inl out ↦ rw (out, iput_drop) v
  ]

  Reach-IsShared : {s t : Holders} → IsShared s → Reach itrunc iupdate s t → IsShared t
  unfolding idup iput_ref
  Reach-IsShared v here = v
  Reach-IsShared v (next {t = w} r (gets dev inum i c run to)) =
      rw to (iget-IsShared dev inum i c w (Reach-IsShared v r) run)
  Reach-IsShared v (next {t = w} r (dups i h to)) =
      let old = Reach-IsShared v r in
      rw to (add-IsShared w i old (λ p at. omega (arith, old.counted i p at, h)))
  Reach-IsShared v (next {t = w} r (loads i type nlink h to)) = rw to (
      change-IsShared w i (λ ip. record ip { valid = true; type = type; nlink = nlink })
        (Reach-IsShared v r) h (λ p. refl) (λ p. refl) (λ p. refl))
  Reach-IsShared v (next {t = w} r (drops i disk h to)) =
      rw to (iput_drop-IsShared w i disk (Reach-IsShared v r) h)
  Reach-IsShared v (next {t = w} r (puts i h to)) = rw to (put-IsShared w i (Reach-IsShared v r) h)

abbrev pub ninode : ℕ
ninode = 50

abbrev pub blank_inode : Inode
blank_inode = record { dev = 0; inum = 0; ref = 0; valid = false; type = 0; nlink = 0 }

-- The cache at boot.
abbrev pub no_inodes : Holders
no_inodes = record { cache = replicate ninode blank_inode; held = [] }

no_inodes-IsShared : IsShared no_inodes
no_inodes-IsShared = record {
  counted = λ i p at. ap (λ (x : Inode). x.ref) (get_elem?-replicate ninode blank_inode i at);
  single = λ i j p q at at' up up' d n.
      let zero_ref : p.ref ≡ 0 =
        ap (λ (x : Inode). x.ref) (get_elem?-replicate ninode blank_inode i at) in
      absurd (omega arith);
}

-- What the first part of `iput` does for the inode `p`, to which there are `n` references: it frees the
-- inode on the disk, or leaves the disk as it is.
abbrev pub DropPost :
    {S : Type 0} (itrunc iupdate : Inode → S → S) → (i n : ℕ) → Inode → S → Icache × S → Type 0
DropPost itrunc iupdate i n p disk (c, disk') =
    ((n ≡ 1)
      × (p.valid ≡ true)
      × (p.nlink ≡ 0)
      × (disk' ≡ iupdate (record p { type = 0 }) (itrunc p disk))
      × (get_elem? c i ≡ some (record p { type = 0; valid = false })))
    ⊎ (((n ≢ 1) ⊎ (p.valid ≡ false) ⊎ (p.nlink ≢ 0)) × (disk' ≡ disk) × (get_elem? c i ≡ some p))

kept_why :
    (p : Inode) (n : ℕ)
    → p.ref ≡ n
    → is_dropped p ≡ false
    → (n ≢ 1) ⊎ (p.valid ≡ false) ⊎ (p.nlink ≢ 0)
kept_why p n refs kept = ground arith

iput_drop-DropPost :
    {S : Type 0} (itrunc iupdate : Inode → S → S) (i n : ℕ) (p : Inode) (c : Icache) (disk : S)
    → get_elem? c i ≡ some p
    → p.ref ≡ n
    → DropPost itrunc iupdate i n p disk (iput_drop itrunc iupdate i c disk)
unfolding iput_drop
iput_drop-DropPost itrunc iupdate i n p c disk at refs =
    let there : get_elem? (modify c i drop_inode) i ≡ some (drop_inode p) =
      ground (arith, get_elem?-modify c i i drop_inode) in
    elim (Bool-cases (is_dropped p)) [
      | inl dropped ↦
          let now : drop_inode p ≡ record p { type = 0; valid = false } = rw dropped refl in
          rw (at, iput_drop)
            (inl (
              ground arith,
              ground arith,
              ground arith,
              take_then (is_dropped p) _ _ dropped,
              there ∙ ap (λ x. some x) now,
            ))
      | inr kept ↦
          let now : drop_inode p ≡ p = rw kept refl in
          rw (at, iput_drop)
            (inr (
              kept_why p n refs kept,
              take_else (is_dropped p) _ _ kept,
              there ∙ ap (λ x. some x) now,
            ))
    ]

-- In every state of the inode cache that is reached from boot by `iget`, by `idup` and the two parts of
-- `iput` on references that are held, in any order, and by changes of the inodes that are held: the count
-- of an inode is the number of references to it, all who hold a reference to the same inode hold the
-- same slot, and an `iput` frees the inode on the disk exactly where the reference is the only one, the
-- inode has been read and it has no links.
pub Reach-slot :
    {S : Type 0} (itrunc iupdate : Inode → S → S) (i j : ℕ) (p q : Inode) (disk : S) {t : Holders}
    → Reach itrunc iupdate no_inodes t
    → get_elem? t.cache i ≡ some p
    → get_elem? t.cache j ≡ some q
    → 1 ≤ count i t.held
    → 1 ≤ count j t.held
    → p.dev ≡ q.dev
    → p.inum ≡ q.inum
    → (p.ref ≡ count i t.held)
      × (i ≡ j)
      × DropPost itrunc iupdate i (count i t.held) p disk (iput_drop itrunc iupdate i t.cache disk)
Reach-slot itrunc iupdate i j p q disk {t} reach at at' h h' d n =
    let v = Reach-IsShared itrunc iupdate no_inodes-IsShared reach in
    let here_count = v.counted i p at in
    let there_count = v.counted j q at' in
    (
      here_count,
      v.single i j p q at at' (omega arith) (omega arith) d n,
      iput_drop-DropPost itrunc iupdate i (count i t.held) p t.cache disk at here_count,
    )
