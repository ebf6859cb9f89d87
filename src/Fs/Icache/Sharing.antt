-- ===== src/Fs/Icache/Sharing.antt =====
-- Who holds which inode.
use cserl_bootcamp.Common.{
  true, ℕ, ◌≤◌, ◌<◌, ◌≡◌, ◌≢◌, ◌⊎◌, sym, ap, ◌∙◌, some, List, ◌∷◌, ◌==◌, get_elem?, modify,
  get_elem?-modify, count, drop_one, Bool-cases, Option-cases, inl, inr, arith,
}
use cserl_bootcamp.Fs.Icache.{Inode, Icache, iget, idup, iput_drop, iput_ref}

-- The cache, and the references in use, each the index of its slot.
pub record Holders : Type 0 where
  pub cache : Icache
  pub held : List ℕ

module _ {S : Type 0} (itrunc iupdate : Inode → S → S) where
  -- A process gets a reference to an inode, or duplicates one that is held. Who holds one may read the
  -- inode from the disk, as `ilock` does, and change its type and its links; and gives it up in the two
  -- parts of `iput`, between which others may go on.
  pub data Step (s t : Holders) : Type 0 where
    gets :
        (dev inum i : ℕ) (c : Icache)
        → iget dev inum s.cache ≡ some (i, c)
        → t ≡ record { cache = c; held = i ∷ s.held }
        → Step s t
    dups :
        (i : ℕ)
        → 1 ≤ count i s.held
        → t ≡ record { cache = idup i s.cache; held = i ∷ s.held }
        → Step s t
    loads :
        (i type nlink : ℕ)
        → 1 ≤ count i s.held
        → t ≡ record {
          cache = modify s.cache i (λ ip. record ip { valid = true; type = type; nlink = nlink });
          held = s.held;
        }
        → Step s t
    drops :
        (i : ℕ) (disk : S)
        → 1 ≤ count i s.held
        → t ≡ record { cache = (iput_drop itrunc iupdate i s.cache disk).0; held = s.held }
        → Step s t
    puts :
        (i : ℕ)
        → 1 ≤ count i s.held
        → t ≡ record { cache = iput_ref i s.cache; held = drop_one i s.held }
        → Step s t

  pub data Reach (s : Holders) : Holders → Type 0 where
    here : Reach s s
    next : {t u : Holders} → Reach s t → Step t u → Reach s u

-- The counts are right, and no inode in use is in two slots.
pub record IsShared (s : Holders) : Type 0 where
  pub counted : (i : ℕ) (p : Inode) → get_elem? s.cache i ≡ some p → p.ref ≡ count i s.held
  pub single :
      (i j : ℕ) (p q : Inode)
      → get_elem? s.cache i ≡ some p
      → get_elem? s.cache j ≡ some q
      → 0 < p.ref
      → 0 < q.ref
      → p.dev ≡ q.dev
      → p.inum ≡ q.inum
      → i ≡ j

pub modify-slot :
    (c : Icache) (i j : ℕ) (h : Inode → Inode) (p : Inode)
    → get_elem? (modify c i h) j ≡ some p
    → (q : Inode) × (get_elem? c j ≡ some q) × (((i ≡ j) × (p ≡ h q)) ⊎ ((i ≢ j) × (p ≡ q)))
modify-slot c i j h p at = elim (Option-cases (get_elem? c j)) [
  | inl out ↦ absurd (ground (arith, get_elem?-modify c i j h))
  | inr (q, there) ↦ (
    q,
    there,
    elim (Bool-cases (i == j)) [
      | inl same ↦ inl (ground arith, ground (arith, get_elem?-modify c i j h))
      | inr other ↦ inr ((λ e. ground arith), ground (arith, get_elem?-modify c i j h))
    ],
  )
]

-- A change of one slot that keeps its inode.
module _ (s : Holders) (v : IsShared s) (i : ℕ) (h : Inode → Inode) (held' : List ℕ)
    (same_dev : (p : Inode) → (h p).dev ≡ p.dev) (same_inum : (p : Inode) → (h p).inum ≡ p.inum)
    (in_use : (p : Inode) → get_elem? s.cache i ≡ some p → 0 < p.ref)
    (count_here : (p : Inode) → get_elem? s.cache i ≡ some p → (h p).ref ≡ count i held')
    (count_other : (j : ℕ) → i ≢ j → count j held' ≡ count j s.held) where
  keep-counted :
      (j : ℕ) (p : Inode) → get_elem? (modify s.cache i h) j ≡ some p → p.ref ≡ count j held'
  keep-counted j p at = go (modify-slot s.cache i j h p at)
    where
      go :
          (q : Inode) × (get_elem? s.cache j ≡ some q)
            × (((i ≡ j) × (p ≡ h q)) ⊎ ((i ≢ j) × (p ≡ q)))
          → p.ref ≡ count j held'
      go (q, there, inl (e, eq)) =
          ap (λ (x : Inode). x.ref) eq
          ∙ count_here q (ap (λ k. get_elem? s.cache k) e ∙ there)
          ∙ ap (λ k. count k held') e
      go (q, there, inr (ne, eq)) =
          ap (λ (x : Inode). x.ref) eq ∙ v.counted j q there ∙ sym (count_other j ne)

  -- The slot before the change, which was in use.
  before :
      (j : ℕ) (p : Inode)
      → get_elem? (modify s.cache i h) j ≡ some p
      → 0 < p.ref
      → (q : Inode) × (get_elem? s.cache j ≡ some q)
        × (0 < q.ref)
        × (p.dev ≡ q.dev)
        × (p.inum ≡ q.inum)
  before j p at up = go (modify-slot s.cache i j h p at)
    where
      go :
          (q : Inode) × (get_elem? s.cache j ≡ some q)
            × (((i ≡ j) × (p ≡ h q)) ⊎ ((i ≢ j) × (p ≡ q)))
          → (q : Inode) × (get_elem? s.cache j ≡ some q)
            × (0 < q.ref)
            × (p.dev ≡ q.dev)
            × (p.inum ≡ q.inum)
      go (q, there, inl (e, eq)) = (
        q,
        there,
        in_use q (ap (λ k. get_elem? s.cache k) e ∙ there),
        ap (λ (x : Inode). x.dev) eq ∙ same_dev q,
        ap (λ (x : Inode). x.inum) eq ∙ same_inum q,
      )
      go (q, there, inr (ne, eq)) =
          (q, there, rw eq at up, ap (λ (x : Inode). x.dev) eq, ap (λ (x : Inode). x.inum) eq)

  pub keep-IsShared : IsShared (record { cache = modify s.cache i h; held = held' })
  keep-IsShared = record {
    counted = keep-counted;
    single = λ a b p q at at' up up' d n.
        let (p0, p_at, p_up, p_dev, p_inum) = before a p at up in
        let (q0, q_at, q_up, q_dev, q_inum) = before b q at' up' in
        v.single a b p0 q0 p_at q_at p_up q_up (sym p_dev ∙ d ∙ q_dev) (sym p_inum ∙ n ∙ q_inum);
  }
