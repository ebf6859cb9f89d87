-- ===== src/Fs/Balloc/Free.antt =====
-- `balloc`, then `bfree`.
use cserl_bootcamp.Common.{
  ℕ, zero, suc, ◌<◌, ◌≡◌, ◌≢◌, refl, sym, ap, ◌∙◌, Bool, true, false, not, Option, none, some, List,
  [], ◌∷◌, ◌==◌, if◌then◌else◌, get_elem?, find_index, find_index-some, find_index-least,
  find_index-none, set, replicate, Option-cases, inl, inr, arith,
}
use cserl_bootcamp.Fs.Balloc.{bsize, Store, bzero, balloc, bfree}

set_back :
    (bits : List Bool) (b : ℕ)
    → get_elem? bits b ≡ some false
    → set (set bits b true) b false ≡ bits
set_back [] b e = absurd (cc e)
set_back (x ∷ xs) zero e = let same : x ≡ false = cc e in ap (λ y. y ∷ xs) (sym same)
set_back (x ∷ xs) (suc b) e = ap (λ ys. x ∷ ys) (set_back xs b e)

set_here :
    (bits : List Bool) (b : ℕ) (x : Bool)
    → get_elem? bits b ≡ some x
    → get_elem? (set bits b true) b ≡ some true
set_here [] b x e = absurd (cc e)
set_here (y ∷ ys) zero x e = refl
set_here (y ∷ ys) (suc b) x e = set_here ys b x e

module _ (beyond : ℕ → Store → Option Store) where
  -- What `balloc` does: it hands out the first free block, marks it, clears it and touches no other; or
  -- panics where every block is in use.
  abbrev pub AllocPost : Store → Option (ℕ × Store) → Type 0
  AllocPost s none = (b : ℕ) (used : Bool) → get_elem? s.bits b ≡ some used → used ≡ true
  AllocPost s (some (b, t)) =
      (get_elem? s.bits b ≡ some false)
      × ((a : ℕ) (used : Bool) → a < b → get_elem? s.bits a ≡ some used → used ≡ true)
      × (t.blocks b ≡ replicate bsize 0)
      × ((a : ℕ) → a ≢ b → t.blocks a ≡ s.blocks a)
      × ((u : Store) × (bfree beyond b t ≡ some u) × (u.bits ≡ s.bits))

  -- `balloc` hands out the first free block, filled with zeros, and changes no other block; it panics only
  -- where no block is free. `bfree` takes the block back without a panic, and the bitmap is then what it
  -- was before.
  pub balloc-AllocPost : (s : Store) → AllocPost s (balloc s)
  unfolding balloc bzero bfree
  balloc-AllocPost s = elim (Option-cases (find_index not s.bits)) [
    | inl full ↦
        rw (full, balloc) (λ b used at. not_false used (find_index-none not s.bits b used full at))
    | inr (b, got) ↦
        let (x, at, free) = find_index-some not s.bits b got in
        let is_free : x ≡ false = ground arith in
        let at_free : get_elem? s.bits b ≡ some false = at ∙ ap (λ y. some y) is_free in
        let marked = set_here s.bits b x at in
        rw (got, balloc)
          (
            at_free,
            (λ a used lt there. not_false used (find_index-least not s.bits b a used got lt there)),
            ground arith,
            (λ a ne. ground arith),
            (
              record s {
                bits = set (set s.bits b true) b false;
                blocks = λ a. if a == b then replicate bsize 0 else s.blocks a;
              },
              rw (marked, bfree) refl,
              set_back s.bits b at_free,
            ),
          )
  ]
    where
      not_false : (used : Bool) → not used ≡ false → used ≡ true
      not_false true e = refl
      not_false false e = cc e
