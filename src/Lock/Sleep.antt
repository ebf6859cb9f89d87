-- ===== src/Lock/Sleep.antt =====
-- Sleep locks.
use cserl_bootcamp.Common.{
  ℕ, ◌≡◌, ◌≢◌, refl, sym, true, false, some, none, Bool-cases, inl, inr, arith,
}
use cserl_bootcamp.Lock.{Sleeplock, acquiresleep, releasesleep, holdingsleep}

-- A process that `acquiresleep` lets through holds the lock, and no other does: every further call of
-- `acquiresleep` sleeps until `releasesleep`, after which the next one goes through and holds it.
pub acquiresleep-holding :
    (me : ℕ) (lk lk' : Sleeplock)
    → acquiresleep me lk ≡ some lk'
    → (holdingsleep me lk' ≡ true)
      × ((other : ℕ) → acquiresleep other lk' ≡ none)
      × ((other : ℕ) → other ≢ me → holdingsleep other lk' ≡ false)
      × ((other : ℕ)
          → (next : Sleeplock) × (acquiresleep other (releasesleep lk') ≡ some next)
            × (holdingsleep other next ≡ true))
unfolding acquiresleep releasesleep
acquiresleep-holding me lk lk' run = elim (Bool-cases lk.locked) [
  | inl taken ↦ absurd (cc (rw taken at run))
  | inr free ↦
      let got : record { locked = true; pid = me } ≡ lk' = cc (rw free at run) in
      rw (sym got) (
        ground arith,
        (λ other. refl),
        (λ other ne. ground arith),
        λ other. (record { locked = true; pid = other }, refl, ground arith),
      )
]
