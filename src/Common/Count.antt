-- ===== src/Common/Count.antt =====
-- How often a number stands in a list.
use Prim.Native.Nat.{ℕ, ◌+◌, ◌≤◌}
use mathlib.Core.Path.{◌≡◌}
use mathlib.Core.Bool.{Bool}
use mathlib.Core.List.{List, [], ◌∷◌}
use native.Mathlib.Omega.{arith}
use cserl_bootcamp.Common.Tests.{◌==◌, if◌then◌else◌}

abbrev pub bit : Bool → ℕ
bit b = if b then 1 else 0

abbrev pub count : ℕ → List ℕ → ℕ
count a [] = 0
count a (b ∷ bs) = bit (a == b) + count a bs

-- The list without the first `a`.
abbrev pub drop_one : ℕ → List ℕ → List ℕ
drop_one a [] = []
drop_one a (b ∷ bs) = if a == b then bs else b ∷ drop_one a bs

pub drop_one-count :
    (a v : ℕ) (bs : List ℕ) → 1 ≤ count v bs → bit (a == v) + count a (drop_one v bs) ≡ count a bs
drop_one-count a v [] h = absurd (omega arith)
drop_one-count a v (b ∷ bs) h = ground (arith, drop_one-count a v bs)
