-- ===== src/Common/Int.antt =====
-- The integers that a C function returns, over the native numbers.
use Prim.Native.Nat.{ℕ, ◌-◌}
use cserl_bootcamp.Common.Tests.{leb, if◌then◌else◌}

pub data ℤ : Type 0 where
  pos : ℕ → ℤ
  negsuc : ℕ → ℤ

infix 50 ◌⊖◌
abbrev pub ◌⊖◌ : ℕ → ℕ → ℤ
a ⊖ b = if leb b a then pos (a - b) else negsuc (b - a - 1)
