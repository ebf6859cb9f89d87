-- ===== src/Grep/Examples.antt =====
-- The matcher of grep.c at an expression and a text.
use cserl_bootcamp.Common.{ℕ, ◌≡◌, ◌↔◌, refl, true, false, List, [], ◌∷◌}
use cserl_bootcamp.Grep.{match}
use cserl_bootcamp.Grep.Spec.{Matches}
use cserl_bootcamp.Grep.Matcher.{match_iff}

-- `a.*d$` in `xabcd`
abbrev pattern_ad : List ℕ
pattern_ad = b'a' ∷ b'.' ∷ b'*' ∷ b'd' ∷ b'$' ∷ []

abbrev line : List ℕ
line = b'x' ∷ b'a' ∷ b'b' ∷ b'c' ∷ b'd' ∷ []

match_line : match pattern_ad line ≡ true
unfolding match
match_line = refl

match_anchored : match (b'^' ∷ pattern_ad) line ≡ false
unfolding match
match_anchored = refl

match_iff_example : (match pattern_ad line ≡ true) ↔ Matches pattern_ad line
match_iff_example = match_iff pattern_ad line
