-- ===== src/Grep.antt =====
-- The regular expression matcher of xv6-public/grep.c: `match`, `matchhere` and `matchstar`. A C
-- string is the list of its characters, without the final NUL.
pub mod Spec
pub mod Matcher
mod Examples
use cserl_bootcamp.Common.{ℕ, Bool, true, false, ◌&&◌, ◌||◌, List, [], ◌∷◌, ◌==◌, if◌then◌else◌}

-- A character of the text against one of the expression.
abbrev pub fits : ℕ → ℕ → Bool
fits c t = c == b'.' || c == t

abbrev pub is_empty : List ℕ → Bool
is_empty [] = true
is_empty (t ∷ ts) = false

-- `matchstar(c, re, text)`; `here` is `matchhere` at `re`.
unfoldable pub matchstar : (List ℕ → Bool) → ℕ → List ℕ → Bool
matchstar here c [] = here []
matchstar here c (t ∷ ts) =
    let rest = matchstar here c ts in
    if here (t ∷ ts) then true else if t == c || c == b'.' then rest else false

-- `matchhere(re, text)`
unfoldable pub matchhere : List ℕ → List ℕ → Bool
unfolding matchstar
matchhere [] text = true
matchhere (c ∷ []) [] = c == b'$'
matchhere (c ∷ []) (t ∷ ts) = if c == b'$' then false else fits c t
matchhere (c ∷ d ∷ re) [] = if d == b'*' then matchstar (matchhere re) c [] else false
matchhere (c ∷ d ∷ re) (t ∷ ts) =
    let star = matchstar (matchhere re) c (t ∷ ts) in
    let next = matchhere (d ∷ re) ts in if d == b'*' then star else if fits c t then next else false

-- The `do … while` of `match`.
unfoldable pub match_from : List ℕ → List ℕ → Bool
unfolding matchhere
match_from re [] = matchhere re []
match_from re (t ∷ ts) = let rest = match_from re ts in if matchhere re (t ∷ ts) then true else rest

-- `match(re, text)`
unfoldable pub match : List ℕ → List ℕ → Bool
unfolding match_from
match [] text = match_from [] text
match (c ∷ re) text = if c == b'^' then matchhere re text else match_from (c ∷ re) text
