-- ===== src/Grep/Spec.antt =====
-- What an expression of grep.c means, as a relation.
use cserl_bootcamp.Common.{ℕ, ◌≡◌, ◌≢◌, true, List, [], ◌∷◌, ◌++◌}
use cserl_bootcamp.Grep.{fits}

abbrev pub AllFit : ℕ → List ℕ → Type 0
AllFit c [] = Unit {0}
AllFit c (t ∷ ts) = (fits c t ≡ true) × AllFit c ts

-- The expression matches some beginning of the text.
pub data Here : List ℕ → List ℕ → Type 0 where
  done : {text : List ℕ} → Here [] text
  at_end : {c : ℕ} → c ≡ b'$' → Here (c ∷ []) []
  last : {c t : ℕ} {ts : List ℕ} → c ≢ b'$' → fits c t ≡ true → Here (c ∷ []) (t ∷ ts)
  one :
      {c d t : ℕ} {re ts : List ℕ}
      → d ≢ b'*'
      → fits c t ≡ true
      → Here (d ∷ re) ts
      → Here (c ∷ d ∷ re) (t ∷ ts)
  star :
      {c d : ℕ} {re text : List ℕ} (front rest : List ℕ)
      → d ≡ b'*'
      → text ≡ front ++ rest
      → AllFit c front
      → Here re rest
      → Here (c ∷ d ∷ re) text

-- Unanchored, it matches at the beginning of some end of the text.
pub data Somewhere (re : List ℕ) (text : List ℕ) : Type 0 where
  found : (front rest : List ℕ) → text ≡ front ++ rest → Here re rest → Somewhere re text

pub data Matches : List ℕ → List ℕ → Type 0 where
  anchored : {c : ℕ} {re text : List ℕ} → c ≡ b'^' → Here re text → Matches (c ∷ re) text
  empty : {text : List ℕ} → Matches [] text
  floating : {c : ℕ} {re text : List ℕ} → c ≢ b'^' → Somewhere (c ∷ re) text → Matches (c ∷ re) text
