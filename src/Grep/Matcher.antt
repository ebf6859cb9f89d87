-- ===== src/Grep/Matcher.antt =====
-- The matcher of grep.c decides the relation.
use cserl_bootcamp.Common.{
  ℕ, ◌≡◌, ◌↔◌, refl, ap, Bool, true, List, [], ◌∷◌, ◌++◌, ◌==◌, Bool-cases, inl, inr, arith,
}
use cserl_bootcamp.Grep.{fits, matchstar, matchhere, match_from, match}
use cserl_bootcamp.Grep.Spec.{
  AllFit, Here, done, at_end, last, one, star, Somewhere, found, Matches, anchored, empty, floating,
}

module _ (here : List ℕ → Bool) (c : ℕ) where
  -- What `matchstar` finds: a run of characters that fit, and a match after it.
  record Run (text : List ℕ) : Type 0 where
    front : List ℕ
    rest : List ℕ
    split : text ≡ front ++ rest
    fit : AllFit c front
    holds : here rest ≡ true

  matchstar-sound : (text : List ℕ) → matchstar here c text ≡ true → Run text
  unfolding matchstar
  matchstar-sound [] e = record { front = []; rest = []; split = refl; fit = tt; holds = e }
  matchstar-sound (t ∷ ts) e = elim (Bool-cases (here (t ∷ ts))) [
    | inl now ↦ record { front = []; rest = t ∷ ts; split = refl; fit = tt; holds = now }
    | inr later ↦
        let ok : fits c t ≡ true = ground arith in
        let r = matchstar-sound ts (ground arith) in
        record {
          front = t ∷ r.front;
          rest = r.rest;
          split = ap (λ xs. t ∷ xs) r.split;
          fit = (ok, r.fit);
          holds = r.holds;
        }
  ]

  matchstar_complete :
      (front rest : List ℕ)
      → AllFit c front
      → here rest ≡ true
      → matchstar here c (front ++ rest) ≡ true
  unfolding matchstar
  matchstar_complete [] [] fit h = h
  matchstar_complete [] (t ∷ ts) fit h = ground arith
  matchstar_complete (t ∷ front) rest fit h = ground (arith, matchstar_complete front rest)

matchhere_sound : (re text : List ℕ) → matchhere re text ≡ true → Here re text
unfolding matchhere
matchhere_sound [] text e = done
matchhere_sound (c ∷ []) [] e = at_end (ground arith)
matchhere_sound (c ∷ []) (t ∷ ts) e = last (ground arith) (ground arith)
matchhere_sound (c ∷ d ∷ re) [] e =
    let is : d ≡ b'*' = ground arith in
    let r = matchstar-sound (matchhere re) c [] (ground arith) in
    star r.front r.rest is r.split r.fit (matchhere_sound re r.rest r.holds)
matchhere_sound (c ∷ d ∷ re) (t ∷ ts) e = elim (Bool-cases (d == b'*')) [
  | inl is ↦
      let r = matchstar-sound (matchhere re) c (t ∷ ts) (ground arith) in
      star r.front r.rest (ground arith) r.split r.fit (matchhere_sound re r.rest r.holds)
  | inr plain ↦ one (ground arith) (ground arith) (matchhere_sound (d ∷ re) ts (ground arith))
]

matchhere-star :
    (c d : ℕ) (re text : List ℕ)
    → d ≡ b'*'
    → matchstar (matchhere re) c text ≡ true
    → matchhere (c ∷ d ∷ re) text ≡ true
unfolding matchhere
matchhere-star c d re [] is e = ground arith
matchhere-star c d re (t ∷ ts) is e = ground arith

matchhere_complete : {re text : List ℕ} → Here re text → matchhere re text ≡ true
unfolding matchhere
matchhere_complete done = refl
matchhere_complete (at_end e) = ground arith
matchhere_complete (last ne fit) = ground arith
matchhere_complete (one {c} {d} {t} {re} {ts} ne fit h) = ground (arith, matchhere_complete h)
matchhere_complete (star {c} {d} {re} {text} front rest is split fit h) =
    matchhere-star c d re text is
      (rw split (matchstar_complete (matchhere re) c front rest fit (matchhere_complete h)))

match_from_sound : (re text : List ℕ) → match_from re text ≡ true → Somewhere re text
unfolding match_from
match_from_sound re [] e = found [] [] refl (matchhere_sound re [] e)
match_from_sound re (t ∷ ts) e = elim (Bool-cases (matchhere re (t ∷ ts))) [
  | inl now ↦ found [] (t ∷ ts) refl (matchhere_sound re (t ∷ ts) now)
  | inr later ↦ elim (match_from_sound re ts (rw later at e)) [
    | found front rest split h ↦ found (t ∷ front) rest (ap (λ xs. t ∷ xs) split) h
  ]
]

match_from_complete :
    (re front rest : List ℕ) → matchhere re rest ≡ true → match_from re (front ++ rest) ≡ true
unfolding match_from
match_from_complete re [] [] h = h
match_from_complete re [] (t ∷ ts) h = rw h refl
match_from_complete re (t ∷ front) rest h = ground (arith, match_from_complete re front rest)

match_from-nil : (text : List ℕ) → match_from [] text ≡ true
unfolding match_from matchhere
match_from-nil [] = refl
match_from-nil (t ∷ ts) = refl

match_sound : (re text : List ℕ) → match re text ≡ true → Matches re text
unfolding match
match_sound [] text e = empty
match_sound (c ∷ re) text e = elim (Bool-cases (c == b'^')) [
  | inl is ↦ anchored (ground arith) (matchhere_sound re text (rw is at e))
  | inr plain ↦ floating (ground arith) (match_from_sound (c ∷ re) text (rw plain at e))
]

Somewhere-match_from : {re text : List ℕ} → Somewhere re text → match_from re text ≡ true
Somewhere-match_from {re} (found front rest split h) =
    rw split (match_from_complete re front rest (matchhere_complete h))

match_complete : {re text : List ℕ} → Matches re text → match re text ≡ true
unfolding match
match_complete (anchored is h) = ground (arith, matchhere_complete h)
match_complete (empty {text}) = match_from-nil text
match_complete (floating plain h) = ground (arith, Somewhere-match_from h)

-- `match` returns 1 exactly when the expression matches: at the beginning of the text after a `^`,
-- and anywhere otherwise, where `.` fits any character, `c*` any run of characters that fit `c`,
-- and a final `$` the end of the text.
pub match_iff : (re text : List ℕ) → (match re text ≡ true) ↔ Matches re text
match_iff re text = (match_sound re text, match_complete)
