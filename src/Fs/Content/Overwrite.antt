-- ===== src/Fs/Content/Overwrite.antt =====
-- The bytes of a block that is written over in part.
use cserl_bootcamp.Common.{
  take_then, take_else, get_or-drop, ℕ, zero, suc, ◌+◌, ◌-◌, ◌≤◌, ◌<◌, ◌≡◌, refl, sym, ap, ◌∙◌,
  true, false, ◌&&◌, List, [], ◌∷◌, ◌++◌, ltb, leb, ltb→lt, if◌then◌else◌, length, take, drop,
  get_or, length-append, length-take, length-drop, inl, inr, Bool-cases, arith,
}
use cserl_bootcamp.Fs.Content.{overwrite}

pub get_or-take : (l : List ℕ) (n j : ℕ) → j < n → get_or (take n l) j 0 ≡ get_or l j 0
get_or-take l zero j lt = absurd (omega arith)
get_or-take [] (suc n) j lt = refl
get_or-take (x ∷ l) (suc n) zero lt = refl
get_or-take (x ∷ l) (suc n) (suc j) lt = get_or-take l n j (omega arith)

get_or-append_left :
    (xs ys : List ℕ) (j : ℕ) → j < length xs → get_or (xs ++ ys) j 0 ≡ get_or xs j 0
get_or-append_left [] ys j lt = absurd (omega arith)
get_or-append_left (x ∷ xs) ys zero lt = refl
get_or-append_left (x ∷ xs) ys (suc j) lt = get_or-append_left xs ys j (omega arith)

get_or-append_right : (xs ys : List ℕ) (j : ℕ) → get_or (xs ++ ys) (length xs + j) 0 ≡ get_or ys j 0
get_or-append_right [] ys j = ap (λ i. get_or ys i 0) (omega arith)
get_or-append_right (x ∷ xs) ys j =
    let up : suc (length xs) + j ≡ suc (length xs + j) = omega arith in
    ap (λ i. get_or (x ∷ (xs ++ ys)) i 0) up ∙ get_or-append_right xs ys j

module _ (o : ℕ) (s l : List ℕ) (fits : o + length s ≤ length l) where
  head_length : length (take o l) ≡ o
  head_length = omega (arith, length-take o l)

  pub length-overwrite : length (overwrite o s l) ≡ length l
  length-overwrite =
      let all = length-append (take o l) (s ++ drop (o + length s) l) in
      let end = length-append s (drop (o + length s) l) in
      let rest = length-drop (o + length s) l in let first = head_length in omega arith

  -- Past the part before `o`.
  later : (j : ℕ) → get_or (overwrite o s l) (o + j) 0 ≡ get_or (s ++ drop (o + length s) l) j 0
  later j =
      ap (λ n. get_or (overwrite o s l) (n + j) 0) (sym head_length)
      ∙ get_or-append_right (take o l) (s ++ drop (o + length s) l) j

  overwrite_before : (j : ℕ) → j < o → get_or (overwrite o s l) j 0 ≡ get_or l j 0
  overwrite_before j lt =
      let first = head_length in
      get_or-append_left (take o l) (s ++ drop (o + length s) l) j (omega arith)
      ∙ get_or-take l o j lt

  overwrite_inside : (j : ℕ) → j < length s → get_or (overwrite o s l) (o + j) 0 ≡ get_or s j 0
  overwrite_inside j lt = later j ∙ get_or-append_left s (drop (o + length s) l) j lt

  overwrite_after :
      (j : ℕ) → get_or (overwrite o s l) (o + (length s + j)) 0 ≡ get_or l (o + (length s + j)) 0
  overwrite_after j =
      let back : o + length s + j ≡ o + (length s + j) = omega arith in
      later (length s + j)
      ∙ get_or-append_right s (drop (o + length s) l) j
      ∙ get_or-drop l (o + length s) j 0
      ∙ ap (λ i. get_or l i 0) back

  pub get_or-overwrite :
      (j : ℕ)
      → get_or (overwrite o s l) j 0
        ≡ (if leb o j && ltb j (o + length s) then get_or s (j - o) 0 else get_or l j 0)
  get_or-overwrite j = elim (Bool-cases (ltb j o)) [
    | inl before ↦
        let lt = ltb→lt j o before in
        let out : (leb o j && ltb j (o + length s)) ≡ false = ground arith in
        overwrite_before j lt ∙ sym (take_else (leb o j && ltb j (o + length s)) _ _ out)
    | inr from ↦ elim (Bool-cases (ltb j (o + length s))) [
      | inl below ↦
          let lt = ltb→lt j (o + length s) below in
          let ge : o ≤ j = ground arith in
          let into : (leb o j && ltb j (o + length s)) ≡ true = ground arith in
          let place : j ≡ o + (j - o) = omega arith in
          ap (λ i. get_or (overwrite o s l) i 0) place
          ∙ overwrite_inside (j - o) (omega arith)
          ∙ sym (take_then (leb o j && ltb j (o + length s)) _ _ into)
      | inr above ↦
          let ge : o + length s ≤ j = ground arith in
          let out : (leb o j && ltb j (o + length s)) ≡ false = ground arith in
          let place : j ≡ o + (length s + (j - (o + length s))) = omega arith in
          ap (λ i. get_or (overwrite o s l) i 0) place
          ∙ overwrite_after (j - (o + length s))
          ∙ ap (λ i. get_or l i 0) (sym place)
          ∙ sym (take_else (leb o j && ltb j (o + length s)) _ _ out)
    ]
  ]
