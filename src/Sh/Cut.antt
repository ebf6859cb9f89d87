-- ===== src/Sh/Cut.antt =====
-- The buffer in which `nulterminate` has cut the words of a line.
use cserl_bootcamp.Common.{
  get_or-drop, ℕ, zero, suc, ◌+◌, ◌-◌, ◌<◌, ◌≡◌, ◌≢◌, refl, sym, ap, ◌∙◌, true, false, some, List,
  [], ◌∷◌, ◌++◌, ◌==◌, ◌⊎◌, inl, inr, if◌then◌else◌, length, length-append, drop, take, set, get_or,
  get_or-set_ne, get_elem?, Bool-cases, arith,
}
use cserl_bootcamp.Sh.{Span, text, is_word, Cmd, exec, redir, pipe, list, back, cut, cut_all}
use cserl_bootcamp.Sh.Scan.{AllWord, Boundary, append_assoc}
use cserl_bootcamp.Sh.Good.{WordAt, AllWordAt}

-- The C string at the start of a memory.
unfoldable pub cstr : List ℕ → List ℕ
cstr [] = []
cstr (c ∷ s) = let rest = cstr s in if c == 0 then [] else c ∷ rest

abbrev pub NoNul : List ℕ → Type 0
NoNul [] = Unit
NoNul (c ∷ s) = ((c == 0) ≡ false) × NoNul s

-- The strings of a command, from left to right.
unfoldable pub spans : Cmd Span → List Span
spans (exec argv) = argv
spans (redir cmd file mode fd) = spans cmd ++ (file ∷ [])
spans (pipe left right) = spans left ++ spans right
spans (list left right) = spans left ++ spans right
spans (back cmd) = spans cmd

abbrev pub position : List ℕ → List ℕ → ℕ
position line p = length line - length p

NoNul-append : (u w : List ℕ) → NoNul (u ++ w) → NoNul w
NoNul-append [] w h = h
NoNul-append (c ∷ u) w (n, h) = NoNul-append u w h

NoNul-take : (w s : List ℕ) → NoNul (w ++ s) → NoNul w
NoNul-take [] s h = tt
NoNul-take (c ∷ w) s (n, h) = (n, NoNul-take w s h)

get_or-append : (a b : List ℕ) (j : ℕ) → get_or (a ++ b) (length a + j) 0 ≡ get_or b j 0
get_or-append [] b j = ap (λ i. get_or b i 0) (omega arith)
get_or-append (x ∷ a) b j =
    let up : length (x ∷ a) + j ≡ suc (length a + j) = omega arith in rw up (get_or-append a b j)

get_or-append_left : (a b : List ℕ) (j : ℕ) → j < length a → get_or (a ++ b) j 0 ≡ get_or a j 0
get_or-append_left [] b j lt = absurd (omega arith)
get_or-append_left (x ∷ a) b zero lt = refl
get_or-append_left (x ∷ a) b (suc j) lt = get_or-append_left a b j (omega arith)

get_or-set_zero : (b : List ℕ) (k : ℕ) → get_or (set b k 0) k 0 ≡ 0
get_or-set_zero [] k = refl
get_or-set_zero (x ∷ b) zero = refl
get_or-set_zero (x ∷ b) (suc k) = get_or-set_zero b k

take-append : (w s : List ℕ) → take (length w) (w ++ s) ≡ w
take-append [] s = refl
take-append (c ∷ w) s = ap (λ l. c ∷ l) (take-append w s)

cstr-word :
    (b w : List ℕ)
    → NoNul w
    → ((j : ℕ) → j < length w → get_or b j 0 ≡ get_or w j 0)
    → get_or b (length w) 0 ≡ 0
    → cstr b ≡ w
unfolding cstr
cstr-word [] [] n same end = refl
cstr-word (c ∷ b) [] n same end = ground arith
cstr-word [] (x ∷ w) (n, m) same end = absurd (ground (arith, same 0 (omega arith)))
cstr-word (c ∷ b) (x ∷ w) (n, m) same end =
    let head : c ≡ x = same 0 (omega arith) in
    let nonzero : (c == 0) ≡ false = ground arith in
    let rest : cstr b ≡ w = cstr-word b w m (λ j lt. same (suc j) (omega arith)) end in
    rw (nonzero, cstr) (rw (head, rest) refl)

-- A byte that is no part of a word.
abbrev Stop : ℕ → Type 0
Stop c = (c ≡ 0) ⊎ (is_word c ≡ false)

AllWord-get : (w : List ℕ) (j : ℕ) → AllWord w → j < length w → is_word (get_or w j 0) ≡ true
AllWord-get [] j all lt = absurd (omega arith)
AllWord-get (c ∷ w) zero all lt = all.0
AllWord-get (c ∷ w) (suc j) all lt = AllWord-get w j all.1 (omega arith)

NoNul-get : (w : List ℕ) (j : ℕ) → NoNul w → j < length w → get_or w j 0 ≢ 0
NoNul-get [] j n lt = absurd (omega arith)
NoNul-get (c ∷ w) zero n lt = λ e. ground arith
NoNul-get (c ∷ w) (suc j) n lt = NoNul-get w j n.1 (omega arith)

Stop-head : (s : List ℕ) → Boundary s → Stop (get_or (s ++ (0 ∷ [])) 0 0)
Stop-head [] b = inl refl
Stop-head (c ∷ s) b = inr b

subst-NoNul : {a b : List ℕ} → a ≡ b → NoNul a → NoNul b
subst-NoNul e n = rw e at n

subst-Stop : {c d : ℕ} → c ≡ d → Stop c → Stop d
subst-Stop e h = rw e at h

no_Stop : (w : List ℕ) (j : ℕ) → AllWord w → NoNul w → j < length w → ¬ Stop (get_or w j 0)
no_Stop w j all n lt (inl z) = NoNul-get w j n lt z
no_Stop w j all n lt (inr f) = let g = AllWord-get w j all lt in ground arith

module _ (line : List ℕ) where
  abbrev pub whole : List ℕ
  whole = line ++ (0 ∷ [])

  WordAt-Stop : (p : Span) → WordAt line p → Stop (get_or whole (position line p.eq) 0)
  WordAt-Stop p (w, (u, e), f, all, stop) =
      let split : line ≡ (u ++ w) ++ p.eq = e ∙ ap (λ l. u ++ l) f ∙ sym (append_assoc u w p.eq) in
      let at : position line p.eq ≡ length (u ++ w) + 0 =
        omega (arith, ap length split, length-append (u ++ w) p.eq) in
      let buf : whole ≡ (u ++ w) ++ (p.eq ++ (0 ∷ [])) =
        ap (λ l. l ++ (0 ∷ [])) split ∙ append_assoc (u ++ w) p.eq (0 ∷ []) in
      let here : get_or whole (position line p.eq) 0 ≡ get_or (p.eq ++ (0 ∷ [])) 0 0 =
        ap (λ b. get_or b (position line p.eq) 0) buf
        ∙ ap (λ i. get_or ((u ++ w) ++ (p.eq ++ (0 ∷ []))) i 0) at
        ∙ get_or-append (u ++ w) (p.eq ++ (0 ∷ [])) 0 in
      rw here (Stop-head p.eq stop)

  -- A buffer in which only bytes that are no part of a word are cut.
  abbrev Cuts : List ℕ → Type 0
  Cuts b =
      (i : ℕ) → (get_or b i 0 ≡ get_or whole i 0) ⊎ ((get_or b i 0 ≡ 0) × Stop (get_or whole i 0))

  cut-Cuts : (p : Span) (b : List ℕ) → WordAt line p → Cuts b → Cuts (cut line p b)
  unfolding cut
  cut-Cuts p b w c i = elim (Bool-cases (position line p.eq == i)) [
    | inl here ↦
        let same : position line p.eq ≡ i = ground arith in
        inr (
          ap (λ k. get_or (set b (position line p.eq) 0) k 0) (sym same)
              ∙ get_or-set_zero b (position line p.eq),
          rw (sym same) (WordAt-Stop p w),
        )
    | inr other ↦
        let ne : position line p.eq ≢ i = λ e. ground arith in
        rw (get_or-set_ne b {i = position line p.eq} {j = i} 0 0 ne) (c i)
  ]

  cut_all-Cuts :
      (ps : List Span) (b : List ℕ) → AllWordAt line ps → Cuts b → Cuts (cut_all line ps b)
  unfolding cut_all
  cut_all-Cuts [] b ws c = c
  cut_all-Cuts (p ∷ ps) b ws c = cut_all-Cuts ps (cut line p b) ws.1 (cut-Cuts p b ws.0 c)

  cut_zero : (p : Span) (b : List ℕ) (i : ℕ) → get_or b i 0 ≡ 0 → get_or (cut line p b) i 0 ≡ 0
  unfolding cut
  cut_zero p b i z = elim (Bool-cases (position line p.eq == i)) [
    | inl here ↦
        let same : position line p.eq ≡ i = ground arith in
        ap (λ k. get_or (set b (position line p.eq) 0) k 0) (sym same)
        ∙ get_or-set_zero b (position line p.eq)
    | inr other ↦
        let ne : position line p.eq ≢ i = λ e. ground arith in
        get_or-set_ne b {i = position line p.eq} {j = i} 0 0 ne ∙ z
  ]

  cut_all-zero :
      (ps : List Span) (b : List ℕ) (i : ℕ) → get_or b i 0 ≡ 0 → get_or (cut_all line ps b) i 0 ≡ 0
  unfolding cut_all
  cut_all-zero [] b i z = z
  cut_all-zero (p ∷ ps) b i z = cut_all-zero ps (cut line p b) i (cut_zero p b i z)

  cut_all-ends :
      (ps : List Span) (b : List ℕ) (k : ℕ) {p : Span}
      → get_elem? ps k ≡ some p
      → get_or (cut_all line ps b) (position line p.eq) 0 ≡ 0
  unfolding cut_all cut
  cut_all-ends [] b k e = absurd (ground arith)
  cut_all-ends (q ∷ ps) b zero {p} e =
      let same : q ≡ p = cc in
      cut_all-zero ps (cut line q b) (position line p.eq)
        (rw same (get_or-set_zero b (position line p.eq)))
  cut_all-ends (q ∷ ps) b (suc k) e = cut_all-ends ps (cut line q b) k e

  pub cut_all-text :
      (ps : List Span) (k : ℕ) {p : Span}
      → NoNul line
      → AllWordAt line ps
      → get_elem? ps k ≡ some p
      → WordAt line p
      → cstr (drop (position line p.q) (cut_all line ps whole)) ≡ text p
  unfolding text
  cut_all-text ps k {p} nonul ws e (w, (u, f), g, all, stop) =
      let b = cut_all line ps whole in
      let size : length p.q ≡ length w + length p.eq = ap length g ∙ length-append w p.eq in
      let total : length line ≡ length u + length p.q = ap length f ∙ length-append u p.q in
      let start : position line p.q ≡ length u = omega arith in
      let end : position line p.eq ≡ length u + length w = omega arith in
      let qn : NoNul p.q = NoNul-append u p.q (subst-NoNul f nonul) in
      let wn : NoNul w = NoNul-take w p.eq (subst-NoNul g qn) in
      let shape : text p ≡ w =
        ap (λ n. take n p.q) (omega arith) ∙ ap (take (length w)) g ∙ take-append w p.eq in
      let split : whole ≡ u ++ (w ++ (p.eq ++ (0 ∷ []))) =
        ap (λ l. l ++ (0 ∷ [])) (f ∙ ap (λ l. u ++ l) g)
        ∙ append_assoc u (w ++ p.eq) (0 ∷ [])
        ∙ ap (λ l. u ++ l) (append_assoc w p.eq (0 ∷ [])) in
      let inside : (j : ℕ) → j < length w → get_or whole (length u + j) 0 ≡ get_or w j 0 = λ j lt.
        ap (λ l. get_or l (length u + j) 0) split
        ∙ get_or-append u (w ++ (p.eq ++ (0 ∷ []))) j
        ∙ get_or-append_left w (p.eq ++ (0 ∷ [])) j lt in
      let kept : (j : ℕ) → j < length w → get_or b (length u + j) 0 ≡ get_or w j 0 = λ j lt.
        elim (cut_all-Cuts ps whole ws (λ i. inl refl) (length u + j)) [
          | inl same ↦ same ∙ inside j lt
          | inr (z, stop_here) ↦ absurd (no_Stop w j all wn lt (subst-Stop (inside j lt) stop_here))
        ] in
      let ended : get_or b (length u + length w) 0 ≡ 0 =
        ap (λ i. get_or b i 0) (sym end) ∙ cut_all-ends ps whole k e in
      ap (λ n. cstr (drop n b)) start
      ∙ cstr-word (drop (length u) b) w wn (λ j lt. get_or-drop b (length u) j 0 ∙ kept j lt)
          (get_or-drop b (length u) (length w) 0 ∙ ended)
      ∙ sym shape
