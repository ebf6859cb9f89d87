-- ===== src/Fs/Path/Elements.antt =====
-- The elements of a path, and that `skipelem` takes them off one by one.
use cserl_bootcamp.Common.{
  ℕ, suc, ◌≤◌, ◌<◌, ◌≡◌, refl, sym, ap, ◌∙◌, Bool, true, false, Option, none, some, List, [], ◌∷◌,
  if◌then◌else◌, length, take, Bool-cases, inl, inr, arith,
}
use cserl_bootcamp.Fs.Path.{dirsiz, is_slash, skip_slashes, split_elem, skipelem, is_end}

-- The path cut at each slash.
abbrev pub onto_first : ℕ → List (List ℕ) → List (List ℕ)
onto_first c [] = []
onto_first c (s ∷ ss) = (c ∷ s) ∷ ss

abbrev pub cut : List ℕ → List (List ℕ)
cut [] = [] ∷ []
cut (c ∷ cs) = if is_slash c then [] ∷ cut cs else onto_first c (cut cs)

-- The pieces that are not empty, each cut to DIRSIZ bytes.
abbrev pub names : List (List ℕ) → List (List ℕ)
names [] = []
names (s ∷ ss) = if is_end s then names ss else take dirsiz s ∷ names ss

abbrev pub elements : List ℕ → List (List ℕ)
elements path = names (cut path)

abbrev pub no_names : List (List ℕ) → Bool
no_names [] = true
no_names (s ∷ ss) = false

abbrev after_cut : List ℕ → List (List ℕ)
after_cut [] = []
after_cut (c ∷ cs) = cut cs

cut-split : (p : List ℕ) → cut p ≡ (split_elem p).0 ∷ after_cut (split_elem p).1
unfolding split_elem
cut-split [] = refl
cut-split (c ∷ cs) = elim (Bool-cases (is_slash c)) [
  | inl slash ↦ rw slash refl
  | inr plain ↦ rw (plain, cut-split cs) refl
]

elements-slash : (c : ℕ) (cs : List ℕ) → is_slash c ≡ true → elements (c ∷ cs) ≡ elements cs
elements-slash c cs slash = rw slash refl

elements-plain :
    (c : ℕ) (cs : List ℕ)
    → is_slash c ≡ false
    → elements (c ∷ cs)
      ≡ take dirsiz (split_elem (c ∷ cs)).0 ∷ names (after_cut (split_elem (c ∷ cs)).1)
unfolding split_elem
elements-plain c cs plain =
    ap names (cut-split (c ∷ cs))
    ∙ first_name (split_elem (c ∷ cs)).0 (after_cut (split_elem (c ∷ cs)).1)
        (split-first c cs plain)
  where
    first_name :
        (s : List ℕ) (ss : List (List ℕ))
        → is_end s ≡ false
        → names (s ∷ ss) ≡ take dirsiz s ∷ names ss
    first_name s ss e = rw e refl

    split-first :
        (c : ℕ) (cs : List ℕ) → is_slash c ≡ false → is_end (split_elem (c ∷ cs)).0 ≡ false
    split-first c cs plain = rw plain refl

skip-plain : (c : ℕ) (cs : List ℕ) → is_slash c ≡ false → skip_slashes (c ∷ cs) ≡ c ∷ cs
unfolding skip_slashes
skip-plain c cs plain = rw plain refl

skip-elements : (p : List ℕ) → elements (skip_slashes p) ≡ elements p
unfolding skip_slashes
skip-elements [] = refl
skip-elements (c ∷ cs) = elim (Bool-cases (is_slash c)) [
  | inl slash ↦ slashed (skip-elements cs) slash
  | inr plain ↦ ap elements (skip-plain c cs plain)
]
  where
    slashed :
        elements (skip_slashes cs) ≡ elements cs
        → is_slash c ≡ true
        → elements (skip_slashes (c ∷ cs)) ≡ elements (c ∷ cs)
    slashed rest slash =
        let same : skip_slashes (c ∷ cs) ≡ skip_slashes cs = rw slash refl in
        ap elements same ∙ rest ∙ sym (elements-slash c cs slash)

after-elements : (p : List ℕ) → names (after_cut (split_elem p).1) ≡ elements (split_elem p).1
unfolding split_elem
after-elements [] = refl
after-elements (c ∷ cs) = elim (Bool-cases (is_slash c)) [
  | inl slash ↦ slashed slash
  | inr plain ↦ onward (after-elements cs) plain
]
  where
    slashed :
        is_slash c ≡ true
        → names (after_cut (split_elem (c ∷ cs)).1) ≡ elements (split_elem (c ∷ cs)).1
    slashed slash =
        let same : (split_elem (c ∷ cs)).1 ≡ c ∷ cs = rw slash refl in
        ap (λ r. names (after_cut r)) same
        ∙ sym (elements-slash c cs slash)
        ∙ sym (ap elements same)

    onward :
        names (after_cut (split_elem cs).1) ≡ elements (split_elem cs).1
        → is_slash c ≡ false
        → names (after_cut (split_elem (c ∷ cs)).1) ≡ elements (split_elem (c ∷ cs)).1
    onward rest plain =
        let same : (split_elem (c ∷ cs)).1 ≡ (split_elem cs).1 = rw plain refl in
        ap (λ r. names (after_cut r)) same ∙ rest ∙ sym (ap elements same)

length-skip : (p : List ℕ) → length (skip_slashes p) ≤ length p
unfolding skip_slashes
length-skip [] = omega arith
length-skip (c ∷ cs) = elim (Bool-cases (is_slash c)) [
  | inl slash ↦ rw slash (omega (arith, length-skip cs))
  | inr plain ↦ rw plain (omega arith)
]

length-split : (p : List ℕ) → length (split_elem p).1 ≤ length p
unfolding split_elem
length-split [] = omega arith
length-split (c ∷ cs) = elim (Bool-cases (is_slash c)) [
  | inl slash ↦ rw slash (omega arith)
  | inr plain ↦ rw plain (omega (arith, length-split cs))
]

-- The first byte after the slashes is not a slash.
skip-first : (p : List ℕ) (c : ℕ) (cs : List ℕ) → skip_slashes p ≡ c ∷ cs → is_slash c ≡ false
unfolding skip_slashes
skip-first [] c cs e = absurd (cc e)
skip-first (d ∷ ds) c cs e = elim (Bool-cases (is_slash d)) [
  | inl slash ↦ skip-first ds c cs (rw slash at e)
  | inr plain ↦ let same : d ≡ c = cc (rw plain at e) in rw (sym same) plain
]

split-plain :
    (c : ℕ) (cs : List ℕ) → is_slash c ≡ false → (split_elem (c ∷ cs)).1 ≡ (split_elem cs).1
unfolding split_elem
split-plain c cs plain = rw plain refl

shorter :
    (path : List ℕ) (c : ℕ) (cs : List ℕ)
    → is_slash c ≡ false
    → skip_slashes path ≡ c ∷ cs
    → length (skip_slashes (split_elem (c ∷ cs)).1) < length path
shorter path c cs plain e =
    let skipped : length (skip_slashes path) ≡ suc (length cs) = ap length e in
    rw (split-plain c cs plain)
      (omega (arith, length-skip (split_elem cs).1, length-split cs, length-skip path, skipped))

end-skip : (p : List ℕ) → is_end (skip_slashes p) ≡ no_names (elements (skip_slashes p))
end-skip p = go (skip_slashes p) refl
  where
    go :
        (q : List ℕ)
        → skip_slashes p ≡ q
        → is_end (skip_slashes p) ≡ no_names (elements (skip_slashes p))
    go [] e = rw e refl
    go (c ∷ cs) e = rw e (sym (ap no_names (elements-plain c cs (skip-first p c cs e))))

-- What `skipelem` does to the elements of a path.
abbrev pub Taken : List ℕ → Option (List ℕ × List ℕ) → Type 0
Taken path none = elements path ≡ []
Taken path (some (name, rest)) =
    (elements path ≡ name ∷ elements rest)
    × (length rest < length path)
    × (is_end rest ≡ no_names (elements rest))

-- `skipelem` returns 0 exactly where the path has no element left; otherwise it takes off the first
-- element, cut to DIRSIZ bytes, and leaves a shorter path with the other elements, which is empty
-- where there are none.
pub skipelem-Taken : (path : List ℕ) → Taken path (skipelem path)
unfolding skipelem split_elem
skipelem-Taken path = go (skip_slashes path) refl
  where
    go : (p : List ℕ) → skip_slashes path ≡ p → Taken path (skipelem path)
    go [] e = rw (e, skipelem) (sym (skip-elements path) ∙ ap elements e)
    go (c ∷ cs) e =
        let plain : is_slash c ≡ false = skip-first path c cs e in
        let whole : elements path ≡ elements (c ∷ cs) = sym (skip-elements path) ∙ ap elements e in
        let next : elements (split_elem (c ∷ cs)).1
            ≡ elements (skip_slashes (split_elem (c ∷ cs)).1) =
          sym (skip-elements (split_elem (c ∷ cs)).1) in
        let less : length (skip_slashes (split_elem (c ∷ cs)).1) < length path =
          shorter path c cs plain e in
        rw (e, skipelem)
          (
            whole
                ∙ elements-plain c cs plain
                ∙ ap (λ ns. take dirsiz (split_elem (c ∷ cs)).0 ∷ ns)
                    (after-elements (c ∷ cs) ∙ next),
            less,
            end-skip (split_elem (c ∷ cs)).1,
          )
