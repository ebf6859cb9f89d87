-- ===== src/Sh/Scan.antt =====
-- What `skip`, `scan`, `gettoken` and `peek` leave of the text.
use cserl_bootcamp.Common.{
  ℕ, ◌≤◌, ◌<◌, ◌≡◌, ◌≢◌, refl, ap, sym, ◌∙◌, true, false, List, [], ◌∷◌, ◌++◌, ◌==◌, length,
  length-append, inl, inr, Bool-cases, arith,
}
use cserl_bootcamp.Sh.{
  whitespace, single, strchr, is_word, skip, scan, lex, greater, gettoken, after_token, starts,
}

abbrev pub AllWord : List ℕ → Type 0
AllWord [] = Unit
AllWord (c ∷ w) = (is_word c ≡ true) × AllWord w

-- No word goes on at `s`.
abbrev pub Boundary : List ℕ → Type 0
Boundary [] = Unit
Boundary (c ∷ s) = is_word c ≡ false

abbrev pub Trimmed : List ℕ → Type 0
Trimmed [] = Unit
Trimmed (c ∷ s) = strchr whitespace c ≡ false

abbrev pub IsSuffix : List ℕ → List ℕ → Type 0
IsSuffix line s = (u : List ℕ) × (line ≡ u ++ s)

pub append_assoc {ℓ} : {A : Type ℓ} (a b c : List A) → (a ++ b) ++ c ≡ a ++ (b ++ c)
append_assoc [] b c = refl
append_assoc (x ∷ a) b c = ap (λ l. x ∷ l) (append_assoc a b c)

pub IsSuffix-refl : (s : List ℕ) → IsSuffix s s
IsSuffix-refl s = ([], refl)

pub IsSuffix-trans : (a b c : List ℕ) → IsSuffix a b → IsSuffix b c → IsSuffix a c
IsSuffix-trans a b c (u, e) (v, f) = (u ++ v, e ∙ ap (λ l. u ++ l) f ∙ sym (append_assoc u v c))

pub IsSuffix-length : (a b : List ℕ) → IsSuffix a b → length b ≤ length a
IsSuffix-length a b (u, e) = omega (arith, length-append u b, ap length e)

pub skip_suffix : (s : List ℕ) → IsSuffix s (skip s)
unfolding skip
skip_suffix [] = ([], refl)
skip_suffix (c ∷ s) = elim (Bool-cases (strchr whitespace c)) [
  | inl blank ↦ let (u, e) = skip_suffix s in (c ∷ u, rw (blank, skip) (ap (λ l. c ∷ l) e))
  | inr dark ↦ ([], rw (dark, skip) refl)
]

pub skip-Trimmed : (s : List ℕ) → Trimmed (skip s)
unfolding skip
skip-Trimmed [] = tt
skip-Trimmed (c ∷ s) = elim (Bool-cases (strchr whitespace c)) [
  | inl blank ↦ rw (blank, skip) (skip-Trimmed s)
  | inr dark ↦ rw (dark, skip) dark
]

pub skip-same : (s : List ℕ) → Trimmed s → skip s ≡ s
unfolding skip
skip-same [] t = refl
skip-same (c ∷ s) t = rw t refl

pub scan_split : (s : List ℕ) → (w : List ℕ) × (s ≡ w ++ scan s) × AllWord w
unfolding scan
scan_split [] = ([], refl, tt)
scan_split (c ∷ s) = elim (Bool-cases (is_word c)) [
  | inl go ↦ let (w, e, all) = scan_split s in (c ∷ w, rw (go, scan) (ap (λ l. c ∷ l) e), (go, all))
  | inr stop ↦ ([], rw (stop, scan) refl, tt)
]

pub scan-Boundary : (s : List ℕ) → Boundary (scan s)
unfolding scan
scan-Boundary [] = tt
scan-Boundary (c ∷ s) = elim (Bool-cases (is_word c)) [
  | inl go ↦ rw (go, scan) (scan-Boundary s)
  | inr stop ↦ rw (stop, scan) stop
]

pub is_word-of_default :
    (c : ℕ)
    → strchr whitespace c ≡ false
    → strchr single c ≡ false
    → (c == 62) ≡ false
    → is_word c ≡ true
unfolding is_word strchr
is_word-of_default c h k l = ground arith

pub greater_suffix : (c : ℕ) (s : List ℕ) → (u : List ℕ) × (c ∷ s ≡ c ∷ (u ++ (greater s).1))
unfolding greater
greater_suffix c [] = ([], refl)
greater_suffix c (d ∷ s) = elim (Bool-cases (d == 62)) [
  | inl two ↦ (d ∷ [], rw (two, greater) refl)
  | inr one ↦ ([], rw (one, greater) refl)
]

-- The token at a byte that is neither a blank nor the NUL takes that byte.
pub lex_shorter :
    (c : ℕ) (s : List ℕ)
    → strchr whitespace c ≡ false
    → (c == 0) ≡ false
    → (u : List ℕ) × (c ∷ s ≡ c ∷ (u ++ (lex (c ∷ s)).1))
unfolding lex scan
lex_shorter c s dark nonzero = elim (Bool-cases (strchr single c)) [
  | inl one ↦ ([], rw (nonzero, one, lex) refl)
  | inr many ↦ elim (Bool-cases (c == 62)) [
    | inl gt ↦ let (u, e) = greater_suffix c s in (u, rw (nonzero, many, gt, lex) e)
    | inr word ↦
        let (w, e, all) = scan_split s in
        let go : is_word c ≡ true = is_word-of_default c dark many word in
        (w, rw (nonzero, many, word, lex, go, scan) (ap (λ l. c ∷ l) e))
  ]
]

pub lex_suffix : (s : List ℕ) → Trimmed s → IsSuffix s (lex s).1
unfolding lex
lex_suffix [] t = ([], refl)
lex_suffix (c ∷ s) t = elim (Bool-cases (c == 0)) [
  | inl nul ↦ ([], rw (nul, lex) refl)
  | inr nonzero ↦ let (u, e) = lex_shorter c s t nonzero in (c ∷ u, e)
]

not_single : (c : ℕ) → c ≡ 97 → ¬ strchr single c ≡ true
unfolding strchr
not_single c e h = ground arith

greater-not_word : (s : List ℕ) → (greater s).0 ≢ 97
unfolding greater
greater-not_word [] e = absurd (omega (arith, e))
greater-not_word (c ∷ s) e = ground arith

-- A word token: the pointers stand around a word that ends where no word goes on.
pub lex_word :
    (s : List ℕ)
    → (lex s).0 ≡ 97
    → (w : List ℕ) × (s ≡ w ++ (lex s).1) × AllWord w × Boundary (lex s).1
unfolding lex greater
lex_word [] e = absurd (omega (arith, e))
lex_word (c ∷ s) e = elim (Bool-cases (c == 0)) [
  | inl nul ↦ absurd (ground arith)
  | inr nonzero ↦ elim (Bool-cases (strchr single c)) [
    | inl one ↦
        let same : c ≡ 97 = cc (rw (nonzero, one, lex) at e) in absurd (not_single c same one)
    | inr many ↦ elim (Bool-cases (c == 62)) [
      | inl gt ↦
          let same : (greater s).0 ≡ 97 = cc (rw (nonzero, many, gt, lex) at e) in
          absurd (greater-not_word s same)
      | inr word ↦
          let (w, f, all) = scan_split (c ∷ s) in
          (
            w,
            rw (nonzero, many, word, lex) f,
            all,
            rw (nonzero, many, word, lex) (scan-Boundary (c ∷ s)),
          )
    ]
  ]
]

pub gettoken_suffix : (s : List ℕ) → IsSuffix s (gettoken s).1.eq
unfolding gettoken
gettoken_suffix s =
    IsSuffix-trans s (skip s) (lex (skip s)).1 (skip_suffix s)
      (lex_suffix (skip s) (skip-Trimmed s))

pub after_token_suffix : (s : List ℕ) → IsSuffix s (after_token s)
unfolding gettoken
after_token_suffix s =
    IsSuffix-trans s (lex (skip s)).1 (skip (lex (skip s)).1) (gettoken_suffix s)
      (skip_suffix (lex (skip s)).1)

lex_shorter-length :
    (c : ℕ) (s : List ℕ)
    → strchr whitespace c ≡ false
    → (c == 0) ≡ false
    → length (lex (c ∷ s)).1 < length (c ∷ s)
lex_shorter-length c s dark nonzero =
    let (u, e) = lex_shorter c s dark nonzero in
    omega (arith, ap length e, length-append u (lex (c ∷ s)).1)

lex_shorter-tok : (s : List ℕ) → Trimmed s → (lex s).0 ≢ 0 → length (lex s).1 < length s
unfolding lex
lex_shorter-tok [] t ne = absurd (ne refl)
lex_shorter-tok (c ∷ s) t ne = elim (Bool-cases (c == 0)) [
  | inl nul ↦ absurd (ne (rw (nul, lex) refl))
  | inr nonzero ↦ lex_shorter-length c s t nonzero
]

lex_shorter-starts :
    (toks s : List ℕ) → Trimmed s → starts toks s ≡ true → length (lex s).1 < length s
unfolding starts
lex_shorter-starts toks [] t h = absurd (ground arith)
lex_shorter-starts toks (c ∷ s) t h = lex_shorter-length c s t (ground arith)

-- A token that is not the end of the text takes a byte of it.
pub after_token-shorter : (s : List ℕ) → (gettoken s).0 ≢ 0 → length (after_token s) < length s
unfolding gettoken
after_token-shorter s ne = omega (
  arith,
  lex_shorter-tok (skip s) (skip-Trimmed s) ne,
  IsSuffix-length _ _ (skip_suffix s),
  IsSuffix-length _ _ (skip_suffix (lex (skip s)).1),
)

-- So does one that `peek` has seen.
pub peek-shorter :
    (toks s : List ℕ) → starts toks (skip s) ≡ true → length (after_token (skip s)) < length s
unfolding gettoken
peek-shorter toks s h =
    let same : skip (skip s) ≡ skip s = skip-same (skip s) (skip-Trimmed s) in
    rw same (
      omega (
        arith,
        lex_shorter-starts toks (skip s) (skip-Trimmed s) h,
        IsSuffix-length _ _ (skip_suffix s),
        IsSuffix-length _ _ (skip_suffix (lex (skip s)).1),
      ))
