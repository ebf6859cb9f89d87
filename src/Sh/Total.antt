-- ===== src/Sh/Total.antt =====
-- Enough fuel: the parser ends, with a command whose pointers stand around words, or in a panic.
use cserl_bootcamp.Common.{
  ℕ, zero, suc, ◌+◌, ◌*◌, ◌≤◌, ◌<◌, ◌≢◌, refl, true, false, List, [], ◌∷◌, ◌==◌, leb, length, inl,
  inr, Bool-cases, arith,
}
use cserl_bootcamp.Sh.{
  Span, Cmd, exec, pipe, list, back, Parse, ok, panic, missing_paren, spent, bind, max_args, skip,
  gettoken, after_token, starts, peek, add_arg, redirect, parseredirs, backs, args, parseline,
  parsepipe, parseexec, parseblock,
}
use cserl_bootcamp.Sh.Scan.{
  IsSuffix, IsSuffix-trans, IsSuffix-length, skip_suffix, after_token_suffix, after_token-shorter,
  peek-shorter,
}
use cserl_bootcamp.Sh.Good.{Good, add_arg-Good, redirect-Good, gettoken-WordAt}

-- A result that is not for want of fuel, with `Q` of a value.
abbrev pub Ensures {ℓ} : {A : Type ℓ} → (A → List ℕ → Type 0) → Parse A → Type 0
Ensures Q (ok a s) = Q a s
Ensures Q (panic p) = Unit
Ensures Q spent = ⊥

-- A good command, and `s` as a rest of the line of at most `n` bytes.
abbrev pub Reads : List ℕ → ℕ → Cmd Span → List ℕ → Type 0
Reads line n cmd s = IsSuffix line s × (length s ≤ n) × Good line cmd

module _ {ℓ} {A : Type ℓ} where
  pub Ensures-mono :
      (P Q : A → List ℕ → Type 0) (m : Parse A)
      → Ensures P m
      → ((a : A) (s : List ℕ) → P a s → Ensures Q (ok a s))
      → Ensures Q m
  Ensures-mono P Q (ok a s) h f = f a s h
  Ensures-mono P Q (panic p) h f = tt
  Ensures-mono P Q spent h f = h

  pub Ensures-bind {κ} :
      {B : Type κ} (P : A → List ℕ → Type 0) (Q : B → List ℕ → Type 0) (m : Parse A)
      (f : A → List ℕ → Parse B)
      → Ensures P m
      → ((a : A) (s : List ℕ) → P a s → Ensures Q (f a s))
      → Ensures Q (bind m f)
  unfolding bind
  Ensures-bind P Q (ok a s) f h k = k a s h
  Ensures-bind P Q (panic p) f h k = tt
  Ensures-bind P Q spent f h k = h

module _ (line : List ℕ) where
  skipped : (s : List ℕ) → IsSuffix line s → IsSuffix line (skip s)
  skipped s suf = IsSuffix-trans line s (skip s) suf (skip_suffix s)

  skip-length : (s : List ℕ) → length (skip s) ≤ length s
  skip-length s = IsSuffix-length s (skip s) (skip_suffix s)

  taken : (s : List ℕ) → IsSuffix line s → IsSuffix line (after_token s)
  taken s suf = IsSuffix-trans line s (after_token s) suf (after_token_suffix s)

  after_token-length : (s : List ℕ) → length (after_token s) ≤ length s
  after_token-length s = IsSuffix-length s (after_token s) (after_token_suffix s)

  pub parseredirs-Reads :
      (fuel n : ℕ) (cmd : Cmd Span) (s : List ℕ)
      → IsSuffix line s
      → Good line cmd
      → length s ≤ n
      → n < fuel
      → Ensures (Reads line n) (parseredirs fuel cmd s)
  unfolding parseredirs peek
  parseredirs-Reads zero n cmd s suf g le enough = absurd (omega arith)
  parseredirs-Reads (suc fuel) n cmd s suf g le enough =
      elim (Bool-cases (starts (60 ∷ 62 ∷ []) (skip s))) [
        | inr stop ↦ rw (stop, parseredirs) (skipped s suf, omega (arith, skip-length s), g)
        | inl more ↦
            let s' = after_token (skip s) in
            let suf' : IsSuffix line s' = taken (skip s) (skipped s suf) in
            elim (Bool-cases ((gettoken s').0 == 97)) [
              | inr other ↦ rw (more, other, parseredirs) tt
              | inl word ↦
                  rw (more, word, parseredirs)
                    (Ensures-mono (Reads line (length s')) (Reads line n) _
                      (parseredirs-Reads fuel (length s')
                        (redirect cmd (gettoken (skip s)).0 (gettoken s').1) (after_token s')
                        (taken s' suf')
                        (redirect-Good line cmd (gettoken (skip s)).0 (gettoken s').1 g
                          (gettoken-WordAt line s' suf' (ground arith)))
                        (after_token-length s') (omega (arith, peek-shorter (60 ∷ 62 ∷ []) s more)))
                      (λ c r (i, l, d). (i, omega (arith, peek-shorter (60 ∷ 62 ∷ []) s more), d)))
            ]
      ]

  pub backs-Reads :
      (fuel n : ℕ) (cmd : Cmd Span) (s : List ℕ)
      → IsSuffix line s
      → Good line cmd
      → length s ≤ n
      → length s < fuel
      → Ensures (Reads line n) (backs fuel cmd s)
  unfolding backs peek
  backs-Reads zero n cmd s suf g le enough = absurd (omega arith)
  backs-Reads (suc fuel) n cmd s suf g le enough = elim (Bool-cases (starts (38 ∷ []) (skip s))) [
    | inr stop ↦ rw (stop, backs) (skipped s suf, omega (arith, skip-length s), g)
    | inl more ↦
        let less : length (after_token (skip s)) < length s = peek-shorter (38 ∷ []) s more in
        rw (more, backs)
          (backs-Reads fuel n (back cmd) (after_token (skip s)) (taken (skip s) (skipped s suf)) g
            (omega arith) (omega arith))
  ]

  pub args-Reads :
      (fuel n argc : ℕ) (cmd : Cmd Span) (s : List ℕ)
      → IsSuffix line s
      → Good line cmd
      → length s ≤ n
      → length s < fuel
      → Ensures (Reads line n) (args fuel argc cmd s)
  unfolding args peek
  args-Reads zero n argc cmd s suf g le enough = absurd (omega arith)
  args-Reads (suc fuel) n argc cmd s suf g le enough =
      let t = skip s in
      let suf' : IsSuffix line t = skipped s suf in
      let le' : length t ≤ length s = skip-length s in
      elim (Bool-cases (starts (124 ∷ 41 ∷ 38 ∷ 59 ∷ []) t)) [
        | inl stop ↦ rw (stop, args) (suf', omega arith, g)
        | inr more ↦ elim (Bool-cases ((gettoken t).0 == 0)) [
          | inl end ↦ rw (more, end, args) (taken t suf', omega (arith, after_token-length t), g)
          | inr token ↦ elim (Bool-cases ((gettoken t).0 == 97)) [
            | inr other ↦ rw (more, token, other, args) tt
            | inl word ↦ elim (Bool-cases (leb max_args (suc argc))) [
              | inl many ↦ rw (more, token, word, many, args) tt
              | inr few ↦
                  let ne : (gettoken t).0 ≢ 0 = ground arith in
                  let less : length (after_token t) < length t = after_token-shorter t ne in
                  let at = gettoken-WordAt line t suf' (ground arith) in
                  rw (more, token, word, few, args)
                    (Ensures-bind (Reads line (length (after_token t))) (Reads line n) _ _
                      (parseredirs-Reads fuel (length (after_token t)) (add_arg (gettoken t).1 cmd)
                        (after_token t) (taken t suf') (add_arg-Good line (gettoken t).1 cmd at g)
                        (omega arith) (omega arith))
                      (λ c r (i, l, d).
                        args-Reads fuel n (suc argc) c r i d (omega arith) (omega arith)))
            ]
          ]
        ]
      ]

  -- What follows `;` and `|`: the rest of the line is read, where there is one.
  joined :
      (toks : List ℕ) (join : Cmd Span → Cmd Span → Cmd Span) (parse : List ℕ → Parse (Cmd Span))
      (n : ℕ) (cmd : Cmd Span) (r : List ℕ)
      → ((c d : Cmd Span) → Good line c → Good line d → Good line (join c d))
      → IsSuffix line r
      → Good line cmd
      → length r ≤ n
      → ((t : List ℕ) → IsSuffix line t → length t < n → Ensures (Reads line (length t)) (parse t))
      → Ensures (Reads line n) (elim (starts toks (skip r)) [
        | false ↦ ok cmd (skip r)
        | true ↦ bind (parse (after_token (skip r))) λ right s. ok (join cmd right) s
      ])
  joined toks join parse n cmd r both i g l ih = elim (Bool-cases (starts toks (skip r))) [
    | inr stop ↦ rw stop (skipped r i, omega (arith, skip-length r), g)
    | inl more ↦
        let t = after_token (skip r) in
        let less : length t < length r = peek-shorter toks r more in
        rw more (
          Ensures-bind (Reads line (length t)) (Reads line n) _ _
            (ih t (taken (skip r) (skipped r i)) (omega arith))
            (λ right u (j, m, h). (j, omega arith, both cmd right g h)))
  ]

  closed :
      (fuel n : ℕ) (cmd : Cmd Span) (r : List ℕ)
      → IsSuffix line r
      → Good line cmd
      → length r < n
      → n < fuel
      → Ensures (Reads line n) (elim (starts (41 ∷ []) (skip r)) [
        | false ↦ panic missing_paren
        | true ↦ parseredirs fuel cmd (after_token (skip r))
      ])
  closed fuel n cmd r i g l enough = elim (Bool-cases (starts (41 ∷ []) (skip r))) [
    | inr open_block ↦ rw open_block tt
    | inl shut ↦
        let less : length (after_token (skip r)) < length r = peek-shorter (41 ∷ []) r shut in
        rw shut (
          parseredirs-Reads fuel n cmd (after_token (skip r)) (taken (skip r) (skipped r i)) g
            (omega arith) enough)
  ]

  mutual
    unfolding parseline parsepipe parseexec parseblock peek

    pub parseline-Reads :
        (fuel : ℕ) (s : List ℕ)
        → IsSuffix line s
        → 4 * length s + 4 ≤ fuel
        → Ensures (Reads line (length s)) (parseline fuel s)
    parseline-Reads zero s suf enough = absurd (omega arith)
    parseline-Reads (suc fuel) s suf enough =
        Ensures-bind (Reads line (length s)) (Reads line (length s)) (parsepipe fuel s) _
          (parsepipe-Reads fuel s suf (omega arith))
          (λ cmd r (i, l, g).
            Ensures-bind (Reads line (length s)) (Reads line (length s)) (backs fuel cmd r) _
              (backs-Reads fuel (length s) cmd r i g l (omega arith))
              (λ cmd' r' (i', l', g').
                joined (59 ∷ []) list (parseline fuel) (length s) cmd' r' (λ c d g h. (g, h)) i' g'
                  l' (λ t j less. parseline-Reads fuel t j (omega arith))))

    pub parsepipe-Reads :
        (fuel : ℕ) (s : List ℕ)
        → IsSuffix line s
        → 4 * length s + 3 ≤ fuel
        → Ensures (Reads line (length s)) (parsepipe fuel s)
    parsepipe-Reads zero s suf enough = absurd (omega arith)
    parsepipe-Reads (suc fuel) s suf enough =
        Ensures-bind (Reads line (length s)) (Reads line (length s)) (parseexec fuel s) _
          (parseexec-Reads fuel s suf (omega arith))
          (λ cmd r (i, l, g).
            joined (124 ∷ []) pipe (parsepipe fuel) (length s) cmd r (λ c d g h. (g, h)) i g l
              (λ t j less. parsepipe-Reads fuel t j (omega arith)))

    pub parseexec-Reads :
        (fuel : ℕ) (s : List ℕ)
        → IsSuffix line s
        → 4 * length s + 2 ≤ fuel
        → Ensures (Reads line (length s)) (parseexec fuel s)
    parseexec-Reads zero s suf enough = absurd (omega arith)
    parseexec-Reads (suc fuel) s suf enough =
        let t = skip s in
        let less : length t ≤ length s = skip-length s in
        elim (Bool-cases (starts (40 ∷ []) t)) [
          | inl block ↦
              rw (block, parseexec)
                (Ensures-mono (Reads line (length t)) (Reads line (length s)) _
                  (parseblock-Reads fuel t (skipped s suf) (omega arith))
                  (λ c r (i, l, g). (i, omega arith, g)))
          | inr plain ↦
              rw (plain, parseexec)
                (Ensures-bind (Reads line (length t)) (Reads line (length s)) _ _
                  (parseredirs-Reads fuel (length t) (exec []) t (skipped s suf) tt (omega arith)
                    (omega arith))
                  (λ c r (i, l, g).
                    args-Reads fuel (length s) 0 c r i g (omega arith) (omega arith)))
        ]

    pub parseblock-Reads :
        (fuel : ℕ) (s : List ℕ)
        → IsSuffix line s
        → 4 * length s + 1 ≤ fuel
        → Ensures (Reads line (length s)) (parseblock fuel s)
    parseblock-Reads zero s suf enough = absurd (omega arith)
    parseblock-Reads (suc fuel) s suf enough = elim (Bool-cases (starts (40 ∷ []) (skip s))) [
      | inr none ↦ rw (none, parseblock) tt
      | inl block ↦
          let t = after_token (skip s) in
          let less : length t < length s = peek-shorter (40 ∷ []) s block in
          rw (block, parseblock)
            (Ensures-bind (Reads line (length t)) (Reads line (length s)) _ _
              (parseline-Reads fuel t (taken (skip s) (skipped s suf)) (omega arith))
              (λ c r (i, l, g). closed fuel (length s) c r i g (omega arith) (omega arith)))
    ]

-- On a line of any length the fuel of `parsecmd` is enough.
pub parseline-total :
    (line : List ℕ) → Ensures (Reads line (length line)) (parseline (4 * length line + 4) line)
parseline-total line = parseline-Reads line (4 * length line + 4) line ([], refl) (omega arith)
