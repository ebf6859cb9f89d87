-- ===== src/Sh/Redirs.antt =====
-- The parser on the text of redirections.
use cserl_bootcamp.Common.{
  ℕ, zero, suc, ◌≡◌, refl, ap, ◌∙◌, Bool, true, false, List, [], ◌∷◌, ◌++◌, ◌==◌, if◌then◌else◌,
  arith,
}
use cserl_bootcamp.Sh.{
  whitespace, strchr, skip, Span, text, lex, gettoken, after_token, starts, Cmd, redir, Parse, ok,
  panic, spent, bind, greater, peek, redirect, parseredirs, o_rdonly, o_wronly_create,
}
use cserl_bootcamp.Sh.Scan.{skip-same}
use cserl_bootcamp.Sh.Print.{
  mark, redirection, Word, view, starts-first_byte, gettoken-mark, gettoken-Word, skip-Word,
}

-- A result for `c` with the rest `t`, unless the fuel is spent.
abbrev pub Yields : Parse (Cmd Span) → Cmd (List ℕ) → List ℕ → Type 0
Yields (ok cmd s) c t = (view cmd ≡ c) × (s ≡ t)
Yields (panic p) c t = ⊥
Yields spent c t = Unit

pub Yields-bind :
    (m : Parse (Cmd Span)) (f : Cmd Span → List ℕ → Parse (Cmd Span)) (c d : Cmd (List ℕ))
    (t u : List ℕ)
    → Yields m c t
    → ((cmd : Cmd Span) → view cmd ≡ c → Yields (f cmd t) d u)
    → Yields (bind m f) d u
unfolding bind
Yields-bind (ok cmd s) f c d t u (e, r) k = rw r (k cmd e)
Yields-bind (panic p) f c d t u h k = absurd h
Yields-bind spent f c d t u h k = tt

-- `t` is at its end, or starts with one of `cs`.
abbrev pub Stops : List ℕ → List ℕ → Type 0
Stops cs [] = Unit
Stops cs (c ∷ s) = strchr cs c ≡ true

abbrev pub after_exec : List ℕ
after_exec = 124 ∷ 41 ∷ 38 ∷ 59 ∷ []

abbrev pub after_pipe : List ℕ
after_pipe = 41 ∷ 38 ∷ 59 ∷ []

abbrev pub after_backs : List ℕ
after_backs = 41 ∷ 59 ∷ []

abbrev pub after_line : List ℕ
after_line = 41 ∷ []

Stops-mono :
    (cs ds s : List ℕ)
    → ((c : ℕ) → strchr cs c ≡ true → strchr ds c ≡ true)
    → Stops cs s
    → Stops ds s
Stops-mono cs ds [] f h = tt
Stops-mono cs ds (c ∷ s) f h = f c h

pub pipe→exec : (s : List ℕ) → Stops after_pipe s → Stops after_exec s
unfolding strchr
pipe→exec s = Stops-mono after_pipe after_exec s (λ c h. ground arith)

pub backs→pipe : (s : List ℕ) → Stops after_backs s → Stops after_pipe s
unfolding strchr
backs→pipe s = Stops-mono after_backs after_pipe s (λ c h. ground arith)

pub line→backs : (s : List ℕ) → Stops after_line s → Stops after_backs s
unfolding strchr
line→backs s = Stops-mono after_line after_backs s (λ c h. ground arith)

-- What stops a simple command is no blank.
pub Stops-skip : (s : List ℕ) → Stops after_exec s → skip s ≡ s
unfolding strchr
Stops-skip [] h = skip-same [] tt
Stops-skip (c ∷ s) h = skip-same (c ∷ s) (ground arith)

pub Stops-starts :
    (cs toks s : List ℕ)
    → ((c : ℕ) → strchr cs c ≡ true → strchr toks c ≡ false)
    → Stops cs s
    → starts toks s ≡ false
unfolding starts
Stops-starts cs toks [] f h = refl
Stops-starts cs toks (c ∷ s) f h = starts-first_byte toks (c ∷ s) (f c h)

abbrev pub mode_of : Bool → ℕ
mode_of out = if out then o_wronly_create else o_rdonly

abbrev pub fd_of : Bool → ℕ
fd_of out = if out then 1 else 0

-- Redirections that follow a command, and the command that they make.
unfoldable pub redirs : List (List ℕ × Bool) → List ℕ → List ℕ
redirs [] t = t
redirs ((file, out) ∷ rs) t = redirection file (mode_of out) (redirs rs t)

unfoldable pub wraps : Cmd (List ℕ) → List (List ℕ × Bool) → Cmd (List ℕ)
wraps c [] = c
wraps c ((file, out) ∷ rs) = wraps (redir c file (mode_of out) (fd_of out)) rs

abbrev pub Files : List (List ℕ × Bool) → Type 0
Files [] = Unit
Files (r ∷ rs) = Word r.0 × Files rs

redirection-mark :
    (file : List ℕ) (out : Bool) (k : List ℕ)
    → redirection file (mode_of out) k ≡ mark (if out then 62 else 60) (file ++ (32 ∷ k))
unfolding redirection
redirection-mark file true k = refl
redirection-mark file false k = refl

pub redirs-skip :
    (rs : List (List ℕ × Bool)) (t : List ℕ) → skip t ≡ t → skip (redirs rs t) ≡ redirs rs t
unfolding redirs redirection strchr
redirs-skip [] t h = h
redirs-skip ((file, true) ∷ rs) t h = skip-same _ refl
redirs-skip ((file, false) ∷ rs) t h = skip-same _ refl

redirect-view :
    (cmd : Cmd Span) (p : Span) (out : Bool) {c : Cmd (List ℕ)} {file : List ℕ}
    → view cmd ≡ c
    → text p ≡ file
    → view (redirect cmd (if out then 62 else 60) p) ≡ redir c file (mode_of out) (fd_of out)
unfolding redirect view
redirect-view cmd p true e f = rw (e, f) refl
redirect-view cmd p false e f = rw (e, f) refl

parseredirs-more :
    (fuel : ℕ) (cmd : Cmd Span) (s u : List ℕ)
    → starts (60 ∷ 62 ∷ []) (skip s) ≡ true
    → after_token (skip s) ≡ u
    → (gettoken u).0 ≡ 97
    → parseredirs (suc fuel) cmd s
      ≡ parseredirs fuel (redirect cmd (gettoken (skip s)).0 (gettoken u).1) (after_token u)
unfolding parseredirs peek
parseredirs-more fuel cmd s u st after w =
    let w' : ((gettoken (after_token (skip s))).0 == 97) ≡ true = rw after (ap (λ n. n == 97) w) in
    rw (st, w', parseredirs)
      (ap
        (λ v. parseredirs fuel (redirect cmd (gettoken (skip s)).0 (gettoken v).1) (after_token v))
        after)

redirs_step :
    (sign fuel : ℕ) (cmd : Cmd Span) (file k : List ℕ)
    → strchr whitespace sign ≡ false
    → lex (mark sign (file ++ (32 ∷ k))) ≡ (sign, 32 ∷ (file ++ (32 ∷ k)))
    → starts (60 ∷ 62 ∷ []) (mark sign (file ++ (32 ∷ k))) ≡ true
    → Word file
    → skip k ≡ k
    → parseredirs (suc fuel) cmd (mark sign (file ++ (32 ∷ k)))
      ≡ parseredirs fuel (redirect cmd sign (gettoken (file ++ (32 ∷ k))).1) k
redirs_step sign fuel cmd file k dark l st word t =
    let s = mark sign (file ++ (32 ∷ k)) in
    let (w, x, r) = gettoken-Word file k word t in
    let (tok, after) =
      gettoken-mark sign (file ++ (32 ∷ k)) dark l (skip-Word file (32 ∷ k) word) in
    let same : skip s ≡ s = skip-same s dark in
    let tok' : (gettoken (skip s)).0 ≡ sign = ap (λ v. (gettoken v).0) same ∙ tok in
    parseredirs-more fuel cmd s (file ++ (32 ∷ k)) (ap (starts (60 ∷ 62 ∷ [])) same ∙ st)
      (ap after_token same ∙ after) w
    ∙ ap
        (λ v.
          parseredirs fuel (redirect cmd v (gettoken (file ++ (32 ∷ k))).1)
            (after_token (file ++ (32 ∷ k))))
        tok'
    ∙ ap (parseredirs fuel (redirect cmd sign (gettoken (file ++ (32 ∷ k))).1)) r

parseredirs-one :
    (fuel : ℕ) (cmd : Cmd Span) (file k : List ℕ) (out : Bool)
    → Word file
    → skip k ≡ k
    → parseredirs (suc fuel) cmd (redirection file (mode_of out) k)
      ≡ parseredirs fuel (redirect cmd (if out then 62 else 60) (gettoken (file ++ (32 ∷ k))).1) k
unfolding redirection strchr lex greater starts
parseredirs-one fuel cmd file k true word t = redirs_step 62 fuel cmd file k refl refl refl word t
parseredirs-one fuel cmd file k false word t = redirs_step 60 fuel cmd file k refl refl refl word t

pub parseredirs-none :
    (fuel : ℕ) (cmd : Cmd Span) (s : List ℕ)
    → skip s ≡ s
    → starts (60 ∷ 62 ∷ []) s ≡ false
    → parseredirs (suc fuel) cmd s ≡ ok cmd s
unfolding parseredirs peek
parseredirs-none fuel cmd s t none =
    let st : starts (60 ∷ 62 ∷ []) (skip s) ≡ false = ap (starts (60 ∷ 62 ∷ [])) t ∙ none in
    rw (st, parseredirs) (ap (ok cmd) t)

pub Yields-eq :
    {m n : Parse (Cmd Span)} (c : Cmd (List ℕ)) (t : List ℕ) → m ≡ n → Yields n c t → Yields m c t
Yields-eq c t e h = rw e h

zero_redirs :
    (cmd : Cmd Span) (s : List ℕ) (c : Cmd (List ℕ)) (t : List ℕ)
    → Yields (parseredirs zero cmd s) c t
unfolding parseredirs
zero_redirs cmd s c t = tt

no_sign : (c : ℕ) → strchr after_exec c ≡ true → strchr (60 ∷ 62 ∷ []) c ≡ false
unfolding strchr
no_sign c h = ground arith

pub parseredirs-redirs :
    (fuel : ℕ) (rs : List (List ℕ × Bool)) (cmd : Cmd Span) (c : Cmd (List ℕ)) (t : List ℕ)
    → Files rs
    → Stops after_exec t
    → view cmd ≡ c
    → Yields (parseredirs fuel cmd (redirs rs t)) (wraps c rs) t
unfolding redirs wraps
parseredirs-redirs zero rs cmd c t files stop e = zero_redirs cmd (redirs rs t) (wraps c rs) t
parseredirs-redirs (suc fuel) [] cmd c t files stop e =
    Yields-eq c t
      (parseredirs-none fuel cmd t (Stops-skip t stop)
        (Stops-starts after_exec (60 ∷ 62 ∷ []) t no_sign stop))
      (e, refl)
parseredirs-redirs (suc fuel) ((file, out) ∷ rs) cmd c t (word, files) stop e =
    let k = redirs rs t in
    let (w, x, r) = gettoken-Word file k word (redirs-skip rs t (Stops-skip t stop)) in
    Yields-eq (wraps c ((file, out) ∷ rs)) t
      (parseredirs-one fuel cmd file k out word (redirs-skip rs t (Stops-skip t stop)))
      (parseredirs-redirs fuel rs
        (redirect cmd (if out then 62 else 60) (gettoken (file ++ (32 ∷ k))).1)
        (redir c file (mode_of out) (fd_of out)) t files stop
        (redirect-view cmd (gettoken (file ++ (32 ∷ k))).1 out e x))
