-- ===== src/Sh/Levels.antt =====
-- The parser on the text of a command at the levels of `parsepipe` and `parseline`.
use cserl_bootcamp.Common.{
  ℕ, zero, suc, ◌≡◌, refl, ap, ◌∙◌, Bool, true, false, List, [], ◌∷◌, ◌==◌, inl, inr, Bool-cases,
  arith,
}
use cserl_bootcamp.Sh.{
  whitespace, strchr, skip, Span, lex, after_token, starts, Cmd, pipe, list, back, Parse, ok, panic,
  spent, bind, peek, backs, parseline, parsepipe, parseexec,
}
use cserl_bootcamp.Sh.Scan.{skip-same}
use cserl_bootcamp.Sh.Print.{mark, print, Valid, view, gettoken-mark}
use cserl_bootcamp.Sh.Redirs.{
  Yields, Yields-bind, Yields-eq, Stops, after_exec, after_pipe, after_backs, after_line, pipe→exec,
  backs→pipe, line→backs, Stops-skip, Stops-starts, redirs, wraps, Files,
}
use cserl_bootcamp.Sh.Simple.{print-skip}

abbrev amps : ℕ → List ℕ → List ℕ
amps zero t = t
amps (suc n) t = mark 38 (amps n t)

abbrev in_back : ℕ → Cmd (List ℕ) → Cmd (List ℕ)
in_back zero c = c
in_back (suc n) c = in_back n (back c)

abbrev pub AtExec : Cmd (List ℕ) → Type 0
AtExec c =
    (fuel : ℕ) (rs : List (List ℕ × Bool)) (t : List ℕ)
    → Files rs
    → Stops after_exec t
    → Yields (parseexec fuel (print 3 c (redirs rs t))) (wraps c rs) t

abbrev pub AtPipe : Cmd (List ℕ) → Type 0
AtPipe c = (fuel : ℕ) (t : List ℕ) → Stops after_pipe t → Yields (parsepipe fuel (print 2 c t)) c t

abbrev pub AtBacks : Cmd (List ℕ) → Type 0
AtBacks c =
    (fuel g n : ℕ) (t : List ℕ)
    → Stops after_backs t
    → Yields (bind (parsepipe fuel (print 1 c (amps n t))) (backs g)) (in_back n c) t

abbrev pub AtLine : Cmd (List ℕ) → Type 0
AtLine c = (fuel : ℕ) (t : List ℕ) → Stops after_line t → Yields (parseline fuel (print 0 c t)) c t

-- What `parsepipe` and `parseline` do after their first command.
abbrev joined :
    List ℕ
    → (Cmd Span → Cmd Span → Cmd Span)
    → (List ℕ → Parse (Cmd Span))
    → Cmd Span
    → List ℕ
    → Parse (Cmd Span)
joined toks join parse cmd s = elim (starts toks (skip s)) [
  | false ↦ ok cmd (skip s)
  | true ↦ bind (parse (after_token (skip s))) λ right s. ok (join cmd right) s
]

joined_none :
    (toks : List ℕ) (join : Cmd Span → Cmd Span → Cmd Span) (parse : List ℕ → Parse (Cmd Span))
    (cmd : Cmd Span) (c : Cmd (List ℕ)) (t : List ℕ)
    → skip t ≡ t
    → starts toks t ≡ false
    → view cmd ≡ c
    → Yields (joined toks join parse cmd t) c t
joined_none toks join parse cmd c t blank none e =
    let st : starts toks (skip t) ≡ false = ap (starts toks) blank ∙ none in
    rw (st, Yields) (e, blank)

-- A token of one byte is seen and taken.
seen :
    (x : ℕ) (toks k : List ℕ)
    → strchr whitespace x ≡ false
    → lex (mark x k) ≡ (x, 32 ∷ k)
    → starts toks (mark x k) ≡ true
    → skip k ≡ k
    → (starts toks (skip (mark x k)) ≡ true) × (after_token (skip (mark x k)) ≡ k)
seen x toks k dark l st blank =
    let same : skip (mark x k) ≡ mark x k = skip-same (mark x k) dark in
    let (tok, after) = gettoken-mark x k dark l blank in
    (ap (starts toks) same ∙ st, ap after_token same ∙ after)

joined_more :
    (toks : List ℕ) (join : Cmd Span → Cmd Span → Cmd Span)
    (join' : Cmd (List ℕ) → Cmd (List ℕ) → Cmd (List ℕ)) (parse : List ℕ → Parse (Cmd Span))
    (cmd : Cmd Span) (c d : Cmd (List ℕ)) (s k t : List ℕ)
    → ((a b : Cmd Span) → view (join a b) ≡ join' (view a) (view b))
    → (starts toks (skip s) ≡ true) × (after_token (skip s) ≡ k)
    → view cmd ≡ c
    → Yields (parse k) d t
    → Yields (joined toks join parse cmd s) (join' c d) t
joined_more toks join join' parse cmd c d s k t views (st, after) e h =
    rw (st, Yields)
      (Yields-bind (parse (after_token (skip s))) _ d (join' c d) t t
        (Yields-eq d t (ap parse after) h)
        (λ right f. (views cmd right ∙ ap (λ a. join' a (view right)) e ∙ ap (join' c) f, refl)))

abbrev pub Seen : ℕ → List ℕ → Type 0
Seen x k = (starts (x ∷ []) (skip (mark x k)) ≡ true) × (after_token (skip (mark x k)) ≡ k)

module _ (k : List ℕ) (blank : skip k ≡ k) where
  pub see_open : Seen 40 k
  unfolding strchr lex starts
  see_open = seen 40 (40 ∷ []) k refl refl refl blank

  pub see_close : Seen 41 k
  unfolding strchr lex starts
  see_close = seen 41 (41 ∷ []) k refl refl refl blank

  see_and : Seen 38 k
  unfolding strchr lex starts
  see_and = seen 38 (38 ∷ []) k refl refl refl blank

  see_semicolon : Seen 59 k
  unfolding strchr lex starts
  see_semicolon = seen 59 (59 ∷ []) k refl refl refl blank

  see_bar : Seen 124 k
  unfolding strchr lex starts
  see_bar = seen 124 (124 ∷ []) k refl refl refl blank

apart :
    (cs : List ℕ) (x c : ℕ) → strchr cs x ≡ false → strchr cs c ≡ true → strchr (x ∷ []) c ≡ false
unfolding strchr
apart cs x c h k = elim (Bool-cases (x == c)) [
  | inl same ↦ let e : x ≡ c = ground arith in absurd (ground (arith, rw e at h))
  | inr other ↦ rw other refl
]

-- A token that is not there is not seen.
pub Stops-other :
    (cs : List ℕ) (x : ℕ) (t : List ℕ)
    → strchr cs x ≡ false
    → Stops cs t
    → starts (x ∷ []) t ≡ false
Stops-other cs x t other stop = Stops-starts cs (x ∷ []) t (λ c h. apart cs x c other h) stop

pub pipe_of_exec :
    (c : Cmd (List ℕ)) → ((t : List ℕ) → print 2 c t ≡ print 3 c t) → AtExec c → AtPipe c
unfolding parsepipe peek redirs wraps strchr
pipe_of_exec c same h zero t stop = tt
pipe_of_exec c same h (suc fuel) t stop = rw (same t) (
    Yields-bind (parseexec fuel (print 3 c t)) _ c c t t (h fuel [] t tt (pipe→exec t stop))
      (λ cmd e.
        joined_none (124 ∷ []) pipe (parsepipe fuel) cmd c t (Stops-skip t (pipe→exec t stop))
          (Stops-other after_pipe 124 t refl stop) e))

pub pipe_of_pipe : (l r : Cmd (List ℕ)) → Valid r → AtExec l → AtPipe r → AtPipe (pipe l r)
unfolding parsepipe peek redirs wraps print view strchr
pipe_of_pipe l r v hl hr zero t stop = tt
pipe_of_pipe l r v hl hr (suc fuel) t stop =
    let k = print 2 r t in
    let blank : skip k ≡ k = print-skip 2 r t v (Stops-skip t (pipe→exec t stop)) in
    Yields-bind (parseexec fuel (print 3 l (mark 124 k))) _ l (pipe l r) (mark 124 k) t
      (hl fuel [] (mark 124 k) tt refl)
      (λ cmd e.
        joined_more (124 ∷ []) pipe pipe (parsepipe fuel) cmd l r (mark 124 k) k t (λ a b. refl)
          (see_bar k blank) e (hr fuel t stop))

amps-Stops : (n : ℕ) (t : List ℕ) → Stops after_backs t → Stops after_pipe (amps n t)
unfolding strchr
amps-Stops zero t stop = backs→pipe t stop
amps-Stops (suc n) t stop = refl

amps-skip : (n : ℕ) (t : List ℕ) → Stops after_backs t → skip (amps n t) ≡ amps n t
amps-skip n t stop = Stops-skip (amps n t) (pipe→exec (amps n t) (amps-Stops n t stop))

backs-more :
    (g : ℕ) (cmd : Cmd Span) (s u : List ℕ)
    → starts (38 ∷ []) (skip s) ≡ true
    → after_token (skip s) ≡ u
    → backs (suc g) cmd s ≡ backs g (back cmd) u
unfolding backs peek
backs-more g cmd s u st after = rw (st, backs) (ap (backs g (back cmd)) after)

backs-amps :
    (g n : ℕ) (cmd : Cmd Span) (c : Cmd (List ℕ)) (t : List ℕ)
    → Stops after_backs t
    → view cmd ≡ c
    → Yields (backs g cmd (amps n t)) (in_back n c) t
unfolding backs peek view strchr
backs-amps zero n cmd c t stop e = tt
backs-amps (suc g) zero cmd c t stop e =
    let blank : skip t ≡ t = amps-skip 0 t stop in
    let st : starts (38 ∷ []) (skip t) ≡ false =
      ap (starts (38 ∷ [])) blank ∙ Stops-other after_backs 38 t refl stop in
    rw (st, backs, Yields) (e, blank)
backs-amps (suc g) (suc n) cmd c t stop e =
    let (st, after) = see_and (amps n t) (amps-skip n t stop) in
    Yields-eq (in_back (suc n) c) t (backs-more g cmd (mark 38 (amps n t)) (amps n t) st after)
      (backs-amps g n (back cmd) (back c) t stop (ap back e))

pub backs_of_pipe :
    (c : Cmd (List ℕ)) → ((t : List ℕ) → print 1 c t ≡ print 2 c t) → AtPipe c → AtBacks c
backs_of_pipe c same h fuel g n t stop = rw (same (amps n t)) (
    Yields-bind (parsepipe fuel (print 2 c (amps n t))) (backs g) c (in_back n c) (amps n t) t
      (h fuel (amps n t) (amps-Stops n t stop)) (λ cmd e. backs-amps g n cmd c t stop e))

pub backs_of_back : (c : Cmd (List ℕ)) → AtBacks c → AtBacks (back c)
unfolding print
backs_of_back c h fuel g n t stop = h fuel g (suc n) t stop

bind-bind :
    (m : Parse (Cmd Span)) (f g : Cmd Span → List ℕ → Parse (Cmd Span))
    → bind m (λ cmd s. bind (f cmd s) g) ≡ bind (bind m f) g
unfolding bind
bind-bind (ok cmd s) f g = refl
bind-bind (panic p) f g = refl
bind-bind spent f g = refl

parseline_eq :
    (fuel : ℕ) (s : List ℕ)
    → parseline (suc fuel) s
      ≡ bind (bind (parsepipe fuel s) (backs fuel)) (joined (59 ∷ []) list (parseline fuel))
unfolding parseline peek
parseline_eq fuel s = bind-bind (parsepipe fuel s) (backs fuel) _

line_zero : (s : List ℕ) (c : Cmd (List ℕ)) (t : List ℕ) → Yields (parseline zero s) c t
unfolding parseline
line_zero s c t = tt

pub line_of_backs :
    (c : Cmd (List ℕ)) → ((t : List ℕ) → print 0 c t ≡ print 1 c t) → AtBacks c → AtLine c
unfolding strchr
line_of_backs c same h zero t stop = line_zero (print 0 c t) c t
line_of_backs c same h (suc fuel) t stop = rw (same t) (
    Yields-eq c t (parseline_eq fuel (print 1 c t)) (
      Yields-bind (bind (parsepipe fuel (print 1 c t)) (backs fuel)) _ c c t t
        (h fuel fuel 0 t (line→backs t stop))
        (λ cmd e.
          joined_none (59 ∷ []) list (parseline fuel) cmd c t (amps-skip 0 t (line→backs t stop))
            (Stops-other after_line 59 t refl stop) e)))

pub line_of_list : (l r : Cmd (List ℕ)) → Valid r → AtBacks l → AtLine r → AtLine (list l r)
unfolding print view strchr
line_of_list l r v hl hr zero t stop = line_zero (print 0 (list l r) t) (list l r) t
line_of_list l r v hl hr (suc fuel) t stop =
    let k = print 0 r t in
    let blank : skip k ≡ k = print-skip 0 r t v (amps-skip 0 t (line→backs t stop)) in
    Yields-eq (list l r) t (parseline_eq fuel (print 1 l (mark 59 k))) (
      Yields-bind (bind (parsepipe fuel (print 1 l (mark 59 k))) (backs fuel)) _ l (list l r)
        (mark 59 k) t (hl fuel fuel 0 (mark 59 k) refl)
        (λ cmd e.
          joined_more (59 ∷ []) list list (parseline fuel) cmd l r (mark 59 k) k t (λ a b. refl)
            (see_semicolon k blank) e (hr fuel t stop)))
