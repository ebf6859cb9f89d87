-- ===== src/Sh/Simple.antt =====
-- The parser on the text of a simple command, with its redirections.
use cserl_bootcamp.Common.{
  ℕ, zero, suc, ◌+◌, ◌<◌, ◌≡◌, refl, sym, ap, ◌∙◌, Bool, true, false, List, [], ◌∷◌, ◌++◌, ◌==◌,
  leb, ltb, inl, inr, length, Bool-cases, arith,
}
use cserl_bootcamp.Sh.{
  strchr, is_word, skip, Span, lex, gettoken, after_token, starts, Cmd, exec, redir, pipe, list,
  back, Parse, ok, bind, max_args, peek, add_arg, parseredirs, args,
}
use cserl_bootcamp.Sh.Scan.{append_assoc, skip-same}
use cserl_bootcamp.Sh.Print.{
  mark, words, redirection, wrapped, print, Word, Words, Valid, view, view-add_arg, gettoken-Word,
  skip-Word, starts-Word,
}
use cserl_bootcamp.Sh.Redirs.{
  Yields, Yields-bind, Stops, after_exec, Stops-skip, redirs, wraps, Files, redirs-skip,
  parseredirs-none, Yields-eq, parseredirs-redirs,
}

starts-stop : (x : ℕ) (s : List ℕ) → strchr after_exec x ≡ true → starts after_exec (x ∷ s) ≡ true
unfolding starts strchr
starts-stop x s h = ground arith

end_nil :
    (fuel argc : ℕ) (cmd : Cmd Span) (c : Cmd (List ℕ))
    → view cmd ≡ c
    → Yields (args (suc fuel) argc cmd []) c []
unfolding args peek skip starts gettoken lex
end_nil fuel argc cmd c e = (e, refl)

args_end :
    (fuel argc : ℕ) (cmd : Cmd Span) (c : Cmd (List ℕ)) (t : List ℕ)
    → Stops after_exec t
    → view cmd ≡ c
    → Yields (args fuel argc cmd t) c t
unfolding args peek
args_end zero argc cmd c t stop e = tt
args_end (suc fuel) argc cmd c [] stop e = end_nil fuel argc cmd c e
args_end (suc fuel) argc cmd c (x ∷ s) stop e =
    let t : skip (x ∷ s) ≡ x ∷ s = Stops-skip (x ∷ s) stop in
    let st : starts after_exec (skip (x ∷ s)) ≡ true =
      ap (starts after_exec) t ∙ starts-stop x s stop in
    rw (st, args) (e, t)

args-more :
    (fuel argc : ℕ) (cmd : Cmd Span) (s : List ℕ)
    → starts after_exec (skip s) ≡ false
    → (gettoken (skip s)).0 ≡ 97
    → leb max_args (suc argc) ≡ false
    → args (suc fuel) argc cmd s
      ≡ bind
          (parseredirs fuel (add_arg (gettoken (skip s)).1 cmd) (after_token (skip s)))
          (args fuel (suc argc))
unfolding args peek
args-more fuel argc cmd s st w few =
    let nonzero : ((gettoken (skip s)).0 == 0) ≡ false = rw w refl in
    let word : ((gettoken (skip s)).0 == 97) ≡ true = rw w refl in
    rw (st, nonzero, word, few, args) refl

is_word-not_after : (c : ℕ) → is_word c ≡ true → strchr after_exec c ≡ false
unfolding is_word strchr
is_word-not_after c h = ground arith

args_step :
    (fuel argc : ℕ) (cmd : Cmd Span) (w k : List ℕ)
    → Word w
    → skip k ≡ k
    → suc argc < max_args
    → args (suc fuel) argc cmd (w ++ (32 ∷ k))
      ≡ bind (parseredirs fuel (add_arg (gettoken (w ++ (32 ∷ k))).1 cmd) k) (args fuel (suc argc))
args_step fuel argc cmd w k word t few =
    let s = w ++ (32 ∷ k) in
    let (tok, x, r) = gettoken-Word w k word t in
    let same : skip s ≡ s = skip-Word w (32 ∷ k) word in
    let st = starts-Word after_exec w (32 ∷ k) word is_word-not_after in
    args-more fuel argc cmd s (ap (starts after_exec) same ∙ st)
      (ap (λ v. (gettoken v).0) same ∙ tok) (ground arith)
    ∙ ap
        (λ v.
          bind (parseredirs fuel (add_arg (gettoken v).1 cmd) (after_token v))
            (args fuel (suc argc)))
        same
    ∙ ap (λ v. bind (parseredirs fuel (add_arg (gettoken s).1 cmd) v) (args fuel (suc argc))) r

append-nil : (xs : List (List ℕ)) → xs ++ [] ≡ xs
append-nil [] = refl
append-nil (x ∷ xs) = ap (λ l. x ∷ l) (append-nil xs)

zero-bind :
    (cmd : Cmd Span) (s : List ℕ) (f : Cmd Span → List ℕ → Parse (Cmd Span)) (c : Cmd (List ℕ))
    (t : List ℕ)
    → Yields (bind (parseredirs zero cmd s) f) c t
unfolding parseredirs bind
zero-bind cmd s f c t = tt

pub words-skip :
    (argv : List (List ℕ)) (k : List ℕ)
    → Words argv
    → skip k ≡ k
    → skip (words argv k) ≡ words argv k
unfolding words
words-skip [] k ws t = t
words-skip (w ∷ argv) k (word, ws) t = skip-Word w (32 ∷ words argv k) word

redirection-skip :
    (file : List ℕ) (mode : ℕ) (k : List ℕ)
    → skip (redirection file mode k) ≡ redirection file mode k
unfolding redirection strchr
redirection-skip file mode k = elim (Bool-cases (mode == 0)) [
  | inl read ↦ rw read (skip-same _ refl)
  | inr write ↦ rw write (skip-same _ refl)
]

wrapped-skip :
    (b : Bool) (body : List ℕ → List ℕ) (k : List ℕ)
    → skip (body k) ≡ body k
    → skip (wrapped b body k) ≡ wrapped b body k
unfolding wrapped strchr
wrapped-skip true body k t = skip-same _ refl
wrapped-skip false body k t = t

is_word-no_sign : (c : ℕ) → is_word c ≡ true → strchr (60 ∷ 62 ∷ []) c ≡ false
unfolding is_word strchr
is_word-no_sign c h = ground arith

parseredirs-Word :
    (fuel : ℕ) (cmd : Cmd Span) (w k : List ℕ)
    → Word w
    → parseredirs (suc fuel) cmd (w ++ (32 ∷ k)) ≡ ok cmd (w ++ (32 ∷ k))
parseredirs-Word fuel cmd w k word =
    parseredirs-none fuel cmd (w ++ (32 ∷ k)) (skip-Word w (32 ∷ k) word)
      (starts-Word (60 ∷ 62 ∷ []) w (32 ∷ k) word is_word-no_sign)

args-zero :
    (argc : ℕ) (cmd : Cmd Span) (s : List ℕ) (c : Cmd (List ℕ)) (t : List ℕ)
    → Yields (bind (ok cmd s) (args zero argc)) c t
unfolding args bind
args-zero argc cmd s c t = tt

add_exec : (w : List ℕ) (done : List (List ℕ)) → add_arg w (exec done) ≡ exec (done ++ (w ∷ []))
unfolding add_arg
add_exec w done = refl

-- The arguments of a simple command, from the first.
pub args-words :
    (f g argc : ℕ) (argv done : List (List ℕ)) (rs : List (List ℕ × Bool)) (cmd : Cmd Span)
    (t : List ℕ)
    → Words argv
    → argc + length argv < max_args
    → Files rs
    → Stops after_exec t
    → view cmd ≡ exec done
    → Yields
        (bind (parseredirs g cmd (words argv (redirs rs t))) (args f argc))
        (wraps (exec (done ++ argv)) rs)
        t
unfolding words bind
args-words f g argc [] done rs cmd t ws few files stop e =
    let all : exec (done ++ []) ≡ exec done = ap exec (append-nil done) in
    rw all (
      Yields-bind (parseredirs g cmd (redirs rs t)) (args f argc) (wraps (exec done) rs)
        (wraps (exec done) rs) t t (parseredirs-redirs g rs cmd (exec done) t files stop e)
        (λ ret v. args_end f argc ret (wraps (exec done) rs) t stop v))
args-words f zero argc (w ∷ argv) done rs cmd t ws few files stop e =
    zero-bind cmd (w ++ (32 ∷ words argv (redirs rs t))) (args f argc)
      (wraps (exec (done ++ (w ∷ argv))) rs) t
args-words zero (suc g) argc (w ∷ argv) done rs cmd t (word, ws) few files stop e =
    let k = words argv (redirs rs t) in
    Yields-eq (wraps (exec (done ++ (w ∷ argv))) rs) t
      (ap (λ m. bind m (args zero argc)) (parseredirs-Word g cmd w k word))
      (args-zero argc cmd (w ++ (32 ∷ k)) (wraps (exec (done ++ (w ∷ argv))) rs) t)
args-words (suc f) (suc g) argc (w ∷ argv) done rs cmd t (word, ws) few files stop e =
    let k = words argv (redirs rs t) in
    let p = (gettoken (w ++ (32 ∷ k))).1 in
    let blank : skip k ≡ k =
      words-skip argv (redirs rs t) ws (redirs-skip rs t (Stops-skip t stop)) in
    let (tok, x, r) = gettoken-Word w k word blank in
    let shift : (done ++ (w ∷ [])) ++ argv ≡ done ++ (w ∷ argv) = append_assoc done (w ∷ []) argv in
    let added : view (add_arg p cmd) ≡ exec (done ++ (w ∷ [])) =
      view-add_arg p cmd ∙ ap (λ v. add_arg v (view cmd)) x ∙ ap (add_arg w) e ∙ add_exec w done in
    Yields-eq (wraps (exec (done ++ (w ∷ argv))) rs) t
      (ap (λ m. bind m (args (suc f) argc)) (parseredirs-Word g cmd w k word)
        ∙ args_step f argc cmd w k word blank (omega arith))
      (rw (sym shift) (
        args-words f f (suc argc) argv (done ++ (w ∷ [])) rs (add_arg p cmd) t ws (omega arith)
          files stop added))

pub print-skip :
    (level : ℕ) (c : Cmd (List ℕ)) (k : List ℕ)
    → Valid c
    → skip k ≡ k
    → skip (print level c k) ≡ print level c k
unfolding print strchr
print-skip level (exec argv) k v t = words-skip argv k v.0 t
print-skip level (redir cmd file mode fd) k (v, word, how) t =
    print-skip 3 cmd (redirection file mode k) v (redirection-skip file mode k)
print-skip level (pipe left right) k v t =
    wrapped-skip (ltb 2 level) (λ k. print 3 left (mark 124 (print 2 right k))) k
      (print-skip 3 left (mark 124 (print 2 right k)) v.0 (skip-same _ refl))
print-skip level (list left right) k v t =
    wrapped-skip (ltb 0 level) (λ k. print 1 left (mark 59 (print 0 right k))) k
      (print-skip 1 left (mark 59 (print 0 right k)) v.0 (skip-same _ refl))
print-skip level (back cmd) k v t =
    wrapped-skip (ltb 1 level) (λ k. print 1 cmd (mark 38 k)) k
      (print-skip 1 cmd (mark 38 k) v (skip-same _ refl))
