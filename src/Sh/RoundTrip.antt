-- ===== src/Sh/RoundTrip.antt =====
-- The parser on the text of any command: it reads the command back.
use cserl_bootcamp.Common.{
  ℕ, zero, suc, ◌+◌, ◌*◌, ◌≡◌, refl, ap, ◌∙◌, Bool, true, false, List, [], ◌∷◌, ◌++◌, ◌⊎◌, inl, inr,
  length, arith,
}
use cserl_bootcamp.Sh.{
  strchr, is_word, skip, Span, after_token, starts, Cmd, exec, redir, pipe, list, back, Parse, ok,
  panic, spent, missing_paren, bind, peek, parseredirs, args, parseline, parseexec, parseblock,
  parsecmd, o_rdonly, o_wronly_create, nulterminate,
}
use cserl_bootcamp.Sh.Scan.{skip-same}
use cserl_bootcamp.Sh.Print.{
  mark, words, redirection, wrapped, print, Word, Words, Valid, view, starts-Word,
}
use cserl_bootcamp.Sh.Redirs.{
  Yields, Yields-bind, Yields-eq, Stops, after_exec, Stops-skip, mode_of, fd_of, redirs, wraps,
  Files, redirs-skip, parseredirs-redirs,
}
use cserl_bootcamp.Sh.Simple.{args-words, words-skip, print-skip}
use cserl_bootcamp.Sh.Total.{Ensures, Reads, parseline-total}
use cserl_bootcamp.Sh.Levels.{
  AtExec, AtPipe, AtBacks, AtLine, Seen, see_open, see_close, Stops-other, pipe_of_exec,
  pipe_of_pipe, backs_of_pipe, backs_of_back, line_of_backs, line_of_list,
}

exec_eq :
    (fuel : ℕ) (s : List ℕ)
    → starts (40 ∷ []) (skip s) ≡ false
    → parseexec (suc fuel) s ≡ bind (parseredirs fuel (exec []) (skip s)) (args fuel 0)
unfolding parseexec peek
exec_eq fuel s st = rw (st, parseexec) refl

is_word-not_open : (c : ℕ) → is_word c ≡ true → strchr (40 ∷ []) c ≡ false
unfolding is_word strchr
is_word-not_open c h = ground arith

not_open :
    (argv : List (List ℕ)) (rs : List (List ℕ × Bool)) (t : List ℕ)
    → Words argv
    → Stops after_exec t
    → starts (40 ∷ []) (words argv (redirs rs t)) ≡ false
unfolding words redirs redirection strchr starts
not_open [] [] t ws stop = Stops-other after_exec 40 t refl stop
not_open [] ((file, true) ∷ rs) t ws stop = refl
not_open [] ((file, false) ∷ rs) t ws stop = refl
not_open (w ∷ argv) rs t (word, ws) stop =
    starts-Word (40 ∷ []) w (32 ∷ words argv (redirs rs t)) word is_word-not_open

exec_zero : (s : List ℕ) (c : Cmd (List ℕ)) (t : List ℕ) → Yields (parseexec zero s) c t
unfolding parseexec
exec_zero s c t = tt

exec_of_exec : (argv : List (List ℕ)) → Valid (exec argv) → AtExec (exec argv)
unfolding print view
exec_of_exec argv v zero rs t files stop = exec_zero _ _ t
exec_of_exec argv (ws, few) (suc fuel) rs t files stop =
    let s = words argv (redirs rs t) in
    let blank : skip s ≡ s =
      words-skip argv (redirs rs t) ws (redirs-skip rs t (Stops-skip t stop)) in
    let st : starts (40 ∷ []) (skip s) ≡ false =
      ap (starts (40 ∷ [])) blank ∙ not_open argv rs t ws stop in
    Yields-eq (wraps (exec argv) rs) t
      (exec_eq fuel s st ∙ ap (λ u. bind (parseredirs fuel (exec []) u) (args fuel 0)) blank)
      (args-words fuel fuel 0 argv [] rs (exec []) t ws (omega arith) files stop refl)

exec_of_redir :
    (c : Cmd (List ℕ)) (file : List ℕ) (out : Bool)
    → Word file
    → AtExec c
    → AtExec (redir c file (mode_of out) (fd_of out))
unfolding print redirs wraps
exec_of_redir c file out word h fuel rs t files stop =
    h fuel ((file, out) ∷ rs) t (word, files) stop

-- What `parseblock` does after the line in it.
abbrev closing : ℕ → Cmd Span → List ℕ → Parse (Cmd Span)
closing fuel cmd s = elim (starts (41 ∷ []) (skip s)) [
  | false ↦ panic missing_paren
  | true ↦ parseredirs fuel cmd (after_token (skip s))
]

close_block :
    (fuel : ℕ) (cmd : Cmd Span) (c : Cmd (List ℕ)) (s : List ℕ) (rs : List (List ℕ × Bool))
    (t : List ℕ)
    → (starts (41 ∷ []) (skip s) ≡ true) × (after_token (skip s) ≡ redirs rs t)
    → Files rs
    → Stops after_exec t
    → view cmd ≡ c
    → Yields (closing fuel cmd s) (wraps c rs) t
close_block fuel cmd c s rs t (st, after) files stop e =
    rw (st, Yields)
      (Yields-eq (wraps c rs) t (ap (parseredirs fuel cmd) after)
        (parseredirs-redirs fuel rs cmd c t files stop e))

exec_block :
    (fuel : ℕ) (s : List ℕ)
    → starts (40 ∷ []) (skip s) ≡ true
    → parseexec (suc fuel) s ≡ parseblock fuel (skip s)
unfolding parseexec peek
exec_block fuel s st = rw (st, parseexec) refl

block_zero : (s : List ℕ) (c : Cmd (List ℕ)) (t : List ℕ) → Yields (parseblock zero s) c t
unfolding parseblock
block_zero s c t = tt

block_eq :
    (fuel : ℕ) (s u : List ℕ)
    → starts (40 ∷ []) (skip s) ≡ true
    → after_token (skip s) ≡ u
    → parseblock (suc fuel) s ≡ bind (parseline fuel u) (closing fuel)
unfolding parseblock peek
block_eq fuel s u st after =
    rw (st, parseblock) (ap (λ v. bind (parseline fuel v) (closing fuel)) after)

in_block :
    (fuel : ℕ) (c : Cmd (List ℕ)) (k : List ℕ) (rs : List (List ℕ × Bool)) (t : List ℕ)
    → Seen 40 k
    → Seen 41 (redirs rs t)
    → Files rs
    → Stops after_exec t
    → ((fuel : ℕ) → Yields (parseline fuel k) c (mark 41 (redirs rs t)))
    → Yields (parseblock fuel (mark 40 k)) (wraps c rs) t
in_block zero c k rs t (st, after) shut files stop h = block_zero (mark 40 k) (wraps c rs) t
in_block (suc fuel) c k rs t (st, after) shut files stop h =
    Yields-eq (wraps c rs) t (block_eq fuel (mark 40 k) k st after) (
      Yields-bind (parseline fuel k) _ c (wraps c rs) (mark 41 (redirs rs t)) t (h fuel)
        (λ cmd e. close_block fuel cmd c (mark 41 (redirs rs t)) rs t shut files stop e))

close_stops : strchr (41 ∷ []) 41 ≡ true
unfolding strchr
close_stops = refl

open_dark : (k : List ℕ) → skip (mark 40 k) ≡ mark 40 k
unfolding strchr
open_dark k = skip-same (mark 40 k) refl

close_dark : (k : List ℕ) → skip (mark 41 k) ≡ mark 41 k
unfolding strchr
close_dark k = skip-same (mark 41 k) refl

exec_of_line :
    (c : Cmd (List ℕ))
    → Valid c
    → ((t : List ℕ) → print 3 c t ≡ mark 40 (print 0 c (mark 41 t)))
    → AtLine c
    → AtExec c
exec_of_line c v same h zero rs t files stop = exec_zero _ _ t
exec_of_line c v same h (suc fuel) rs t files stop =
    let k = print 0 c (mark 41 (redirs rs t)) in
    let rest : skip (redirs rs t) ≡ redirs rs t = redirs-skip rs t (Stops-skip t stop) in
    let blank : skip k ≡ k = print-skip 0 c (mark 41 (redirs rs t)) v (close_dark (redirs rs t)) in
    let dark : skip (mark 40 k) ≡ mark 40 k = open_dark k in
    let (st, after) = see_open k blank in
    rw (same (redirs rs t)) (
      Yields-eq (wraps c rs) t (exec_block fuel (mark 40 k) st ∙ ap (parseblock fuel) dark) (
        in_block fuel c k rs t (see_open k blank) (see_close (redirs rs t) rest) files stop
          (λ g. h g (mark 41 (redirs rs t)) close_stops)))

from_exec :
    (c : Cmd (List ℕ))
    → ((t : List ℕ) → print 2 c t ≡ print 3 c t)
    → ((t : List ℕ) → print 1 c t ≡ print 2 c t)
    → ((t : List ℕ) → print 0 c t ≡ print 1 c t)
    → AtExec c
    → AtExec c × AtPipe c × AtBacks c × AtLine c
from_exec c p b l e =
    let pipe_level = pipe_of_exec c p e in
    let back_level = backs_of_pipe c b pipe_level in
    (e, pipe_level, back_level, line_of_backs c l back_level)

exec_of_redir_valid :
    (c : Cmd (List ℕ)) (file : List ℕ) (mode fd : ℕ)
    → Word file
    → ((mode ≡ o_rdonly) × (fd ≡ 0)) ⊎ ((mode ≡ o_wronly_create) × (fd ≡ 1))
    → AtExec c
    → AtExec (redir c file mode fd)
exec_of_redir_valid c file mode fd word (inl (m, f)) h =
    rw (m, f) (exec_of_redir c file false word h)
exec_of_redir_valid c file mode fd word (inr (m, f)) h =
    rw (m, f) (exec_of_redir c file true word h)

-- The text of a command is read back, at every level.
levels : (c : Cmd (List ℕ)) → Valid c → AtExec c × AtPipe c × AtBacks c × AtLine c
unfolding print wrapped
levels (exec argv) v =
    from_exec (exec argv) (λ t. refl) (λ t. refl) (λ t. refl) (exec_of_exec argv v)
levels (redir cmd file mode fd) (v, word, how) =
    from_exec (redir cmd file mode fd) (λ t. refl) (λ t. refl) (λ t. refl)
      (exec_of_redir_valid cmd file mode fd word how (levels cmd v).0)
levels (pipe left right) v =
    let p = pipe_of_pipe left right v.1 (levels left v.0).0 (levels right v.1).1 in
    let b = backs_of_pipe (pipe left right) (λ t. refl) p in
    let l = line_of_backs (pipe left right) (λ t. refl) b in
    (exec_of_line (pipe left right) v (λ t. refl) l, p, b, l)
levels (list left right) v =
    let l = line_of_list left right v.1 (levels left v.0).2 (levels right v.1).3 in
    let e = exec_of_line (list left right) v (λ t. refl) l in
    let p = pipe_of_exec (list left right) (λ t. refl) e in
    (e, p, backs_of_pipe (list left right) (λ t. refl) p, l)
levels (back cmd) v =
    let b = backs_of_back cmd (levels cmd v).2 in
    let l = line_of_backs (back cmd) (λ t. refl) b in
    let e = exec_of_line (back cmd) v (λ t. refl) l in
    (e, pipe_of_exec (back cmd) (λ t. refl) e, b, l)

both :
    (P : Cmd Span → List ℕ → Type 0) (m : Parse (Cmd Span)) (c : Cmd (List ℕ)) (t : List ℕ)
    → Ensures P m
    → Yields m c t
    → (cmd : Cmd Span) × (m ≡ ok cmd t) × (view cmd ≡ c)
both P (ok cmd s) c t h (e, r) = (cmd, ap (ok cmd) r, e)
both P (panic p) c t h y = absurd y
both P spent c t h y = absurd h

parsecmd-of_line :
    (line : List ℕ) (cmd : Cmd Span)
    → parseline (4 * length line + 4) line ≡ ok cmd []
    → parsecmd line ≡ ok (cmd, nulterminate line cmd (line ++ (0 ∷ []))) []
unfolding parsecmd bind skip
parsecmd-of_line line cmd run = rw (run, parsecmd) refl

-- `parsecmd` reads the text of every command that the grammar of the shell has, of any depth: it
-- has the command itself, with the words at its pointers, and panics at nothing.
pub parsecmd-print :
    (c : Cmd (List ℕ))
    → Valid c
    → (cmd : Cmd Span) × (buf : List ℕ) × (parsecmd (print 0 c []) ≡ ok (cmd, buf) [])
      × (view cmd ≡ c)
parsecmd-print c v =
    let line = print 0 c [] in
    let (cmd, run, e) =
      both (Reads line (length line)) (parseline (4 * length line + 4) line) c []
        (parseline-total line) ((levels c v).3 (4 * length line + 4) [] tt) in
    (cmd, nulterminate line cmd (line ++ (0 ∷ [])), parsecmd-of_line line cmd run, e)
