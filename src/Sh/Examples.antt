-- ===== src/Sh/Examples.antt =====
-- The parser of the shell at lines.
use cserl_bootcamp.Common.{ℕ, ◌≡◌, refl, some, List, [], ◌∷◌, drop, get_elem?, inr, arith, ◌⊎◌}
use cserl_bootcamp.Sh.{
  Span, Cmd, exec, redir, list, back, Panic, ok, panic, leftovers, missing_file, missing_paren,
  text, skip, scan, strchr, is_word, lex, greater, gettoken, starts, peek, bind, add_arg, redirect,
  parseredirs, backs, args, parseline, parsepipe, parseexec, parseblock, cut, cut_all, nulterminate,
  parsecmd,
}
use cserl_bootcamp.Sh.Good.{Good}
use cserl_bootcamp.Sh.Print.{print, words, wrapped, redirection, Valid, view}
use cserl_bootcamp.Sh.Cut.{cstr, spans, position}
use cserl_bootcamp.Sh.Strings.{parsecmd-strings, parsecmd-ends}
use cserl_bootcamp.Sh.RoundTrip.{parsecmd-print}

-- `(a>f;b)&`
abbrev line : List ℕ
line = b'(' ∷ b'a' ∷ b'>' ∷ b'f' ∷ b';' ∷ b'b' ∷ b')' ∷ b'&' ∷ []

abbrev at_a : Span
at_a = record { q = drop 1 line; eq = drop 2 line }

abbrev at_f : Span
at_f = record { q = drop 3 line; eq = drop 4 line }

abbrev at_b : Span
at_b = record { q = drop 5 line; eq = drop 6 line }

abbrev cmd : Cmd Span
cmd = back (list (redir (exec (at_a ∷ [])) at_f 513 1) (exec (at_b ∷ [])))

abbrev buf : List ℕ
buf = b'(' ∷ b'a' ∷ 0 ∷ b'f' ∷ 0 ∷ b'b' ∷ 0 ∷ b'&' ∷ 0 ∷ []

parsecmd_line : parsecmd line ≡ ok (cmd, buf) []
unfolding parsecmd parseline parsepipe parseexec parseblock parseredirs backs args add_arg redirect
    bind peek starts gettoken lex greater scan skip is_word strchr nulterminate cut_all cut
parsecmd_line = refl

cmd_file : get_elem? (spans cmd) 1 ≡ some at_f
unfolding spans
cmd_file = refl

parsecmd_leftovers : parsecmd (b'a' ∷ b')' ∷ []) ≡ panic leftovers
unfolding parsecmd parseline parsepipe parseexec parseblock parseredirs backs args add_arg redirect
    bind peek starts gettoken lex greater scan skip is_word strchr
parsecmd_leftovers = refl

parsecmd_missing_paren : parsecmd (b'(' ∷ b'a' ∷ []) ≡ panic missing_paren
unfolding parsecmd parseline parsepipe parseexec parseblock parseredirs backs args add_arg redirect
    bind peek starts gettoken lex greater scan skip is_word strchr
parsecmd_missing_paren = refl

parsecmd_missing_file : parsecmd (b'a' ∷ b'<' ∷ []) ≡ panic missing_file
unfolding parsecmd parseline parsepipe parseexec parseblock parseredirs backs args add_arg redirect
    bind peek starts gettoken lex greater scan skip is_word strchr
parsecmd_missing_file = refl

parsecmd-strings_example : cstr (drop (position line at_f.q) buf) ≡ text at_f
parsecmd-strings_example =
    parsecmd-strings line buf [] cmd 1 at_f
      (refl, (refl, (refl, (refl, (refl, (refl, (refl, (refl, tt)))))))) parsecmd_line cmd_file

abbrev tree : Cmd (List ℕ)
tree = back (list (redir (exec ((b'a' ∷ []) ∷ [])) (b'f' ∷ []) 513 1) (exec ((b'b' ∷ []) ∷ [])))

abbrev printed : List ℕ
printed =
    b'(' ∷ 32 ∷ b'a' ∷ 32 ∷ b'>' ∷ 32 ∷ b'f' ∷ 32 ∷ b';' ∷ 32 ∷ b'b' ∷ 32 ∷ b')' ∷ 32 ∷ b'&' ∷ 32
    ∷ []

print-tree : print 0 tree [] ≡ printed
unfolding print words wrapped redirection
print-tree = refl

tree-Valid : Valid tree
unfolding is_word strchr
tree-Valid = (
  ((((refl, (refl, tt)), tt), omega arith), (refl, (refl, tt)), inr (refl, refl)),
  (((refl, (refl, tt)), tt), omega arith),
)

parsecmd-print_example :
    (cmd : Cmd Span) × (buf : List ℕ) × (parsecmd (print 0 tree []) ≡ ok (cmd, buf) [])
    × (view cmd ≡ tree)
parsecmd-print_example = parsecmd-print tree tree-Valid

parsecmd-ends_example :
    ((cmd : Cmd Span) × (buf : List ℕ) × (parsecmd line ≡ ok (cmd, buf) []) × Good line cmd)
    ⊎ ((p : Panic) × (parsecmd line ≡ panic p))
parsecmd-ends_example = parsecmd-ends line
