-- ===== src/Sh/Good.antt =====
-- Commands whose pointers stand around words of the line.
use cserl_bootcamp.Common.{◌≡◌, ℕ, List, [], ◌∷◌, ◌++◌, ◌==◌, if_both}
use cserl_bootcamp.Sh.{Span, Cmd, exec, redir, pipe, list, back, skip, gettoken, add_arg, redirect}
use cserl_bootcamp.Sh.Scan.{AllWord, Boundary, IsSuffix, skip_suffix, IsSuffix-trans, lex_word}

abbrev pub WordAt : List ℕ → Span → Type 0
WordAt line p = (w : List ℕ) × IsSuffix line p.q × (p.q ≡ w ++ p.eq) × AllWord w × Boundary p.eq

abbrev pub AllWordAt : List ℕ → List Span → Type 0
AllWordAt line [] = Unit
AllWordAt line (p ∷ argv) = WordAt line p × AllWordAt line argv

abbrev pub Good : List ℕ → Cmd Span → Type 0
Good line (exec argv) = AllWordAt line argv
Good line (redir cmd file mode fd) = Good line cmd × WordAt line file
Good line (pipe left right) = Good line left × Good line right
Good line (list left right) = Good line left × Good line right
Good line (back cmd) = Good line cmd

AllWordAt-append :
    (line : List ℕ) (argv : List Span) (p : Span)
    → AllWordAt line argv
    → WordAt line p
    → AllWordAt line (argv ++ (p ∷ []))
AllWordAt-append line [] p all w = (w, tt)
AllWordAt-append line (a ∷ argv) p (h, all) w = (h, AllWordAt-append line argv p all w)

pub add_arg-Good :
    (line : List ℕ) (p : Span) (cmd : Cmd Span)
    → WordAt line p
    → Good line cmd
    → Good line (add_arg p cmd)
unfolding add_arg
add_arg-Good line p (exec argv) w g = AllWordAt-append line argv p g w
add_arg-Good line p (redir cmd file mode fd) w (g, f) = (add_arg-Good line p cmd w g, f)
add_arg-Good line p (pipe left right) w g = g
add_arg-Good line p (list left right) w g = g
add_arg-Good line p (back cmd) w g = g

pub redirect-Good :
    (line : List ℕ) (cmd : Cmd Span) (tok : ℕ) (p : Span)
    → Good line cmd
    → WordAt line p
    → Good line (redirect cmd tok p)
unfolding redirect
redirect-Good line cmd tok p g w =
    if_both (Good line) (tok == 60) (g, w)
      (if_both (Good line) (tok == 62) (g, w) (if_both (Good line) (tok == 43) (g, w) g))

pub gettoken-WordAt :
    (line s : List ℕ) → IsSuffix line s → (gettoken s).0 ≡ 97 → WordAt line (gettoken s).1
unfolding gettoken
gettoken-WordAt line s suf word =
    let (w, e, all, stop) = lex_word (skip s) word in
    (w, IsSuffix-trans line s (skip s) suf (skip_suffix s), e, all, stop)
