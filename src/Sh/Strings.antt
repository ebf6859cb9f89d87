-- ===== src/Sh/Strings.antt =====
-- What `nulterminate` leaves in the buffer: at the pointer to each word of the command stands the
-- word as a C string.
use cserl_bootcamp.Common.{
  ℕ, zero, suc, ◌+◌, ◌*◌, ◌≡◌, refl, sym, some, List, [], ◌∷◌, ◌++◌, ◌⊎◌, inl, inr, length, drop,
  get_elem?, arith,
}
use cserl_bootcamp.Sh.{
  Span, text, Cmd, exec, redir, pipe, list, back, Parse, Panic, leftovers, ok, panic, spent, skip,
  parseline, cut, cut_all, nulterminate, parsecmd,
}
use cserl_bootcamp.Sh.Good.{Good, WordAt, AllWordAt}
use cserl_bootcamp.Sh.Total.{Ensures, Ensures-bind, Reads, parseline-total}
use cserl_bootcamp.Sh.Cut.{cstr, NoNul, spans, position, cut_all-text}

AllWordAt-append :
    (line : List ℕ) (ps qs : List Span)
    → AllWordAt line ps
    → AllWordAt line qs
    → AllWordAt line (ps ++ qs)
AllWordAt-append line [] qs a b = b
AllWordAt-append line (p ∷ ps) qs (w, a) b = (w, AllWordAt-append line ps qs a b)

AllWordAt-get :
    (line : List ℕ) (ps : List Span) (k : ℕ) {p : Span}
    → AllWordAt line ps
    → get_elem? ps k ≡ some p
    → WordAt line p
AllWordAt-get line [] k ws e = absurd (ground arith)
AllWordAt-get line (q ∷ ps) zero {p} (w, ws) e = let same : q ≡ p = cc in rw (sym same) w
AllWordAt-get line (q ∷ ps) (suc k) (w, ws) e = AllWordAt-get line ps k ws e

Good-spans : (line : List ℕ) (cmd : Cmd Span) → Good line cmd → AllWordAt line (spans cmd)
unfolding spans
Good-spans line (exec argv) g = g
Good-spans line (redir cmd file mode fd) (g, w) =
    AllWordAt-append line (spans cmd) (file ∷ []) (Good-spans line cmd g) (w, tt)
Good-spans line (pipe left right) (g, h) =
    AllWordAt-append line (spans left) (spans right) (Good-spans line left g)
      (Good-spans line right h)
Good-spans line (list left right) (g, h) =
    AllWordAt-append line (spans left) (spans right) (Good-spans line left g)
      (Good-spans line right h)
Good-spans line (back cmd) g = Good-spans line cmd g

cut_all-append :
    (line : List ℕ) (ps qs : List Span) (b : List ℕ)
    → cut_all line (ps ++ qs) b ≡ cut_all line qs (cut_all line ps b)
unfolding cut_all
cut_all-append line [] qs b = refl
cut_all-append line (p ∷ ps) qs b = cut_all-append line ps qs (cut line p b)

nulterminate-cut_all :
    (line : List ℕ) (cmd : Cmd Span) (b : List ℕ)
    → nulterminate line cmd b ≡ cut_all line (spans cmd) b
unfolding nulterminate spans
nulterminate-cut_all line (exec argv) b = refl
nulterminate-cut_all line (redir cmd file mode fd) b =
    rw (nulterminate-cut_all line cmd b, cut_all-append line (spans cmd) (file ∷ []) b) refl
nulterminate-cut_all line (pipe left right) b =
    rw
      (
        nulterminate-cut_all line left b,
        nulterminate-cut_all line right (cut_all line (spans left) b),
        cut_all-append line (spans left) (spans right) b,
      )
      refl
nulterminate-cut_all line (list left right) b =
    rw
      (
        nulterminate-cut_all line left b,
        nulterminate-cut_all line right (cut_all line (spans left) b),
        cut_all-append line (spans left) (spans right) b,
      )
      refl
nulterminate-cut_all line (back cmd) b = nulterminate-cut_all line cmd b

abbrev Cutting : List ℕ → Cmd Span × List ℕ → List ℕ → Type 0
Cutting line (cmd, buf) rest =
    (rest ≡ []) × (buf ≡ cut_all line (spans cmd) (line ++ (0 ∷ []))) × Good line cmd

all_read :
    (line : List ℕ) (cmd : Cmd Span) (s : List ℕ)
    → Good line cmd
    → Ensures (Cutting line) (elim s [
      | [] ↦ ok (cmd, nulterminate line cmd (line ++ (0 ∷ []))) []
      | c ∷ s ↦ panic leftovers
    ])
all_read line cmd [] g = (refl, nulterminate-cut_all line cmd (line ++ (0 ∷ [])), g)
all_read line cmd (c ∷ s) g = tt

parsecmd-Cutting : (line : List ℕ) → Ensures (Cutting line) (parsecmd line)
unfolding parsecmd
parsecmd-Cutting line =
    Ensures-bind (Reads line (length line)) (Cutting line) (parseline (4 * length line + 4) line) _
      (parseline-total line) (λ cmd s (i, l, g). all_read line cmd (skip s) g)

Ensures-of_ok :
    (Q : Cmd Span × List ℕ → List ℕ → Type 0) (m : Parse (Cmd Span × List ℕ))
    {v : Cmd Span × List ℕ} {s : List ℕ}
    → Ensures Q m
    → m ≡ ok v s
    → Q v s
Ensures-of_ok Q (ok a t) {v} {s} h e =
    let same : a ≡ v = cc in let rest : t ≡ s = cc in rw (sym same, sym rest) h
Ensures-of_ok Q (panic p) h e = absurd (ground arith)
Ensures-of_ok Q spent h e = absurd h

ends_in :
    (line : List ℕ) (m : Parse (Cmd Span × List ℕ))
    → Ensures (Cutting line) m
    → ((cmd : Cmd Span) × (buf : List ℕ) × (m ≡ ok (cmd, buf) []) × Good line cmd)
      ⊎ ((p : Panic) × (m ≡ panic p))
ends_in line (ok (cmd, buf) rest) (e, f, g) = inl (cmd, buf, rw e refl, g)
ends_in line (panic p) h = inr (p, refl)
ends_in line spent h = absurd h

-- `parsecmd` ends on every line: it has a command and has read the whole line, where the two pointers of
-- each argument and file name have bytes of the line between them that are neither white space nor
-- symbols, and no such byte stands behind the second; or it panics.
pub parsecmd-ends :
    (line : List ℕ)
    → ((cmd : Cmd Span) × (buf : List ℕ) × (parsecmd line ≡ ok (cmd, buf) []) × Good line cmd)
      ⊎ ((p : Panic) × (parsecmd line ≡ panic p))
parsecmd-ends line = ends_in line (parsecmd line) (parsecmd-Cutting line)

-- `parsecmd` of a line with no NUL: in the buffer that it leaves, the C string at the pointer to each
-- argument and each file name of the command is the word that the pointers `q` and `eq` stand around,
-- so no word is cut short and none runs into the next.
pub parsecmd-strings :
    (line buf rest : List ℕ) (cmd : Cmd Span) (k : ℕ) (p : Span)
    → NoNul line
    → parsecmd line ≡ ok (cmd, buf) rest
    → get_elem? (spans cmd) k ≡ some p
    → cstr (drop (position line p.q) buf) ≡ text p
parsecmd-strings line buf rest cmd k p nonul run at =
    let (end, e, g) = Ensures-of_ok (Cutting line) (parsecmd line) (parsecmd-Cutting line) run in
    let ws = Good-spans line cmd g in
    rw e (cut_all-text line (spans cmd) k nonul ws at (AllWordAt-get line (spans cmd) k ws at))
