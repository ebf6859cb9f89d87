-- ===== src/Sh/Print.antt =====
-- A way to write each command, with parentheses where the grammar of sh.c wants them, and the tokens
-- of what is written.
use cserl_bootcamp.Common.{
  ℕ, ◌<◌, ◌≡◌, refl, ap, ◌∙◌, Bool, true, false, List, [], ◌∷◌, ◌++◌, map, ◌==◌, ltb, ◌⊎◌, inl, inr,
  if◌then◌else◌, length, length-append, take, Bool-cases, arith,
}
use cserl_bootcamp.Sh.{
  whitespace, single, strchr, is_word, skip, scan, Span, text, lex, gettoken, after_token, starts,
  peek, Cmd, exec, redir, pipe, list, back, max_args, add_arg, o_rdonly, o_wronly_create,
}
use cserl_bootcamp.Sh.Scan.{AllWord, skip-same}

-- A token of one byte, and a blank.
abbrev pub mark : ℕ → List ℕ → List ℕ
mark c k = c ∷ 32 ∷ k

unfoldable pub words : List (List ℕ) → List ℕ → List ℕ
words [] k = k
words (w ∷ argv) k = w ++ (32 ∷ words argv k)

unfoldable pub redirection : List ℕ → ℕ → List ℕ → List ℕ
redirection file mode k = mark (if mode == 0 then 60 else 62) (file ++ (32 ∷ k))

unfoldable pub wrapped : Bool → (List ℕ → List ℕ) → List ℕ → List ℕ
wrapped true body k = mark 40 (body (mark 41 k))
wrapped false body k = body k

-- The text of a command before `k`, at the level of `parseline` (0), before its `&` (1), of
-- `parsepipe` (2) or of `parseexec` (3).
unfoldable pub print : ℕ → Cmd (List ℕ) → List ℕ → List ℕ
unfolding words redirection wrapped
print level (exec argv) k = words argv k
print level (redir cmd file mode fd) k = print 3 cmd (redirection file mode k)
print level (pipe left right) k =
    wrapped (ltb 2 level) (λ k. print 3 left (mark 124 (print 2 right k))) k
print level (list left right) k =
    wrapped (ltb 0 level) (λ k. print 1 left (mark 59 (print 0 right k))) k
print level (back cmd) k = wrapped (ltb 1 level) (λ k. print 1 cmd (mark 38 k)) k

-- A word that a line can hold.
abbrev pub Word : List ℕ → Type 0
Word [] = ⊥
Word (c ∷ w) = ((c == 0) ≡ false) × AllWord (c ∷ w)

abbrev pub Words : List (List ℕ) → Type 0
Words [] = Unit
Words (w ∷ argv) = Word w × Words argv

-- A command that the grammar has: its strings are words, it has fewer than `MAXARGS` arguments, and
-- its redirections read from 0 or write to 1.
abbrev pub Valid : Cmd (List ℕ) → Type 0
Valid (exec argv) = Words argv × (length argv < max_args)
Valid (redir cmd file mode fd) =
    Valid cmd × Word file × (((mode ≡ o_rdonly) × (fd ≡ 0)) ⊎ ((mode ≡ o_wronly_create) × (fd ≡ 1)))
Valid (pipe left right) = Valid left × Valid right
Valid (list left right) = Valid left × Valid right
Valid (back cmd) = Valid cmd

-- The command with its strings read.
unfoldable pub view : Cmd Span → Cmd (List ℕ)
view (exec argv) = exec (map text argv)
view (redir cmd file mode fd) = redir (view cmd) (text file) mode fd
view (pipe left right) = pipe (view left) (view right)
view (list left right) = list (view left) (view right)
view (back cmd) = back (view cmd)

map-append : (f : Span → List ℕ) (a b : List Span) → map f (a ++ b) ≡ map f a ++ map f b
map-append f [] b = refl
map-append f (x ∷ a) b = ap (λ l. f x ∷ l) (map-append f a b)

pub view-add_arg : (p : Span) (cmd : Cmd Span) → view (add_arg p cmd) ≡ add_arg (text p) (view cmd)
unfolding view add_arg
view-add_arg p (exec argv) = ap exec (map-append text argv (p ∷ []))
view-add_arg p (redir cmd file mode fd) = ap (λ c. redir c (text file) mode fd) (view-add_arg p cmd)
view-add_arg p (pipe left right) = refl
view-add_arg p (list left right) = refl
view-add_arg p (back cmd) = refl

-- The first byte, a NUL at the end.
abbrev pub first_byte : List ℕ → ℕ
first_byte [] = 0
first_byte (c ∷ s) = c

pub first_byte-Trimmed : (s : List ℕ) → strchr whitespace (first_byte s) ≡ false → skip s ≡ s
first_byte-Trimmed [] h = skip-same [] tt
first_byte-Trimmed (c ∷ s) h = skip-same (c ∷ s) h

pub starts-first_byte :
    (toks s : List ℕ) → strchr toks (first_byte s) ≡ false → starts toks s ≡ false
unfolding starts
starts-first_byte toks [] h = refl
starts-first_byte toks (c ∷ s) h = elim (Bool-cases (c == 0)) [
  | inl nul ↦ rw nul refl
  | inr other ↦ rw (other, h) refl
]

skip_blank : (k : List ℕ) → skip (32 ∷ k) ≡ skip k
unfolding skip strchr
skip_blank k = refl

-- Tokens of one byte; what `lex` says of one is computed.
pub gettoken-mark :
    (c : ℕ) (k : List ℕ)
    → strchr whitespace c ≡ false
    → lex (mark c k) ≡ (c, 32 ∷ k)
    → skip k ≡ k
    → ((gettoken (mark c k)).0 ≡ c) × (after_token (mark c k) ≡ k)
unfolding gettoken
gettoken-mark c k dark l t =
    let same : skip (mark c k) ≡ mark c k = skip-same (mark c k) dark in
    (rw (same, l) refl, rw (same, l, skip_blank k) t)

scan-word : (w k : List ℕ) → AllWord w → scan (w ++ (32 ∷ k)) ≡ 32 ∷ k
unfolding scan is_word strchr
scan-word [] k all = refl
scan-word (c ∷ w) k (go, all) = rw (go, scan) (scan-word w k all)

dark-word : (c : ℕ) → is_word c ≡ true → strchr whitespace c ≡ false
unfolding is_word strchr
dark-word c h = ground arith

not_symbol : (c : ℕ) → is_word c ≡ true → (strchr single c ≡ false) × ((c == 62) ≡ false)
unfolding is_word strchr
not_symbol c h = ground arith

lex-Word : (w k : List ℕ) → Word w → lex (w ++ (32 ∷ k)) ≡ (97, 32 ∷ k)
unfolding lex
lex-Word [] k h = absurd h
lex-Word (c ∷ w) k (nonzero, (go, all)) =
    let (one, gt) = not_symbol c go in
    rw (nonzero, one, gt, lex) (ap (λ s. (97, s)) (scan-word (c ∷ w) k (go, all)))

-- The first byte of a word is no blank, and none of the bytes that `peek` looks for.
pub first_byte-Word :
    (w s : List ℕ) → Word w → (first_byte (w ++ s) ≡ first_byte w) × (is_word (first_byte w) ≡ true)
first_byte-Word [] s h = absurd h
first_byte-Word (c ∷ w) s (nonzero, (go, all)) = (refl, go)

pub skip-Word : (w s : List ℕ) → Word w → skip (w ++ s) ≡ w ++ s
skip-Word [] s h = absurd h
skip-Word (c ∷ w) s (nonzero, (go, all)) = skip-same (c ∷ (w ++ s)) (dark-word c go)

pub starts-Word :
    (toks w s : List ℕ)
    → Word w
    → ((c : ℕ) → is_word c ≡ true → strchr toks c ≡ false)
    → starts toks (w ++ s) ≡ false
starts-Word toks [] s h not_in = absurd h
starts-Word toks (c ∷ w) s (nonzero, (go, all)) not_in =
    starts-first_byte toks (c ∷ (w ++ s)) (not_in c go)

take-append : (w s : List ℕ) → take (length w) (w ++ s) ≡ w
take-append [] s = refl
take-append (c ∷ w) s = ap (λ l. c ∷ l) (take-append w s)

text-append : (w s : List ℕ) → text (record { q = w ++ s; eq = s }) ≡ w
unfolding text
text-append w s = ap (λ n. take n (w ++ s)) (omega (arith, length-append w s)) ∙ take-append w s

-- A word and the blank after it.
pub gettoken-Word :
    (w k : List ℕ)
    → Word w
    → skip k ≡ k
    → ((gettoken (w ++ (32 ∷ k))).0 ≡ 97)
      × (text (gettoken (w ++ (32 ∷ k))).1 ≡ w)
      × (after_token (w ++ (32 ∷ k)) ≡ k)
unfolding gettoken
gettoken-Word w k h t =
    let same : skip (w ++ (32 ∷ k)) ≡ w ++ (32 ∷ k) = skip-Word w (32 ∷ k) h in
    let l = lex-Word w k h in
    (rw (same, l) refl, rw (same, l) (text-append w (32 ∷ k)), rw (same, l, skip_blank k) t)

pub peek-same : (s toks : List ℕ) (b : Bool) → skip s ≡ s → starts toks s ≡ b → peek s toks ≡ (s, b)
unfolding peek
peek-same s toks b t e = rw (t, e) refl
