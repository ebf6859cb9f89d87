-- ===== src/Sh.antt =====
-- The parser of the shell, xv6-public/sh.c. The line is the list of its bytes before the NUL, and a
-- pointer into it is the list of the bytes from there on: `*s` at the end `es` is the NUL, a 0. A
-- command holds pointers; `text` reads what one points at. Fuel bounds the loops and the recursion.
pub mod Scan
pub mod Good
pub mod Total
pub mod Cut
pub mod Strings
pub mod Print
pub mod Redirs
pub mod Simple
pub mod Levels
pub mod RoundTrip
mod Examples
use cserl_bootcamp.Common.{
  ℕ, zero, suc, ◌+◌, ◌-◌, ◌*◌, Bool, true, false, ◌&&◌, ◌||◌, not, List, [], ◌∷◌, ◌++◌, ◌==◌, leb,
  if◌then◌else◌, length, set, take,
}

abbrev pub whitespace : List ℕ
whitespace = 32 ∷ 9 ∷ 13 ∷ 10 ∷ 11 ∷ []

-- The bytes `<|>&;()`.
abbrev pub symbols : List ℕ
symbols = 60 ∷ 124 ∷ 62 ∷ 38 ∷ 59 ∷ 40 ∷ 41 ∷ []

-- The bytes `|();&<`, each a token of its own.
abbrev pub single : List ℕ
single = 124 ∷ 40 ∷ 41 ∷ 59 ∷ 38 ∷ 60 ∷ []

abbrev pub max_args : ℕ
max_args = 10

unfoldable pub strchr : List ℕ → ℕ → Bool
strchr [] c = false
strchr (x ∷ xs) c = (x == c) || strchr xs c

unfoldable pub is_word : ℕ → Bool
unfolding strchr
is_word c = not (strchr whitespace c) && not (strchr symbols c)

unfoldable pub skip : List ℕ → List ℕ
unfolding strchr
skip [] = []
skip (c ∷ s) = let rest = skip s in if strchr whitespace c then rest else c ∷ s

unfoldable pub scan : List ℕ → List ℕ
unfolding is_word
scan [] = []
scan (c ∷ s) = let rest = scan s in if is_word c then rest else c ∷ s

-- The pointers `q` and `eq` to the first byte of a token and past its last.
pub record Span : Type 0 where
  pub q : List ℕ
  pub eq : List ℕ

unfoldable pub text : Span → List ℕ
text p = take (length p.q - length p.eq) p.q

unfoldable pub greater : List ℕ → ℕ × List ℕ
greater [] = (62, [])
greater (c ∷ s) = if c == 62 then (43, s) else (62, c ∷ s)

-- The token at `s`, 97 (the letter a) for a word, 43 (a plus) for `>>`, and what follows it.
unfoldable pub lex : List ℕ → ℕ × List ℕ
unfolding greater scan strchr
lex [] = (0, [])
lex (c ∷ s) =
    if c == 0
    then (0, c ∷ s)
    else if strchr single c
    then (c, s)
    else if c == 62
    then greater s
    else (97, scan (c ∷ s))

unfoldable pub gettoken : List ℕ → ℕ × Span × List ℕ
unfolding lex skip
gettoken s = let q = skip s in let (ret, eq) = lex q in (ret, record { q = q; eq = eq }, skip eq)

abbrev pub after_token : List ℕ → List ℕ
after_token s = (gettoken s).2

unfoldable pub starts : List ℕ → List ℕ → Bool
unfolding strchr
starts toks [] = false
starts toks (c ∷ s) = not (c == 0) && strchr toks c

unfoldable pub peek : List ℕ → List ℕ → List ℕ × Bool
unfolding starts skip
peek s toks = (skip s, starts toks (skip s))

pub data Cmd {ℓ} (A : Type ℓ) : Type ℓ where
  exec : (argv : List A) → Cmd A
  redir : (cmd : Cmd A) (file : A) (mode fd : ℕ) → Cmd A
  pipe list : (left right : Cmd A) → Cmd A
  back : (cmd : Cmd A) → Cmd A

pub data Panic : Type 0 where
  leftovers missing_file parseblock_panic missing_paren syntax too_many_args : Panic

pub data Parse {ℓ} (A : Type ℓ) : Type ℓ where
  ok : (value : A) (s : List ℕ) → Parse A
  panic : Panic → Parse A
  spent : Parse A

unfoldable pub bind {ℓ κ} : {A : Type ℓ} {B : Type κ} → Parse A → (A → List ℕ → Parse B) → Parse B
bind (ok a s) f = f a s
bind (panic p) f = panic p
bind spent f = spent

-- `cmd->argv[argc] = q` through the pointer that `parseexec` keeps to the node it made.
unfoldable pub add_arg {ℓ} : {A : Type ℓ} → A → Cmd A → Cmd A
add_arg a (exec argv) = exec (argv ++ (a ∷ []))
add_arg a (redir cmd file mode fd) = redir (add_arg a cmd) file mode fd
add_arg a cmd = cmd

abbrev pub o_rdonly : ℕ
o_rdonly = 0

-- `O_WRONLY|O_CREATE`.
abbrev pub o_wronly_create : ℕ
o_wronly_create = 513

unfoldable pub redirect : Cmd Span → ℕ → Span → Cmd Span
redirect cmd tok file =
    if tok == 60
    then redir cmd file o_rdonly 0
    else if tok == 62
    then redir cmd file o_wronly_create 1
    else if tok == 43
    then redir cmd file o_wronly_create 1
    else cmd

unfoldable pub parseredirs : ℕ → Cmd Span → List ℕ → Parse (Cmd Span)
unfolding peek gettoken redirect
parseredirs zero cmd s = spent
parseredirs (suc fuel) cmd s =
    let (s, more) = peek s (60 ∷ 62 ∷ []) in
    elim more [
      | false ↦ ok cmd s
      | true ↦
          let (tok, _, s) = gettoken s in
          let (t, file, s) = gettoken s in
          elim (t == 97) [
            | false ↦ panic missing_file
            | true ↦ parseredirs fuel (redirect cmd tok file) s
          ]
    ]

-- `while(peek(ps, es, "&"))`.
unfoldable pub backs : ℕ → Cmd Span → List ℕ → Parse (Cmd Span)
unfolding peek gettoken
backs zero cmd s = spent
backs (suc fuel) cmd s =
    let (s, more) = peek s (38 ∷ []) in
    elim more [ false ↦ ok cmd s | true ↦ backs fuel (back cmd) (after_token s) ]

-- `while(!peek(ps, es, "|)&;"))`.
unfoldable pub args : ℕ → ℕ → Cmd Span → List ℕ → Parse (Cmd Span)
unfolding peek gettoken add_arg parseredirs bind
args zero argc ret s = spent
args (suc fuel) argc ret s =
    let (s, stop) = peek s (124 ∷ 41 ∷ 38 ∷ 59 ∷ []) in
    elim stop [
      | true ↦ ok ret s
      | false ↦
          let (tok, word, s) = gettoken s in
          elim (tok == 0) [
            | true ↦ ok ret s
            | false ↦ elim (tok == 97) [
              | false ↦ panic syntax
              | true ↦ elim (leb max_args (suc argc)) [
                | true ↦ panic too_many_args
                | false ↦ bind (parseredirs fuel (add_arg word ret) s) (args fuel (suc argc))
              ]
            ]
          ]
    ]

unfoldable mutual
  unfolding peek gettoken parseredirs backs args bind

  pub parseline : ℕ → List ℕ → Parse (Cmd Span)
  parseline zero s = spent
  parseline (suc fuel) s = bind (parsepipe fuel s) λ cmd s. bind (backs fuel cmd s) λ cmd s.
      let (s, more) = peek s (59 ∷ []) in
      elim more [
        | false ↦ ok cmd s
        | true ↦ bind (parseline fuel (after_token s)) λ right s. ok (list cmd right) s
      ]

  pub parsepipe : ℕ → List ℕ → Parse (Cmd Span)
  parsepipe zero s = spent
  parsepipe (suc fuel) s = bind (parseexec fuel s) λ cmd s.
      let (s, more) = peek s (124 ∷ []) in
      elim more [
        | false ↦ ok cmd s
        | true ↦ bind (parsepipe fuel (after_token s)) λ right s. ok (pipe cmd right) s
      ]

  pub parseexec : ℕ → List ℕ → Parse (Cmd Span)
  parseexec zero s = spent
  parseexec (suc fuel) s =
      let (s, block) = peek s (40 ∷ []) in
      elim block [
        | true ↦ parseblock fuel s
        | false ↦ bind (parseredirs fuel (exec []) s) (args fuel 0)
      ]

  pub parseblock : ℕ → List ℕ → Parse (Cmd Span)
  parseblock zero s = spent
  parseblock (suc fuel) s =
      let (s, block) = peek s (40 ∷ []) in
      elim block [
        | false ↦ panic parseblock_panic
        | true ↦ bind (parseline fuel (after_token s)) λ cmd s.
            let (s, closed) = peek s (41 ∷ []) in
            elim closed [
              | false ↦ panic missing_paren
              | true ↦ parseredirs fuel cmd (after_token s)
            ]
      ]

-- `*p = 0` for a pointer `p` into `line`, in the buffer that holds it and its NUL.
unfoldable pub cut : List ℕ → Span → List ℕ → List ℕ
cut line p buf = set buf (length line - length p.eq) 0

unfoldable pub cut_all : List ℕ → List Span → List ℕ → List ℕ
unfolding cut
cut_all line [] buf = buf
cut_all line (p ∷ argv) buf = cut_all line argv (cut line p buf)

unfoldable pub nulterminate : List ℕ → Cmd Span → List ℕ → List ℕ
unfolding cut_all
nulterminate line (exec argv) buf = cut_all line argv buf
nulterminate line (redir cmd file mode fd) buf = cut line file (nulterminate line cmd buf)
nulterminate line (pipe left right) buf = nulterminate line right (nulterminate line left buf)
nulterminate line (list left right) buf = nulterminate line right (nulterminate line left buf)
nulterminate line (back cmd) buf = nulterminate line cmd buf

-- The command, and the buffer with the strings of the command terminated.
unfoldable pub parsecmd : List ℕ → Parse (Cmd Span × List ℕ)
unfolding parseline nulterminate
parsecmd line = bind (parseline (4 * length line + 4) line) λ cmd s. elim (skip s) [
  | [] ↦ ok (cmd, nulterminate line cmd (line ++ (0 ∷ []))) []
  | c ∷ s ↦ panic leftovers
]
