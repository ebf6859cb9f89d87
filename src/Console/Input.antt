-- ===== src/Console/Input.antt =====
-- `consoleintr` and `consoleread`.
use cserl_bootcamp.Common.{
  ℕ, zero, suc, ◌+◌, ◌-◌, ◌%◌, ◌^◌, Bool, true, false, ◌||◌, not, List, [], ◌∷◌, ◌==◌, ltb,
  if◌then◌else◌, get_or, set,
}

abbrev pub input_buf : ℕ
input_buf = 128

-- `input`
pub record Input : Type 0 where
  pub buf : List ℕ
  pub r : ℕ
  pub w : ℕ
  pub e : ℕ

-- `b - a` on 32 bits
abbrev pub dist : ℕ → ℕ → ℕ
dist a b = (b + 2 ^ 32 - a) % 2 ^ 32

-- The character at an index.
abbrev pub char_at : Input → ℕ → ℕ
char_at s i = get_or s.buf (i % input_buf) 0

-- `input.e--`
abbrev pub erase_one : Input → Input
erase_one s = record s { e = (s.e + 2 ^ 32 - 1) % 2 ^ 32 }

-- The loop of `^U`, which makes at most as many rounds as there are characters after `w`.
unfoldable pub kill_line : ℕ → Input → Input
kill_line zero s = s
kill_line (suc fuel) s =
    let rest = kill_line fuel (erase_one s) in
    if (s.e == s.w) || (char_at s ((s.e + 2 ^ 32 - 1) % 2 ^ 32) == 10) then s else rest

-- The default case: the character is stored, and a whole line is handed over. The flag is the call
-- of `wakeup`.
unfoldable pub accept : ℕ → Input → Input × Bool
accept c s =
    if (c == 0) || not (ltb (dist s.r s.e) input_buf)
    then (s, false)
    else (let c' = if c == 13 then 10 else c in
        let e' = (s.e + 1) % 2 ^ 32 in
        let s' : Input = record s { buf = set s.buf (s.e % input_buf) c'; e = e' } in
        if (c' == 10) || (c' == 4) || (e' == (s.r + input_buf) % 2 ^ 32)
        then (record s' { w = e' }, true)
        else (s', false))

-- One character of `consoleintr`; `^P` only asks for `procdump`.
unfoldable pub consoleintr : ℕ → Input → Input × Bool
unfolding kill_line accept
consoleintr c s =
    if c == 16
    then (s, false)
    else if c == 21
    then (kill_line (dist s.w s.e) s, false)
    else if (c == 8) || (c == 127)
    then ((if s.e == s.w then s else erase_one s), false)
    else accept c s

-- `consoleread` up to its end or its first call of `sleep`, with the bytes that it has copied.
pub data Read : Type 0 where
  got : List ℕ → Input → Read
  dead : Input → Read
  waits : List ℕ → Input → Read

abbrev pub onto : ℕ → Read → Read
onto c (got cs s) = got (c ∷ cs) s
onto c (dead s) = dead s
onto c (waits cs s) = waits (c ∷ cs) s

-- The loop, with `n` bytes to go of `target`.
unfoldable pub consoleread : (killed : Bool) → (target n : ℕ) → Input → Read
consoleread killed target zero s = got [] s
consoleread killed target (suc n) s =
    let c = char_at s s.r in
    let s' : Input = record s { r = (s.r + 1) % 2 ^ 32 } in
    let rest = consoleread killed target n s' in
    if s.r == s.w
    then (if killed then dead s else waits [] s)
    else if c == 4
    then got [] (if ltb (suc n) target then s else s')
    else if c == 10
    then got (c ∷ []) s'
    else onto c rest
