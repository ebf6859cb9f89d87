-- ===== src/Console/Examples.antt =====
-- The theorem on the console at a concrete line.
use cserl_bootcamp.Common.{refl, replicate, arith}
use cserl_bootcamp.Console.Input.{Input, consoleintr}
use cserl_bootcamp.Console.Editing.{IsValid, Keeps, consoleintr-Keeps}

-- Three characters are handed over and two more are typed; the ring and the indices have wrapped around.
abbrev typing : Input
typing = record { buf = replicate 128 97; r = 4294967294; w = 1; e = 3 }

typing-IsValid : IsValid typing
typing-IsValid = record {
  size = refl;
  words = (omega arith, omega arith, omega arith);
  order = omega arith;
  bound = omega arith;
}

consoleintr-Keeps_example : Keeps typing (consoleintr 21 typing).0
consoleintr-Keeps_example = consoleintr-Keeps 21 typing-IsValid
