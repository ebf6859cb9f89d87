-- ===== src/Str/Examples.antt =====
-- The theorems on string.c at concrete strings.
use cserl_bootcamp.Common.{◌%◌, ◌≡◌}
use cserl_bootcamp.Str.{Mem, memmove}
use cserl_bootcamp.Str.Move.{memmove-moves}

-- Byte `a` is `a % 7`.
abbrev bytes : Mem
bytes a = a % 7

-- Six bytes from 100 to 103, an overlap.
memmove-moves_example : memmove 103 100 6 bytes 104 ≡ bytes 101
memmove-moves_example = memmove-moves 103 100 6 bytes 104
