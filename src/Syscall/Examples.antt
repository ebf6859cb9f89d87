-- ===== src/Syscall/Examples.antt =====
-- The theorems on system call arguments at a concrete process.
use cserl_bootcamp.Common.{
  ◌+◌, ◌-◌, ◌*◌, ◌/◌, ◌%◌, ◌^◌, ◌≤◌, ◌<◌, ◌≡◌, refl, ◌==◌, if◌then◌else◌, arith,
}
use cserl_bootcamp.Str.{Mem}
use cserl_bootcamp.Syscall.{load, fetchint, find_nul, fetchstr, argint, argptr, argstr}
use cserl_bootcamp.Syscall.Fetch.{Ends, argptr-inside, argstr-Ends}

-- The first argument, at 84, is the address 16; the memory from 20 to 83 is 0, and the rest is 7.
abbrev memory : Mem
memory a = if a / 64 == 1 then (if a == 84 then 16 else 0) else if a / 4 == 5 then 0 else 7

argptr-inside_example :
    ((80 + 4 + 4 * 0) % 2 ^ 32 + 4 ≤ 100)
    × (16 ≡ load memory ((80 + 4 + 4 * 0) % 2 ^ 32))
    × (16 < 100)
    × (16 + 84 ≤ 100)
unfolding argptr argint fetchint
argptr-inside_example = argptr-inside 100 80 memory 0 84 16 (omega arith) refl

argstr-Ends_example :
    (16 ≡ load memory ((80 + 4 + 4 * 0) % 2 ^ 32)) × (16 + 4 < 100) × Ends memory 16 (100 - 16) 4
unfolding argstr argint fetchint fetchstr find_nul
argstr-Ends_example = argstr-Ends 100 80 memory 0 16 4 (omega arith) refl
