-- ===== src/Syscall.antt =====
-- xv6-public/syscall.c: how the kernel fetches the arguments of a system call from the memory of the
-- process, which is `sz` bytes long.
pub mod Fetch
mod Examples
use cserl_bootcamp.Common.{
  ℕ, zero, suc, ◌+◌, ◌-◌, ◌*◌, ◌%◌, ◌^◌, Bool, ◌||◌, Option, none, some, ◌==◌, ltb, leb,
  if◌then◌else◌,
}
use cserl_bootcamp.Str.{Mem}

-- The word at `a`, low byte first.
abbrev pub load : Mem → ℕ → ℕ
load m a = m a + 256 * m (a + 1) + 65536 * m (a + 2) + 16777216 * m (a + 3)

module _ (sz esp : ℕ) (m : Mem) where
  -- The word, or -1.
  unfoldable pub fetchint : ℕ → Option ℕ
  fetchint addr = if leb sz addr || ltb sz ((addr + 4) % 2 ^ 32) then none else some (load m addr)

  -- The loop of `fetchstr` over `n` bytes from `s` on.
  unfoldable pub find_nul : (s n : ℕ) → Option ℕ
  find_nul s zero = none
  find_nul s (suc n) =
      let rest = find_nul (s + 1) n in
      if m s == 0 then some 0 else elim rest [ none ↦ none | some k ↦ some (suc k) ]

  -- The length of the string at `addr`, or -1.
  unfoldable pub fetchstr : ℕ → Option ℕ
  unfolding find_nul
  fetchstr addr = if leb sz addr then none else find_nul addr (sz - addr)

  unfoldable pub argint : ℕ → Option ℕ
  unfolding fetchint
  argint n = fetchint ((esp + 4 + 4 * n) % 2 ^ 32)

  -- `size` is the bit pattern of an `int`; the result is the pointer.
  unfoldable pub argptr : (n size : ℕ) → Option ℕ
  unfolding argint
  argptr n size = elim (argint n) [
    | none ↦ none
    | some i ↦
        if leb (2 ^ 31) size || leb sz i || ltb sz ((i + size) % 2 ^ 32) then none else some i
  ]

  -- The pointer and the length of the string.
  unfoldable pub argstr : ℕ → Option (ℕ × ℕ)
  unfolding argint fetchstr
  argstr n = elim (argint n) [
    | none ↦ none
    | some addr ↦ elim (fetchstr addr) [ none ↦ none | some len ↦ some (addr, len) ]
  ]
