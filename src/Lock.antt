-- ===== src/Lock.antt =====
-- xv6-public/spinlock.c and sleeplock.c. The stack trace that `acquire` records is not modelled. The
-- exchange of `locked` and the record of the holder are one step.
pub mod Nesting
pub mod Exclusion
pub mod Sleep
mod Examples
use cserl_bootcamp.Common.{
  ℕ, zero, suc, ◌+◌, ◌-◌, Bool, true, false, ◌&&◌, not, Option, none, some, ◌==◌, if◌then◌else◌,
}

-- `ncli` and `intena` of `struct cpu`, and the interrupt flag of its processor.
pub record Cpu : Type 0 where
  pub interrupts : Bool
  pub ncli : ℕ
  pub intena : Bool

-- `struct spinlock`: the holder is the number of its cpu.
pub record Spinlock : Type 0 where
  pub locked : Bool
  pub cpu : Option ℕ

unfoldable pub pushcli : Cpu → Cpu
pushcli c = record c {
  interrupts = false;
  intena = if c.ncli == 0 then c.interrupts else c.intena;
  ncli = c.ncli + 1;
}

-- `none` is a panic.
unfoldable pub popcli : Cpu → Option Cpu
popcli c = if c.interrupts then none else elim c.ncli [
  | zero ↦ none
  | suc k ↦
      some (record c { ncli = k; interrupts = if (k == 0) && c.intena then true else c.interrupts })
]

unfoldable pub initlock : Spinlock
initlock = record { locked = false; cpu = none }

abbrev pub is_cpu : ℕ → Option ℕ → Bool
is_cpu me none = false
is_cpu me (some i) = me == i

-- `holding` by cpu `me`; its `pushcli` and `popcli` cancel out.
abbrev pub holding : ℕ → Spinlock → Bool
holding me lk = lk.locked && is_cpu me lk.cpu

-- `acquire` up to its loop; `none` is the panic.
unfoldable pub acquire_begin : ℕ → Spinlock → Cpu → Option Cpu
unfolding pushcli
acquire_begin me lk c = if holding me lk then none else some (pushcli c)

-- One round of the loop of `acquire`: `none` is a round that goes on spinning.
unfoldable pub acquire_spin : ℕ → Spinlock → Option Spinlock
acquire_spin me lk = if lk.locked then none else some (record { locked = true; cpu = some me })

-- `none` is a panic, of `release` or of `popcli`.
unfoldable pub release : ℕ → Spinlock → Cpu → Option (Spinlock × Cpu)
unfolding popcli
release me lk c = if not (holding me lk) then none else elim (popcli c) [
  | none ↦ none
  | some c' ↦ some (record { locked = false; cpu = none }, c')
]

-- `struct sleeplock`, whose fields the spin lock `lk` guards.
pub record Sleeplock : Type 0 where
  pub locked : Bool
  pub pid : ℕ

unfoldable pub initsleeplock : Sleeplock
initsleeplock = record { locked = false; pid = 0 }

-- `acquiresleep` by the process `me`: `none` is one more call of `sleep`.
unfoldable pub acquiresleep : ℕ → Sleeplock → Option Sleeplock
acquiresleep me lk = if lk.locked then none else some (record { locked = true; pid = me })

-- `releasesleep`, which also wakes the processes that sleep on the lock.
unfoldable pub releasesleep : Sleeplock → Sleeplock
releasesleep lk = record { locked = false; pid = 0 }

abbrev pub holdingsleep : ℕ → Sleeplock → Bool
holdingsleep me lk = lk.locked && (lk.pid == me)
