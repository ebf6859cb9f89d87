-- ===== src/Lock/Examples.antt =====
-- The theorems on locks at concrete cpus.
use cserl_bootcamp.Common.{ℕ, ◌≡◌, refl, true, false, some}
use cserl_bootcamp.Lock.{Cpu, initlock, acquire_begin, acquire_spin, release, Sleeplock, pushcli}
use cserl_bootcamp.Lock.Exclusion.{
  System, Reach, here, next, begins, gets, spinning, inside, unlocked, at, Reach-exclusive,
}

abbrev cpu : Cpu
cpu = record { interrupts = true; ncli = 0; intena = false }

-- Cpu 1 has the lock and cpu 0 spins.
abbrev pushed : Cpu
pushed = record { interrupts = false; ncli = 1; intena = true }

abbrev busy : System
busy = record {
  lock = record { locked = true; cpu = some 1 };
  cpus = at (at unlocked.cpus 1 pushed) 0 pushed;
  phase = at (at (at unlocked.phase 1 spinning) 1 inside) 0 spinning;
}

busy-Reach : Reach unlocked busy
unfolding acquire_begin acquire_spin pushcli initlock
busy-Reach =
    next
      (next (next here (begins 1 pushed refl refl refl))
        (gets 1 (record { locked = true; cpu = some 1 }) refl refl refl))
      (begins 0 pushed refl refl refl)

abbrev me : ℕ
me = 1

Reach-exclusive_example :
    (me ≡ me)
    × ((busy.cpus me).interrupts ≡ false)
    × ((c : Cpu) × (release me busy.lock (busy.cpus me) ≡ some (initlock, c)))
Reach-exclusive_example = Reach-exclusive me me busy-Reach refl refl

abbrev slept_on : Sleeplock
slept_on = record { locked = true; pid = 4 }
