-- ===== src/Lock/Nesting.antt =====
-- `pushcli` and `popcli` are matched.
use cserl_bootcamp.Common.{
  ℕ, zero, suc, ◌<◌, ◌≡◌, refl, ap, ◌∙◌, true, false, ◌&&◌, Option, none, some, ◌==◌, if◌then◌else◌,
  arith,
}
use cserl_bootcamp.Lock.{Cpu, pushcli, popcli}

-- Interrupts are off where `pushcli` is pending.
abbrev pub IsMatched : Cpu → Type 0
IsMatched c = 0 < c.ncli → c.interrupts ≡ false

abbrev pub pushes : ℕ → Cpu → Cpu
pushes zero c = c
pushes (suc n) c = pushes n (pushcli c)

abbrev pub pops : ℕ → Cpu → Option Cpu
pops zero c = some c
pops (suc n) c = elim (pops n c) [ none ↦ none | some c' ↦ popcli c' ]

-- The state of a cpu `d` after the same number of calls of each.
pub record Restored (c d : Cpu) : Type 0 where
  pub interrupts : d.interrupts ≡ c.interrupts
  pub ncli : d.ncli ≡ c.ncli
  pub intena : 0 < c.ncli → d.intena ≡ c.intena

popcli-Restored :
    (c d : Cpu)
    → IsMatched c
    → Restored (pushcli c) d
    → (e : Cpu) × (popcli d ≡ some e) × Restored c e
unfolding pushcli popcli
popcli-Restored c d m r =
    let off : d.interrupts ≡ false = r.interrupts in
    let up : d.ncli ≡ suc c.ncli = r.ncli ∙ omega arith in
    let kept : d.intena ≡ (if c.ncli == 0 then c.interrupts else c.intena) =
      r.intena (omega arith) in
    let e : Cpu = record d {
      ncli = c.ncli;
      interrupts = if (c.ncli == 0) && d.intena then true else false;
    } in
    (
      e,
      rw (off, up, popcli)
          (ap
            (λ b. some (record d {
              ncli = c.ncli;
              interrupts = if (c.ncli == 0) && d.intena then true else b;
            }))
            off),
      record { interrupts = ground (arith, m); ncli = refl; intena = λ lt. ground arith },
    )

-- As many calls of `popcli` as there were of `pushcli` do not panic, and leave the interrupt flag as
-- it was before the first: interrupts are on again only if they were on then, and only after the
-- last. The flag that was saved is kept where an outer `pushcli` is pending.
pub pops-pushes :
    (n : ℕ) (c : Cpu) → IsMatched c → (d : Cpu) × (pops n (pushes n c) ≡ some d) × Restored c d
unfolding pushcli
pops-pushes zero c m = (c, refl, record { interrupts = refl; ncli = refl; intena = λ lt. refl })
pops-pushes (suc n) c m =
    let (d, run, r) = pops-pushes n (pushcli c) (λ lt. refl) in
    let (e, last, r') = popcli-Restored c d m r in (e, rw (run, pops) last, r')
