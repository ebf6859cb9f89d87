-- ===== src/Lock/Exclusion.antt =====
-- A spin lock and the cpus that take it: at most one is inside.
use cserl_bootcamp.Common.{
  ℕ, zero, suc, ◌<◌, ◌≡◌, ◌≢◌, inl, inr, refl, sym, ap, ◌∙◌, Bool, true, false, ◌&&◌, some, ◌==◌,
  ==_iff, if◌then◌else◌, Bool-cases, arith,
}
use cserl_bootcamp.Lock.{
  Cpu, Spinlock, holding, pushcli, popcli, initlock, acquire_begin, acquire_spin, release,
}

-- Where a cpu is with respect to the lock.
pub data Phase : Type 0 where
  outside spinning inside : Phase

abbrev pub is_outside : Phase → Bool
is_outside outside = true
is_outside spinning = false
is_outside inside = false

pub record System : Type 0 where
  pub lock : Spinlock
  pub cpus : ℕ → Cpu
  pub phase : ℕ → Phase

abbrev pub at {ℓ} : {A : Type ℓ} → (ℕ → A) → ℕ → A → ℕ → A
at f i a j = if j == i then a else f j

-- Cpus take the lock and release it in any order; between, a cpu may push and pop interrupts.
pub data Step (s t : System) : Type 0 where
  begins :
      (i : ℕ) (c : Cpu)
      → s.phase i ≡ outside
      → acquire_begin i s.lock (s.cpus i) ≡ some c
      → t ≡ record s { cpus = at s.cpus i c; phase = at s.phase i spinning }
      → Step s t
  gets :
      (i : ℕ) (lk : Spinlock)
      → s.phase i ≡ spinning
      → acquire_spin i s.lock ≡ some lk
      → t ≡ record s { lock = lk; phase = at s.phase i inside }
      → Step s t
  leaves :
      (i : ℕ) (lk : Spinlock) (c : Cpu)
      → s.phase i ≡ inside
      → release i s.lock (s.cpus i) ≡ some (lk, c)
      → t ≡ record { lock = lk; cpus = at s.cpus i c; phase = at s.phase i outside }
      → Step s t

pub data Reach (s : System) : System → Type 0 where
  here : Reach s s
  next : {t u : System} → Reach s t → Step t u → Reach s u

-- The lock names who is inside, and interrupts are off on a cpu that takes or holds it.
pub record IsExclusive (s : System) : Type 0 where
  pub held : (i : ℕ) → s.phase i ≡ inside → (s.lock.locked ≡ true) × (s.lock.cpu ≡ some i)
  pub off : (i : ℕ) → s.phase i ≢ outside → ((s.cpus i).interrupts ≡ false) × (0 < (s.cpus i).ncli)

acquire_begin-off :
    (i : ℕ) (lk : Spinlock) (c d : Cpu)
    → acquire_begin i lk c ≡ some d
    → (d.interrupts ≡ false) × (0 < d.ncli)
unfolding acquire_begin pushcli
acquire_begin-off i lk c d run = elim (Bool-cases (holding i lk)) [
  | inl twice ↦ absurd (cc (rw twice at run))
  | inr fine ↦ let same : pushcli c ≡ d = cc (rw fine at run) in rw (sym same) (refl, omega arith)
]

acquire_spin-lock :
    (i : ℕ) (lk lk' : Spinlock)
    → acquire_spin i lk ≡ some lk'
    → (lk.locked ≡ false) × (lk'.locked ≡ true) × (lk'.cpu ≡ some i)
unfolding acquire_spin
acquire_spin-lock i lk lk' run = elim (Bool-cases lk.locked) [
  | inl taken ↦ absurd (cc (rw taken at run))
  | inr free ↦
      let same : record { locked = true; cpu = some i } ≡ lk' = cc (rw free at run) in
      rw (sym same) (free, refl, refl)
]

begins-IsExclusive :
    (s : System) (i : ℕ) (c : Cpu)
    → IsExclusive s
    → (c.interrupts ≡ false) × (0 < c.ncli)
    → IsExclusive (record s { cpus = at s.cpus i c; phase = at s.phase i spinning })
begins-IsExclusive s i c v (off, up) = record {
  held = λ j e. elim (Bool-cases (j == i)) [
    | inl me ↦ absurd (cc (rw me at e))
    | inr other ↦ v.held j (rw other at e)
  ];
  off = λ j ne. elim (Bool-cases (j == i)) [
    | inl me ↦ rw me (off, up)
    | inr other ↦ rw other (v.off j (rw other at ne))
  ];
}

gets-IsExclusive :
    (s : System) (i : ℕ) (lk : Spinlock)
    → IsExclusive s
    → s.phase i ≡ spinning
    → s.lock.locked ≡ false
    → (lk.locked ≡ true) × (lk.cpu ≡ some i)
    → IsExclusive (record s { lock = lk; phase = at s.phase i inside })
gets-IsExclusive s i lk v spin free (taken, mine) = record {
  held = λ j e. elim (Bool-cases (j == i)) [
    | inl me ↦ (taken, mine ∙ ap (λ k. some k) (sym ((==_iff j i).0 me)))
    | inr other ↦ absurd (cc ((v.held j (rw other at e)).0, free))
  ];
  off = λ j ne. elim (Bool-cases (j == i)) [
    | inl me ↦ v.off j (λ e. cc (e, spin, (==_iff j i).0 me))
    | inr other ↦ v.off j (rw other at ne)
  ];
}

leaves-IsExclusive :
    (s : System) (i : ℕ) (lk : Spinlock) (c : Cpu)
    → IsExclusive s
    → s.phase i ≡ inside
    → IsExclusive (record { lock = lk; cpus = at s.cpus i c; phase = at s.phase i outside })
leaves-IsExclusive s i lk c v mine = record {
  held = λ j e. elim (Bool-cases (j == i)) [
    | inl me ↦ absurd (cc (rw me at e))
    | inr other ↦
        let same : some j ≡ some i = sym (v.held j (rw other at e)).1 ∙ (v.held i mine).1 in
        let eq : j ≡ i = cc same in absurd (ground arith)
  ];
  off = λ j ne. elim (Bool-cases (j == i)) [
    | inl me ↦ absurd ((rw me at ne) refl)
    | inr other ↦ rw other (v.off j (rw other at ne))
  ];
}

popcli-some : (c : Cpu) → c.interrupts ≡ false → 0 < c.ncli → (d : Cpu) × (popcli c ≡ some d)
unfolding popcli
popcli-some c off up = go c.ncli refl
  where
    go : (n : ℕ) → c.ncli ≡ n → (d : Cpu) × (popcli c ≡ some d)
    go zero e = absurd (omega arith)
    go (suc k) e =
        let d : Cpu = record c {
          ncli = k;
          interrupts = if (k == 0) && c.intena then true else c.interrupts;
        } in
        (
          d,
          rw (off, e, popcli)
              (ap
                (λ b.
                  some
                    (record c { ncli = k; interrupts = if (k == 0) && c.intena then true else b }))
                off),
        )

Step-IsExclusive : {s t : System} → IsExclusive s → Step s t → IsExclusive t
Step-IsExclusive {s} v (begins i c out run to) =
    rw to (begins-IsExclusive s i c v (acquire_begin-off i s.lock (s.cpus i) c run))
Step-IsExclusive {s} v (gets i lk spin run to) =
    let (free, taken, by_me) = acquire_spin-lock i s.lock lk run in
    rw to (gets-IsExclusive s i lk v spin free (taken, by_me))
Step-IsExclusive {s} v (leaves i lk c mine run to) = rw to (leaves-IsExclusive s i lk c v mine)

Reach-IsExclusive : {s t : System} → IsExclusive s → Reach s t → IsExclusive t
Reach-IsExclusive v here = v
Reach-IsExclusive v (next r step) = Step-IsExclusive (Reach-IsExclusive v r) step

-- A lock that nobody has taken, and cpus whose interrupts are on.
abbrev pub unlocked : System
unlocked = record {
  lock = initlock;
  cpus = λ i. record { interrupts = true; ncli = 0; intena = false };
  phase = λ i. outside;
}

unlocked-IsExclusive : IsExclusive unlocked
unlocked-IsExclusive = record { held = λ i e. absurd (cc e); off = λ i ne. absurd (ne refl) }

-- In every state that cpus reach by taking and releasing a lock, at most one is between its `acquire`
-- and its `release`; interrupts are off on that cpu; and its `release` does not panic and frees the
-- lock.
pub Reach-exclusive :
    (i j : ℕ) {t : System}
    → Reach unlocked t
    → t.phase i ≡ inside
    → t.phase j ≡ inside
    → (i ≡ j)
      × ((t.cpus i).interrupts ≡ false)
      × ((c : Cpu) × (release i t.lock (t.cpus i) ≡ some (initlock, c)))
unfolding release initlock
Reach-exclusive i j {t} reach mine yours =
    let v = Reach-IsExclusive unlocked-IsExclusive reach in
    let (taken, me) = v.held i mine in
    let both : some i ≡ some j = sym me ∙ (v.held j yours).1 in
    let (off, up) = v.off i (λ e. cc (e, mine)) in
    let (c, run) = popcli-some (t.cpus i) off up in
    let self : (i == i) ≡ true = ground arith in
    (cc both, off, (c, rw (taken, me, self, run, release) refl))
