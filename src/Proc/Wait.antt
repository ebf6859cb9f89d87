-- ===== src/Proc/Wait.antt =====
-- `wait`: its scan of the table, and what each of its results means.
use cserl_bootcamp.Common.{
  ℕ, zero, suc, ◌+◌, ◌≡◌, ◌≢◌, ◌⊎◌, refl, ap, Bool, true, false, ◌&&◌, ◌||◌, none, some, List, [],
  ◌∷◌, get_elem?, Bool-cases, inl, inr, arith,
}
use cserl_bootcamp.Proc.Table.{
  unused, zombie, running, proc, Proc, PTable, is_parent, is_zombie, proc_at, proc_at?, update,
  sleep_on,
}
use cserl_bootcamp.Proc.Life.{
  Scan, found, none_exited, wait_scan, wait, clear, WaitResult, reaped, failed, blocked,
}
use cserl_bootcamp.Proc.Slots.{proc_at-proc_at?, proc_at?-update}
use cserl_bootcamp.Proc.Invariant.{IsValid}
use cserl_bootcamp.Proc.Invariant.Keep.{sleep_on-IsValid}
use cserl_bootcamp.Proc.Invariant.Create.{discard-IsValid}

wait_scan-found :
    (cur : ℕ) (ps : List Proc) (i : ℕ) (kids : Bool) (k : ℕ)
    → wait_scan cur ps i kids ≡ found k
    → (m : ℕ) × (p : Proc) × (k ≡ i + m)
      × (get_elem? ps m ≡ some p)
      × (is_parent cur p.parent ≡ true)
      × (p.state ≡ zombie)
unfolding wait_scan
wait_scan-found cur [] i kids k e = absurd (ground arith)
wait_scan-found cur (p ∷ ps) i kids k e =
    elim (Bool-cases (is_parent cur p.parent && is_zombie p.state)) [
      | inl hit ↦ (0, p, ground arith, refl, ground arith, ground arith)
      | inr miss ↦
          let (m, q, eq, at, kid, dead) =
            wait_scan-found cur ps (i + 1) (kids || is_parent cur p.parent) k (ground arith) in
          (suc m, q, omega arith, at, kid, dead)
    ]

wait_scan-kids :
    (cur : ℕ) (ps : List Proc) (i : ℕ) (b : Bool)
    → wait_scan cur ps i true ≡ none_exited b
    → b ≡ true
unfolding wait_scan
wait_scan-kids cur [] i b e = ground arith
wait_scan-kids cur (q ∷ ps) i b e = ground (arith, wait_scan-kids cur ps (i + 1) b)

wait_scan-none :
    (cur : ℕ) (ps : List Proc) (i : ℕ) (kids b : Bool) (m : ℕ) (p : Proc)
    → wait_scan cur ps i kids ≡ none_exited b
    → get_elem? ps m ≡ some p
    → is_parent cur p.parent ≡ true
    → (is_zombie p.state ≡ false) × (b ≡ true)
unfolding wait_scan
wait_scan-none cur [] i kids b m p e at kid = absurd (ground arith)
wait_scan-none cur (q ∷ ps) i kids b zero p e at kid =
    ground (arith, wait_scan-kids cur ps (i + 1) b)
wait_scan-none cur (q ∷ ps) i kids b (suc m) p e at kid =
    ground (arith, wait_scan-none cur ps (i + 1) (kids || is_parent cur q.parent) b m p)

-- Where the scan saw a child, there is one.
wait_scan-some :
    (cur : ℕ) (ps : List Proc) (i : ℕ)
    → wait_scan cur ps i false ≡ none_exited true
    → (m : ℕ) × (p : Proc) × (get_elem? ps m ≡ some p) × (is_parent cur p.parent ≡ true)
unfolding wait_scan
wait_scan-some cur [] i e = absurd (ground arith)
wait_scan-some cur (q ∷ ps) i e = elim (Bool-cases (is_parent cur q.parent)) [
  | inl kid ↦ (0, q, refl, kid)
  | inr other ↦
      let (m, p, at, kid) = wait_scan-some cur ps (i + 1) (ground arith) in (suc m, p, at, kid)
]

abbrev pub IsChild : PTable → ℕ → ℕ → Proc → Type 0
IsChild t cur i p = (proc_at? t i ≡ some p) × (is_parent cur p.parent ≡ true)

-- A slot that is free, and no longer has the stack, the pid, the parent, the name and the mark of the
-- process that it held; the fields that `wait` leaves are those of `p`.
pub record Freed (p q : Proc) : Type 0 where
  pub state : q.state ≡ unused
  pub kstack : q.kstack ≡ 0
  pub pid : q.pid ≡ 0
  pub parent : q.parent ≡ none
  pub killed : q.killed ≡ false
  pub name : q.name ≡ 0 ∷ []
  pub left : (q.ofile ≡ p.ofile) × (q.cwd ≡ p.cwd) × (q.chan ≡ p.chan)

-- What each result of `wait` says, and what it leaves in the table.
abbrev pub WaitPost : ℕ → PTable → PTable → WaitResult → Type 0
WaitPost cur t u (reaped pid) =
    (i : ℕ) × (p : Proc) × IsChild t cur i p
    × (p.state ≡ zombie)
    × (pid ≡ p.pid)
    × (u ≡ update t i clear)
    × ((q : Proc) × (proc_at? u i ≡ some q) × Freed p q)
    × ((j : ℕ) → i ≢ j → proc_at? u j ≡ proc_at? t j)
    × (u.nextpid ≡ t.nextpid)
WaitPost cur t u failed =
    (u ≡ t)
    × ((i : ℕ) (p : Proc) → IsChild t cur i p → is_zombie p.state ≡ false)
    × (((i : ℕ) (p : Proc) → ¬ IsChild t cur i p) ⊎ ((proc_at t cur).killed ≡ true))
WaitPost cur t u blocked =
    (u ≡ sleep_on cur (proc cur) t)
    × ((proc_at t cur).killed ≡ false)
    × ((i : ℕ) (p : Proc) → IsChild t cur i p → is_zombie p.state ≡ false)
    × ((i : ℕ) × (p : Proc) × IsChild t cur i p)

wait_none :
    (cur : ℕ) (t : PTable) (b : Bool)
    → wait_scan cur t.procs 0 false ≡ none_exited b
    → (i : ℕ) (p : Proc) → IsChild t cur i p
    → (is_zombie p.state ≡ false) × (b ≡ true)
wait_none cur t b e i p (at, kid) = wait_scan-none cur t.procs 0 false b i p e at kid

-- One scan of `wait` either reaps a child that is a zombie: it returns its pid and frees its slot, which
-- loses its stack, pid, parent, name and mark, while no other slot changes; or
-- fails and changes nothing, where no child is a zombie, and there is no child or the caller has
-- been killed; or puts the caller to sleep on itself, where it has a child, none of them a zombie,
-- and has not been killed.
pub wait-WaitPost : (cur : ℕ) (t : PTable) → WaitPost cur t (wait cur t).1 (wait cur t).0
unfolding wait
wait-WaitPost cur t = go (wait_scan cur t.procs 0 false) refl
  where
    go :
        (s : Scan)
        → wait_scan cur t.procs 0 false ≡ s
        → WaitPost cur t (wait cur t).1 (wait cur t).0
    go (found k) e =
        let (m, p, eq, at, kid, dead) = wait_scan-found cur t.procs 0 false k e in
        let here : k ≡ m = omega arith in
        let there : proc_at? t k ≡ some p = rw here at in
        rw (e, wait)
          (
            k,
            p,
            (rw here at, kid),
            dead,
            ap (λ (q : Proc). q.pid) (proc_at-proc_at? t k {p = p} (rw here at)),
            refl,
            (
              clear p,
              ground (arith, proc_at?-update t k k clear),
              record {
                state = refl;
                kstack = refl;
                pid = refl;
                parent = refl;
                killed = refl;
                name = refl;
                left = (refl, refl, refl);
              },
            ),
            (λ j ne. ground (arith, proc_at?-update t k j clear)),
            refl,
          )
    go (none_exited true) e = elim (Bool-cases (proc_at t cur).killed) [
      | inl dead ↦ rw (e, dead, wait) (refl, λ i p c. (wait_none cur t true e i p c).0, inr dead)
      | inr not_dead ↦
          let (m, p, at, kid) = wait_scan-some cur t.procs 0 e in
          rw (e, not_dead, wait)
            (refl, not_dead, λ i p c. (wait_none cur t true e i p c).0, (m, p, (at, kid)))
    ]
    go (none_exited false) e =
        rw (e, wait)
          (
            refl,
            λ i p c. (wait_none cur t false e i p c).0,
            inl (λ i p c. cc ((wait_none cur t false e i p c).1)),
          )

-- `wait` by a living process keeps the invariant, whatever its result.
pub wait-IsValid :
    (cur : ℕ) {t : PTable} {p : Proc}
    → IsValid t
    → proc_at? t cur ≡ some p
    → p.state ≡ running
    → IsValid (wait cur t).1
wait-IsValid cur {t} v here run = go (wait cur t).0 (wait-WaitPost cur t)
  where
    go : (r : WaitResult) → WaitPost cur t (wait cur t).1 r → IsValid (wait cur t).1
    go (reaped pid) (i, q, child, dead, same, u, freed, others, pids) =
        rw u (discard-IsValid i q clear v child.0 (ground arith) refl refl)
    go failed (u, none_left, why) = rw u v
    go blocked (u, alive, none_left, some_child) = rw u (sleep_on-IsValid cur here (proc cur) run v)
