-- ===== src/Proc/Kill.antt =====
-- `kill`: which process it marks, and what becomes of the mark on a free slot.
use cserl_bootcamp.Common.{
  ℕ, zero, suc, ◌<◌, ◌≡◌, ◌≢◌, refl, ap, ◌∙◌, Bool, true, false, some, List, [], ◌∷◌, ◌==◌,
  if◌then◌else◌, find_index, find_index-some, find_index-none, find_index-least, modify,
  Option-cases, inl, inr, arith,
}
use cserl_bootcamp.Proc.Table.{
  runnable, embryo, Proc, PTable, is_unused, is_sleeping, proc_at, proc_at?, update, allocproc,
  claim, kill,
}
use cserl_bootcamp.Proc.Slots.{proc_at-proc_at?, proc_at?-update}

-- A process that has been told to die: woken if it sleeps.
abbrev pub doomed : Proc → Proc
doomed p = record p { killed = true; state = if is_sleeping p.state then runnable else p.state }

abbrev pub KillPost : ℕ → PTable → Bool → PTable → Type 0
KillPost pid t true u =
    (i : ℕ) × (p : Proc) × (proc_at? t i ≡ some p)
    × (p.pid ≡ pid)
    × ((j : ℕ) (q : Proc) → j < i → proc_at? t j ≡ some q → q.pid ≢ pid)
    × (proc_at? u i ≡ some (doomed p))
    × ((j : ℕ) → i ≢ j → proc_at? u j ≡ proc_at? t j)
KillPost pid t false u = (u ≡ t) × ((j : ℕ) (q : Proc) → proc_at? t j ≡ some q → q.pid ≢ pid)

-- `kill` marks the first process in the table with the given pid, wakes it if it sleeps, changes no
-- other, and returns 0; or it changes nothing and returns -1, where no slot has that pid.
pub kill-KillPost : (pid : ℕ) (t : PTable) → KillPost pid t (kill pid t).0 (kill pid t).1
unfolding kill
kill-KillPost pid t = elim (Option-cases (find_index (λ p. p.pid == pid) t.procs)) [
  | inl stop ↦
      rw (stop, kill)
        (refl, λ j q e. miss (q.pid) (find_index-none (λ p. p.pid == pid) t.procs j q stop e))
  | inr (i, found) ↦
      let (p, at, hit) = find_index-some (λ p. p.pid == pid) t.procs i found in
      rw (found, kill)
        (
          i,
          p,
          at,
          ground arith,
          (λ j q lt e.
              miss (q.pid) (find_index-least (λ p. p.pid == pid) t.procs i j q found lt e)),
          ground (arith, proc_at?-update t i i doomed),
          (λ j ne. ground (arith, proc_at?-update t i j doomed)),
        )
]
  where
    miss : (k : ℕ) → (k == pid) ≡ false → k ≢ pid
    miss k e same = ground arith

find_index-modify :
    (test : Proc → Bool) (f : Proc → Proc) (ps : List Proc) (i : ℕ)
    → ((p : Proc) → test (f p) ≡ test p)
    → find_index test (modify ps i f) ≡ find_index test ps
find_index-modify test f [] i same = refl
find_index-modify test f (p ∷ ps) zero same = rw (same p) refl
find_index-modify test f (p ∷ ps) (suc i) same = rw (find_index-modify test f ps i same) refl

-- `allocproc` does not touch the mark.
allocproc-killed :
    (kstack i : ℕ) (u : PTable) (q : Proc)
    → (kstack == 0) ≡ false
    → find_index (λ p. is_unused p.state) u.procs ≡ some i
    → proc_at? u i ≡ some q
    → ((allocproc kstack u).0 ≡ some i) × ((proc_at (allocproc kstack u).1 i).killed ≡ q.killed)
unfolding allocproc claim
allocproc-killed kstack i u q got free_at at =
    let f : Proc → Proc = λ p. record p { state = embryo; pid = u.nextpid } in
    let g : Proc → Proc = λ p. record p { kstack = kstack } in
    let w = update (update u i f) i g in
    let there : proc_at w i ≡ g (f q) =
      proc_at-proc_at? w i {p = g (f q)}
        (ground (arith, proc_at?-update u i i f, proc_at?-update (update u i f) i i g)) in
    rw (free_at, allocproc, got, claim) (refl, ap (λ (p : Proc). p.killed) there)

-- Where the first slot with pid 0 is also the first free slot, and a stack can be had: `kill(0)` reports
-- success, the `allocproc` that follows it gives that slot out, and the process in it has `killed` set
-- from the start.
pub allocproc-kill_zero :
    (kstack i : ℕ) (t : PTable) (p : Proc)
    → (kstack == 0) ≡ false
    → find_index (λ p. p.pid == 0) t.procs ≡ some i
    → find_index (λ p. is_unused p.state) t.procs ≡ some i
    → proc_at? t i ≡ some p
    → ((kill 0 t).0 ≡ true)
      × ((allocproc kstack (kill 0 t).1).0 ≡ some i)
      × ((proc_at (allocproc kstack (kill 0 t).1).1 i).killed ≡ true)
unfolding kill
allocproc-kill_zero kstack i t p got zero_at free_at at =
    let u = update t i doomed in
    let still : find_index (λ p. is_unused p.state) u.procs ≡ some i =
      find_index-modify (λ p. is_unused p.state) doomed t.procs i (λ q. ground arith) ∙ free_at in
    let (given, marked) =
      allocproc-killed kstack i u (doomed p) got still
        (ground (arith, proc_at?-update t i i doomed)) in
    rw (zero_at, kill) (refl, given, marked)
