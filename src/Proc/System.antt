-- ===== src/Proc/System.antt =====
-- The process table as a system of steps: any running process may make any call at any time.
use cserl_bootcamp.Common.{
  ℤ, ℕ, zero, suc, ◌+◌, ◌<◌, ◌^◌, ◌≡◌, ◌≢◌, refl, true, false, none, some, [], ◌∷◌, ◌==◌, replicate,
  get_elem?-replicate, inl, inr, Bool-cases, ap, ◌∙◌, arith,
}
use cserl_bootcamp.Proc.Table.{
  embryo, allocproc, claim, running, runnable, TrapFrame, Proc, PTable, Chan, blank_proc, proc_at?,
  is_unused, kill, wakeup1, sleep_on, awake, yield, dispatch, growproc,
}
use cserl_bootcamp.Proc.Life.{
  userinit, first_user, boot, fork_fail, fork_copy, fork_start, exit, wait,
}
use cserl_bootcamp.Proc.Invariant.{is_alive, is_active, IsValid, wakeup1-IsValid}
use cserl_bootcamp.Proc.Invariant.Create.{allocproc-IsValid}
use cserl_bootcamp.Proc.Invariant.Fork.{fork_fail-IsValid, fork_copy-IsValid, fork_start-IsValid}
use cserl_bootcamp.Proc.Invariant.Retire.{exit-IsValid}
use cserl_bootcamp.Proc.Invariant.Keep.{
  kill-IsValid, sleep_on-IsValid, awake-IsValid, yield-IsValid, dispatch-IsValid, growproc-IsValid,
}
use cserl_bootcamp.Proc.Wait.{wait-IsValid}

-- The process in slot `cur` of `t` is running, and so may make a system call.
pub record Runs (t : PTable) (cur : ℕ) : Type 0 where
  pub entry : Proc
  pub at : proc_at? t cur ≡ some entry
  pub state : entry.state ≡ running

-- Slot `i` is in EMBRYO: a `fork` has its slot, and has set its parent or not.
pub record Starts (t : PTable) (i : ℕ) : Type 0 where
  pub entry : Proc
  pub at : proc_at? t i ≡ some entry
  pub state : entry.state ≡ embryo

-- One step of the kernel; a `fork` is several steps, as it holds `ptable.lock` at its start and its end
-- only, and any running process may take a step on a slot in EMBRYO. From the files and the free memory that it happens to find.
module _ {F : Type 0} (fileclose iput : ℕ → F → F) where
  pub data Step (t u : PTable) : Type 0 where
    allocs :
        (kstack cur : ℕ)
        → Runs t cur
        → t.nextpid + 1 < 2 ^ 32
        → u ≡ (allocproc kstack t).1
        → Step t u
    fails : (i : ℕ) (start : Starts t i) → start.entry.parent ≡ none → u ≡ fork_fail i t → Step t u
    copies : (pgdir cur i : ℕ) → Runs t cur → Starts t i → u ≡ fork_copy pgdir cur i t → Step t u
    readies :
        (i : ℕ) (start : Starts t i) → start.entry.parent ≢ none → u ≡ fork_start i t → Step t u
    exits :
        (cur : ℕ) (fs : F) (r : PTable × F)
        → Runs t cur
        → exit fileclose iput cur t fs ≡ some r
        → u ≡ r.0
        → Step t u
    waits : (cur : ℕ) → Runs t cur → u ≡ (wait cur t).1 → Step t u
    kills : (pid : ℕ) → u ≡ (kill pid t).1 → Step t u
    wakes : (c : Chan) → u ≡ wakeup1 c t → Step t u
    sleeps : (cur : ℕ) (c : Chan) → Runs t cur → u ≡ sleep_on cur c t → Step t u
    awakes : (cur : ℕ) → u ≡ awake cur t → Step t u
    yields : (cur : ℕ) → Runs t cur → u ≡ yield cur t → Step t u
    dispatches : (i : ℕ) → u ≡ (dispatch i t).1 → Step t u
    grows :
        (allocuvm deallocuvm : (oldsz newsz : ℕ) → ℕ) (n : ℤ) (cur : ℕ)
        → u ≡ (growproc allocuvm deallocuvm n cur t).1
        → Step t u

  pub data Reach (t : PTable) : PTable → Type 0 where
    here : Reach t t
    next : {u w : PTable} → Reach t u → Step u w → Reach t w

  exits-IsValid :
      (cur : ℕ) (fs : F) (r : PTable × F) {t : PTable}
      → Runs t cur
      → IsValid t
      → exit fileclose iput cur t fs ≡ some r
      → IsValid r.0
  unfolding exit
  exits-IsValid cur fs r {t} run v e = elim (Bool-cases (cur == t.initproc)) [
    | inl same ↦ absurd (ground arith)
    | inr apart ↦
        let (r', e', v') =
          exit-IsValid fileclose iput cur fs v run.at (ground (arith, run.state)) (ground arith) in
        let same : r' ≡ r = cc in rw (← same) v'
  ]

  Step-IsValid : {t u : PTable} → Step t u → IsValid t → IsValid u
  Step-IsValid (allocs kstack cur run room e) v = rw e (allocproc-IsValid kstack v room)
  Step-IsValid (fails i start bare e) v =
      rw e (fork_fail-IsValid i start.entry v start.at start.state bare)
  Step-IsValid (copies pgdir cur i run start e) v = rw e (
      fork_copy-IsValid i start.entry v start.at start.state pgdir cur run.entry run.at
        (ground (arith, run.state)))
  Step-IsValid (readies i start named e) v =
      rw e (fork_start-IsValid i start.entry v start.at start.state named)
  Step-IsValid (exits cur fs r run e e') v = rw e' (exits-IsValid cur fs r run v e)
  Step-IsValid (waits cur run e) v = rw e (wait-IsValid cur v run.at run.state)
  Step-IsValid (kills pid e) v = rw e (kill-IsValid pid v)
  Step-IsValid (wakes c e) v = rw e (wakeup1-IsValid c v)
  Step-IsValid (sleeps cur c run e) v = rw e (sleep_on-IsValid cur run.at c run.state v)
  Step-IsValid (grows allocuvm deallocuvm n cur e) v =
      rw e (growproc-IsValid allocuvm deallocuvm n cur v)
  Step-IsValid (awakes cur e) v = rw e (awake-IsValid cur v)
  Step-IsValid (yields cur run e) v = rw e (yield-IsValid cur run.at run.state v)
  Step-IsValid (dispatches i e) v = rw e (dispatch-IsValid i v)

-- What `userinit` makes of the table at boot: one process, with pid 1.
abbrev first_proc : (kstack pgdir cwd : ℕ) → TrapFrame → Proc
first_proc kstack pgdir cwd tf = record blank_proc {
  kstack = kstack;
  pgdir = pgdir;
  sz = 4096;
  tf = tf;
  name = b'i' ∷ b'n' ∷ b'i' ∷ b't' ∷ b'c' ∷ b'o' ∷ b'd' ∷ b'e' ∷ [];
  cwd = some cwd;
  pid = 1;
  state = runnable;
}

abbrev first_table : Proc → PTable
first_table p = record { procs = p ∷ replicate 63 blank_proc; nextpid = 2; initproc = 0 }

allocproc-boot :
    (kstack : ℕ)
    → (kstack == 0) ≡ false
    → allocproc kstack boot
      ≡ (some 0, first_table (record blank_proc { kstack = kstack; pid = 1; state = embryo }))
unfolding allocproc claim
allocproc-boot kstack got = rw (got, claim)

allocproc-boot_failed : (kstack : ℕ) → (kstack == 0) ≡ true → (allocproc kstack boot).0 ≡ none
unfolding allocproc claim
allocproc-boot_failed kstack out = rw (out, claim)

userinit-boot :
    (kstack pgdir cwd : ℕ) (tf : TrapFrame) {t : PTable}
    → userinit kstack pgdir cwd tf boot ≡ some t
    → t ≡ first_table (first_proc kstack pgdir cwd tf)
unfolding userinit
userinit-boot kstack pgdir cwd tf e = elim (Bool-cases (kstack == 0)) [
  | inl out ↦ absurd (ground (arith, allocproc-boot_failed kstack out))
  | inr got ↦ elim (Bool-cases (pgdir == 0)) [
    | inl out ↦ absurd (ground (arith, allocproc-boot kstack got))
    | inr copied ↦
        let run : userinit kstack pgdir cwd tf boot
            ≡ some (first_table (first_proc kstack pgdir cwd tf)) =
          ap (first_user pgdir cwd tf) (allocproc-boot kstack got) ∙ rw copied refl in
        cc
  ]
]

first_slot :
    (p : Proc) (i : ℕ) (q : Proc)
    → proc_at? (first_table p) i ≡ some q
    → is_unused q.state ≡ false
    → (i ≡ 0) × (q ≡ p)
first_slot p zero q e live = ground arith
first_slot p (suc i) q e live =
    let blank : q ≡ blank_proc = get_elem?-replicate 63 blank_proc i e in absurd (ground arith)

first_blank :
    (p : Proc)
    → is_alive p.state ≡ true
    → (i : ℕ) (q : Proc) → proc_at? (first_table p) i ≡ some q
    → is_unused q.state ≡ true
    → q.parent ≡ none
first_blank p alive zero q e idle = absurd (ground arith)
first_blank p alive (suc i) q e idle =
    let blank : q ≡ blank_proc = get_elem?-replicate 63 blank_proc i e in ground arith

first_starting :
    (p : Proc)
    → is_alive p.state ≡ true
    → (i : ℕ) (q : Proc) → proc_at? (first_table p) i ≡ some q
    → is_unused q.state ≡ false
    → is_active q.state ≡ false
    → ⊥
first_starting p alive i q e live idle = ground (arith, first_slot p i q e live)

first_table-IsValid :
    (p : Proc) → is_alive p.state ≡ true → p.pid ≡ 1 → p.parent ≡ none → IsValid (first_table p)
first_table-IsValid p alive pid root = record {
  starting = λ i q e live idle. absurd (first_starting p alive i q e live idle);
  size = refl;
  init = record { entry = p; at = refl; alive = alive; pid = pid; root = root };
  fresh = λ i q e live. ground (arith, first_slot p i q e live);
  distinct = λ i j q r e e' live live' same.
      ground (arith, first_slot p i q e live, first_slot p j r e' live');
  parents = λ i q e act ne. absurd (ne (first_slot p i q e (ground arith)).0);
  blank = λ i q e free. first_blank p alive i q e free;
}

-- Every table that the kernel reaches from the one that `userinit` sets up satisfies the invariant, also
-- in the middle of forks, as long as no `fork` makes the pids wrap around.
pub Reach-IsValid :
    {F : Type 0} (fileclose iput : ℕ → F → F) (kstack pgdir cwd : ℕ) (tf : TrapFrame) {t u : PTable}
    → userinit kstack pgdir cwd tf boot ≡ some t
    → Reach fileclose iput t u
    → IsValid u
Reach-IsValid fileclose iput kstack pgdir cwd tf start here =
    rw (userinit-boot kstack pgdir cwd tf start) (first_table-IsValid _ refl refl refl)
Reach-IsValid fileclose iput kstack pgdir cwd tf start (next r s) =
    Step-IsValid fileclose iput s (Reach-IsValid fileclose iput kstack pgdir cwd tf start r)
