-- ===== src/Proc/Examples.antt =====
-- The theorems on the process table at concrete tables, and tests.
use cserl_bootcamp.Common.{
  ℕ, zero, suc, ◌+◌, ◌<◌, ◌≡◌, ◌≢◌, refl, Bool, true, false, none, some, List, [], ◌∷◌, replicate,
  get_elem?, get_elem?-replicate, arith,
}
use cserl_bootcamp.Proc.Table.{
  unused, sleeping, running, zombie, runnable, proc, Proc, PTable, TrapFrame, blank_proc, proc_at,
  proc_at?, is_unused, kill, allocproc, claim, dispatch,
}
use cserl_bootcamp.Proc.Life.{
  boot, userinit, fork, fork_copy, fork_start, wait, exit_locked, reaped,
}
use cserl_bootcamp.Proc.Invariant.{is_active, IsValid, HasParent}
use cserl_bootcamp.Proc.System.{here, next, dispatches, allocs, copies, readies, Reach-IsValid}
use cserl_bootcamp.Proc.Lineage.{parent_pid, get_siblings_info, siblings_of, get_ancestors}
use cserl_bootcamp.Proc.Lineage.Ancestors.{Ancestry, get_ancestors-Ancestry}
use cserl_bootcamp.Proc.Lineage.Siblings.{get_siblings_info-siblings_of, get_siblings_info-null}
use cserl_bootcamp.Proc.Wait.{WaitPost, wait-WaitPost}
use cserl_bootcamp.Proc.Effects.{Forked, fork-Forked, Exited, exit_locked-Exited}
use cserl_bootcamp.Proc.Kill.{allocproc-kill_zero}

abbrev init : Proc
init = record blank_proc { pid = 1; state = sleeping; chan = proc 0 }

abbrev shell : Proc
shell = record blank_proc { pid = 2; state = sleeping; chan = proc 1; parent = some 0 }

abbrev worker : Proc
worker = record blank_proc { pid = 3; state = running; parent = some 1 }

abbrev dead : Proc
dead = record blank_proc { pid = 4; state = zombie; parent = some 1 }

abbrev family : PTable
family = record {
  procs = init ∷ shell ∷ worker ∷ dead ∷ replicate 60 blank_proc;
  nextpid = 5;
  initproc = 0;
}

blank_slot :
    (i : ℕ) (p : Proc) → proc_at? family (suc (suc (suc (suc i)))) ≡ some p → p ≡ blank_proc
blank_slot i p e = get_elem?-replicate 60 blank_proc i e

used_slot :
    (i : ℕ) (p : Proc)
    → proc_at? family i ≡ some p
    → is_unused p.state ≡ false
    → (i < 4) × (p.pid ≡ i + 1)
used_slot zero p e live = ground arith
used_slot (suc zero) p e live = ground arith
used_slot (suc (suc zero)) p e live = ground arith
used_slot (suc (suc (suc zero))) p e live = ground arith
used_slot (suc (suc (suc (suc i)))) p e live = absurd (ground (arith, blank_slot i p e))

family_parents :
    (i : ℕ) (p : Proc)
    → proc_at? family i ≡ some p
    → is_active p.state ≡ true
    → i ≢ 0
    → HasParent family p
family_parents zero p e act ne = absurd (ne refl)
family_parents (suc zero) p e act ne = record {
  index = 0;
  entry = init;
  parent = ground arith;
  at = refl;
  alive = refl;
}
family_parents (suc (suc zero)) p e act ne = record {
  index = 1;
  entry = shell;
  parent = ground arith;
  at = refl;
  alive = refl;
}
family_parents (suc (suc (suc zero))) p e act ne = record {
  index = 1;
  entry = shell;
  parent = ground arith;
  at = refl;
  alive = refl;
}
family_parents (suc (suc (suc (suc i)))) p e act ne = absurd (ground (arith, blank_slot i p e))

family_blank :
    (i : ℕ) (p : Proc) → proc_at? family i ≡ some p → is_unused p.state ≡ true → p.parent ≡ none
family_blank zero p e idle = absurd (ground arith)
family_blank (suc zero) p e idle = absurd (ground arith)
family_blank (suc (suc zero)) p e idle = absurd (ground arith)
family_blank (suc (suc (suc zero))) p e idle = absurd (ground arith)
family_blank (suc (suc (suc (suc i)))) p e idle = ground (arith, blank_slot i p e)

family_started :
    (i : ℕ) (p : Proc)
    → proc_at? family i ≡ some p
    → is_unused p.state ≡ false
    → is_active p.state ≡ false
    → ⊥
family_started zero p e live idle = ground arith
family_started (suc zero) p e live idle = ground arith
family_started (suc (suc zero)) p e live idle = ground arith
family_started (suc (suc (suc zero))) p e live idle = ground arith
family_started (suc (suc (suc (suc i)))) p e live idle = ground (arith, blank_slot i p e)

family-IsValid : IsValid family
family-IsValid = record {
  size = refl;
  init = record { entry = init; at = refl; alive = refl; pid = refl; root = refl };
  fresh = λ i p e live. omega (arith, used_slot i p e live);
  distinct =
      λ i j p q e e' live live' same. omega (arith, used_slot i p e live, used_slot j q e' live');
  parents = family_parents;
  starting = λ i p e live idle. absurd (family_started i p e live idle);
  blank = family_blank;
}

abbrev frame : TrapFrame
frame = record { eax = 0; esp = 4096; eip = 0; others = 35 ∷ 43 ∷ [] }

abbrev started : PTable
started = record {
  procs =
      record blank_proc {
        kstack = 8;
        pgdir = 9;
        sz = 4096;
        tf = frame;
        name = b'i' ∷ b'n' ∷ b'i' ∷ b't' ∷ b'c' ∷ b'o' ∷ b'd' ∷ b'e' ∷ [];
        cwd = some 1;
        pid = 1;
        state = runnable;
      }
      ∷ replicate 63 blank_proc;
  nextpid = 2;
  initproc = 0;
}

userinit-started : userinit 8 9 1 frame boot ≡ some started
unfolding userinit allocproc claim
userinit-started = refl

-- The first process in the middle of a `fork`, and then with a child that may run.
abbrev first_runs : PTable
first_runs = (dispatch 0 started).1

abbrev first_allocates : PTable
first_allocates = (allocproc 7 first_runs).1

abbrev first_copies : PTable
first_copies = fork_copy 9 0 1 first_allocates

Reach-IsValid_example : IsValid (fork_start 1 first_copies)
unfolding dispatch allocproc claim
Reach-IsValid_example =
    Reach-IsValid {F = ℕ} (λ _ n. n + 1) (λ _ n. n) 8 9 1 frame userinit-started
      (next
        (next
          (next (next here (dispatches 0 refl)) (
            allocs 7 0 (record { entry = proc_at first_runs 0; at = refl; state = refl })
              (omega arith) refl))
          (copies 9 0 1 (record { entry = proc_at first_allocates 0; at = refl; state = refl })
            (record { entry = proc_at first_allocates 1; at = refl; state = refl }) refl))
        (readies 1 (record { entry = proc_at first_copies 1; at = refl; state = refl })
          (λ e. ground arith) refl))

wait-WaitPost_example : WaitPost 1 family (wait 1 family).1 (wait 1 family).0
wait-WaitPost_example = wait-WaitPost 1 family

wait_reaps : (wait 1 family).0 ≡ reaped 4
unfolding wait
wait_reaps = refl

ancestors_of_worker : get_ancestors 5 2 family ≡ some (false, 2 ∷ 1 ∷ [])
unfolding get_ancestors
ancestors_of_worker = refl

get_ancestors-Ancestry_example :
    (all : Bool) × (pids : List ℕ) × (get_ancestors 5 2 family ≡ some (all, pids))
    × Ancestry family 2 5 all pids
get_ancestors-Ancestry_example =
    get_ancestors-Ancestry family-IsValid 5 2 worker (omega arith) refl refl

siblings_of_worker : get_siblings_info 77 2 family ≡ (3, running) ∷ (4, zombie) ∷ []
unfolding get_siblings_info parent_pid
siblings_of_worker = refl

get_siblings_info-siblings_of_example : get_siblings_info 77 2 family ≡ siblings_of 1 family.procs
get_siblings_info-siblings_of_example =
    get_siblings_info-siblings_of family-IsValid 77 1 shell refl refl (omega arith) 2 worker refl
      refl

get_siblings_info-null_example :
    (m : ℕ) × (get_elem? (get_siblings_info 2 2 family) m ≡ some (0, unused))
unfolding parent_pid
get_siblings_info-null_example = get_siblings_info-null family 2 9 blank_proc 2 refl refl refl

abbrev no_op : ℕ → Unit {0} → Unit {0}
no_op f fs = fs

fork_runs : (fork no_op no_op 7 7 2 family tt).0 ≡ some 5
unfolding fork allocproc claim
fork_runs = refl

fork-Forked_example : Forked 7 2 worker family 5 (fork no_op no_op 7 7 2 family tt).1
fork-Forked_example = fork-Forked no_op no_op 7 7 2 family worker tt 5 refl refl fork_runs

exit_locked-Exited_example :
    (q : Proc) × (proc_at? (exit_locked 1 family) 2 ≡ some q) × Exited 1 0 2 (proc 0) worker q
exit_locked-Exited_example =
    exit_locked-Exited 1 {me = shell} 2 worker family-IsValid (omega arith) refl refl

allocproc-kill_zero_example :
    ((kill 0 family).0 ≡ true)
    × ((allocproc 7 (kill 0 family).1).0 ≡ some 4)
    × ((proc_at (allocproc 7 (kill 0 family).1).1 4).killed ≡ true)
allocproc-kill_zero_example = allocproc-kill_zero 7 4 family blank_proc refl refl refl refl
