-- ===== src/Proc/Life.antt =====
-- `wait`, `exit`, `fork` and `userinit` of proc.c.
use cserl_bootcamp.Common.{
  ℕ, zero, suc, ◌+◌, Bool, true, false, ◌||◌, not, Option, none, some, List, [], ◌∷◌, map, ◌==◌,
  if◌then◌else◌, replicate, take,
}
use cserl_bootcamp.Proc.Table.{
  Chan, PTable, Proc, TrapFrame, allocproc, blank_proc, is_parent, is_zombie, nproc, null, proc,
  proc_at, runnable, sleep_on, unused, update, wakeup1, zombie,
}

-- What `wait` finds in one scan of the table.
pub data Scan : Type 0 where
  found : ℕ → Scan
  none_exited : Bool → Scan

unfoldable pub wait_scan : ℕ → List Proc → ℕ → Bool → Scan
wait_scan cur [] i havekids = none_exited havekids
wait_scan cur (p ∷ ps) i havekids =
    let rest = wait_scan cur ps (i + 1) havekids in
    let rest_kid = wait_scan cur ps (i + 1) true in
    if not (is_parent cur p.parent) then rest else if is_zombie p.state then found i else rest_kid

pub data WaitResult : Type 0 where
  reaped : ℕ → WaitResult
  failed : WaitResult
  blocked : WaitResult

abbrev pub clear : Proc → Proc
clear p = record p {
  kstack = 0;
  pid = 0;
  parent = none;
  name = 0 ∷ [];
  killed = false;
  state = unused;
}

-- One round of the endless loop of `wait`. `blocked` is the call of `sleep`.
unfoldable pub wait : ℕ → PTable → WaitResult × PTable
unfolding wait_scan sleep_on
wait cur t = elim (wait_scan cur t.procs 0 false) [
  | found i ↦ (reaped (proc_at t i).pid, update t i clear)
  | none_exited havekids ↦
      if not havekids || (proc_at t cur).killed
      then (failed, t)
      else (blocked, sleep_on cur (proc cur) t)
]

-- The body of the loop of `exit` that passes children on to `initproc`, at slot `i`.
unfoldable pub adopt : ℕ → ℕ → PTable → PTable
adopt cur i t =
    if is_parent cur (proc_at t i).parent
    then (let t' = update t i (λ p. record p { parent = some t.initproc }) in
        if is_zombie (proc_at t i).state then wakeup1 (proc t.initproc) t' else t')
    else t

-- `n` rounds of that loop from slot `i` on.
unfoldable pub adopt_from : ℕ → ℕ → ℕ → PTable → PTable
adopt_from cur zero i t = t
adopt_from cur (suc n) i t = adopt_from cur n (i + 1) (adopt cur i t)

abbrev pub parent_chan : Option ℕ → Chan
parent_chan none = null
parent_chan (some i) = proc i

-- `exit` under `ptable.lock`.
unfoldable pub exit_locked : ℕ → PTable → PTable
exit_locked cur t =
    let t1 = wakeup1 (parent_chan (proc_at t cur).parent) t in
    let t2 = adopt_from cur nproc 0 t1 in update t2 cur (λ p. record p { state = zombie })

-- An operation of the file component on a file or directory that may be missing, and on each open
-- file of a process.
module _ {F : Type 0} (op : ℕ → F → F) where
  abbrev pub at_file : Option ℕ → F → F
  at_file none fs = fs
  at_file (some f) fs = op f fs

  abbrev pub each_file : List (Option ℕ) → F → F
  each_file [] fs = fs
  each_file (f ∷ ofile) fs = each_file ofile (at_file f fs)

-- `np->ofile[i] = filedup(curproc->ofile[i])` where that is not null.
abbrev pub dup_ofile : List (Option ℕ) → List (Option ℕ) → List (Option ℕ)
dup_ofile [] old = old
dup_ofile (f ∷ fs) [] = []
dup_ofile (none ∷ fs) (g ∷ gs) = g ∷ dup_ofile fs gs
dup_ofile (some f ∷ fs) (g ∷ gs) = some f ∷ dup_ofile fs gs

-- The assignments of `fork` to the fields of `np`; `p` is `*curproc`. `safestrcpy` keeps 15 bytes of the
-- name and its NUL.
abbrev pub copy_proc : (pgdir cur : ℕ) → Proc → Proc → Proc
copy_proc pgdir cur p np = record np {
  pgdir = pgdir;
  sz = p.sz;
  parent = some cur;
  tf = record (p.tf) { eax = 0 };
  ofile = dup_ofile p.ofile np.ofile;
  cwd = p.cwd;
  name = take 15 p.name;
}

-- The steps of `fork` on the slot `i` that it got from `allocproc`: the copy of the page table has failed,
-- the fields are set, and, under `ptable.lock` again, the process may run.
abbrev pub fork_fail : (i : ℕ) → PTable → PTable
fork_fail i t = update t i (λ np. record np { kstack = 0; state = unused })

abbrev pub fork_copy : (pgdir cur i : ℕ) → PTable → PTable
fork_copy pgdir cur i t = update t i (copy_proc pgdir cur (proc_at t cur))

abbrev pub fork_start : (i : ℕ) → PTable → PTable
fork_start i t = update t i (λ np. record np { state = runnable })

module _ {F : Type 0} (filedup idup : ℕ → F → F) where
  -- `fork`, where nothing else runs between its steps: `kstack` and `pgdir` are what `kalloc` and `copyuvm` return; `none` is its -1.
  unfoldable pub fork : (kstack pgdir cur : ℕ) → PTable → F → Option ℕ × PTable × F
  fork kstack pgdir cur t fs =
      let (got, t1) = allocproc kstack t in
      elim got [
        | none ↦ (none, t1, fs)
        | some i ↦
            if pgdir == 0
            then (none, fork_fail i t1, fs)
            else (let p = proc_at t1 cur in
                let t2 = fork_copy pgdir cur i t1 in
                let fs' = at_file idup p.cwd (each_file filedup p.ofile fs) in
                (some (proc_at t2 i).pid, fork_start i t2, fs'))
      ]

module _ {F : Type 0} (fileclose iput : ℕ → F → F) where
  -- `exit` for `cur` up to its call of `sched`; `none` is the panic of `initproc` exiting.
  unfoldable pub exit : ℕ → PTable → F → Option (PTable × F)
  exit cur t fs =
      if cur == t.initproc
      then none
      else (let p = proc_at t cur in
          let fs' = at_file iput p.cwd (each_file fileclose p.ofile fs) in
          let t' = update t cur (λ p. record p { ofile = map (λ _. none) p.ofile; cwd = none }) in
          some (exit_locked cur t', fs'))

-- The table at boot, and `userinit`, which makes the first process; `tf` is the frame that it sets
-- up and `cwd` what `namei("/")` returns.
abbrev pub boot : PTable
boot = record { procs = replicate nproc blank_proc; nextpid = 1; initproc = 0 }

unfoldable pub first_user : (pgdir cwd : ℕ) → TrapFrame → Option ℕ × PTable → Option PTable
first_user pgdir cwd tf (none, t1) = none
first_user pgdir cwd tf (some i, t1) =
    if pgdir == 0
    then none
    else (let t2 : PTable =
          record (update t1 i λ p. record p {
            pgdir = pgdir;
            sz = 4096;
            tf = tf;
            name = b'i' ∷ b'n' ∷ b'i' ∷ b't' ∷ b'c' ∷ b'o' ∷ b'd' ∷ b'e' ∷ [];
            cwd = some cwd;
          }) { initproc = i } in
        some (update t2 i (λ p. record p { state = runnable })))

unfoldable pub userinit : (kstack pgdir cwd : ℕ) → TrapFrame → PTable → Option PTable
unfolding first_user
userinit kstack pgdir cwd tf t = first_user pgdir cwd tf (allocproc kstack t)
