-- ===== src/Proc/Lineage.antt =====
-- `get_siblings_info`, `get_ancestors` and `getppid` of xv6-public/proc.c (the first two also in
-- sol-B-1/get_siblings.c and sol-B-2/get_ancestors.c): the calls that this repository adds to xv6.
pub mod Ancestors
pub mod Siblings
use cserl_bootcamp.Common.{
  ℕ, zero, suc, ◌+◌, ◌≤◌, ◌<◌, ◌^◌, ◌≡◌, ◌≢◌, ◌⊎◌, refl, ap, Bool, true, false, Option, none, some,
  List, [], ◌∷◌, ◌==◌, ltb, if◌then◌else◌, length, get_elem?, Bool-cases, Option-cases, inl, inr,
  arith,
}
use cserl_bootcamp.Proc.Table.{ProcState, running, Proc, PTable, proc_at, proc_at?, is_parent}

-- `p->parent->pid`. A null `parent` is address 0, where the kernel reads the memory of the running
-- process: `null_pid` is the word that it finds there in the place of `pid`.
unfoldable pub parent_pid : (null_pid : ℕ) → PTable → Proc → ℕ
parent_pid null_pid t p = elim p.parent [ none ↦ null_pid | some j ↦ (proc_at t j).pid ]

-- `getppid`
unfoldable pub getppid : (null_pid cur : ℕ) → PTable → ℕ
unfolding parent_pid
getppid null_pid cur t = parent_pid null_pid t (proc_at t cur)

-- The walk of `get_siblings_info` over the table: the pid and the state on each line printed.
unfoldable pub siblings_loop :
    (null_pid cur_par_pid : ℕ) → PTable → List Proc → List (ℕ × ProcState)
siblings_loop null_pid cur_par_pid t [] = []
siblings_loop null_pid cur_par_pid t (p ∷ ps) =
    let rest = siblings_loop null_pid cur_par_pid t ps in
    if parent_pid null_pid t p == cur_par_pid then (p.pid, p.state) ∷ rest else rest

unfoldable pub get_siblings_info : (null_pid cur : ℕ) → PTable → List (ℕ × ProcState)
unfolding siblings_loop
get_siblings_info null_pid cur t =
    siblings_loop null_pid (parent_pid null_pid t (proc_at t cur)) t t.procs

-- The loop of `get_ancestors`: what it returns, with the pids that it has stored, in order. `none`
-- is a walk through a null pointer.
unfoldable pub ancestors_loop : ℕ → ℕ → PTable → Option (Bool × List ℕ)
ancestors_loop zero cur t = some (true, [])
ancestors_loop (suc n) cur t =
    if (proc_at t cur).pid == 1 then some (false, []) else elim (proc_at t cur).parent [
      | none ↦ none
      | some j ↦ elim (ancestors_loop n j t) [
        | none ↦ none
        | some (all, pids) ↦ some (all, (proc_at t j).pid ∷ pids)
      ]
    ]

-- `n` is the bit pattern of an `int`, which the loop and the result compare with 0.
unfoldable pub get_ancestors : (n cur : ℕ) → PTable → Option (Bool × List ℕ)
unfolding ancestors_loop
get_ancestors n cur t = if ltb n (2 ^ 31) then ancestors_loop n cur t else some (false, [])

-- The slots whose parent is the process in slot `k`.
unfoldable pub siblings_of : ℕ → List Proc → List (ℕ × ProcState)
siblings_of k [] = []
siblings_of k (p ∷ ps) =
    let rest = siblings_of k ps in if is_parent k p.parent then (p.pid, p.state) ∷ rest else rest
