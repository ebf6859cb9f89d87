-- ===== src/Proc/Table.antt =====
-- The data of proc.h and proc.c, and the functions on single slots: `allocproc`, `kill`, `sleep`,
-- `wakeup1`, `yield` and the scheduler's step.
use cserl_bootcamp.Common.{
  ℤ, pos, negsuc, ◌-◌, ℕ, ◌+◌, ◌%◌, ◌^◌, Bool, true, false, ◌&&◌, Option, none, some, List, [], map,
  ◌==◌, if◌then◌else◌, get_or, get_elem?, modify, find_index, replicate,
}

-- `enum procstate`
pub data ProcState : Type 0 where
  unused embryo sleeping runnable running zombie : ProcState

-- What a process sleeps on: a `struct proc *`, another address, or nothing.
pub data Chan : Type 0 where
  null : Chan
  proc : ℕ → Chan
  address : ℕ → Chan

-- The saved registers; `others` are the ones that no system call reads or writes by name.
pub record TrapFrame : Type 0 where
  pub eax : ℕ
  pub esp : ℕ
  pub eip : ℕ
  pub others : List ℕ

-- `struct proc`, less `context`. An open file is the index of its `struct file`.
pub record Proc : Type 0 where
  pub sz : ℕ
  pub pgdir : ℕ
  pub kstack : ℕ
  pub state : ProcState
  pub pid : ℕ
  pub parent : Option ℕ
  pub tf : TrapFrame
  pub chan : Chan
  pub killed : Bool
  pub ofile : List (Option ℕ)
  pub cwd : Option ℕ
  pub name : List ℕ

-- `ptable`, `nextpid` and `initproc`
pub record PTable : Type 0 where
  pub procs : List Proc
  pub nextpid : ℕ
  pub initproc : ℕ

abbrev pub nproc : ℕ
nproc = 64

abbrev pub nofile : ℕ
nofile = 16

-- A slot of the table as the C compiler clears it.
abbrev pub blank_proc : Proc
blank_proc = record {
  sz = 0;
  pgdir = 0;
  kstack = 0;
  state = unused;
  pid = 0;
  parent = none;
  tf = record { eax = 0; esp = 0; eip = 0; others = [] };
  chan = null;
  killed = false;
  ofile = replicate nofile none;
  cwd = none;
  name = [];
}

abbrev pub chan_eq : Chan → Chan → Bool
chan_eq null null = true
chan_eq (proc i) (proc j) = i == j
chan_eq (address a) (address b) = a == b
chan_eq _ _ = false

abbrev pub is_unused : ProcState → Bool
is_unused unused = true
is_unused _ = false

abbrev pub is_runnable : ProcState → Bool
is_runnable runnable = true
is_runnable _ = false

abbrev pub is_sleeping : ProcState → Bool
is_sleeping sleeping = true
is_sleeping _ = false

abbrev pub is_zombie : ProcState → Bool
is_zombie zombie = true
is_zombie _ = false

abbrev pub is_parent : ℕ → Option ℕ → Bool
is_parent i none = false
is_parent i (some j) = i == j

abbrev pub proc_at : PTable → ℕ → Proc
proc_at t i = get_or t.procs i blank_proc

abbrev pub proc_at? : PTable → ℕ → Option Proc
proc_at? t i = get_elem? t.procs i

-- An update of one slot.
abbrev pub update : PTable → ℕ → (Proc → Proc) → PTable
update t i f = record t { procs = modify t.procs i f }

-- `allocproc` from its label `found` on; `kstack` is what `kalloc` returned.
unfoldable pub claim : ℕ → ℕ → PTable → Option ℕ × PTable
claim kstack i t =
    let taken : PTable = record t {
      procs = modify t.procs i (λ p. record p { state = embryo; pid = t.nextpid });
      nextpid = (t.nextpid + 1) % 2 ^ 32;
    } in
    if kstack == 0
    then (none, update taken i (λ p. record p { kstack = 0; state = unused }))
    else (some i, update taken i (λ p. record p { kstack = kstack }))

unfoldable pub allocproc : ℕ → PTable → Option ℕ × PTable
allocproc kstack t = elim (find_index (λ p. is_unused p.state) t.procs) [
  | none ↦ (none, t)
  | some i ↦ claim kstack i t
]

abbrev pub wake : Chan → Proc → Proc
wake c p = if is_sleeping p.state && chan_eq p.chan c then record p { state = runnable } else p

unfoldable pub wakeup1 : Chan → PTable → PTable
wakeup1 c t = record t { procs = map (wake c) t.procs }

-- `kill`: whether there was a process with that pid (the C function returns 0 or -1).
unfoldable pub kill : ℕ → PTable → Bool × PTable
kill pid t = elim (find_index (λ p. p.pid == pid) t.procs) [
  | none ↦ (false, t)
  | some i ↦ (
    true,
    update t i
        λ p. record p { killed = true; state = if is_sleeping p.state then runnable else p.state },
  )
]

-- `sleep` up to its call of `sched`, and from there on.
unfoldable pub sleep_on : ℕ → Chan → PTable → PTable
sleep_on cur c t = update t cur (λ p. record p { chan = c; state = sleeping })

unfoldable pub awake : ℕ → PTable → PTable
awake cur t = update t cur (λ p. record p { chan = null })

-- `yield` up to its call of `sched`.
unfoldable pub yield : ℕ → PTable → PTable
yield cur t = update t cur (λ p. record p { state = runnable })

-- One round of the loop of `scheduler` at slot `i`.
unfoldable pub dispatch : ℕ → PTable → Bool × PTable
dispatch i t =
    if is_runnable (proc_at t i).state
    then (true, update t i (λ p. record p { state = running }))
    else (false, t)

module _ (allocuvm deallocuvm : (oldsz newsz : ℕ) → ℕ) where
  -- The size that `growproc` asks for, on 32 bits; `none` is its -1.
  abbrev pub new_size : ℤ → ℕ → Option ℕ
  new_size (pos n) sz =
      let sz' = allocuvm sz ((sz + n) % 2 ^ 32) in
      if n == 0 then some sz else if sz' == 0 then none else some sz'
  new_size (negsuc k) sz =
      let sz' = deallocuvm sz ((sz + 2 ^ 32 - (k + 1)) % 2 ^ 32) in
      if sz' == 0 then none else some sz'

  -- Whether the call succeeds (0 or -1).
  unfoldable pub growproc : ℤ → ℕ → PTable → Bool × PTable
  growproc n cur t = elim (new_size n (proc_at t cur).sz) [
    | none ↦ (false, t)
    | some sz ↦ (true, update t cur (λ p. record p { sz = sz }))
  ]
