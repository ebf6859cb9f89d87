-- ===== src/Proc/Invariant/Fork.antt =====
-- `fork` keeps the invariant, and what it does on each outcome.
use cserl_bootcamp.Common.{
  ℕ, ◌+◌, ◌<◌, ◌%◌, ◌^◌, ◌≡◌, ◌≢◌, refl, true, false, none, some, ◌==◌, find_index, find_index-some,
  modify-modify, Option-cases, Bool-cases, inl, inr, arith,
}
use cserl_bootcamp.Proc.Table.{
  unused, embryo, runnable, Proc, PTable, is_unused, proc_at, proc_at?, update, allocproc, claim,
}
use cserl_bootcamp.Proc.Life.{fork, fork_fail, fork_copy, fork_start, copy_proc}
use cserl_bootcamp.Proc.Slots.{proc_at?-update}
use cserl_bootcamp.Proc.Invariant.{is_alive, is_active, IsValid, HasParent}
use cserl_bootcamp.Proc.Invariant.Replace.{replaced-IsValid}
use cserl_bootcamp.Proc.Invariant.Create.{allocproc-IsValid, discard-IsValid, claimed, ne_init}

-- `allocproc` has given out slot `i`, and touched no other.
pub record Allocated (kstack : ℕ) (t : PTable) (i : ℕ) (u : PTable) : Type 0 where
  pub before : Proc
  pub at : proc_at? t i ≡ some before
  pub free : is_unused before.state ≡ true
  pub after : proc_at? u i ≡ some (claimed t.nextpid kstack before)
  pub others : (j : ℕ) → i ≢ j → proc_at? u j ≡ proc_at? t j
  pub initproc : u.initproc ≡ t.initproc
  pub nextpid : u.nextpid ≡ (t.nextpid + 1) % 2 ^ 32

claim-Allocated :
    (kstack i : ℕ) (t : PTable) (p : Proc)
    → proc_at? t i ≡ some p
    → is_unused p.state ≡ true
    → (kstack == 0) ≡ false
    → Allocated kstack t i (claim kstack i t).1
unfolding claim
claim-Allocated kstack i t p e free got =
    let f : Proc → Proc = λ p. record p { state = embryo; pid = t.nextpid } in
    let t1 : PTable = update t i f in
    rw got (record {
      before = p;
      at = e;
      free = free;
      after = ground (
        arith,
        proc_at?-update t i i f,
        proc_at?-update t1 i i (λ p. record p { kstack = kstack }),
      );
      others = λ j ne. ground (
        arith,
        proc_at?-update t i j f,
        proc_at?-update t1 i j (λ p. record p { kstack = kstack }),
      );
      initproc = refl;
      nextpid = refl;
    })

claim-slot :
    (kstack j : ℕ) (t : PTable) {i : ℕ}
    → (claim kstack j t).0 ≡ some i
    → ((kstack == 0) ≡ false) × (j ≡ i)
unfolding claim
claim-slot kstack j t e = ground arith

pub allocproc-some :
    (kstack : ℕ) (t : PTable) (i : ℕ)
    → (allocproc kstack t).0 ≡ some i
    → Allocated kstack t i (allocproc kstack t).1
unfolding allocproc
allocproc-some kstack t i e = elim (Option-cases (find_index (λ p. is_unused p.state) t.procs)) [
  | inl stop ↦ absurd (ground arith)
  | inr (j, found) ↦
      let (p, at, free) = find_index-some (λ p. is_unused p.state) t.procs j found in
      let (got, same) = claim-slot kstack j t (rw (found, allocproc) at e) in
      rw (found, allocproc, ← same) (claim-Allocated kstack j t p at free got)
]

-- A slot in EMBRYO may become runnable with its parent set.
pub embryo-IsValid :
    {t : PTable} (i : ℕ) (p : Proc) (f : Proc → Proc)
    → IsValid t
    → proc_at? t i ≡ some p
    → p.state ≡ embryo
    → (f p).pid ≡ p.pid
    → is_active (f p).state ≡ true
    → HasParent t (f p)
    → IsValid (update t i f)
embryo-IsValid {t} i p f v e em pid act next = replaced-IsValid t.nextpid i p f v (record {
  at = e;
  other = ne_init i p v e (ground arith);
  later = omega arith;
  fresh = λ _. ground (arith, v.fresh i p e);
  distinct = λ _. inl (pid, ground arith);
  parent = λ a. next;
  starting = λ _ a. absurd (ground arith);
  blank = λ a. absurd (ground arith);
  orphans = λ a. absurd (ground arith);
  own = λ a. absurd (ground arith);
})

-- The steps of `fork` on a slot in EMBRYO that `allocproc` has given out, one by one.
module _ {t : PTable} (i : ℕ) (p : Proc) (v : IsValid t) (at : proc_at? t i ≡ some p)
    (em : p.state ≡ embryo) where
  pub fork_fail-IsValid : p.parent ≡ none → IsValid (fork_fail i t)
  fork_fail-IsValid bare =
      discard-IsValid i p (λ np. record np { kstack = 0; state = unused }) v at (ground arith) refl
        bare

  pub fork_copy-IsValid :
      (pgdir cur : ℕ) (me : Proc)
      → proc_at? t cur ≡ some me
      → is_alive me.state ≡ true
      → IsValid (fork_copy pgdir cur i t)
  fork_copy-IsValid pgdir cur me here alive =
      replaced-IsValid t.nextpid i p (copy_proc pgdir cur (proc_at t cur)) v (record {
        at = at;
        other = ne_init i p v at (ground arith);
        later = omega arith;
        fresh = λ _. ground (arith, v.fresh i p at);
        distinct = λ _. inl (refl, ground arith);
        parent = λ a. absurd (ground arith);
        starting = λ _ _.
            inr (record { index = cur; entry = me; parent = refl; at = here; alive = alive });
        blank = λ a. absurd (ground arith);
        orphans = λ a. absurd (ground arith);
        own = λ a. absurd (ground arith);
      })

  pub fork_start-IsValid : p.parent ≢ none → IsValid (fork_start i t)
  fork_start-IsValid named = elim (v.starting i p at (ground arith) (ground arith)) [
    | inl bare ↦ absurd (named bare)
    | inr h ↦
        embryo-IsValid i p (λ np. record np { state = runnable }) v at em refl refl
          (record {
            index = h.index;
            entry = h.entry;
            parent = h.parent;
            at = h.at;
            alive = h.alive;
          })
  ]

module _ (kstack pgdir cur : ℕ) {t : PTable} {p : Proc} (v : IsValid t)
    (room : t.nextpid + 1 < 2 ^ 32) (here : proc_at? t cur ≡ some p)
    (alive : is_alive p.state ≡ true) where
  cur_kept : (i : ℕ) → Allocated kstack t i (allocproc kstack t).1 → i ≢ cur
  cur_kept i a same = ground (arith, a.at, a.free)

  fork_done-IsValid :
      (i : ℕ)
      → Allocated kstack t i (allocproc kstack t).1
      → let t1 = (allocproc kstack t).1 in
        let t2 = update t1 i (copy_proc pgdir cur (proc_at t1 cur)) in
        IsValid (update t2 i (λ np. record np { state = runnable }))
  fork_done-IsValid i a =
      let t1 = (allocproc kstack t).1 in
      let f = copy_proc pgdir cur (proc_at t1 cur) in
      let v1 : IsValid t1 = allocproc-IsValid kstack v room in
      let np = claimed t.nextpid kstack a.before in
      let g : Proc → Proc = λ np. record np { state = runnable } in
      let apart : i ≢ cur = cur_kept i a in
      let v2 : IsValid (update t1 i (λ x. g (f x))) =
        embryo-IsValid i np (λ x. g (f x)) v1 a.after refl refl refl
          (record {
            index = cur;
            entry = p;
            parent = refl;
            at = ground (arith, a.others cur);
            alive = alive;
          }) in
      rw (modify-modify t1.procs i f g) v2

  -- `fork` by a living process keeps the invariant, whether it succeeds or not.
  pub fork-IsValid :
      {F : Type 0} (filedup idup : ℕ → F → F) (fs : F)
      → IsValid (fork filedup idup kstack pgdir cur t fs).1
  unfolding fork
  fork-IsValid filedup idup fs = elim (Option-cases (allocproc kstack t).0) [
    | inl failed ↦ rw (failed, fork) (allocproc-IsValid kstack v room)
    | inr (i, got) ↦ elim (Bool-cases (pgdir == 0)) [
      | inl failed ↦
          let a = allocproc-some kstack t i got in
          rw (got, failed, fork)
            (discard-IsValid i (claimed t.nextpid kstack a.before) _
              (allocproc-IsValid kstack v room) a.after refl refl
              (ground (arith, v.blank i a.before a.at, a.free)))
      | inr copied ↦ rw (got, copied, fork) (fork_done-IsValid i (allocproc-some kstack t i got))
    ]
  ]
