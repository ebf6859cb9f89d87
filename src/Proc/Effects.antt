-- ===== src/Proc/Effects.antt =====
-- What `fork`, `exit` and `kill` do to the slots of the table.
use cserl_bootcamp.Common.{
  ℕ, ◌<◌, ◌≡◌, ◌≢◌, ◌⊎◌, refl, ap, ◌∙◌, true, false, some, ◌==◌, if◌then◌else◌, get_elem?-lt, take,
  Option-cases, Bool-cases, inl, inr, arith,
}
use cserl_bootcamp.Proc.Table.{
  unused, sleeping, runnable, zombie, Chan, null, address, chan_eq, proc, Proc, PTable, nproc,
  is_unused, is_parent, proc_at, proc_at?, update, allocproc, wake, wakeup1,
}
use cserl_bootcamp.Proc.Life.{fork, exit_locked, adopt_from, copy_proc, parent_chan}
use cserl_bootcamp.Proc.Slots.{
  proc_at-proc_at?, proc_at?-update, proc_at?-wakeup1, adopt_from-Adopted, wake_rest,
}
use cserl_bootcamp.Proc.Invariant.{IsValid}
use cserl_bootcamp.Proc.Invariant.Fork.{allocproc-some}
use cserl_bootcamp.Proc.Invariant.Create.{claimed}

-- The slot that a successful `fork` by the process `p` in slot `cur` has filled.
pub record Forked (pgdir cur : ℕ) (p : Proc) (t : PTable) (result : ℕ) (u : PTable) : Type 0 where
  pub index : ℕ
  pub before : Proc
  pub child : Proc
  pub free : (proc_at? t index ≡ some before) × (before.state ≡ unused)
  pub at : proc_at? u index ≡ some child
  pub pid : (child.pid ≡ result) × (result ≡ t.nextpid)
  pub ready : child.state ≡ runnable
  pub parent : child.parent ≡ some cur
  pub copied :
      (child.sz ≡ p.sz)
      × (child.pgdir ≡ pgdir)
      × (child.cwd ≡ p.cwd)
      × (child.name ≡ take 15 p.name)
  pub tf :
      (child.tf.eax ≡ 0)
      × (child.tf.esp ≡ p.tf.esp)
      × (child.tf.eip ≡ p.tf.eip)
      × (child.tf.others ≡ p.tf.others)
  pub others : (j : ℕ) → index ≢ j → proc_at? u j ≡ proc_at? t j

-- A `fork` that succeeds returns the next pid, and fills one free slot: the child is runnable, its
-- parent is the caller, its memory size and directory are the caller's, its name is the caller's up to
-- 15 bytes, and its registers are the caller's but for `eax`, which is 0. No other slot changes.
pub fork-Forked :
    {F : Type 0} (filedup idup : ℕ → F → F) (kstack pgdir cur : ℕ) (t : PTable) (p : Proc) (fs : F)
    (pid : ℕ)
    → proc_at? t cur ≡ some p
    → is_unused p.state ≡ false
    → (fork filedup idup kstack pgdir cur t fs).0 ≡ some pid
    → Forked pgdir cur p t pid (fork filedup idup kstack pgdir cur t fs).1
unfolding fork
fork-Forked filedup idup kstack pgdir cur t p fs pid here used e =
    elim (Option-cases (allocproc kstack t).0) [
      | inl stop ↦ absurd (cc (rw (stop, fork) at e))
      | inr (i, got) ↦ elim (Bool-cases (pgdir == 0)) [
        | inl stop ↦ absurd (cc (rw (got, stop, fork) at e))
        | inr copied ↦
            let a = allocproc-some kstack t i got in
            let t1 = (allocproc kstack t).1 in
            let apart : i ≢ cur = λ same. ground (arith, a.at, a.free) in
            let me : proc_at t1 cur ≡ p =
              proc_at-proc_at? t1 cur {p = p} (ground (arith, a.others cur)) in
            let f = copy_proc pgdir cur p in
            let g : Proc → Proc = λ np. record np { state = runnable } in
            let t2 = update t1 i f in
            let mid : proc_at? t2 i ≡ some (f (claimed t.nextpid kstack a.before)) =
              ground (arith, proc_at?-update t1 i i f, a.after) in
            let num : (proc_at t2 i).pid ≡ t.nextpid =
              (let z = proc_at-proc_at? t2 i {p = f (claimed t.nextpid kstack a.before)} mid in
                rw z refl) in
            let out : t.nextpid ≡ pid =
              (let e' : some (proc_at t2 i).pid ≡ some pid = rw (got, copied, fork, me) at e in
                ground (arith, num)) in
            rw (got, copied, fork, me)
              (record {
                index = i;
                before = a.before;
                child = g (f (claimed t.nextpid kstack a.before));
                free = (a.at, ground (arith, a.free));
                at = ground (arith, proc_at?-update t2 i i g);
                pid = (out, ground (arith, out));
                ready = refl;
                parent = refl;
                copied = (refl, refl, refl, refl);
                tf = (refl, refl, refl, refl);
                others = λ j ne.
                    ground (arith, proc_at?-update t2 i j g, proc_at?-update t1 i j f, a.others j);
              })
      ]
    ]

-- What `exit` by the process in slot `cur` makes of the slot at `j`.
pub record Exited (cur init j : ℕ) (c : Chan) (p q : Proc) : Type 0 where
  pub pid : q.pid ≡ p.pid
  pub parent : q.parent ≡ (if is_parent cur p.parent then some init else p.parent)
  pub rest : q ≡ record p { parent = q.parent; state = q.state }
  pub self : cur ≡ j → q.state ≡ zombie
  pub woken : cur ≢ j → p.state ≡ sleeping → p.chan ≡ c → q.state ≡ runnable
  pub other :
      cur ≢ j
      → (q.state ≡ p.state)
        ⊎ ((p.state ≡ sleeping) × (q.state ≡ runnable) × ((p.chan ≡ c) ⊎ (p.chan ≡ proc init)))

chan_eq_sound : (c d : Chan) → chan_eq c d ≡ true → c ≡ d
chan_eq_sound null null e = refl
chan_eq_sound null (proc i) e = ground arith
chan_eq_sound null (address a) e = ground arith
chan_eq_sound (proc i) null e = ground arith
chan_eq_sound (proc i) (proc j) e = ground arith
chan_eq_sound (proc i) (address a) e = ground arith
chan_eq_sound (address a) null e = ground arith
chan_eq_sound (address a) (proc j) e = ground arith
chan_eq_sound (address a) (address b) e = ground arith

chan_eq_self : (c : Chan) → chan_eq c c ≡ true
chan_eq_self null = refl
chan_eq_self (proc i) = ground arith
chan_eq_self (address a) = ground arith

wake-runnable :
    (c : Chan) (p : Proc) → p.state ≡ sleeping → p.chan ≡ c → (wake c p).state ≡ runnable
wake-runnable c p sleeps on =
    let same : chan_eq p.chan c ≡ true = rw on (chan_eq_self c) in rw (sleeps, same) refl

exit_rest :
    (cur j : ℕ) (p w q : Proc)
    → w ≡ record p { state = w.state }
    → q ≡ record w { parent = q.parent; state = q.state }
    → let q' : Proc = if cur == j then record q { state = zombie } else q in
      q' ≡ record p { parent = q'.parent; state = q'.state }
exit_rest cur j p w q up rest =
    let all : q ≡ record p { parent = q.parent; state = q.state } =
      rest ∙ ap (λ (x : Proc). record x { parent = q.parent; state = q.state }) up in
    elim (Bool-cases (cur == j)) [
      | inl here ↦ rw here (ap (λ (x : Proc). record x { state = zombie }) all)
      | inr there ↦ rw there all
    ]

-- `exit` under the lock, by a process other than `initproc` in a table that satisfies the invariant, makes
-- the caller a zombie. In every slot at most the parent and the state change: a child of the caller has
-- `initproc` for a parent then, and any other process keeps its parent; a process other than the caller
-- that sleeps on the caller's parent, as `wait` does, is runnable, and any other has the state it had, or
-- has been woken from a sleep on `initproc`.
pub exit_locked-Exited :
    (cur : ℕ) {t : PTable} {me : Proc} (j : ℕ) (p : Proc)
    → IsValid t
    → cur ≢ t.initproc
    → proc_at? t cur ≡ some me
    → proc_at? t j ≡ some p
    → (q : Proc) × (proc_at? (exit_locked cur t) j ≡ some q)
      × Exited cur t.initproc j (parent_chan me.parent) p q
unfolding exit_locked
exit_locked-Exited cur {t} {me} j p v ne here e =
    let c = parent_chan me.parent in
    let t1 = wakeup1 c t in
    let up : proc_at t cur ≡ me = proc_at-proc_at? t cur {p = me} here in
    let woken : proc_at? t1 j ≡ some (wake c p) = ground (arith, proc_at?-wakeup1 c t j) in
    let ne1 : cur ≢ t1.initproc = unfold wakeup1 in ne in
    let same : t1.initproc ≡ t.initproc = unfold wakeup1 in refl in
    let (q, at, a) = adopt_from-Adopted cur nproc 0 t1 j (wake c p) ne1 woken in
    let t2 = adopt_from cur nproc 0 t1 in
    let f : Proc → Proc = λ p. record p { state = zombie } in
    let lt : j < 64 = ground (arith, v.size, get_elem?-lt t.procs j {x = p} e) in
    rw up (
      (if cur == j then f q else q),
      ground (arith, proc_at?-update t2 cur j f),
      record {
        pid = ground (arith, a.pid);
        parent = ground (arith, a.parent);
        rest = exit_rest cur j p (wake c p) q (wake_rest c p) a.rest;
        self = ground arith;
        woken = λ apart sleeps on. ground (arith, a.state, wake-runnable c p sleeps on);
        other = ground (arith, a.state, chan_eq_sound p.chan c);
      },
    )
