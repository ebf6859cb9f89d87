-- ===== src/Proc/Invariant/Create.antt =====
-- `allocproc` and `fork` keep the invariant.
use cserl_bootcamp.Common.{
  ℕ, ◌+◌, ◌<◌, ◌%◌, ◌^◌, ◌≡◌, ◌≢◌, refl, true, false, none, some, ◌==◌, find_index, find_index-some,
  Option-cases, Bool-cases, inl, inr, arith,
}
use cserl_bootcamp.Proc.Table.{
  embryo, unused, Proc, PTable, is_unused, proc_at?, update, allocproc, claim,
}
use cserl_bootcamp.Proc.Slots.{proc_at?-update}
use cserl_bootcamp.Proc.Invariant.{is_alive, is_active, IsValid, update-IsValid}
use cserl_bootcamp.Proc.Invariant.Replace.{Replaces, replaced, replaced-IsValid}

-- What the claim of a free slot has made of the table, when it succeeds.
abbrev pub claimed : ℕ → ℕ → Proc → Proc
claimed pid kstack p = record p { state = embryo; pid = pid; kstack = kstack }

pub ne_init :
    {t : PTable} (i : ℕ) (p : Proc)
    → IsValid t
    → proc_at? t i ≡ some p
    → is_alive p.state ≡ false
    → i ≢ t.initproc
ne_init {t} i p v e dead same = ground (arith, v.init.at, v.init.alive)

claim-Replaces :
    {t : PTable} (i : ℕ) (p q : Proc)
    → IsValid t
    → proc_at? t i ≡ some p
    → is_unused p.state ≡ true
    → q.pid ≡ t.nextpid
    → is_active q.state ≡ false
    → q.parent ≡ p.parent
    → Replaces t (t.nextpid + 1) i p q
claim-Replaces {t} i p q v e free pid act same = record {
  at = e;
  other = ne_init i p v e (ground arith);
  later = omega arith;
  fresh = λ _. omega arith;
  distinct = λ _. inr (omega arith);
  parent = λ a. absurd (ground arith);
  starting = λ _ _. inl (ground (arith, v.blank i p e));
  blank = λ _. ground (arith, v.blank i p e);
  orphans = λ a. absurd (ground arith);
  own = λ a. absurd (ground arith);
}

-- A process that is not alive may give its slot back.
pub discard-IsValid :
    {t : PTable} (i : ℕ) (p : Proc) (f : Proc → Proc)
    → IsValid t
    → proc_at? t i ≡ some p
    → is_alive p.state ≡ false
    → is_unused (f p).state ≡ true
    → (f p).parent ≡ none
    → IsValid (update t i f)
discard-IsValid {t} i p f v e dead free bare = replaced-IsValid t.nextpid i p f v (record {
  at = e;
  other = ne_init i p v e dead;
  later = omega arith;
  fresh = λ a. absurd (ground arith);
  distinct = λ a. absurd (ground arith);
  parent = λ a. absurd (ground arith);
  starting = λ a. absurd (ground arith);
  blank = λ _. bare;
  orphans = λ a. absurd (ground arith);
  own = λ a. absurd (ground arith);
})

module _ (kstack : ℕ) {t : PTable} (v : IsValid t) (room : t.nextpid + 1 < 2 ^ 32) where
  abbrev named : ℕ → PTable
  named i = replaced t (t.nextpid + 1) i (λ p. record p { state = embryo; pid = t.nextpid })

  named-IsValid :
      (i : ℕ) (p : Proc) → proc_at? t i ≡ some p → is_unused p.state ≡ true → IsValid (named i)
  named-IsValid i p e free =
      replaced-IsValid (t.nextpid + 1) i p _ v (claim-Replaces i p _ v e free refl refl refl)

  named-slot :
      (i : ℕ) (p : Proc)
      → proc_at? t i ≡ some p
      → proc_at? (named i) i ≡ some (record p { state = embryo; pid = t.nextpid })
  named-slot i p e =
      ground (arith, proc_at?-update t i i (λ p. record p { state = embryo; pid = t.nextpid }))

  claim-IsValid :
      (i : ℕ) (p : Proc)
      → proc_at? t i ≡ some p
      → is_unused p.state ≡ true
      → IsValid (claim kstack i t).1
  unfolding claim
  claim-IsValid i p e free =
      let wrap : (t.nextpid + 1) % 2 ^ 32 ≡ t.nextpid + 1 = omega arith in
      rw wrap (elim (Bool-cases (kstack == 0)) [
        | inl failed ↦ rw failed (
            discard-IsValid i _ (λ q. record q { kstack = 0; state = unused })
              (named-IsValid i p e free) (named-slot i p e) refl refl
              (ground (arith, v.blank i p e)))
        | inr got ↦ rw got (
            update-IsValid i (λ q. record q { kstack = kstack }) (λ q e'. ground arith)
              (named-IsValid i p e free))
      ])

  -- `allocproc` keeps the invariant, with or without a stack, as long as the pids have not run out.
  pub allocproc-IsValid : IsValid (allocproc kstack t).1
  unfolding allocproc
  allocproc-IsValid = elim (Option-cases (find_index (λ p. is_unused p.state) t.procs)) [
    | inl stop ↦ rw (stop, allocproc) v
    | inr (i, found) ↦
        let (p, at, free) = find_index-some (λ p. is_unused p.state) t.procs i found in
        rw (found, allocproc) (claim-IsValid i p at free)
  ]
