-- ===== src/Proc/Lineage/Ancestors.antt =====
-- What `get_ancestors` stores and returns in a valid process table.
use cserl_bootcamp.Common.{
  ℕ, zero, suc, ◌<◌, ◌^◌, ◌≡◌, ◌≢◌, ◌⊎◌, refl, Bool, true, false, some, List, [], ◌∷◌, ◌==◌, ltb,
  length, Bool-cases, inl, inr, arith,
}
use cserl_bootcamp.Proc.Table.{running, Proc, PTable, proc_at?}
use cserl_bootcamp.Proc.Slots.{proc_at-proc_at?}
use cserl_bootcamp.Proc.Invariant.{is_active, IsValid}
use cserl_bootcamp.Proc.Lineage.{getppid, ancestors_loop, get_ancestors}

-- From slot `i` the parent pointers lead through processes with these pids to slot `k`;
-- only the last may have pid 1.
pub data Line (t : PTable) (k : ℕ) : ℕ → List ℕ → Type 0 where
  stop : {i : ℕ} {pids : List ℕ} → i ≡ k → pids ≡ [] → Line t k i pids
  up :
      {i : ℕ} {pids : List ℕ} (j : ℕ) (p q : Proc) (rest : List ℕ)
      → proc_at? t i ≡ some p
      → p.pid ≢ 1
      → p.parent ≡ some j
      → proc_at? t j ≡ some q
      → pids ≡ q.pid ∷ rest
      → Line t k j rest
      → Line t k i pids

pub record Ancestry (t : PTable) (i n : ℕ) (all : Bool) (pids : List ℕ) : Type 0 where
  pub last : ℕ
  pub line : Line t last i pids
  pub outcome :
      ((all ≡ true) × (length pids ≡ n)) ⊎ ((all ≡ false) × (length pids < n) × (last ≡ t.initproc))

ancestors_loop-up :
    (t : PTable) (n i j : ℕ) (p q : Proc) (all : Bool) (pids : List ℕ)
    → proc_at? t i ≡ some p
    → (p.pid == 1) ≡ false
    → p.parent ≡ some j
    → proc_at? t j ≡ some q
    → ancestors_loop n j t ≡ some (all, pids)
    → ancestors_loop (suc n) i t ≡ some (all, q.pid ∷ pids)
unfolding ancestors_loop
ancestors_loop-up t n i j p q all pids e other above e' run =
    rw (proc_at-proc_at? t i {p = p} e, other, above, run)
      (ground (arith, proc_at-proc_at? t j {p = q} e'))

module _ {t : PTable} (v : IsValid t) where
  pid_one :
      (i : ℕ) (p : Proc)
      → proc_at? t i ≡ some p
      → is_active p.state ≡ true
      → p.pid ≡ 1
      → i ≡ t.initproc
  pid_one i p e act one =
      v.distinct i t.initproc p v.init.entry e v.init.at (ground arith)
        (ground (arith, v.init.alive)) (ground (arith, v.init.pid))

  ancestors_loop-Ancestry :
      (n i : ℕ) (p : Proc)
      → proc_at? t i ≡ some p
      → is_active p.state ≡ true
      → (all : Bool) × (pids : List ℕ) × (ancestors_loop n i t ≡ some (all, pids))
        × Ancestry t i n all pids
  unfolding ancestors_loop
  ancestors_loop-Ancestry zero i p e act =
      (true, [], refl, record { last = i; line = stop refl refl; outcome = inl (refl, refl) })
  ancestors_loop-Ancestry (suc n) i p e act =
      let here = proc_at-proc_at? t i {p = p} e in
      elim (Bool-cases (p.pid == 1)) [
        | inl root ↦
            let at : i ≡ t.initproc = pid_one i p e act (ground arith) in
            (
              false,
              [],
              rw (here, root) refl,
              record { last = i; line = stop refl refl; outcome = inr (refl, omega arith, at) },
            )
        | inr other ↦
            let ne : i ≢ t.initproc = λ eq. ground (arith, v.init.at, v.init.pid) in
            let h = v.parents i p e act ne in
            let (all, pids, run, a) =
              ancestors_loop-Ancestry n h.index h.entry h.at (ground (arith, h.alive)) in
            (
              all,
              h.entry.pid ∷ pids,
              ancestors_loop-up t n i h.index p h.entry all pids e other h.parent h.at run,
              record {
                last = a.last;
                line =
                    up {pids = h.entry.pid ∷ pids} h.index p h.entry pids e (λ one. ground arith)
                      h.parent h.at refl a.line;
                outcome = ground (arith, a.outcome);
              },
            )
      ]

  -- In a valid table `get_ancestors(n, array)` by a running process returns without following a
  -- null pointer. It stores the pids of its ancestors in order, parent first: `n` of them, and
  -- returns 1; or fewer, up to the process with pid 1 and no further, and returns 0.
  pub get_ancestors-Ancestry :
      (n cur : ℕ) (p : Proc)
      → n < 2 ^ 31
      → proc_at? t cur ≡ some p
      → p.state ≡ running
      → (all : Bool) × (pids : List ℕ) × (get_ancestors n cur t ≡ some (all, pids))
        × Ancestry t cur n all pids
  unfolding get_ancestors
  get_ancestors-Ancestry n cur p small e run =
      let ok : ltb n (2 ^ 31) ≡ true = ground arith in
      let (all, pids, eq, a) = ancestors_loop-Ancestry n cur p e (ground (arith, run)) in
      (all, pids, rw ok eq, a)

  -- With room for one pid, a process other than the first gets what `getppid` returns.
  pub get_ancestors-getppid :
      (null_pid cur : ℕ) (p : Proc)
      → proc_at? t cur ≡ some p
      → p.state ≡ running
      → cur ≢ t.initproc
      → get_ancestors 1 cur t ≡ some (true, getppid null_pid cur t ∷ [])
  unfolding get_ancestors getppid
  get_ancestors-getppid null_pid cur p e run ne =
      let here = proc_at-proc_at? t cur {p = p} e in
      let other : (p.pid == 1) ≡ false = elim (Bool-cases (p.pid == 1)) [
        | inl root ↦ absurd (ne (pid_one cur p e (ground arith) (ground arith)))
        | inr other ↦ other
      ] in
      let h = v.parents cur p e (ground arith) ne in rw (here, other, h.parent) refl
