-- ===== src/Proc/Lineage/Siblings.antt =====
-- Which lines `get_siblings_info` prints.
use cserl_bootcamp.Common.{
  ℕ, zero, suc, ◌≡◌, ◌≢◌, refl, true, none, some, List, [], ◌∷◌, ◌==◌, get_elem?, Bool-cases,
  Option-cases, inl, inr, arith,
}
use cserl_bootcamp.Proc.Table.{Proc, PTable, is_unused, proc_at, proc_at?, is_parent}
use cserl_bootcamp.Proc.Slots.{proc_at-proc_at?}
use cserl_bootcamp.Proc.Invariant.{is_alive, is_active, HasParent, IsValid}
use cserl_bootcamp.Proc.Lineage.{parent_pid, siblings_loop, get_siblings_info, siblings_of}

module _ {t : PTable} (v : IsValid t) (null_pid k : ℕ) (q : Proc) (at : proc_at? t k ≡ some q)
    (alive : is_alive q.state ≡ true) (apart : null_pid ≢ q.pid) where
  pid_eq :
      (j : ℕ) (r : Proc)
      → proc_at? t j ≡ some r
      → is_alive r.state ≡ true
      → (r.pid == q.pid) ≡ (k == j)
  pid_eq j r e live = elim (Bool-cases (r.pid == q.pid)) [
    | inl same ↦
        let eq : j ≡ k = v.distinct j k r q e at (ground arith) (ground arith) (ground arith) in
        ground arith
    | inr other ↦ ground arith
  ]

  listed :
      (i : ℕ) (p : Proc)
      → proc_at? t i ≡ some p
      → (parent_pid null_pid t p == q.pid) ≡ is_parent k p.parent
  unfolding parent_pid
  listed i p e = elim (Option-cases p.parent) [
    | inl bare ↦ rw (bare, parent_pid) (ground arith)
    | inr (j, above) ↦
        let ne : i ≢ t.initproc = λ eq. ground (arith, v.init.at, v.init.root) in
        let h : HasParent t p = elim (Bool-cases (is_active p.state)) [
          | inl act ↦ v.parents i p e act ne
          | inr idle ↦ elim (Bool-cases (is_unused p.state)) [
            | inl free ↦ absurd (ground (arith, v.blank i p e))
            | inr live ↦ elim (v.starting i p e live idle) [
              | inl bare ↦ absurd (ground arith)
              | inr h ↦ h
            ]
          ]
        ] in
        let same : h.index ≡ j = ground (arith, h.parent) in
        let there : proc_at t j ≡ h.entry =
          proc_at-proc_at? t j {p = h.entry} (ground (arith, h.at)) in
        rw (above, parent_pid, there) (ground (arith, pid_eq h.index h.entry h.at h.alive))
  ]

  siblings_loop-siblings_of :
      (ps : List Proc)
      → ((i : ℕ) (p : Proc)
          → get_elem? ps i ≡ some p
          → (parent_pid null_pid t p == q.pid) ≡ is_parent k p.parent)
      → siblings_loop null_pid q.pid t ps ≡ siblings_of k ps
  unfolding siblings_loop siblings_of
  siblings_loop-siblings_of [] all = refl
  siblings_loop-siblings_of (p ∷ ps) all =
      rw (all 0 p refl, siblings_loop-siblings_of ps (λ i r e. all (suc i) r e)) refl

  -- In a table that satisfies the invariant, where the processes have different pids and a slot that is
  -- not in use has no parent: `get_siblings_info` by a process whose parent is alive in slot `k` prints the pid and the state
  -- of every process with that same parent, in the order of the table, the caller among them, and
  -- nothing else, provided that the word which it reads through a null `parent` is not the pid of
  -- its parent.
  pub get_siblings_info-siblings_of :
      (cur : ℕ) (p : Proc)
      → proc_at? t cur ≡ some p
      → p.parent ≡ some k
      → get_siblings_info null_pid cur t ≡ siblings_of k t.procs
  unfolding get_siblings_info parent_pid
  get_siblings_info-siblings_of cur p e above =
      rw (proc_at-proc_at? t cur {p = p} e, above, parent_pid, proc_at-proc_at? t k {p = q} at)
        (siblings_loop-siblings_of t.procs listed)

siblings_loop-mem :
    (null_pid par : ℕ) (t : PTable) (ps : List Proc) (i : ℕ) (p : Proc)
    → get_elem? ps i ≡ some p
    → (parent_pid null_pid t p == par) ≡ true
    → (m : ℕ) × (get_elem? (siblings_loop null_pid par t ps) m ≡ some (p.pid, p.state))
unfolding siblings_loop
siblings_loop-mem null_pid par t [] i p e hit = absurd (ground arith)
siblings_loop-mem null_pid par t (q ∷ ps) zero p e hit = (0, ground arith)
siblings_loop-mem null_pid par t (q ∷ ps) (suc i) p e hit =
    let (m, at) = siblings_loop-mem null_pid par t ps i p e hit in
    elim (Bool-cases (parent_pid null_pid t q == par)) [
      | inl shown ↦ (suc m, rw shown at)
      | inr hidden ↦ (m, rw hidden at)
    ]

-- If the word that is read through a null `parent` is the pid of the caller's parent, then
-- `get_siblings_info` also prints a line for each slot without a parent, free slots included.
pub get_siblings_info-null :
    (t : PTable) (cur i : ℕ) (p : Proc) (null_pid : ℕ)
    → null_pid ≡ parent_pid null_pid t (proc_at t cur)
    → proc_at? t i ≡ some p
    → p.parent ≡ none
    → (m : ℕ) × (get_elem? (get_siblings_info null_pid cur t) m ≡ some (p.pid, p.state))
unfolding get_siblings_info parent_pid
get_siblings_info-null t cur i p null_pid e at bare =
    siblings_loop-mem null_pid _ t t.procs i p at (rw (bare, parent_pid) (ground arith))
