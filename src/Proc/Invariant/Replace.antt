-- ===== src/Proc/Invariant/Replace.antt =====
-- A change of one slot that moves its process to another phase: when it keeps the invariant.
use native.Mathlib.Decide.{ℕ_discrete}
use cserl_bootcamp.Common.{
  ℕ, ◌≤◌, ◌<◌, ◌≡◌, ◌≢◌, ◌⊎◌, inl, inr, true, false, none, some, Bool-cases, arith,
}
use cserl_bootcamp.Proc.Table.{Proc, PTable, is_unused, proc_at?, update}
use cserl_bootcamp.Proc.Invariant.{
  is_alive, is_active, HasParent, HasInit, IsValid, Mapped, Origin, origin, image_at, only,
  update-Mapped,
}

-- A change of one slot other than `initproc`'s that may also change its phase.
pub record Replaces (t : PTable) (n i : ℕ) (p q : Proc) : Type 0 where
  pub at : proc_at? t i ≡ some p
  pub other : i ≢ t.initproc
  pub later : t.nextpid ≤ n
  pub fresh : is_unused q.state ≡ false → q.pid < n
  pub distinct :
      is_unused q.state ≡ false
      → ((q.pid ≡ p.pid) × (is_unused p.state ≡ false)) ⊎ (t.nextpid ≤ q.pid)
  pub parent : is_active q.state ≡ true → HasParent t q
  pub starting :
      is_unused q.state ≡ false → is_active q.state ≡ false → (q.parent ≡ none) ⊎ HasParent t q
  pub blank : is_unused q.state ≡ true → q.parent ≡ none
  pub orphans :
      is_alive p.state ≡ true
      → is_alive q.state ≡ false
      → (j : ℕ) (r : Proc) → proc_at? t j ≡ some r
      → is_unused r.state ≡ false
      → r.parent ≢ some i
  pub own : is_alive p.state ≡ true → is_alive q.state ≡ false → q.parent ≢ some i

abbrev pub replaced : PTable → ℕ → ℕ → (Proc → Proc) → PTable
replaced t n i f = record (update t i f) { nextpid = n }

module _ {t : PTable} (n i : ℕ) (p : Proc) (f : Proc → Proc) (v : IsValid t)
    (r : Replaces t n i p (f p)) where
  replaced-Mapped : Mapped (only i f) t (replaced t n i f)
  replaced-Mapped =
      let m = update-Mapped t i f in record { initproc = m.initproc; size = m.size; slot = m.slot }

  at_here : (q : Proc) → proc_at? t i ≡ some q → q ≡ p
  at_here q e = ground (arith, r.at)

  HasParent-replaced :
      (q : Proc)
      → HasParent t q
      → (is_alive p.state ≡ true → is_alive (f p).state ≡ false → q.parent ≢ some i)
      → HasParent (replaced t n i f) q
  HasParent-replaced q h out = record {
    index = h.index;
    entry = only i f h.index h.entry;
    parent = h.parent;
    at = image_at replaced-Mapped h.index h.entry h.at;
    alive = elim (ℕ_discrete i h.index) [
      | yes same ↦
          let e : h.entry ≡ p = at_here h.entry (rw same h.at) in
          elim (Bool-cases (is_alive (f p).state)) [
            | inl still ↦ ground arith
            | inr dead ↦ absurd (out (ground arith) dead (ground arith))
          ]
      | no apart ↦ ground (arith, h.alive)
    ];
  }

  -- What a slot of the new table held before, with the change at `i`.
  old : (j : ℕ) (q : Proc) → proc_at? (replaced t n i f) j ≡ some q → Origin (only i f) t j q
  old = origin replaced-Mapped

  init_after : HasInit (replaced t n i f)
  init_after = record {
    entry = v.init.entry;
    at = ground (arith, image_at replaced-Mapped t.initproc v.init.entry v.init.at, r.other);
    alive = v.init.alive;
    pid = v.init.pid;
    root = v.init.root;
  }

  fresh_after :
      (j : ℕ) (q : Proc)
      → proc_at? (replaced t n i f) j ≡ some q
      → is_unused q.state ≡ false
      → q.pid < n
  fresh_after j q e live =
      let o = old j q e in
      elim (ℕ_discrete i j) [
        | yes same ↦
            let e' : o.source ≡ p = at_here o.source (rw same o.at) in
            ground (arith, o.image, r.fresh)
        | no apart ↦ ground (arith, o.image, v.fresh j o.source o.at, r.later)
      ]

  parents_after :
      (j : ℕ) (q : Proc)
      → proc_at? (replaced t n i f) j ≡ some q
      → is_active q.state ≡ true
      → j ≢ t.initproc
      → HasParent (replaced t n i f) q
  parents_after j q e act ne =
      let o = old j q e in
      elim (ℕ_discrete i j) [
        | yes same ↦
            let e' : o.source ≡ p = at_here o.source (rw same o.at) in
            let e'' : q ≡ f p = ground (arith, o.image) in
            rw e'' (HasParent-replaced (f p) (r.parent (ground arith)) r.own)
        | no apart ↦
            let e' : q ≡ o.source = ground (arith, o.image) in
            HasParent-replaced q (rw e' (v.parents j o.source o.at (ground arith) ne))
              (λ a d. rw e' (r.orphans a d j o.source o.at (ground arith)))
      ]

  starting_after :
      (j : ℕ) (q : Proc)
      → proc_at? (replaced t n i f) j ≡ some q
      → is_unused q.state ≡ false
      → is_active q.state ≡ false
      → (q.parent ≡ none) ⊎ HasParent (replaced t n i f) q
  starting_after j q e live idle =
      let o = old j q e in
      elim (ℕ_discrete i j) [
        | yes same ↦
            let e' : o.source ≡ p = at_here o.source (rw same o.at) in
            let e'' : q ≡ f p = ground (arith, o.image) in
            elim (r.starting (ground arith) (ground arith)) [
              | inl bare ↦ inl (ground arith)
              | inr h ↦ inr (rw e'' (HasParent-replaced (f p) h r.own))
            ]
        | no apart ↦
            let e' : q ≡ o.source = ground (arith, o.image) in
            elim (v.starting j o.source o.at (ground arith) (ground arith)) [
              | inl bare ↦ inl (ground arith)
              | inr h ↦ inr (
                  HasParent-replaced q (rw e' h)
                    (λ a d. rw e' (r.orphans a d j o.source o.at (ground arith))))
            ]
      ]

  blank_after :
      (j : ℕ) (q : Proc)
      → proc_at? (replaced t n i f) j ≡ some q
      → is_unused q.state ≡ true
      → q.parent ≡ none
  blank_after j q e idle =
      let o = old j q e in
      elim (ℕ_discrete i j) [
        | yes same ↦
            let e' : o.source ≡ p = at_here o.source (rw same o.at) in
            ground (arith, o.image, r.blank)
        | no apart ↦ ground (arith, o.image, v.blank j o.source o.at)
      ]

  -- A slot other than the changed one, against the changed one.
  ne_changed :
      (j : ℕ) (q : Proc)
      → i ≢ j
      → proc_at? t j ≡ some q
      → is_unused q.state ≡ false
      → is_unused (f p).state ≡ false
      → q.pid ≢ (f p).pid
  ne_changed j q ne e live live' eq = elim (r.distinct live') [
    | inl (same, used) ↦ ne (v.distinct i j p q r.at e used live (ground arith))
    | inr above ↦ absurd (ground (arith, v.fresh j q e live))
  ]

  distinct_after :
      (j k : ℕ) (q s : Proc)
      → proc_at? (replaced t n i f) j ≡ some q
      → proc_at? (replaced t n i f) k ≡ some s
      → is_unused q.state ≡ false
      → is_unused s.state ≡ false
      → q.pid ≡ s.pid
      → j ≡ k
  distinct_after j k q s e e' live live' eq =
      let o = old j q e in
      let o' = old k s e' in
      elim (ℕ_discrete i j) [
        | yes same ↦ elim (ℕ_discrete i k) [
          | yes same' ↦ ground arith
          | no apart' ↦
              let src : o.source ≡ p = at_here o.source (rw same o.at) in
              let here : q ≡ f p = ground (arith, o.image) in
              let there : s ≡ o'.source = ground (arith, o'.image) in
              absurd (ne_changed k s apart' (rw there o'.at) live' (ground arith) (ground arith))
        ]
        | no apart ↦ elim (ℕ_discrete i k) [
          | yes same' ↦
              let src : o'.source ≡ p = at_here o'.source (rw same' o'.at) in
              let here : s ≡ f p = ground (arith, o'.image) in
              let there : q ≡ o.source = ground (arith, o.image) in
              absurd (ne_changed j q apart (rw there o.at) live (ground arith) (ground arith))
          | no apart' ↦
              let here : q ≡ o.source = ground (arith, o.image) in
              let there : s ≡ o'.source = ground (arith, o'.image) in
              v.distinct j k q s (rw here o.at) (rw there o'.at) live live' eq
        ]
      ]

  pub replaced-IsValid : IsValid (replaced t n i f)
  replaced-IsValid = record {
    size = ground (arith, replaced-Mapped.size, v.size);
    init = init_after;
    fresh = fresh_after;
    distinct = distinct_after;
    parents = parents_after;
    starting = starting_after;
    blank = blank_after;
  }
