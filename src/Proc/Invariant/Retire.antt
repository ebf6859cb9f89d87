-- ===== src/Proc/Invariant/Retire.antt =====
-- `exit` and `wait` keep the invariant.
use cserl_bootcamp.Common.{
  ℕ, ◌+◌, ◌<◌, ◌≡◌, ◌≢◌, refl, true, false, Option, none, some, ◌==◌, if◌then◌else◌,
  get_elem?-of_lt, get_elem?-lt, length, map, Bool-cases, inl, inr, arith,
}
use cserl_bootcamp.Proc.Table.{
  zombie, Proc, PTable, nproc, is_unused, is_parent, wake, proc_at, proc_at?, update, wakeup1,
}
use cserl_bootcamp.Proc.Life.{parent_chan, adopt_from, exit_locked, exit, each_file, at_file}
use cserl_bootcamp.Proc.Slots.{
  proc_at?-update, proc_at?-wakeup1, Adopted, adopt_from-Adopted, adopt_from-SameFrame,
}
use cserl_bootcamp.Proc.Invariant.{
  is_alive, is_active, IsValid, HasParent, HasInit, update-IsValid, wakeup1-IsValid,
}
use cserl_bootcamp.Proc.Invariant.Replace.{replaced-IsValid}

module _ (cur : ℕ) {t : PTable} (v : IsValid t) (ne : cur ≢ t.initproc) where
  abbrev orphaned : PTable
  orphaned = adopt_from cur nproc 0 t

  abbrev given : Proc → Option ℕ
  given p = if is_parent cur p.parent then some t.initproc else p.parent

  record Taken (j : ℕ) (p q : Proc) : Type 0 where
    pid : q.pid ≡ p.pid
    parent : q.parent ≡ given p
    alive : is_alive q.state ≡ is_alive p.state
    unused : is_unused q.state ≡ is_unused p.state
    active : is_active q.state ≡ is_active p.state

  taken :
      (j : ℕ) (p q : Proc) → j < nproc → Adopted cur t.initproc 0 (0 + nproc) j p q → Taken j p q
  taken j p q h a = record {
    pid = a.pid;
    parent = ground (arith, a.parent);
    alive = ground (arith, a.state);
    unused = ground (arith, a.state);
    active = ground (arith, a.state);
  }

  forth :
      (j : ℕ) (p : Proc)
      → proc_at? t j ≡ some p
      → (q : Proc) × (proc_at? orphaned j ≡ some q) × Taken j p q
  forth j p e =
      let (q, at, a) = adopt_from-Adopted cur nproc 0 t j p ne e in
      (q, at, taken j p q (ground (arith, v.size, get_elem?-lt t.procs j {x = p} e)) a)

  back :
      (j : ℕ) (q : Proc)
      → proc_at? orphaned j ≡ some q
      → (p : Proc) × (proc_at? t j ≡ some p) × Taken j p q
  back j q e =
      let same = adopt_from-SameFrame cur nproc 0 t in
      let lt : j < length t.procs =
        ground (arith, same.size, get_elem?-lt orphaned.procs j {x = q} e) in
      let (p, at) = get_elem?-of_lt t.procs j lt in
      let (q', at', a) = forth j p at in let eq : q ≡ q' = ground arith in (p, at, rw eq a)

  init_stays : HasInit orphaned
  init_stays =
      let same = adopt_from-SameFrame cur nproc 0 t in
      let (q, at, a) = forth t.initproc v.init.entry v.init.at in
      record {
        entry = q;
        at = rw same.initproc at;
        alive = ground (arith, a.alive, v.init.alive);
        pid = ground (arith, a.pid, v.init.pid);
        root = ground (arith, a.parent, v.init.root);
      }

  HasParent-given : (p q : Proc) → q.parent ≡ given p → HasParent t p → HasParent orphaned q
  HasParent-given p q e h = elim (Bool-cases (is_parent cur p.parent)) [
    | inl kid ↦ record {
      index = t.initproc;
      entry = init_stays.entry;
      parent = ground arith;
      at = ground (arith, (adopt_from-SameFrame cur nproc 0 t).initproc, init_stays.at);
      alive = init_stays.alive;
    }
    | inr other ↦
        let (q', at, a) = forth h.index h.entry h.at in
        record {
          index = h.index;
          entry = q';
          parent = ground (arith, h.parent);
          at = at;
          alive = ground (arith, a.alive, h.alive);
        }
  ]

  -- The loop of `exit` over the children keeps the invariant.
  pub orphaned-IsValid : IsValid orphaned
  orphaned-IsValid =
      let same = adopt_from-SameFrame cur nproc 0 t in
      record {
        size = ground (arith, same.size, v.size);
        init = init_stays;
        fresh = λ j q e live.
            let (p, at, a) = back j q e in
            ground (arith, v.fresh j p at, a.unused, a.pid, same.nextpid);
        distinct = λ i j q r e e' live live' eq.
            let (p, at, a) = back i q e in
            let (p', at', a') = back j r e' in
            v.distinct i j p p' at at' (ground (arith, a.unused)) (ground (arith, a'.unused))
              (ground (arith, a.pid, a'.pid));
        parents = λ j q e act out.
            let (p, at, a) = back j q e in
            HasParent-given p q a.parent (
              v.parents j p at (ground (arith, a.active))
                (λ eq. out (ground (arith, same.initproc))));
        starting = λ j q e live idle.
            let (p, at, a) = back j q e in
            elim (v.starting j p at (ground (arith, a.unused)) (ground (arith, a.active))) [
              | inl bare ↦ inl (ground (arith, a.parent))
              | inr h ↦ inr (HasParent-given p q a.parent h)
            ];
        blank = λ j q e idle.
            let (p, at, a) = back j q e in
            let bare : p.parent ≡ none = v.blank j p at (ground (arith, a.unused)) in
            ground (arith, a.parent);
      }

  -- After it no process has `cur` for a parent.
  pub orphaned-parent : (j : ℕ) (q : Proc) → proc_at? orphaned j ≡ some q → q.parent ≢ some cur
  orphaned-parent j q e eq = let (p, at, a) = back j q e in ground (arith, a.parent)

module _ (cur : ℕ) {t : PTable} {p : Proc} (here : proc_at? t cur ≡ some p)
    (alive : is_alive p.state ≡ true) (ne : cur ≢ t.initproc) where
  bury :
      IsValid t
      → ((j : ℕ) (r : Proc) → proc_at? t j ≡ some r → r.parent ≢ some cur)
      → IsValid (update t cur (λ p. record p { state = zombie }))
  bury v childless =
      replaced-IsValid t.nextpid cur p (λ p. record p { state = zombie }) v
        (record {
          at = here;
          other = ne;
          later = omega arith;
          fresh = λ _. v.fresh cur p here (ground arith);
          distinct = λ _. inl (refl, ground arith);
          parent = λ _.
              let h = v.parents cur p here (ground arith) ne in
              record {
                index = h.index;
                entry = h.entry;
                parent = h.parent;
                at = h.at;
                alive = h.alive;
              };
          starting = λ _ a. absurd (ground arith);
          blank = λ a. absurd (ground arith);
          orphans = λ _ _ j r e _. childless j r e;
          own = λ _ _. childless cur p here;
        })

module _ (cur : ℕ) {t : PTable} {p : Proc} (v : IsValid t) (here : proc_at? t cur ≡ some p)
    (alive : is_alive p.state ≡ true) where
  -- `exit` under the lock, by a living process other than `initproc`, keeps the invariant.
  pub exit_locked-IsValid : cur ≢ t.initproc → IsValid (exit_locked cur t)
  unfolding exit_locked
  exit_locked-IsValid ne =
      let c = parent_chan (proc_at t cur).parent in
      let t1 = wakeup1 c t in
      let v1 : IsValid t1 = wakeup1-IsValid c v in
      let ne1 : cur ≢ t1.initproc = unfold wakeup1 in ne in
      let woken : proc_at? t1 cur ≡ some (wake c p) = ground (arith, proc_at?-wakeup1 c t cur) in
      let (q, at, a) = forth cur v1 ne1 cur (wake c p) woken in
      bury cur at (ground (arith, a.alive))
        (λ e. ne1 (ground (arith, (adopt_from-SameFrame cur nproc 0 t1).initproc)))
        (orphaned-IsValid cur v1 ne1) (orphaned-parent cur v1 ne1)

-- `exit` by a living process keeps the invariant, and only the exit of `initproc` panics.
pub exit-IsValid :
    {F : Type 0} (fileclose iput : ℕ → F → F) (cur : ℕ) {t : PTable} {p : Proc} (fs : F)
    → IsValid t
    → proc_at? t cur ≡ some p
    → is_alive p.state ≡ true
    → cur ≢ t.initproc
    → (r : PTable × F) × (exit fileclose iput cur t fs ≡ some r) × IsValid r.0
unfolding exit
exit-IsValid fileclose iput cur {t} {p} fs v here alive ne =
    let f : Proc → Proc = λ p. record p { ofile = map (λ _. none) p.ofile; cwd = none } in
    let t1 = update t cur f in
    let v1 : IsValid t1 =
      update-IsValid cur f
        (λ q e. record { pid = refl; parent = refl; unused = refl; active = refl; alive = refl })
        v in
    let at : proc_at? t1 cur ≡ some (f p) = ground (arith, proc_at?-update t cur cur f) in
    let other : (cur == t.initproc) ≡ false = ground arith in
    (
      (
        exit_locked cur t1,
        at_file iput (proc_at t cur).cwd (each_file fileclose (proc_at t cur).ofile fs),
      ),
      rw (other, exit) refl,
      exit_locked-IsValid cur v1 at alive ne,
    )
