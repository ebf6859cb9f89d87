-- ===== src/Proc/Invariant.antt =====
-- The invariant of the process table, and the functions that keep each process in its phase.
pub mod Create
pub mod Fork
pub mod Keep
pub mod Replace
pub mod Retire
use mathlib.Core.Option
use cserl_bootcamp.Common.{
  ℕ, ◌+◌, ◌≤◌, ◌<◌, ◌≡◌, ◌≢◌, ◌⊎◌, inl, inr, refl, Bool, true, false, ◌||◌, ◌&&◌, Option, none,
  some, ◌==◌, if◌then◌else◌, map, length, length-map, length-modify, find_index, find_index-some,
  Option-cases, Bool-cases, arith,
}
use cserl_bootcamp.Proc.Table.{
  ProcState, unused, embryo, sleeping, runnable, running, zombie, Chan, null, Proc, PTable, nproc,
  is_unused, is_runnable, is_sleeping, chan_eq, proc_at, proc_at?, update, wake, wakeup1, kill,
  sleep_on, awake, yield, dispatch,
}
use cserl_bootcamp.Proc.Slots.{
  proc_at?-update, proc_at?-wakeup1, proc_at-proc_at?, get_elem?-get_or,
}

-- A process that can still run, and one that has a pid which `wait` may return.
abbrev pub is_alive : ProcState → Bool
is_alive sleeping = true
is_alive runnable = true
is_alive running = true
is_alive _ = false

abbrev pub is_active : ProcState → Bool
is_active unused = false
is_active embryo = false
is_active _ = true

pub record HasParent (t : PTable) (p : Proc) : Type 0 where
  pub index : ℕ
  pub entry : Proc
  pub parent : p.parent ≡ some index
  pub at : proc_at? t index ≡ some entry
  pub alive : is_alive entry.state ≡ true

pub record HasInit (t : PTable) : Type 0 where
  pub entry : Proc
  pub at : proc_at? t t.initproc ≡ some entry
  pub alive : is_alive entry.state ≡ true
  pub pid : entry.pid ≡ 1
  pub root : entry.parent ≡ none

-- Pids in use lie below `nextpid` and differ, `initproc` lives with pid 1 and no parent, and every other process
-- that has left EMBRYO has a living parent. A slot in EMBRYO has a living parent or none yet, and a free
-- slot has none.
pub record IsValid (t : PTable) : Type 0 where
  pub size : length t.procs ≡ nproc
  pub init : HasInit t
  pub fresh :
      (i : ℕ) (p : Proc) → proc_at? t i ≡ some p → is_unused p.state ≡ false → p.pid < t.nextpid
  pub distinct :
      (i j : ℕ) (p q : Proc)
      → proc_at? t i ≡ some p
      → proc_at? t j ≡ some q
      → is_unused p.state ≡ false
      → is_unused q.state ≡ false
      → p.pid ≡ q.pid
      → i ≡ j
  pub parents :
      (i : ℕ) (p : Proc)
      → proc_at? t i ≡ some p
      → is_active p.state ≡ true
      → i ≢ t.initproc
      → HasParent t p
  pub starting :
      (i : ℕ) (p : Proc)
      → proc_at? t i ≡ some p
      → is_unused p.state ≡ false
      → is_active p.state ≡ false
      → (p.parent ≡ none) ⊎ HasParent t p
  pub blank :
      (i : ℕ) (p : Proc) → proc_at? t i ≡ some p → is_unused p.state ≡ true → p.parent ≡ none

-- A slot changes at most in what the invariant does not look at.
pub record SamePhase (p q : Proc) : Type 0 where
  pub pid : q.pid ≡ p.pid
  pub parent : q.parent ≡ p.parent
  pub unused : is_unused q.state ≡ is_unused p.state
  pub active : is_active q.state ≡ is_active p.state
  pub alive : is_alive q.state ≡ is_alive p.state

-- A table whose slots are those of `t` under `f`.
pub record Mapped (f : ℕ → Proc → Proc) (t u : PTable) : Type 0 where
  pub initproc : u.initproc ≡ t.initproc
  pub size : length u.procs ≡ length t.procs
  pub slot : (j : ℕ) → proc_at? u j ≡ Option.map (f j) (proc_at? t j)

pub record Origin (f : ℕ → Proc → Proc) (t : PTable) (j : ℕ) (q : Proc) : Type 0 where
  pub source : Proc
  pub at : proc_at? t j ≡ some source
  pub image : q ≡ f j source

module _ {f : ℕ → Proc → Proc} {t u : PTable} (m : Mapped f t u) where
  pub origin : (j : ℕ) (q : Proc) → proc_at? u j ≡ some q → Origin f t j q
  origin j q e = elim (Option-cases (proc_at? t j)) [
    | inl out ↦ absurd (ground (arith, m.slot j))
    | inr (p, at) ↦ record { source = p; at = at; image = ground (arith, m.slot j) }
  ]

  pub image_at : (j : ℕ) (p : Proc) → proc_at? t j ≡ some p → proc_at? u j ≡ some (f j p)
  image_at j p e = ground (arith, m.slot j)

module _ {f : ℕ → Proc → Proc} {t u : PTable} (m : Mapped f t u)
    (same : (j : ℕ) (p : Proc) → proc_at? t j ≡ some p → SamePhase p (f j p)) where
  HasParent-Mapped :
      (j : ℕ) (p : Proc) → proc_at? t j ≡ some p → HasParent t p → HasParent u (f j p)
  HasParent-Mapped j p e h = record {
    index = h.index;
    entry = f h.index h.entry;
    parent = ground (arith, same j p e);
    at = image_at m h.index h.entry h.at;
    alive = ground (arith, same h.index h.entry h.at);
  }

  pub Mapped-IsValid : u.nextpid ≡ t.nextpid → IsValid t → IsValid u
  Mapped-IsValid counter v = record {
    size = ground arith;
    init = record {
      entry = f t.initproc v.init.entry;
      at = rw m.initproc (image_at m t.initproc v.init.entry v.init.at);
      alive = ground (arith, same t.initproc v.init.entry v.init.at);
      pid = ground (arith, same t.initproc v.init.entry v.init.at);
      root = ground (arith, same t.initproc v.init.entry v.init.at, v.init.root);
    };
    fresh = λ i q e live.
        let o = origin m i q e in ground (arith, same i o.source o.at, v.fresh i o.source o.at);
    distinct = λ i j q r e e' live live' eq.
        let o = origin m i q e in
        let o' = origin m j r e' in
        ground (
          arith,
          same i o.source o.at,
          same j o'.source o'.at,
          v.distinct i j o.source o'.source o.at o'.at,
        );
    parents = λ i q e act ne.
        let o = origin m i q e in
        let ne' : i ≢ t.initproc = λ eq. ne (ground arith) in
        let act' : is_active o.source.state ≡ true = ground (arith, same i o.source o.at) in
        rw o.image (HasParent-Mapped i o.source o.at (v.parents i o.source o.at act' ne'));
    starting = λ i q e live idle.
        let o = origin m i q e in
        let live' : is_unused o.source.state ≡ false = ground (arith, same i o.source o.at) in
        let idle' : is_active o.source.state ≡ false = ground (arith, same i o.source o.at) in
        elim (v.starting i o.source o.at live' idle') [
          | inl bare ↦ inl (ground (arith, same i o.source o.at))
          | inr h ↦ inr (rw o.image (HasParent-Mapped i o.source o.at h))
        ];
    blank = λ i q e idle.
        let o = origin m i q e in ground (arith, same i o.source o.at, v.blank i o.source o.at);
  }

-- The slots after an update of the one at `i`.
abbrev pub only : ℕ → (Proc → Proc) → ℕ → Proc → Proc
only i f j p = if i == j then f p else p

pub update-Mapped : (t : PTable) (i : ℕ) (f : Proc → Proc) → Mapped (only i f) t (update t i f)
update-Mapped t i f = record {
  initproc = refl;
  size = length-modify t.procs i f;
  slot = λ j. ground (arith, proc_at?-update t i j f);
}

module _ {t : PTable} (i : ℕ) (f : Proc → Proc) where
  pub update-IsValid :
      ((p : Proc) → proc_at? t i ≡ some p → SamePhase p (f p)) → IsValid t → IsValid (update t i f)
  update-IsValid same v = Mapped-IsValid (update-Mapped t i f) slot refl v
    where
      slot : (j : ℕ) (p : Proc) → proc_at? t j ≡ some p → SamePhase p (only i f j p)
      slot j p e = elim (Bool-cases (i == j)) [
        | inl eq ↦ rw eq (same p (ground arith))
        | inr ne ↦
            rw ne (record { pid = refl; parent = refl; unused = refl; active = refl; alive = refl })
      ]

wake-SamePhase : (c : Chan) (p : Proc) → SamePhase p (wake c p)
wake-SamePhase c p = ground arith

wakeup1-Mapped : (c : Chan) (t : PTable) → Mapped (λ _. wake c) t (wakeup1 c t)
unfolding wakeup1
wakeup1-Mapped c t = record {
  initproc = refl;
  size = length-map t.procs (wake c);
  slot = λ j. proc_at?-wakeup1 c t j;
}

-- `wakeup1` keeps the invariant.
pub wakeup1-IsValid : (c : Chan) {t : PTable} → IsValid t → IsValid (wakeup1 c t)
wakeup1-IsValid c {t} v =
    Mapped-IsValid (wakeup1-Mapped c t) (λ j p e. wake-SamePhase c p) nextpid v
  where
    nextpid : (wakeup1 c t).nextpid ≡ t.nextpid
    nextpid = unfold wakeup1 in refl
