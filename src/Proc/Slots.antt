-- ===== src/Proc/Slots.antt =====
-- What each function of the process table does to the slot at `j`.
use mathlib.Core.Option
use native.Mathlib.Decide.{ℕ_discrete}
use cserl_bootcamp.Common.{
  ℕ, zero, suc, ◌+◌, ◌≡◌, ◌≢◌, ◌⊎◌, inl, inr, refl, sym, ap, ◌∙◌, Bool-cases, true, ◌&&◌, some,
  List, [], ◌∷◌, ◌==◌, ltb, leb, if◌then◌else◌, get_or, get_elem?, modify, get_elem?-modify,
  get_elem?-map, length-modify, length-map, length, arith,
}
use cserl_bootcamp.Proc.Table.{
  sleeping, runnable, Chan, null, proc, address, Proc, PTable, blank_proc, chan_eq, is_sleeping,
  is_zombie, is_parent, proc_at, proc_at?, update, wake, wakeup1,
}
use cserl_bootcamp.Proc.Life.{adopt, adopt_from}

pub proc_at?-update :
    (t : PTable) (i j : ℕ) (f : Proc → Proc)
    → proc_at? (update t i f) j ≡ (if i == j then Option.map f (proc_at? t j) else proc_at? t j)
proc_at?-update t i j f = get_elem?-modify t.procs i j f

pub proc_at?-wakeup1 :
    (c : Chan) (t : PTable) (j : ℕ) → proc_at? (wakeup1 c t) j ≡ Option.map (wake c) (proc_at? t j)
unfolding wakeup1
proc_at?-wakeup1 c t j = get_elem?-map (wake c) t.procs j

pub get_elem?-get_or :
    (ps : List Proc) (i : ℕ) (d : Proc) {p : Proc} → get_elem? ps i ≡ some p → get_or ps i d ≡ p
get_elem?-get_or [] i d e = ground arith
get_elem?-get_or (q ∷ ps) zero d e = ground arith
get_elem?-get_or (q ∷ ps) (suc i) d e = get_elem?-get_or ps i d e

pub proc_at-proc_at? : (t : PTable) (i : ℕ) {p : Proc} → proc_at? t i ≡ some p → proc_at t i ≡ p
proc_at-proc_at? t i e = get_elem?-get_or t.procs i blank_proc e

-- The slot at `j` after the round of `exit`'s loop at slot `i`.
abbrev adopted_slot : ℕ → ℕ → PTable → ℕ → Proc → Proc
adopted_slot cur i t j p =
    let kid = is_parent cur (proc_at t i).parent in
    let p' = if i == j && kid then record p { parent = some t.initproc } else p in
    if kid && is_zombie (proc_at t i).state then wake (proc t.initproc) p' else p'

proc_at?-adopt :
    (cur i : ℕ) (t : PTable) (j : ℕ) (p : Proc)
    → proc_at? t j ≡ some p
    → proc_at? (adopt cur i t) j ≡ some (adopted_slot cur i t j p)
unfolding adopt
proc_at?-adopt cur i t j p e =
    let t' = update t i (λ p. record p { parent = some t.initproc }) in
    ground (
      arith,
      proc_at?-update t i j (λ p. record p { parent = some t.initproc }),
      proc_at?-wakeup1 (proc t.initproc) t' j,
    )

-- What the rounds of `exit`'s loop at the slots from `lo` up to `hi` make of the slot at `j`.
pub record Adopted (cur init lo hi j : ℕ) (p q : Proc) : Type 0 where
  pub pid : q.pid ≡ p.pid
  pub chan : q.chan ≡ p.chan
  pub rest : q ≡ record p { parent = q.parent; state = q.state }
  pub parent :
      q.parent ≡ (if is_parent cur p.parent && leb lo j && ltb j hi then some init else p.parent)
  pub state :
      (q.state ≡ p.state) ⊎ ((p.state ≡ sleeping) × (p.chan ≡ proc init) × (q.state ≡ runnable))

chan_eq_proc : (c : Chan) (i : ℕ) → chan_eq c (proc i) ≡ true → c ≡ proc i
chan_eq_proc null i e = ground arith
chan_eq_proc (proc j) i e = ground arith
chan_eq_proc (address a) i e = ground arith

pub wake_rest : (c : Chan) (p : Proc) → wake c p ≡ record p { state = (wake c p).state }
wake_rest c p = elim (Bool-cases (is_sleeping p.state && chan_eq p.chan c)) [
  | inl up ↦ rw up refl
  | inr down ↦ rw down refl
]

adopted_slot_rest :
    (cur i : ℕ) (t : PTable) (j : ℕ) (p : Proc)
    → adopted_slot cur i t j p ≡ record p {
      parent = (adopted_slot cur i t j p).parent;
      state = (adopted_slot cur i t j p).state;
    }
adopted_slot_rest cur i t j p =
    let kid = is_parent cur (proc_at t i).parent in
    let woken = wake_rest (proc t.initproc) in
    let given : Proc = record p { parent = some t.initproc } in
    elim (Bool-cases (i == j && kid)) [
      | inl here ↦ elim (Bool-cases (kid && is_zombie (proc_at t i).state)) [
        | inl up ↦ rw (here, up) (whole given (wake (proc t.initproc) given) (woken given))
        | inr down ↦ rw (here, down) refl
      ]
      | inr there ↦ elim (Bool-cases (kid && is_zombie (proc_at t i).state)) [
        | inl up ↦ rw (there, up) (whole p (wake (proc t.initproc) p) (woken p))
        | inr down ↦ rw (there, down) refl
      ]
    ]
  where
    whole :
        (p q : Proc)
        → q ≡ record p { state = q.state }
        → q ≡ record p { parent = q.parent; state = q.state }
    whole p q e =
        e ∙ ap (λ x. record p { parent = x; state = q.state }) (sym (ap (λ (x : Proc). x.parent) e))

adopted_slot-Adopted :
    (cur i : ℕ) (t : PTable) (j : ℕ) (p : Proc)
    → proc_at? t j ≡ some p
    → Adopted cur t.initproc i (i + 1) j p (adopted_slot cur i t j p)
adopted_slot-Adopted cur i t j p e = record {
  pid = ground arith;
  chan = ground arith;
  rest = adopted_slot_rest cur i t j p;
  parent = elim (ℕ_discrete i j) [
    | yes same ↦ ground (arith, proc_at-proc_at? t i {p = p} (rw same e))
    | no apart ↦ ground arith
  ];
  state = ground (arith, chan_eq_proc p.chan t.initproc);
}

Adopted-trans :
    (cur init i n j : ℕ) (p q r : Proc)
    → cur ≢ init
    → Adopted cur init i (i + 1) j p q
    → Adopted cur init (i + 1) (i + 1 + n) j q r
    → Adopted cur init i (i + suc n) j p r
Adopted-trans cur init i n j p q r ne a b = record {
  pid = ground arith;
  chan = ground arith;
  rest = b.rest ∙ ap (λ (x : Proc). record x { parent = r.parent; state = r.state }) a.rest;
  parent = ground (arith, b.parent, a.parent);
  state = ground arith;
}

pub initproc-adopt : (cur i : ℕ) (t : PTable) → (adopt cur i t).initproc ≡ t.initproc
unfolding adopt wakeup1
initproc-adopt cur i t = ground arith

pub nextpid-adopt : (cur i : ℕ) (t : PTable) → (adopt cur i t).nextpid ≡ t.nextpid
unfolding adopt wakeup1
nextpid-adopt cur i t = ground arith

pub length-adopt : (cur i : ℕ) (t : PTable) → length (adopt cur i t).procs ≡ length t.procs
unfolding adopt wakeup1
length-adopt cur i t =
    let f : Proc → Proc = λ p. record p { parent = some t.initproc } in
    ground
      (arith, length-modify t.procs i f, length-map (modify t.procs i f) (wake (proc t.initproc)))

pub record SameFrame (t u : PTable) : Type 0 where
  pub initproc : u.initproc ≡ t.initproc
  pub nextpid : u.nextpid ≡ t.nextpid
  pub size : length u.procs ≡ length t.procs

pub adopt_from-SameFrame : (cur n i : ℕ) (t : PTable) → SameFrame t (adopt_from cur n i t)
unfolding adopt_from
adopt_from-SameFrame cur zero i t = record { initproc = refl; nextpid = refl; size = refl }
adopt_from-SameFrame cur (suc n) i t = ground (
  arith,
  adopt_from-SameFrame cur n (i + 1) (adopt cur i t),
  initproc-adopt cur i t,
  nextpid-adopt cur i t,
  length-adopt cur i t,
)

pub adopt_from-Adopted :
    (cur n i : ℕ) (t : PTable) (j : ℕ) (p : Proc)
    → cur ≢ t.initproc
    → proc_at? t j ≡ some p
    → (q : Proc) × (proc_at? (adopt_from cur n i t) j ≡ some q)
      × Adopted cur t.initproc i (i + n) j p q
unfolding adopt_from
adopt_from-Adopted cur zero i t j p ne e =
    (p, e, record { pid = refl; chan = refl; rest = refl; parent = ground arith; state = inl refl })
adopt_from-Adopted cur (suc n) i t j p ne e =
    let same = initproc-adopt cur i t in
    let (r, at, rest) =
      adopt_from-Adopted cur n (i + 1) (adopt cur i t) j (adopted_slot cur i t j p) (rw same ne)
        (proc_at?-adopt cur i t j p e) in
    (
      r,
      at,
      Adopted-trans cur t.initproc i n j p _ r ne (adopted_slot-Adopted cur i t j p e)
          (rw same at rest),
    )
