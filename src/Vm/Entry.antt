-- ===== src/Vm/Entry.antt =====
-- An entry that is written at the place that `walkpgdir` has found.
use cserl_bootcamp.Common.{
  take_then, take_else, ℕ, ◌≡◌, ◌≢◌, refl, sym, ap, ◌∙◌, Bool, true, false, ◌&&◌, ◌==◌, ==_iff, inl,
  inr, count, Bool-cases, arith,
}
use cserl_bootcamp.Vm.{Pte, Vm, pdx, ptx, p2v, put}
use cserl_bootcamp.Vm.Walk.{translate, IsShaped, Walked}

abbrev pub same_page : ℕ → ℕ → Bool
same_page x y = (pdx x == pdx y) && (ptx x == ptx y)

module _ (pgdir va : ℕ) (s : Vm) (t i : ℕ) (s' : Vm) (walk : Walked pgdir va s t i s')
    (e : Pte) where
  apart_dir : pgdir ≢ t
  apart_dir h = walk.shaped.own (pdx va) walk.table (walk.at ∙ sym h)

  put_dir : (k : ℕ) → (put t i e s').entry pgdir k ≡ s'.entry pgdir k
  put_dir k = take_else ((pgdir == t) && (k == i)) _ _ (ground (arith, apart_dir))

  pub put-IsShaped : IsShaped pgdir (put t i e s')
  put-IsShaped = record {
    free = walk.shaped.free;
    dir_used = walk.shaped.dir_used;
    apart = λ j k pj pk h.
        walk.shaped.apart j k (ap (λ x. x.p) (sym (put_dir j)) ∙ pj)
          (ap (λ x. x.p) (sym (put_dir k)) ∙ pk)
          (ap (λ x. p2v x.addr) (sym (put_dir j)) ∙ h ∙ ap (λ x. p2v x.addr) (put_dir k));
    granted = λ j pj.
        let (w, u) = walk.shaped.granted j (ap (λ x. x.p) (sym (put_dir j)) ∙ pj) in
        (ap (λ x. x.w) (put_dir j) ∙ w, ap (λ x. x.u) (put_dir j) ∙ u);
    own = λ j pj h.
        walk.shaped.own j (ap (λ x. x.p) (sym (put_dir j)) ∙ pj)
          (ap (λ x. p2v x.addr) (sym (put_dir j)) ∙ h);
    used = λ j pj.
        ap (λ x. count (p2v x.addr) s'.kmem.freelist) (put_dir j)
        ∙ walk.shaped.used j (ap (λ x. x.p) (sym (put_dir j)) ∙ pj);
  }

  pub put-translate_here : (x : ℕ) → same_page x va ≡ true → translate pgdir x (put t i e s') ≡ e
  unfolding translate
  put-translate_here x same =
      let d : pdx x ≡ pdx va = ground arith in
      let q : ptx x ≡ i = ground (arith, walk.index) in
      let now : (put t i e s').entry pgdir (pdx x) ≡ s'.entry pgdir (pdx va) =
        put_dir (pdx x) ∙ ap (s'.entry pgdir) d in
      let there : ((put t i e s').entry pgdir (pdx x)).p ≡ true = ap (λ y. y.p) now ∙ walk.table in
      let at : p2v ((put t i e s').entry pgdir (pdx x)).addr ≡ t =
        ap (λ y. p2v y.addr) now ∙ walk.at in
      take_then ((put t i e s').entry pgdir (pdx x)).p _ _ there
      ∙ ap (λ y. (put t i e s').entry y (ptx x)) at
      ∙ ap ((put t i e s').entry t) q
      ∙ take_then ((t == t) && (i == i)) _ _ (ground arith)

  put_other :
      (x : ℕ)
      → same_page x va ≡ false
      → (s'.entry pgdir (pdx x)).p ≡ true
      → (put t i e s').entry (p2v (s'.entry pgdir (pdx x)).addr) (ptx x)
        ≡ s'.entry (p2v (s'.entry pgdir (pdx x)).addr) (ptx x)
  put_other x other there = elim (Bool-cases (p2v (s'.entry pgdir (pdx x)).addr == t)) [
    | inr far ↦
        take_else ((p2v (s'.entry pgdir (pdx x)).addr == t) && (ptx x == i)) _ _ (rw far refl)
    | inl near ↦
        let q : p2v (s'.entry pgdir (pdx x)).addr ≡ t = (==_iff _ _).0 near in
        let d : pdx x ≡ pdx va =
          walk.shaped.apart (pdx x) (pdx va) there walk.table (q ∙ sym walk.at) in
        let no_index : (ptx x == i) ≡ false = ground (arith, walk.index) in
        take_else ((p2v (s'.entry pgdir (pdx x)).addr == t) && (ptx x == i)) _ _
          (rw (near, no_index) refl)
  ]

  pub put-translate_other :
      (x : ℕ) → same_page x va ≡ false → translate pgdir x (put t i e s') ≡ translate pgdir x s
  unfolding translate
  put-translate_other x other = elim (Bool-cases (s'.entry pgdir (pdx x)).p) [
    | inr gone ↦
        take_else ((put t i e s').entry pgdir (pdx x)).p _ _
          (ap (λ y. y.p) (put_dir (pdx x)) ∙ gone)
        ∙ sym (take_else (s'.entry pgdir (pdx x)).p _ _ gone)
        ∙ walk.same x
    | inl there ↦
        take_then ((put t i e s').entry pgdir (pdx x)).p _ _
          (ap (λ y. y.p) (put_dir (pdx x)) ∙ there)
        ∙ ap (λ y. (put t i e s').entry (p2v y.addr) (ptx x)) (put_dir (pdx x))
        ∙ put_other x other there
        ∙ sym (take_then (s'.entry pgdir (pdx x)).p _ _ there)
        ∙ walk.same x
  ]

  -- The entry that stood at the place was the translation of `va`.
  pub walked-entry : s'.entry t i ≡ translate pgdir va s
  unfolding translate
  walked-entry =
      ap (s'.entry t) walk.index
      ∙ ap (λ q. s'.entry q (ptx va)) (sym walk.at)
      ∙ sym (take_then (s'.entry pgdir (pdx va)).p _ _ walk.table)
      ∙ walk.same va
