-- ===== src/Fs/Content/Slots.antt =====
-- The block numbers of an inode as a table of slots, of which one gets a fresh block.
use cserl_bootcamp.Common.{
  ℕ, ◌≡◌, ◌≢◌, refl, sym, ap, ◌∙◌, Bool, true, false, some, List, ◌==◌, ==_iff, if◌then◌else◌,
  get_elem?, get_elem?-set_self, get_elem?-set_ne, get_elem?-lt, set, ◌⊎◌, inl, inr, Bool-cases,
  arith,
}

-- Block 0 is in use, each block of a slot is in use, and no two slots have the same block.
pub record IsDistinct (slot : ℕ → ℕ) (bits : List Bool) : Type 0 where
  pub boot_used : get_elem? bits 0 ≡ some true
  pub used : (k : ℕ) → slot k ≢ 0 → get_elem? bits (slot k) ≡ some true
  pub apart : (i j : ℕ) → slot i ≢ 0 → slot i ≡ slot j → i ≡ j

abbrev pub update : (slot : ℕ → ℕ) → (k b : ℕ) → ℕ → ℕ
update slot k b i = if i == k then b else slot i

module _ (slot : ℕ → ℕ) (bits : List Bool) (distinct : IsDistinct slot bits) (k b : ℕ)
    (fresh : get_elem? bits b ≡ some false) where
  pub fresh_ne : b ≢ 0
  fresh_ne e =
      let both : some false ≡ some true = sym fresh ∙ ap (get_elem? bits) e ∙ distinct.boot_used in
      ground arith

  pub other : (i : ℕ) → slot i ≢ 0 → slot i ≢ b
  other i ne e =
      let both : some true ≡ some false =
        sym (distinct.used i ne) ∙ ap (get_elem? bits) e ∙ fresh in
      ground arith

  update_here : update slot k b k ≡ b
  update_here = ground arith

  update_there : (i : ℕ) → i ≢ k → update slot k b i ≡ slot i
  update_there i ne = ground arith

  Slot-cases :
      (i : ℕ) → ((i ≡ k) × (update slot k b i ≡ b)) ⊎ ((i ≢ k) × (update slot k b i ≡ slot i))
  Slot-cases i = elim (Bool-cases (i == k)) [
    | inl here ↦ inl ((==_iff i k).0 here, rw here refl)
    | inr there ↦ inr ((λ e. ground arith), rw there refl)
  ]

  update-used :
      (i : ℕ) → update slot k b i ≢ 0 → get_elem? (set bits b true) (update slot k b i) ≡ some true
  update-used i ne = elim (Slot-cases i) [
    | inl (_, e) ↦
        ap (get_elem? (set bits b true)) e
        ∙ get_elem?-set_self bits b true (get_elem?-lt bits b fresh)
    | inr (_, e) ↦
        let was : slot i ≢ 0 = λ z. ne (e ∙ z) in
        ap (get_elem? (set bits b true)) e
        ∙ get_elem?-set_ne bits b (slot i) true (λ h. other i was (sym h))
        ∙ distinct.used i was
  ]

  update-apart : (i j : ℕ) → update slot k b i ≢ 0 → update slot k b i ≡ update slot k b j → i ≡ j
  update-apart i j ne e = elim (Slot-cases i) [
    | inl (ei, ui) ↦ elim (Slot-cases j) [
      | inl (ej, uj) ↦ ei ∙ sym ej
      | inr (nj, uj) ↦
          let same : slot j ≡ b = sym uj ∙ sym e ∙ ui in
          absurd (other j (λ z. fresh_ne (sym same ∙ z)) same)
    ]
    | inr (ni, ui) ↦
        let was : slot i ≢ 0 = λ z. ne (ui ∙ z) in
        elim (Slot-cases j) [
          | inl (ej, uj) ↦ absurd (other i was (sym ui ∙ e ∙ uj))
          | inr (nj, uj) ↦ distinct.apart i j was (sym ui ∙ e ∙ uj)
        ]
  ]

  pub update-IsDistinct : IsDistinct (update slot k b) (set bits b true)
  update-IsDistinct = record {
    boot_used = get_elem?-set_ne bits b 0 true fresh_ne ∙ distinct.boot_used;
    used = update-used;
    apart = update-apart;
  }

pub IsDistinct-same :
    (slot slot' : ℕ → ℕ) (bits : List Bool)
    → ((i : ℕ) → slot' i ≡ slot i)
    → IsDistinct slot bits
    → IsDistinct slot' bits
IsDistinct-same slot slot' bits same d = record {
  boot_used = d.boot_used;
  used = λ k ne. ap (get_elem? bits) (same k) ∙ d.used k (λ z. ne (same k ∙ z));
  apart = λ i j ne e. d.apart i j (λ z. ne (same i ∙ z)) (sym (same i) ∙ e ∙ same j);
}
