-- ===== src/Str/Copy.antt =====
-- `safestrcpy` and `strncmp`.
use cserl_bootcamp.Common.{
  ℕ, zero, suc, ◌+◌, ◌-◌, ◌≤◌, ◌<◌, ◌≡◌, ◌≢◌, ◌↔◌, inl, inr, refl, sym, ap, ◌∙◌, true, false, ◌||◌,
  not, ◌==◌, Bool-cases, pos, ◌⊖◌, arith,
}
use cserl_bootcamp.Str.{Mem, store, safe_loop, safestrcpy, strncmp}
use cserl_bootcamp.Str.Move.{within}

-- What the loop does: it stops within the bytes that it may write, and writes no other.
abbrev Bounded : (s n : ℕ) (m : Mem) → ℕ × Mem → Type 0
Bounded s n m (s', m') = (s ≤ s') × (s' ≤ s + n) × ((a : ℕ) → within s n a ≡ false → m' a ≡ m a)

safe_loop-Bounded : (s t n : ℕ) (m : Mem) → Bounded s n m (safe_loop s t n m)
unfolding safe_loop
safe_loop-Bounded s t zero m = (omega arith, omega arith, λ a out. refl)
safe_loop-Bounded s t (suc n) m = elim (Bool-cases (m t == 0)) [
  | inl last ↦ rw last (omega arith, omega arith, λ a out. ground arith)
  | inr more ↦
      let (low, high, rest) = safe_loop-Bounded (s + 1) (t + 1) n (store m s (m t)) in
      rw more (omega arith, omega arith, λ a out. rest a (ground arith) ∙ ground arith)
]

-- `safestrcpy` into a buffer of `n` bytes leaves a NUL in the buffer, and writes nothing outside it,
-- whatever the source holds.
pub safestrcpy-terminates :
    (s t n : ℕ) (m : Mem)
    → 0 < n
    → ((i : ℕ) × (i < n) × (safestrcpy s t n m (s + i) ≡ 0))
      × ((a : ℕ) → within s n a ≡ false → safestrcpy s t n m a ≡ m a)
unfolding safestrcpy
safestrcpy-terminates s t zero m some_room = absurd (omega arith)
safestrcpy-terminates s t (suc n) m some_room =
    let (low, high, rest) = safe_loop-Bounded s t n m in
    let s' = (safe_loop s t n m).0 in
    ((s' - s, omega arith, (ground arith)), λ a out. ground (arith, rest a (ground arith)))

-- The strings at `p` and `q` agree in their first `n` bytes, up to the end of the first.
abbrev pub Agree : (p q n : ℕ) → Mem → Type 0
Agree p q n m = (i : ℕ) → i < n → ((j : ℕ) → j < i → m (p + j) ≢ 0) → m (p + i) ≡ m (q + i)

sub_zero : (a b : ℕ) → a ⊖ b ≡ pos 0 → a ≡ b
sub_zero a b e = ground arith

sub_self : (a b : ℕ) → a ≡ b → a ⊖ b ≡ pos 0
sub_self a b e = ground arith

at_next : (m : Mem) (p i : ℕ) → m (p + 1 + i) ≡ m (p + suc i)
at_next m p i = ap m (omega arith)

at_first : (m : Mem) (p : ℕ) → m (p + 0) ≡ m p
at_first m p = ap m (omega arith)

Agree-next : (p q n : ℕ) (m : Mem) → m p ≢ 0 → Agree p q (suc n) m → Agree (p + 1) (q + 1) n m
Agree-next p q n m going agree i lt up =
    at_next m p i ∙ agree (suc i) (omega arith) before ∙ sym (at_next m q i)
  where
    before : (j : ℕ) → j < suc i → m (p + j) ≢ 0
    before zero le e = going (sym (at_first m p) ∙ e)
    before (suc j) le e = up j (omega arith) (at_next m p j ∙ e)

Agree-first : (p q n : ℕ) (m : Mem) → Agree p q (suc n) m → m p ≡ m q
Agree-first p q n m agree =
    sym (at_first m p) ∙ agree 0 (omega arith) (λ j lt. absurd (omega arith)) ∙ at_first m q

strncmp-zero : (p q n : ℕ) (m : Mem) → Agree p q n m → strncmp p q n m ≡ pos 0
unfolding strncmp
strncmp-zero p q zero m agree = refl
strncmp-zero p q (suc n) m agree = elim (Bool-cases ((m p == 0) || not (m p == m q))) [
  | inl stop ↦ rw stop (sub_self (m p) (m q) (Agree-first p q n m agree))
  | inr go ↦ rw go (strncmp-zero (p + 1) (q + 1) n m (Agree-next p q n m (λ e. ground arith) agree))
]

zero-strncmp : (p q n : ℕ) (m : Mem) → strncmp p q n m ≡ pos 0 → Agree p q n m
unfolding strncmp
zero-strncmp p q zero m e = λ i lt up. absurd (omega arith)
zero-strncmp p q (suc n) m e = elim (Bool-cases ((m p == 0) || not (m p == m q))) [
  | inl stop ↦ ended stop (sub_zero (m p) (m q) (rw stop at e))
  | inr go ↦ further go (zero-strncmp (p + 1) (q + 1) n m (rw go at e))
]
  where
    ended : (m p == 0) || not (m p == m q) ≡ true → m p ≡ m q → Agree p q (suc n) m
    ended stop same zero lt up = at_first m p ∙ same ∙ sym (at_first m q)
    ended stop same (suc i) lt up = absurd (up 0 (omega arith) (at_first m p ∙ ground arith))

    further :
        (m p == 0) || not (m p == m q) ≡ false → Agree (p + 1) (q + 1) n m → Agree p q (suc n) m
    further go rest zero lt up = at_first m p ∙ ground arith ∙ sym (at_first m q)
    further go rest (suc i) lt up =
        sym (at_next m p i)
        ∙ rest i (omega arith) (λ j le z. up (suc j) (omega arith) (sym (at_next m p j) ∙ z))
        ∙ at_next m q i

-- `strncmp` returns 0 exactly when the two strings agree in each of their first `n` bytes that no NUL
-- of the first comes before.
pub strncmp_iff : (p q n : ℕ) (m : Mem) → (strncmp p q n m ≡ pos 0) ↔ Agree p q n m
strncmp_iff p q n m = (zero-strncmp p q n m, strncmp-zero p q n m)
