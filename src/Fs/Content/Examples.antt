-- ===== src/Fs/Content/Examples.antt =====
-- The theorems on the contents of inodes at a file of one block.
use cserl_bootcamp.Common.{
  take_else, ℕ, ◌+◌, ◌<◌, ◌≤◌, ◌≡◌, ◌≢◌, refl, sym, ap, ◌∙◌, Bool, true, false, some, List, [], ◌∷◌,
  ◌==◌, ==_iff, ltb, if◌then◌else◌, get_elem?, replicate, length-replicate, ℤ, pos, negsuc, inl,
  inr, ◌⊎◌, Bool-cases, arith,
}
use cserl_bootcamp.Fs.Balloc.{bsize}
use cserl_bootcamp.Fs.Content.{Ip, Disk, ndirect, maxfile, readi, writei}
use cserl_bootcamp.Fs.Content.Slots.{IsDistinct}
use cserl_bootcamp.Fs.Content.Assign.{slot}
use cserl_bootcamp.Fs.Content.Read.{IsWhole, byte_at, range_of, readi-range}
use cserl_bootcamp.Fs.Content.RoundTrip.{readi-writei}

abbrev one_block : Ip
one_block = record { device = false; size = 4; addrs = λ i. if i == 0 then 1 else 0 }

abbrev sevens : Disk
sevens = record {
  store = record { bits = true ∷ true ∷ false ∷ []; blocks = λ q. replicate bsize 7 };
  word = λ q i. 0;
}

abbrev no_read : ℕ → Ip → Disk → ℤ × List ℕ × Disk
no_read n ip d = (negsuc 0, [], d)

abbrev no_write : List ℕ → Ip → Disk → ℤ × Disk
no_write src ip d = (negsuc 0, d)

abbrev same_disk : Ip → Disk → Disk
same_disk ip d = d

if_same : (c : Bool) (x y : ℕ) → x ≡ 0 → y ≡ 0 → (if c then x else y) ≡ 0
if_same true x y e f = e
if_same false x y e f = f

slot_later : (k : ℕ) → (k == 0) ≡ false → slot one_block sevens k ≡ 0
unfolding slot
slot_later k later =
    if_same (ltb k ndirect) _ _ (take_else (k == 0) _ _ later)
      (if_same (k == maxfile) _ _ refl (if_same (ltb maxfile k) _ _ refl refl))

slot_first : slot one_block sevens 0 ≡ 1
unfolding slot
slot_first = refl

is_first : (k : ℕ) → slot one_block sevens k ≢ 0 → k ≡ 0
is_first k ne = elim (Bool-cases (k == 0)) [
  | inl first ↦ (==_iff k 0).0 first
  | inr later ↦ absurd (ne (slot_later k later))
]

sevens-IsDistinct : IsDistinct (slot one_block sevens) sevens.store.bits
sevens-IsDistinct = record {
  boot_used = refl;
  used = λ k ne.
      ap (λ i. get_elem? sevens.store.bits (slot one_block sevens i)) (is_first k ne)
      ∙ ap (get_elem? sevens.store.bits) slot_first;
  apart = λ i j ne e. is_first i ne ∙ sym (is_first j (λ z. ne (e ∙ z)));
}

sevens-IsWhole : IsWhole one_block sevens
sevens-IsWhole = record {
  below = omega arith;
  there = λ k lt e.
      let first : k ≡ 0 = omega arith in
      let both : 1 ≡ 0 = sym slot_first ∙ ap (slot one_block sevens) (sym first) ∙ e in omega arith;
  whole = λ k lt. length-replicate {A = ℕ} bsize 7;
}

-- The end of the file comes first.
readi-range_example :
    readi no_read 1 9 one_block sevens
    ≡ some (pos 3, range_of (byte_at one_block sevens) 1 3, one_block, sevens)
readi-range_example =
    readi-range no_read 1 9 one_block sevens refl sevens-IsWhole (omega arith) (omega arith)

readi-writei_example :
    (d' : Disk) × (writei no_write same_disk 1 (8 ∷ 9 ∷ []) one_block sevens
      ≡ some (pos 2, one_block, d'))
    × (readi no_read 1 2 one_block d' ≡ some (pos 2, 8 ∷ 9 ∷ [], one_block, d'))
    × ((p : ℕ)
        → p < 4
        → (p < 1) ⊎ (1 + 2 ≤ p)
        → byte_at one_block d' p ≡ byte_at one_block sevens p)
    × (d'.store.bits ≡ sevens.store.bits)
readi-writei_example =
    readi-writei no_read no_write same_disk 1 (8 ∷ 9 ∷ []) one_block sevens refl sevens-IsDistinct
      sevens-IsWhole (omega arith)
