-- ===== src/Str/Move.antt =====
-- `memmove` and `memset` against what they mean.
use cserl_bootcamp.Common.{
  ℕ, zero, suc, ◌+◌, ◌-◌, ◌*◌, ◌/◌, ◌%◌, ◌≤◌, ◌<◌, ◌≡◌, ◌⊎◌, inl, inr, refl, ◌∙◌, Bool, ◌&&◌, ◌==◌,
  ltb, leb, ==_iff, tests, if◌then◌else◌, Bool-cases, arith,
}
use cserl_bootcamp.Str.{Mem, store, store_word, stosb, stosl, memset, copy_up, copy_down, memmove}

-- Whether `a` is one of the `n` bytes from `d` on.
abbrev pub within : (d n a : ℕ) → Bool
within d n a = leb d a && ltb a (d + n)

copy_up-moves :
    (d s n : ℕ) (m : Mem) (a : ℕ)
    → (d ≤ s) ⊎ (s + n ≤ d)
    → copy_up d s n m a ≡ (if within d n a then m (s + (a - d)) else m a)
unfolding copy_up
copy_up-moves d s zero m a apart = ground arith
copy_up-moves d s (suc n) m a apart =
    copy_up-moves (d + 1) (s + 1) n (store m d (m s)) a (ground arith) ∙ grind arith

copy_down-moves :
    (d s n : ℕ) (m : Mem) (a : ℕ)
    → s ≤ d
    → copy_down d s n m a ≡ (if within d n a then m (s + (a - d)) else m a)
unfolding copy_down
copy_down-moves d s zero m a below = ground arith
copy_down-moves d s (suc n) m a below =
    copy_down-moves d s n (store m (d + n) (m (s + n))) a below ∙ grind arith

-- `memmove` copies the `n` bytes at `src`, as they were before the call, to `dst`, and changes no other
-- byte, whichever way the two regions overlap.
pub memmove-moves :
    (dst src n : ℕ) (m : Mem) (a : ℕ)
    → memmove dst src n m a ≡ (if within dst n a then m (src + (a - dst)) else m a)
unfolding memmove
memmove-moves dst src n m a = elim (Bool-cases (ltb src dst && ltb dst (src + n))) [
  | inl down ↦ rw (down, memmove) (copy_down-moves dst src n m a (ground arith))
  | inr up ↦ rw (up, memmove) (copy_up-moves dst src n m a (ground arith))
]

stosb-fills :
    (d c n : ℕ) (m : Mem) (a : ℕ) → stosb d c n m a ≡ (if within d n a then c % 256 else m a)
unfolding stosb
stosb-fills d c zero m a = ground arith
stosb-fills d c (suc n) m a = stosb-fills (d + 1) c n (store m d (c % 256)) a ∙ ground arith

stosl-fills :
    (d b n : ℕ) (m : Mem) (a : ℕ)
    → b < 256
    → stosl d (b * 16777216 + b * 65536 + b * 256 + b) n m a
      ≡ (if within d (4 * n) a then b else m a)
unfolding stosl
stosl-fills d b zero m a small = ground arith
stosl-fills d b (suc n) m a small =
    let w = b * 16777216 + b * 65536 + b * 256 + b in
    let b0 : w % 256 ≡ b = omega arith in
    let b1 : w / 256 % 256 ≡ b = omega arith in
    let b2 : w / 65536 % 256 ≡ b = omega arith in
    let b3 : w / 16777216 % 256 ≡ b = omega arith in
    stosl-fills (d + 4) b n (store_word m d (b * 16777216 + b * 65536 + b * 256 + b)) a small
    ∙ rw (b0, b1, b2, b3) (ground arith)

-- `memset` sets each of the `n` bytes from `dst` on to the low byte of `c`, and no other, whether it
-- stores words or bytes.
pub memset-fills :
    (dst c n : ℕ) (m : Mem) (a : ℕ) → memset dst c n m a ≡ (if within dst n a then c % 256 else m a)
unfolding memset
memset-fills dst c n m a = elim (Bool-cases ((dst % 4 == 0) && (n % 4 == 0))) [
  | inl aligned ↦
      let whole : 4 * (n / 4) ≡ n = omega (tests, (==_iff (n % 4) 0).0 (ground arith)) in
      rw (aligned, memset) (stosl-fills dst (c % 256) (n / 4) m a (omega arith) ∙ rw (whole) refl)
  | inr odd ↦ rw (odd, memset) (stosb-fills dst c n m a)
]
