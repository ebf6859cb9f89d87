-- ===== src/Str.antt =====
-- xv6-public/string.c. Memory is a function from addresses to bytes; no string or buffer wraps around
-- the end of the address space.
pub mod Move
pub mod Copy
mod Examples
use cserl_bootcamp.Common.{
  ℕ, zero, suc, ◌+◌, ◌-◌, ◌*◌, ◌/◌, ◌%◌, ◌^◌, Bool, ◌&&◌, ◌||◌, not, Option, none, some, ◌==◌, ltb,
  leb, if◌then◌else◌, ℤ, pos, ◌⊖◌,
}

abbrev pub Mem : Type 0
Mem = ℕ → ℕ

abbrev pub store : Mem → ℕ → ℕ → Mem
store m a b x = if x == a then b else m x

-- `stosb` and `stosl` of x86.h: bytes, and words with their low byte first.
unfoldable pub stosb : (dst c n : ℕ) → Mem → Mem
stosb dst c zero m = m
stosb dst c (suc n) m = stosb (dst + 1) c n (store m dst (c % 256))

abbrev pub store_word : Mem → ℕ → ℕ → Mem
store_word m a w =
    store (store (store (store m a (w % 256)) (a + 1) (w / 256 % 256)) (a + 2) (w / 65536 % 256))
      (a + 3) (w / 16777216 % 256)

unfoldable pub stosl : (dst w n : ℕ) → Mem → Mem
stosl dst w zero m = m
stosl dst w (suc n) m = stosl (dst + 4) w n (store_word m dst w)

-- The four bytes of the word do not overlap, so that `|` is a sum.
unfoldable pub memset : (dst c n : ℕ) → Mem → Mem
unfolding stosb stosl
memset dst c n m =
    if (dst % 4 == 0) && (n % 4 == 0)
    then (let b = c % 256 in stosl dst (b * 16777216 + b * 65536 + b * 256 + b) (n / 4) m)
    else stosb dst c n m

unfoldable pub memcmp : (v1 v2 n : ℕ) → Mem → ℤ
memcmp v1 v2 zero m = pos 0
memcmp v1 v2 (suc n) m =
    let rest = memcmp (v1 + 1) (v2 + 1) n m in if not (m v1 == m v2) then m v1 ⊖ m v2 else rest

-- The two loops of `memmove`, from the lowest byte and from the highest.
unfoldable pub copy_up : (d s n : ℕ) → Mem → Mem
copy_up d s zero m = m
copy_up d s (suc n) m = copy_up (d + 1) (s + 1) n (store m d (m s))

unfoldable pub copy_down : (d s n : ℕ) → Mem → Mem
copy_down d s zero m = m
copy_down d s (suc n) m = copy_down d s n (store m (d + n) (m (s + n)))

unfoldable pub memmove : (dst src n : ℕ) → Mem → Mem
unfolding copy_up copy_down
memmove dst src n m =
    if ltb src dst && ltb dst (src + n) then copy_down dst src n m else copy_up dst src n m

unfoldable pub strncmp : (p q n : ℕ) → Mem → ℤ
strncmp p q zero m = pos 0
strncmp p q (suc n) m =
    let rest = strncmp (p + 1) (q + 1) n m in
    if (m p == 0) || not (m p == m q) then m p ⊖ m q else rest

-- The second loop of `strncpy`, and both; `n` is not negative.
unfoldable pub fill_zero : (s n : ℕ) → Mem → Mem
fill_zero s zero m = m
fill_zero s (suc n) m = fill_zero (s + 1) n (store m s 0)

unfoldable pub strncpy : (s t n : ℕ) → Mem → Mem
unfolding fill_zero
strncpy s t zero m = m
strncpy s t (suc n) m =
    let m' = store m s (m t) in
    let rest = strncpy (s + 1) (t + 1) n m' in if m t == 0 then fill_zero (s + 1) n m' else rest

-- The loop of `safestrcpy` with `n` bytes to go, and where it leaves `s`.
unfoldable pub safe_loop : (s t n : ℕ) → Mem → ℕ × Mem
safe_loop s t zero m = (s, m)
safe_loop s t (suc n) m =
    let m' = store m s (m t) in
    let rest = safe_loop (s + 1) (t + 1) n m' in if m t == 0 then (s + 1, m') else rest

unfoldable pub safestrcpy : (s t n : ℕ) → Mem → Mem
unfolding safe_loop
safestrcpy s t zero m = m
safestrcpy s t (suc n) m = let (s', m') = safe_loop s t n m in store m' s' 0

-- `strlen`, where a NUL comes within `fuel` bytes.
unfoldable pub strlen : (fuel s : ℕ) → Mem → Option ℕ
strlen zero s m = none
strlen (suc fuel) s m =
    let rest = strlen fuel (s + 1) m in
    if m s == 0 then some 0 else elim rest [ none ↦ none | some k ↦ some (suc k) ]
