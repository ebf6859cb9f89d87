-- ===== src/Pipe/Ring.antt =====
-- The bytes in the ring of a pipe, and its invariant.
use cserl_bootcamp.Common.{
  ℕ, zero, suc, ◌+◌, ◌-◌, ◌%◌, ◌^◌, ◌≤◌, ◌<◌, ◌≡◌, ◌↔◌, refl, ap, ◌∙◌, true, false, List, [], ◌∷◌,
  ◌++◌, length, get_or, set, length-set, get_or-set_self, get_or-set_ne, arith,
}
use mathlib.Core.Path.{ap₂}
use cserl_bootcamp.Pipe.{Pipe, pipesize, is_full, is_empty, put, head, advance}

-- The `n` bytes from position `i` of the ring on.
abbrev pub window : List ℕ → ℕ → ℕ → List ℕ
window buf i zero = []
window buf i (suc n) = get_or buf (i % pipesize) 0 ∷ window buf (i + 1) n

-- The number of bytes in a pipe: the distance of its counters, which wrap.
abbrev pub count : Pipe → ℕ
count p = (p.nwrite + 2 ^ 32 - p.nread) % 2 ^ 32

-- The bytes in a pipe, oldest first.
abbrev pub contents : Pipe → List ℕ
contents p = window p.buf p.nread (count p)

pub record IsValid (p : Pipe) : Type 0 where
  pub storage : length p.buf ≡ pipesize
  pub read_small : p.nread < 2 ^ 32
  pub write_small : p.nwrite < 2 ^ 32
  pub fits : count p ≤ pipesize

pub length-window : (buf : List ℕ) (i n : ℕ) → length (window buf i n) ≡ n
length-window buf i zero = refl
length-window buf i (suc n) = ap suc (length-window buf (i + 1) n)

-- Only the position in the ring counts.
window-mod :
    (buf : List ℕ) (n i j : ℕ) → i % pipesize ≡ j % pipesize → window buf i n ≡ window buf j n
window-mod buf zero i j e = refl
window-mod buf (suc n) i j e =
    ap₂ (λ a b. get_or buf a 0 ∷ b) e (window-mod buf n (i + 1) (j + 1) (omega arith))

window-set :
    (buf : List ℕ) (c n i k : ℕ)
    → length buf ≡ pipesize
    → n < pipesize
    → k ≡ (i + n) % pipesize
    → window (set buf k c) i (suc n) ≡ window buf i n ++ (c ∷ [])
window-set buf c zero i k size h e =
    ap (λ x. x ∷ [])
      (let at : i % pipesize ≡ k = omega arith in rw at (get_or-set_self buf k c 0 (omega arith)))
window-set buf c (suc n) i k size h e =
    ap₂ (λ a b. a ∷ b) (get_or-set_ne buf c 0 (omega arith))
      (window-set buf c n (i + 1) k size (omega arith) (omega arith))

module _ {p : Pipe} (v : IsValid p) where
  -- The full test compares the counters rightly, though they wrap.
  pub full_iff : (is_full p ≡ true) ↔ (count p ≡ pipesize)
  full_iff = (ground arith, ground arith)

  pub empty_iff : (is_empty p ≡ true) ↔ (count p ≡ 0)
  empty_iff = (ground arith, ground arith)

  pub count-put : (c : ℕ) → is_full p ≡ false → count (put p c) ≡ suc (count p)
  count-put c room = ground (arith, v.fits, v.read_small, v.write_small)

  pub put-IsValid : (c : ℕ) → is_full p ≡ false → IsValid (put p c)
  put-IsValid c room = record {
    storage = length-set p.buf (p.nwrite % pipesize) c ∙ v.storage;
    read_small = v.read_small;
    write_small = omega arith;
    fits = ground (arith, v.fits, v.read_small, v.write_small);
  }

  pub contents-put : (c : ℕ) → is_full p ≡ false → contents (put p c) ≡ contents p ++ (c ∷ [])
  contents-put c room =
      ap (window (put p c).buf p.nread) (count-put c room)
      ∙ window-set p.buf c (count p) p.nread (p.nwrite % pipesize) v.storage
          (ground (arith, v.fits, v.read_small, v.write_small)) (omega arith)

  count-advance : is_empty p ≡ false → count p ≡ suc (count (advance p))
  count-advance some = ground (arith, v.fits, v.read_small, v.write_small)

  pub advance-IsValid : is_empty p ≡ false → IsValid (advance p)
  advance-IsValid some = record {
    storage = v.storage;
    read_small = omega arith;
    write_small = v.write_small;
    fits = omega (arith, count-advance some, v.fits);
  }

  pub contents-advance : is_empty p ≡ false → contents p ≡ head p ∷ contents (advance p)
  contents-advance some =
      ap (window p.buf p.nread) (count-advance some)
      ∙ ap (λ t. head p ∷ t) (window-mod p.buf _ _ _ (omega arith))
