-- ===== src/Fs/Content/Read.antt =====
-- What `readi` returns for a file whose blocks are there, xv6-public/fs.c.
use mathlib.Core.Path.{subst}
use cserl_bootcamp.Common.{
  take_then, take_else, not_equal, ℕ, zero, suc, ◌+◌, ◌-◌, ◌*◌, ◌/◌, ◌%◌, ◌^◌, ◌≤◌, ◌<◌, ◌≡◌, ◌≢◌,
  refl, sym, ap, ◌∙◌, true, false, ◌||◌, some, List, [], ◌∷◌, ◌++◌, ◌==◌, ltb, ltb→lt,
  if◌then◌else◌, length, take, drop, get_or, ℤ, pos, inl, inr, Bool-cases, arith,
}
use cserl_bootcamp.Fs.Balloc.{bsize}
use cserl_bootcamp.Fs.Content.{
  Ip, Disk, ndirect, nindirect, maxfile, indirect, table_entry, direct, bmap, round_size,
  read_blocks, readi,
}
use cserl_bootcamp.Fs.Content.Assign.{slot}
use cserl_bootcamp.Fs.Content.Layout.{slot_direct}

-- The values of `f` at the `n` places from `p` on.
abbrev pub range_of : (f : ℕ → ℕ) (p n : ℕ) → List ℕ
range_of f p zero = []
range_of f p (suc n) = f p ∷ range_of f (p + 1) n

range_of-append :
    (f : ℕ → ℕ) (p m n : ℕ) → range_of f p m ++ range_of f (p + m) n ≡ range_of f p (m + n)
range_of-append f p zero n =
    let here : p + 0 ≡ p = omega arith in
    let all : n ≡ 0 + n = omega arith in ap (λ q. range_of f q n) here ∙ ap (range_of f p) all
range_of-append f p (suc m) n =
    let up : p + suc m ≡ p + 1 + m = omega arith in
    let total : suc (m + n) ≡ suc m + n = omega arith in
    ap (λ q. f p ∷ (range_of f (p + 1) m ++ range_of f q n)) up
    ∙ ap (λ l. f p ∷ l) (range_of-append f (p + 1) m n)
    ∙ ap (range_of f p) total

range_of-same :
    (f g : ℕ → ℕ) (p q n : ℕ)
    → ((i : ℕ) → i < n → f (p + i) ≡ g (q + i))
    → range_of f p n ≡ range_of g q n
range_of-same f g p q zero same = refl
range_of-same f g p q (suc n) same =
    let p0 : p ≡ p + 0 = omega arith in
    let q0 : q + 0 ≡ q = omega arith in
    let head : f p ≡ g q = ap f p0 ∙ same 0 (omega arith) ∙ ap g q0 in
    let tail : range_of f (p + 1) n ≡ range_of g (q + 1) n =
      range_of-same f g (p + 1) (q + 1) n (λ i lt.
        let ep : p + 1 + i ≡ p + (1 + i) = omega arith in
        let eq : q + (1 + i) ≡ q + 1 + i = omega arith in
        ap f ep ∙ same (1 + i) (omega arith) ∙ ap g eq) in
    ap (λ x. x ∷ range_of f (p + 1) n) head ∙ ap (λ l. g q ∷ l) tail

take-drop-range_of :
    (l : List ℕ) (o m : ℕ) → o + m ≤ length l → take m (drop o l) ≡ range_of (λ i. get_or l i 0) o m
take-drop-range_of l zero zero le = refl
take-drop-range_of [] zero (suc m) le = absurd (omega arith)
take-drop-range_of (x ∷ l) zero (suc m) le =
    ap (λ r. x ∷ r)
      (take-drop-range_of l 0 m (omega arith)
        ∙ range_of-same (λ i. get_or l i 0) (λ i. get_or (x ∷ l) i 0) 0 1 m
            (λ i lt.
              let z : 0 + i ≡ i = omega arith in
              let e : suc i ≡ 1 + i = omega arith in
              ap (λ j. get_or l j 0) z ∙ ap (λ j. get_or (x ∷ l) j 0) e))
take-drop-range_of [] (suc o) zero le = refl
take-drop-range_of [] (suc o) (suc m) le = absurd (omega arith)
take-drop-range_of (x ∷ l) (suc o) m le =
    take-drop-range_of l o m (omega arith)
    ∙ range_of-same (λ i. get_or l i 0) (λ i. get_or (x ∷ l) i 0) o (suc o) m
        (λ i lt.
          let e : suc o + i ≡ suc (o + i) = omega arith in ap (λ j. get_or (x ∷ l) j 0) (sym e))

-- A file below the largest size, without holes, in whole blocks.
pub record IsWhole (ip : Ip) (d : Disk) : Type 0 where
  pub below : ip.size ≤ maxfile * bsize
  pub there : (k : ℕ) → k * bsize < ip.size → slot ip d k ≢ 0
  pub whole : (k : ℕ) → k * bsize < ip.size → length (d.store.blocks (slot ip d k)) ≡ bsize

-- The byte at the offset `p` of the file.
abbrev pub byte_at : Ip → Disk → ℕ → ℕ
byte_at ip d p = get_or (d.store.blocks (slot ip d (p / bsize))) (p % bsize) 0

pub bmap-there :
    (bn : ℕ) (ip : Ip) (d : Disk)
    → bn < maxfile
    → slot ip d bn ≢ 0
    → bmap bn ip d ≡ some (slot ip d bn, ip, d)
unfolding bmap slot direct indirect table_entry
bmap-there bn ip d lt ne = elim (Bool-cases (ltb bn ndirect)) [
  | inl small ↦
      let at : slot ip d bn ≡ ip.addrs bn = slot_direct ip d bn (ltb→lt bn ndirect small) in
      let real : (ip.addrs bn == 0) ≡ false = not_equal (ip.addrs bn) 0 (λ z. ne (at ∙ z)) in
      rw (small, real, direct) refl
  | inr large ↦
      let inside : ltb (bn - ndirect) nindirect ≡ true = ground arith in
      let last : (bn == maxfile) ≡ false = ground arith in
      let out : ltb maxfile bn ≡ false = ground arith in
      elim (Bool-cases (ip.addrs ndirect == 0)) [
        | inl nil ↦ absurd (ne (rw (large, last, out, nil) refl))
        | inr table ↦
            let at : slot ip d bn ≡ d.word (ip.addrs ndirect) (bn - ndirect) =
              rw (large, last, out, table) refl in
            let real : (d.word (ip.addrs ndirect) (bn - ndirect) == 0) ≡ false =
              not_equal (d.word (ip.addrs ndirect) (bn - ndirect)) 0 (λ z. ne (at ∙ z)) in
            rw (large, inside, last, out, table, real, table_entry, indirect) refl
      ]
]

read_round :
    (fuel off left b : ℕ) (rest : List ℕ) (ip : Ip) (d : Disk)
    → ltb 0 left ≡ true
    → bmap (off / bsize) ip d ≡ some (b, ip, d)
    → read_blocks fuel (off + round_size off left) (left - round_size off left) ip d
      ≡ some (rest, ip, d)
    → read_blocks (suc fuel) off left ip d
      ≡ some (take (round_size off left) (drop (off % bsize) (d.store.blocks b)) ++ rest, ip, d)
unfolding read_blocks
read_round fuel off left b rest ip d more found run = rw (more, found, run, read_blocks) refl

pub Round-bounds :
    (off left : ℕ)
    → 1 ≤ left
    → (1 ≤ round_size off left)
      × (off % bsize + round_size off left ≤ bsize)
      × (round_size off left ≤ left)
Round-bounds off left le = elim (Bool-cases (ltb left (bsize - off % bsize))) [
  | inl short ↦
      let lt = ltb→lt left (bsize - off % bsize) short in rw short (le, omega arith, omega arith)
  | inr long ↦
      let ge : bsize - off % bsize ≤ left = ground arith in
      let inside : off % bsize < bsize = omega arith in rw long (omega arith, omega arith, ge)
]

read_blocks-range :
    (fuel off left : ℕ) (ip : Ip) (d : Disk)
    → IsWhole ip d
    → off + left ≤ ip.size
    → left ≤ fuel
    → read_blocks fuel off left ip d ≡ some (range_of (byte_at ip d) off left, ip, d)
unfolding read_blocks
read_blocks-range zero off zero ip d whole le enough = refl
read_blocks-range (suc fuel) off zero ip d whole le enough = refl
read_blocks-range zero off (suc left) ip d whole le enough = absurd (omega arith)
read_blocks-range (suc fuel) off (suc left) ip d whole le enough =
    let m = round_size off (suc left) in
    let k = off / bsize in
    let (one, fits, few) = Round-bounds off (suc left) (omega arith) in
    let start : k * bsize < ip.size = omega arith in
    let below : ip.size ≤ maxfile * bsize = whole.below in
    let place : k < maxfile = omega arith in
    let rest : read_blocks fuel (off + m) (suc left - m) ip d
        ≡ some (range_of (byte_at ip d) (off + m) (suc left - m), ip, d) =
      read_blocks-range fuel (off + m) (suc left - m) ip d whole (omega arith) (omega arith) in
    let bytes : take m (drop (off % bsize) (d.store.blocks (slot ip d k)))
        ≡ range_of (byte_at ip d) off m =
      take-drop-range_of (d.store.blocks (slot ip d k)) (off % bsize) m
        (subst (λ n. off % bsize + m ≤ n) (sym (whole.whole k start)) fits)
      ∙ range_of-same (λ i. get_or (d.store.blocks (slot ip d k)) i 0) (byte_at ip d) (off % bsize)
          off m
          (λ i lt.
            let e : (off + i) / bsize ≡ k = omega arith in
            let at : (off + i) % bsize ≡ off % bsize + i = omega arith in
            sym (
              ap (λ q. get_or (d.store.blocks (slot ip d q)) ((off + i) % bsize) 0) e
              ∙ ap (λ j. get_or (d.store.blocks (slot ip d k)) j 0) at)) in
    let total : m + (suc left - m) ≡ suc left = omega arith in
    let more : ltb 0 (suc left) ≡ true = ground arith in
    read_round fuel off (suc left) (slot ip d k) _ ip d more
      (bmap-there k ip d place (whole.there k start)) rest
    ∙ ap (λ l. some (l ++ range_of (byte_at ip d) (off + m) (suc left - m), ip, d)) bytes
    ∙ ap (λ l. some (l, ip, d)) (range_of-append (byte_at ip d) off m (suc left - m))
    ∙ ap (λ n. some (range_of (byte_at ip d) off n, ip, d)) total

out_of_range : (off n size : ℕ) → off ≤ size → (ltb size off || ltb (off + n) off) ≡ false
out_of_range off n size le = ground arith

module _ (device_read : (n : ℕ) → Ip → Disk → ℤ × List ℕ × Disk) where
  -- `readi` on a file that is not a device, has no holes and is in whole blocks: from an offset in the file,
  -- where the range does not wrap around, it returns the bytes of the file from there on, as many as are
  -- asked for or as there are up to the size, with their number; the inode and the disk are as they were.
  pub readi-range :
      (off n : ℕ) (ip : Ip) (d : Disk)
      → ip.device ≡ false
      → IsWhole ip d
      → off ≤ ip.size
      → off + n < 2 ^ 32
      → readi device_read off n ip d ≡ (
          let m = if ltb ip.size (off + n) then ip.size - off else n in
          some (pos m, range_of (byte_at ip d) off m, ip, d))
  unfolding readi
  readi-range off n ip d regular whole inside no_wrap =
      let sum : (off + n) % 2 ^ 32 ≡ off + n = omega arith in
      let in_range : (ltb ip.size off || ltb ((off + n) % 2 ^ 32) off) ≡ false =
        ap (λ e. ltb ip.size off || ltb e off) sum ∙ out_of_range off n ip.size inside in
      take_else ip.device _ _ regular ∙ elim (Bool-cases (ltb ip.size (off + n))) [
        | inl long ↦
            let long_wrap : ltb ip.size ((off + n) % 2 ^ 32) ≡ true = ap (ltb ip.size) sum ∙ long in
            rw
              (
                in_range,
                long_wrap,
                long,
                read_blocks-range (ip.size - off) off (ip.size - off) ip d whole (omega arith)
                    (omega arith),
              )
              (ap (λ q. some (pos q, range_of (byte_at ip d) off (ip.size - off), ip, d))
                (take_then (ltb ip.size ((off + n) % 2 ^ 32)) (ip.size - off) n long_wrap))
        | inr short ↦
            let le : off + n ≤ ip.size = ground arith in
            let short_wrap : ltb ip.size ((off + n) % 2 ^ 32) ≡ false =
              ap (ltb ip.size) sum ∙ short in
            rw (in_range, short_wrap, short, read_blocks-range n off n ip d whole le (omega arith))
              (ap (λ q. some (pos q, range_of (byte_at ip d) off n, ip, d))
                (take_else (ltb ip.size ((off + n) % 2 ^ 32)) (ip.size - off) n short_wrap))
      ]
