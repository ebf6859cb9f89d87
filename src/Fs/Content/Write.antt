-- ===== src/Fs/Content/Write.antt =====
-- What the loop of `writei` writes over a part of a file whose blocks are there, xv6-public/fs.c.
use mathlib.Core.Path.{subst}
use cserl_bootcamp.Common.{
  take_then, take_else, not_equal, get_or-drop, ℕ, zero, suc, ◌+◌, ◌-◌, ◌*◌, ◌/◌, ◌%◌, ◌≤◌, ◌<◌,
  ◌≡◌, ◌≢◌, refl, sym, ap, ◌∙◌, true, false, ◌&&◌, some, List, [], ◌∷◌, ◌==◌, ==_iff, ltb, leb,
  ltb→lt, if◌then◌else◌, length, take, drop, get_or, length-take, length-drop, inl, inr, Bool-cases,
  arith,
}
use cserl_bootcamp.Fs.Balloc.{bsize}
use cserl_bootcamp.Fs.Content.{
  Ip, Disk, maxfile, bmap, round_size, overwrite, write_block, write_blocks,
}
use cserl_bootcamp.Fs.Content.Slots.{IsDistinct}
use cserl_bootcamp.Fs.Content.Assign.{slot}
use cserl_bootcamp.Fs.Content.Read.{IsWhole, byte_at, bmap-there, Round-bounds}
use cserl_bootcamp.Fs.Content.Overwrite.{length-overwrite, get_or-overwrite, get_or-take}

-- The bytes of the file are those of `src` from `off` on, and the old ones elsewhere.
abbrev pub patched : (off : ℕ) → List ℕ → (ℕ → ℕ) → ℕ → ℕ
patched off src f p = if leb off p && ltb p (off + length src) then get_or src (p - off) 0 else f p

-- The slot of each block is as it was, the file is whole, and its bytes are those written or the old ones.
pub record Overwritten (off : ℕ) (src : List ℕ) (ip : Ip) (d d' : Disk) : Type 0 where
  pub bits : d'.store.bits ≡ d.store.bits
  pub slots : (k : ℕ) → slot ip d' k ≡ slot ip d k
  pub sizes :
      (k : ℕ) → length (d'.store.blocks (slot ip d k)) ≡ length (d.store.blocks (slot ip d k))
  pub bytes : (p : ℕ) → p < ip.size → byte_at ip d' p ≡ patched off src (byte_at ip d) p

patched-take-drop :
    (off m : ℕ) (src : List ℕ) (f g : ℕ → ℕ) (p : ℕ)
    → m ≤ length src
    → g p ≡ patched off (take m src) f p
    → patched (off + m) (drop m src) g p ≡ patched off src f p
patched-take-drop off m src f g p le now =
    let drop_len : length (drop m src) ≡ length src - m = length-drop m src in
    let take_len : length (take m src) ≡ m = omega (arith, length-take m src) in
    elim (Bool-cases (leb (off + m) p)) [
      | inl later ↦ elim (Bool-cases (ltb p (off + length src))) [
        | inl below ↦
            let lt = ltb→lt p (off + length src) below in
            let past : (leb (off + m) p && ltb p (off + m + length (drop m src))) ≡ true =
              ground arith in
            let whole : (leb off p && ltb p (off + length src)) ≡ true = ground arith in
            let place : m + (p - (off + m)) ≡ p - off = ground arith in
            take_then (leb (off + m) p && ltb p (off + m + length (drop m src))) _ _ past
            ∙ get_or-drop src m (p - (off + m)) 0
            ∙ ap (λ i. get_or src i 0) place
            ∙ sym (take_then (leb off p && ltb p (off + length src)) _ _ whole)
        | inr above ↦
            let past : (leb (off + m) p && ltb p (off + m + length (drop m src))) ≡ false =
              ground arith in
            let first : (leb off p && ltb p (off + length (take m src))) ≡ false = ground arith in
            let whole : (leb off p && ltb p (off + length src)) ≡ false = ground arith in
            take_else (leb (off + m) p && ltb p (off + m + length (drop m src))) _ _ past
            ∙ now
            ∙ take_else (leb off p && ltb p (off + length (take m src))) _ _ first
            ∙ sym (take_else (leb off p && ltb p (off + length src)) _ _ whole)
      ]
      | inr sooner ↦
          let past : (leb (off + m) p && ltb p (off + m + length (drop m src))) ≡ false =
            ground arith in
          let same : (leb off p && ltb p (off + length (take m src)))
              ≡ (leb off p && ltb p (off + length src)) =
            ground arith in
          take_else (leb (off + m) p && ltb p (off + m + length (drop m src))) _ _ past
          ∙ now
          ∙ ap (λ t. if t then get_or (take m src) (p - off) 0 else f p) same
          ∙ elim (Bool-cases (leb off p && ltb p (off + length src))) [
            | inl into ↦
                let few : p - off < m = ground arith in rw into (get_or-take src m (p - off) few)
            | inr out ↦ rw out refl
          ]
    ]

module _ (ip : Ip) (d : Disk) (distinct : IsDistinct (slot ip d) d.store.bits)
    (whole : IsWhole ip d) (off : ℕ) (s : List ℕ) (fits : off % bsize + length s ≤ bsize)
    (inside : off + length s ≤ ip.size) (start : off < ip.size) where
  abbrev next : Disk
  next = write_block (slot ip d (off / bsize)) (off % bsize) s d

  abbrev old : (k p : ℕ) → ℕ
  old k p = get_or (d.store.blocks (slot ip d k)) (p % bsize) 0

  start_block : off / bsize * bsize < ip.size
  start_block = omega arith

  old_fits : off % bsize + length s ≤ length (d.store.blocks (slot ip d (off / bsize)))
  old_fits =
      subst (λ n. off % bsize + length s ≤ n) (sym (whole.whole (off / bsize) start_block)) fits

  next-slot : (k : ℕ) → slot ip next k ≡ slot ip d k
  unfolding slot
  next-slot k = refl

  next_same :
      (k : ℕ)
      → k ≡ off / bsize
      → next.store.blocks (slot ip d k)
        ≡ overwrite (off % bsize) s (d.store.blocks (slot ip d (off / bsize)))
  next_same k e =
      take_then (slot ip d k == slot ip d (off / bsize)) _ _
        ((==_iff (slot ip d k) (slot ip d (off / bsize))).1 (ap (slot ip d) e))

  next_other :
      (k : ℕ)
      → k ≢ off / bsize
      → slot ip d k ≢ 0
      → next.store.blocks (slot ip d k) ≡ d.store.blocks (slot ip d k)
  next_other k ne real = take_else (slot ip d k == slot ip d (off / bsize)) _ _ (
      not_equal (slot ip d k) (slot ip d (off / bsize))
        (λ e. ne (distinct.apart k (off / bsize) real e)))

  next_sizes : (q : ℕ) → length (next.store.blocks q) ≡ length (d.store.blocks q)
  next_sizes q = elim (Bool-cases (q == slot ip d (off / bsize))) [
    | inl here ↦
        let e : q ≡ slot ip d (off / bsize) = (==_iff q (slot ip d (off / bsize))).0 here in
        ap length (take_then (q == slot ip d (off / bsize)) _ _ here)
        ∙ length-overwrite (off % bsize) s (d.store.blocks (slot ip d (off / bsize))) old_fits
        ∙ ap (λ b. length (d.store.blocks b)) (sym e)
    | inr there ↦ ap length (take_else (q == slot ip d (off / bsize)) _ _ there)
  ]

  next_bytes : (p : ℕ) → p < ip.size → byte_at ip next p ≡ patched off s (byte_at ip d) p
  next_bytes p lt = elim (Bool-cases (p / bsize == off / bsize)) [
    | inl here ↦
        let e : p / bsize ≡ off / bsize = (==_iff (p / bsize) (off / bsize)).0 here in
        let place : p - off ≡ p % bsize - off % bsize = omega arith in
        let test : (leb off p && ltb p (off + length s))
            ≡ (leb (off % bsize) (p % bsize) && ltb (p % bsize) (off % bsize + length s)) =
          ground arith in
        ap (λ k. get_or (next.store.blocks k) (p % bsize) 0) (next-slot (p / bsize))
        ∙ ap (λ l. get_or l (p % bsize) 0) (next_same (p / bsize) e)
        ∙ get_or-overwrite (off % bsize) s (d.store.blocks (slot ip d (off / bsize))) old_fits
            (p % bsize)
        ∙ ap (λ t. if t then get_or s (p % bsize - off % bsize) 0 else old (off / bsize) p)
            (sym test)
        ∙ ap
            (λ i. if leb off p && ltb p (off + length s) then get_or s i 0 else old (off / bsize) p)
            (sym place)
        ∙ ap (λ k. if leb off p && ltb p (off + length s) then get_or s (p - off) 0 else old k p)
            (sym e)
    | inr there ↦
        let ne : p / bsize ≢ off / bsize = ground arith in
        let real : slot ip d (p / bsize) ≢ 0 = whole.there (p / bsize) (omega arith) in
        let out : (leb off p && ltb p (off + length s)) ≡ false = ground arith in
        ap (λ k. get_or (next.store.blocks k) (p % bsize) 0) (next-slot (p / bsize))
        ∙ ap (λ l. get_or l (p % bsize) 0) (next_other (p / bsize) ne real)
        ∙ sym (take_else (leb off p && ltb p (off + length s)) _ _ out)
  ]

write_round :
    (fuel off b : ℕ) (src : List ℕ) (ip : Ip) (d : Disk)
    → ltb 0 (length src) ≡ true
    → bmap (off / bsize) ip d ≡ some (b, ip, d)
    → write_blocks (suc fuel) off src ip d
      ≡ write_blocks fuel
          (off + round_size off (length src))
          (drop (round_size off (length src)) src)
          ip
          (write_block b (off % bsize) (take (round_size off (length src)) src) d)
unfolding write_blocks
write_round fuel off b src ip d more found = rw (more, found, write_blocks) refl

-- The loop of `writei` ends, without a panic, in the inode it has, and in a disk that has the bytes.
abbrev Writes : (fuel off : ℕ) → List ℕ → Ip → Disk → Type 0
Writes fuel off src ip d =
    (d' : Disk) × (write_blocks fuel off src ip d ≡ some (ip, d')) × Overwritten off src ip d d'

nothing-Overwritten : (off : ℕ) (ip : Ip) (d : Disk) → Overwritten off [] ip d d
nothing-Overwritten off ip d = record {
  bits = refl;
  slots = λ k. refl;
  sizes = λ k. refl;
  bytes = λ p lt.
      let out : (leb off p && ltb p (off + 0)) ≡ false = ground arith in
      sym (take_else (leb off p && ltb p (off + 0)) _ _ out);
}

pub write_blocks-Writes :
    (fuel off : ℕ) (src : List ℕ) (ip : Ip) (d : Disk)
    → IsDistinct (slot ip d) d.store.bits
    → IsWhole ip d
    → off + length src ≤ ip.size
    → length src ≤ fuel
    → Writes fuel off src ip d
unfolding write_blocks slot
write_blocks-Writes zero off [] ip d distinct whole le enough =
    (d, refl, nothing-Overwritten off ip d)
write_blocks-Writes (suc fuel) off [] ip d distinct whole le enough =
    (d, refl, nothing-Overwritten off ip d)
write_blocks-Writes zero off (x ∷ xs) ip d distinct whole le enough = absurd (omega arith)
write_blocks-Writes (suc fuel) off (x ∷ xs) ip d distinct whole le enough =
    let src = x ∷ xs in
    let m = round_size off (length src) in
    let k = off / bsize in
    let (one, fits, few) = Round-bounds off (length src) (omega arith) in
    let len : length (take m src) ≡ m = omega (arith, length-take m src) in
    let left : length (drop m src) ≡ length src - m = length-drop m src in
    let fits' : off % bsize + length (take m src) ≤ bsize = omega arith in
    let inside : off + length (take m src) ≤ ip.size = omega arith in
    let start : off < ip.size = omega arith in
    let block : k * bsize < ip.size = omega arith in
    let below : ip.size ≤ maxfile * bsize = whole.below in
    let place : k < maxfile = omega arith in
    let more : ltb 0 (length src) ≡ true = ground arith in
    let d1 = next ip d distinct whole off (take m src) fits' inside start in
    let sizes = next_sizes ip d distinct whole off (take m src) fits' inside start in
    let bytes = next_bytes ip d distinct whole off (take m src) fits' inside start in
    let whole1 : IsWhole ip d1 = record {
      below = whole.below;
      there = whole.there;
      whole = λ i lt. sizes (slot ip d i) ∙ whole.whole i lt;
    } in
    let (d', run, w) =
      write_blocks-Writes fuel (off + m) (drop m src) ip d1 distinct whole1 (omega arith)
        (omega arith) in
    (
      d',
      write_round fuel off (slot ip d k) src ip d more
            (bmap-there k ip d place (whole.there k block))
          ∙ run,
      record {
        bits = w.bits;
        slots = w.slots;
        sizes = λ i. w.sizes i ∙ sizes (slot ip d i);
        bytes = λ p lt.
            w.bytes p lt
            ∙ patched-take-drop off m src (byte_at ip d) (byte_at ip d1) p few (bytes p lt);
      },
    )
