-- ===== src/Fs/Content/RoundTrip.antt =====
-- `writei` and `readi` on a part of a file whose blocks are there, xv6-public/fs.c.
use cserl_bootcamp.Common.{
  take_then, take_else, ℕ, suc, ◌+◌, ◌-◌, ◌*◌, ◌%◌, ◌^◌, ◌≤◌, ◌<◌, ◌≡◌, refl, sym, ap, ◌∙◌, true,
  false, ◌&&◌, ◌||◌, some, List, [], ◌∷◌, ltb, leb, length, get_or, ℤ, pos, inl, inr, ◌⊎◌, arith,
}
use cserl_bootcamp.Fs.Balloc.{bsize}
use cserl_bootcamp.Fs.Content.{Ip, Disk, maxfile, write_blocks, readi, writei}
use cserl_bootcamp.Fs.Content.Slots.{IsDistinct}
use cserl_bootcamp.Fs.Content.Assign.{slot}
use cserl_bootcamp.Fs.Content.Read.{IsWhole, byte_at, range_of, readi-range}
use cserl_bootcamp.Fs.Content.Write.{Overwritten, write_blocks-Writes}

range_of-list :
    (f : ℕ → ℕ) (p : ℕ) (l : List ℕ)
    → ((i : ℕ) → i < length l → f (p + i) ≡ get_or l i 0)
    → range_of f p (length l) ≡ l
range_of-list f p [] same = refl
range_of-list f p (x ∷ l) same =
    let here : p ≡ p + 0 = omega arith in
    ap (λ y. y ∷ range_of f (p + 1) (length l)) (ap f here ∙ same 0 (omega arith))
    ∙ ap (λ r. x ∷ r)
        (range_of-list f (p + 1) l (λ i lt.
          let next : p + 1 + i ≡ p + suc i = omega arith in ap f next ∙ same (suc i) (omega arith)))

-- A file stays whole when it is written over.
Overwritten-IsWhole :
    (off : ℕ) (src : List ℕ) (ip : Ip) (d d' : Disk)
    → IsWhole ip d
    → Overwritten off src ip d d'
    → IsWhole ip d'
Overwritten-IsWhole off src ip d d' whole w = record {
  below = whole.below;
  there = λ k lt e. whole.there k lt (sym (w.slots k) ∙ e);
  whole = λ k lt. ap (λ b. length (d'.store.blocks b)) (w.slots k) ∙ w.sizes k ∙ whole.whole k lt;
}

not_inside :
    (off p : ℕ) (src : List ℕ)
    → (p < off) ⊎ (off + length src ≤ p)
    → (leb off p && ltb p (off + length src)) ≡ false
not_inside off p src (inl lt) = ground arith
not_inside off p src (inr ge) = ground arith

module _ (device_read : (n : ℕ) → Ip → Disk → ℤ × List ℕ × Disk)
    (device_write : List ℕ → Ip → Disk → ℤ × Disk) (update : Ip → Disk → Disk) where
  writei_over :
      (off : ℕ) (src : List ℕ) (ip : Ip) (d d' : Disk)
      → ip.device ≡ false
      → ip.size ≤ maxfile * bsize
      → off + length src ≤ ip.size
      → write_blocks (length src) off src ip d ≡ some (ip, d')
      → writei device_write update off src ip d ≡ some (pos (length src), ip, d')
  unfolding writei
  writei_over off src ip d d' regular below inside run =
      let sum : (off + length src) % 2 ^ 32 ≡ off + length src = omega arith in
      let in_range : (ltb ip.size off || ltb ((off + length src) % 2 ^ 32) off) ≡ false =
        ground arith in
      let small : ltb (maxfile * bsize) ((off + length src) % 2 ^ 32) ≡ false = ground arith in
      let kept : (ltb 0 (length src) && ltb ip.size (off + length src)) ≡ false = ground arith in
      take_else ip.device _ _ regular ∙ rw (in_range, small, run, kept) refl

  -- `writei` on a range of a file that is inside its size, on a file without holes whose blocks are
  -- distinct: it returns the number of bytes, keeps the inode and the bitmap, and `readi` of the range
  -- then returns those bytes and changes nothing, while each other byte of the file is as it was.
  pub readi-writei :
      (off : ℕ) (src : List ℕ) (ip : Ip) (d : Disk)
      → ip.device ≡ false
      → IsDistinct (slot ip d) d.store.bits
      → IsWhole ip d
      → off + length src ≤ ip.size
      → (d' : Disk) × (writei device_write update off src ip d ≡ some (pos (length src), ip, d'))
        × (readi device_read off (length src) ip d' ≡ some (pos (length src), src, ip, d'))
        × ((p : ℕ)
            → p < ip.size
            → (p < off) ⊎ (off + length src ≤ p)
            → byte_at ip d' p ≡ byte_at ip d p)
        × (d'.store.bits ≡ d.store.bits)
  readi-writei off src ip d regular distinct whole inside =
      let below : ip.size ≤ maxfile * bsize = whole.below in
      let (d', run, w) =
        write_blocks-Writes (length src) off src ip d distinct whole inside (omega arith) in
      let short : ltb ip.size (off + length src) ≡ false = ground arith in
      let got : range_of (byte_at ip d') off (length src) ≡ src =
        range_of-list (byte_at ip d') off src (λ i lt.
          let into : (leb off (off + i) && ltb (off + i) (off + length src)) ≡ true =
            ground arith in
          let place : off + i - off ≡ i = omega arith in
          w.bytes (off + i) (omega arith)
          ∙ take_then (leb off (off + i) && ltb (off + i) (off + length src)) _ _ into
          ∙ ap (λ j. get_or src j 0) place) in
      (
        d',
        writei_over off src ip d d' regular whole.below inside run,
        readi-range device_read off (length src) ip d' regular
              (Overwritten-IsWhole off src ip d d' whole w) (omega arith) (omega arith)
            ∙ ap (λ m. some (pos m, range_of (byte_at ip d') off m, ip, d'))
                (take_else (ltb ip.size (off + length src)) (ip.size - off) (length src) short)
            ∙ ap (λ l. some (pos (length src), l, ip, d')) got,
        λ p lt outside.
            w.bytes p lt
            ∙ take_else (leb off p && ltb p (off + length src)) _ _ (not_inside off p src outside),
        w.bits,
      )
