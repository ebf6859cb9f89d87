-- ===== src/Bio.antt =====
-- xv6-public/bio.c, the buffer cache, over the memory disk of memide.c. The ring of buffers is a list, most
-- recently used first, and a `struct buf *` the place of the buffer in it. `acquiresleep` at the end
-- of `bget`, and `releasesleep` in `brelse`, are those of Lock.
pub mod Cached
pub mod Get
pub mod Held
pub mod Disk
mod Examples
use cserl_bootcamp.Common.{
  ℕ, zero, suc, ◌+◌, ◌-◌, ◌%◌, ◌^◌, Bool, true, false, ◌&&◌, ◌||◌, not, Option, none, some, List,
  [], ◌∷◌, ◌==◌, ltb, leb, if◌then◌else◌, get_elem?, modify, find_index, replicate,
}

-- `struct buf`: the two bits of `flags`, and whether the calling process holds its lock.
pub record Buf : Type 0 where
  pub valid : Bool
  pub dirty : Bool
  pub dev : ℕ
  pub blockno : ℕ
  pub refcnt : ℕ
  pub locked : Bool
  pub bytes : List ℕ

abbrev pub nbuf : ℕ
nbuf = 30

abbrev pub blank_buf : Buf
blank_buf = record {
  valid = false;
  dirty = false;
  dev = 0;
  blockno = 0;
  refcnt = 0;
  locked = false;
  bytes = [];
}

abbrev pub binit : List Buf
binit = replicate nbuf blank_buf

abbrev pub is_block : (dev blockno : ℕ) → Buf → Bool
is_block dev blockno b = (b.dev == dev) && (b.blockno == blockno)

abbrev pub is_idle : Buf → Bool
is_idle b = (b.refcnt == 0) && not b.dirty

-- The first place from the end at which a test holds.
unfoldable pub find_last : (Buf → Bool) → List Buf → Option ℕ
find_last p [] = none
find_last p (b ∷ bs) = elim (find_last p bs) [
  | some i ↦ some (suc i)
  | none ↦ if p b then some 0 else none
]

abbrev pub hold : Buf → Buf
hold b = record b { refcnt = b.refcnt + 1 }

abbrev pub recycle : (dev blockno : ℕ) → Buf → Buf
recycle dev blockno b = record b {
  dev = dev;
  blockno = blockno;
  valid = false;
  dirty = false;
  refcnt = 1;
}

-- `bget` up to `acquiresleep`; `none` is the panic.
unfoldable pub bget : (dev blockno : ℕ) → List Buf → Option (ℕ × List Buf)
unfolding find_last
bget dev blockno c = elim (find_index (is_block dev blockno) c) [
  | some i ↦ some (i, modify c i hold)
  | none ↦ elim (find_last is_idle c) [
    | none ↦ none
    | some i ↦ some (i, modify c i (recycle dev blockno))
  ]
]

abbrev pub remove : List Buf → ℕ → List Buf
remove [] i = []
remove (b ∷ bs) zero = bs
remove (b ∷ bs) (suc i) = b ∷ remove bs i

-- `refcnt--`
abbrev pub dec : ℕ → ℕ
dec n = (n + 2 ^ 32 - 1) % 2 ^ 32

-- `brelse` of the buffer at `i`; `none` is the panic.
unfoldable pub brelse : ℕ → List Buf → Option (List Buf)
brelse i c = elim (get_elem? c i) [
  | none ↦ none
  | some b ↦
      let b' : Buf = record b { locked = false; refcnt = dec b.refcnt } in
      if not b.locked
      then none
      else if dec b.refcnt == 0
      then some (b' ∷ remove c i)
      else some (modify c i (λ b. record b { locked = false; refcnt = dec b.refcnt }))
]

abbrev pub Blocks : Type 0
Blocks = ℕ → List ℕ

-- `iderw` of memide.c on a disk of `disksize` blocks; `none` is a panic.
unfoldable pub iderw : (disksize : ℕ) → Buf → Blocks → Option (Buf × Blocks)
iderw disksize b disk =
    if not b.locked || (b.valid && not b.dirty) || not (b.dev == 1) || leb disksize b.blockno
    then none
    else if b.dirty
    then some
        (record b { dirty = false; valid = true }, λ a. if a == b.blockno then b.bytes else disk a)
    else some (record b { bytes = disk b.blockno; valid = true }, disk)

-- `bread` after `bget`, and `bwrite`.
unfoldable pub bread : (disksize : ℕ) → Buf → Blocks → Option (Buf × Blocks)
unfolding iderw
bread disksize b disk = if not b.valid then iderw disksize b disk else some (b, disk)

unfoldable pub bwrite : (disksize : ℕ) → Buf → Blocks → Option (Buf × Blocks)
unfolding iderw
bwrite disksize b disk =
    if not b.locked then none else iderw disksize (record b { dirty = true }) disk
