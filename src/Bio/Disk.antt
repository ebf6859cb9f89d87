-- ===== src/Bio/Disk.antt =====
-- Blocks go to the disk and come back.
use cserl_bootcamp.Common.{
  take_then, take_else, ℕ, ◌<◌, ◌≡◌, refl, ap, ◌∙◌, Bool, true, false, ◌&&◌, ◌||◌, not, none, some,
  ◌==◌, leb, if◌then◌else◌, arith,
}
use cserl_bootcamp.Bio.{Buf, Blocks, iderw, bread, bwrite}

-- A locked buffer of a block on the disk.
pub record OnDisk (disksize : ℕ) (b : Buf) : Type 0 where
  pub locked : b.locked ≡ true
  pub dev : b.dev ≡ 1
  pub inside : b.blockno < disksize

bwrite-iderw :
    (disksize : ℕ) (b : Buf) (disk : Blocks)
    → b.locked ≡ true
    → bwrite disksize b disk ≡ iderw disksize (record b { dirty = true }) disk
unfolding bwrite
bwrite-iderw disksize b disk e =
    take_else (not b.locked) none (iderw disksize (record b { dirty = true }) disk) (ap not e)

bread-iderw :
    (disksize : ℕ) (b : Buf) (disk : Blocks)
    → b.valid ≡ false
    → bread disksize b disk ≡ iderw disksize b disk
unfolding bread
bread-iderw disksize b disk e =
    take_then (not b.valid) (iderw disksize b disk) (some (b, disk)) (ap not e)

abbrev refused : (disksize : ℕ) → Buf → Bool
refused disksize b =
    not b.locked || (b.valid && not b.dirty) || not (b.dev == 1) || leb disksize b.blockno

iderw-refused :
    (disksize : ℕ) (b : Buf)
    → OnDisk disksize b
    → b.valid && not b.dirty ≡ false
    → refused disksize b ≡ false
iderw-refused disksize b on work = ground (arith, on.inside, on.locked, on.dev)

iderw-writes :
    (disksize : ℕ) (b : Buf) (disk : Blocks)
    → refused disksize b ≡ false
    → b.dirty ≡ true
    → iderw disksize b disk
      ≡ some (
        record b { dirty = false; valid = true },
        λ a. if a == b.blockno then b.bytes else disk a,
      )
unfolding iderw
iderw-writes disksize b disk fine dirty =
    let write : Buf × Blocks =
      (record b { dirty = false; valid = true }, λ a. if a == b.blockno then b.bytes else disk a) in
    let read : Buf × Blocks = (record b { bytes = disk b.blockno; valid = true }, disk) in
    take_else (refused disksize b) none (if b.dirty then some write else some read) fine
    ∙ take_then b.dirty (some write) (some read) dirty

iderw-reads :
    (disksize : ℕ) (b : Buf) (disk : Blocks)
    → refused disksize b ≡ false
    → b.dirty ≡ false
    → iderw disksize b disk ≡ some (record b { bytes = disk b.blockno; valid = true }, disk)
unfolding iderw
iderw-reads disksize b disk fine clean =
    let write : Buf × Blocks =
      (record b { dirty = false; valid = true }, λ a. if a == b.blockno then b.bytes else disk a) in
    let read : Buf × Blocks = (record b { bytes = disk b.blockno; valid = true }, disk) in
    take_else (refused disksize b) none (if b.dirty then some write else some read) fine
    ∙ take_else b.dirty (some write) (some read) clean

-- For two locked buffers of device 1, whose block numbers are below the size of the disk, the second not
-- valid and not dirty: `bwrite` of the first does not panic, and leaves it valid and clean. After it,
-- `bread` into the second gets the bytes that were written, where it has the same block number, and what
-- it would have got before, where it has another.
pub bread-bwrite :
    (disksize : ℕ) (b c : Buf) (disk : Blocks)
    → OnDisk disksize b
    → OnDisk disksize c
    → c.valid ≡ false
    → c.dirty ≡ false
    → (b' : Buf) × (disk' : Blocks) × (c' : Buf) × (bwrite disksize b disk ≡ some (b', disk'))
      × (b'.valid ≡ true)
      × (b'.dirty ≡ false)
      × (b'.bytes ≡ b.bytes)
      × (bread disksize c disk' ≡ some (c', disk'))
      × (c'.bytes ≡ (if c.blockno == b.blockno then b.bytes else disk c.blockno))
bread-bwrite disksize b c disk on on' fresh clean =
    let d : Buf = record b { dirty = true } in
    let d_on : OnDisk disksize d = record {
      locked = on.locked;
      dev = on.dev;
      inside = on.inside;
    } in
    let fine = iderw-refused disksize d d_on (ground arith) in
    let fine' = iderw-refused disksize c on' (ground arith) in
    let disk' : Blocks = λ a. if a == b.blockno then b.bytes else disk a in
    (
      record b { dirty = false; valid = true },
      disk',
      record c { bytes = disk' c.blockno; valid = true },
      bwrite-iderw disksize b disk on.locked ∙ iderw-writes disksize d disk fine refl,
      refl,
      refl,
      refl,
      bread-iderw disksize c disk' fresh ∙ iderw-reads disksize c disk' fine' clean,
      refl,
    )
