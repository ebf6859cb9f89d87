-- ===== src/Fs/Content.antt =====
-- The contents of inodes, xv6-public/fs.c: bmap, itrunc, readi, writei. A block is read as its
-- bytes or, where it holds block numbers, as its words, never as both; the blocks and the bitmap are
-- those of Balloc. An inode is what the functions use of it. Devices are parameters.
pub mod Slots
pub mod Assign
pub mod Layout
pub mod Entry
pub mod Bmap
pub mod Read
pub mod Overwrite
pub mod Write
pub mod RoundTrip
pub mod Examples
use cserl_bootcamp.Common.{
  ℕ, zero, suc, ◌+◌, ◌-◌, ◌*◌, ◌/◌, ◌%◌, ◌^◌, Bool, true, false, ◌&&◌, ◌||◌, not, Option, none,
  some, List, [], ◌∷◌, ◌++◌, ◌==◌, ltb, leb, if◌then◌else◌, length, get_elem?, set, take, drop, ℤ,
  pos, negsuc,
}
use cserl_bootcamp.Fs.Balloc.{bsize, Store, balloc, bfree}

abbrev pub ndirect : ℕ
ndirect = 12

abbrev pub nindirect : ℕ
nindirect = 128

abbrev pub maxfile : ℕ
maxfile = ndirect + nindirect

-- `type` is a device or not, `addrs` has ndirect + 1 block numbers.
pub record Ip : Type 0 where
  pub device : Bool
  pub size : ℕ
  pub addrs : ℕ → ℕ

pub record Disk : Type 0 where
  pub store : Store
  pub word : (block index : ℕ) → ℕ

abbrev pub set_addr : (k b : ℕ) → Ip → Ip
set_addr k b ip = record ip { addrs = λ i. if i == k then b else ip.addrs i }

abbrev pub set_word : (block index b : ℕ) → Disk → Disk
set_word block index b d = record d {
  word = λ q i. if q == block && i == index then b else d.word q i;
}

-- `balloc` on the disk: the block is clear as words, too.
unfoldable pub new_block : Disk → Option (ℕ × Disk)
unfolding balloc
new_block d = elim (balloc d.store) [
  | none ↦ none
  | some (b, store) ↦
      some (b, record d { store = store; word = λ q i. if q == b then 0 else d.word q i })
]

-- The indirect block, allocated if necessary.
unfoldable pub indirect : Ip → Disk → Option (ℕ × Ip × Disk)
unfolding new_block
indirect ip d = elim (ip.addrs ndirect == 0) [
  | false ↦ some (ip.addrs ndirect, ip, d)
  | true ↦ elim (new_block d) [ none ↦ none | some (b, d) ↦ some (b, set_addr ndirect b ip, d) ]
]

-- The entry `i` of the indirect block `table`, allocated if necessary.
unfoldable pub table_entry : (table i : ℕ) → Ip → Disk → Option (ℕ × Ip × Disk)
unfolding new_block
table_entry table i ip d = elim (d.word table i == 0) [
  | false ↦ some (d.word table i, ip, d)
  | true ↦ elim (new_block d) [ none ↦ none | some (b, d) ↦ some (b, ip, set_word table i b d) ]
]

unfoldable pub direct : (bn : ℕ) → Ip → Disk → Option (ℕ × Ip × Disk)
unfolding new_block
direct bn ip d = elim (ip.addrs bn == 0) [
  | false ↦ some (ip.addrs bn, ip, d)
  | true ↦ elim (new_block d) [ none ↦ none | some (b, d) ↦ some (b, set_addr bn b ip, d) ]
]

-- `none` is a panic: out of blocks, or out of range.
unfoldable pub bmap : (bn : ℕ) → Ip → Disk → Option (ℕ × Ip × Disk)
unfolding direct indirect table_entry
bmap bn ip d =
    if ltb bn ndirect
    then direct bn ip d
    else if ltb (bn - ndirect) nindirect
    then elim (indirect ip d) [
      | none ↦ none
      | some (table, ip, d) ↦ table_entry table (bn - ndirect) ip d
    ]
    else none

module _ (beyond : ℕ → Store → Option Store) where
  abbrev pub free_block : ℕ → Disk → Option Disk
  free_block b d = elim (bfree beyond b d.store) [
    | none ↦ none
    | some store ↦ some (record d { store = store })
  ]

  -- The loops of `itrunc`, over `n` entries from `i` on.
  unfoldable pub trunc_direct : (n i : ℕ) → Ip → Disk → Option (Ip × Disk)
  unfolding bfree
  trunc_direct zero i ip d = some (ip, d)
  trunc_direct (suc n) i ip d = elim (ip.addrs i == 0) [
    | true ↦ trunc_direct n (i + 1) ip d
    | false ↦ elim (free_block (ip.addrs i) d) [
      | none ↦ none
      | some d ↦ trunc_direct n (i + 1) (set_addr i 0 ip) d
    ]
  ]

  unfoldable pub trunc_table : (n i table : ℕ) → Disk → Option Disk
  unfolding bfree
  trunc_table zero i table d = some d
  trunc_table (suc n) i table d = elim (d.word table i == 0) [
    | true ↦ trunc_table n (i + 1) table d
    | false ↦ elim (free_block (d.word table i) d) [
      | none ↦ none
      | some d ↦ trunc_table n (i + 1) table d
    ]
  ]

  unfoldable pub trunc_indirect : Ip → Disk → Option (Ip × Disk)
  unfolding trunc_table
  trunc_indirect ip d = elim (ip.addrs ndirect == 0) [
    | true ↦ some (ip, d)
    | false ↦ elim (trunc_table nindirect 0 (ip.addrs ndirect) d) [
      | none ↦ none
      | some d ↦ elim (free_block (ip.addrs ndirect) d) [
        | none ↦ none
        | some d ↦ some (set_addr ndirect 0 ip, d)
      ]
    ]
  ]

  -- `iupdate` copies the inode to its block of the disk; `update` stands for it.
  unfoldable pub itrunc : (update : Ip → Disk → Disk) → Ip → Disk → Option (Ip × Disk)
  unfolding trunc_direct trunc_indirect
  itrunc update ip d = elim (trunc_direct ndirect 0 ip d) [
    | none ↦ none
    | some (ip, d) ↦ elim (trunc_indirect ip d) [
      | none ↦ none
      | some (ip, d) ↦ let ip' = record ip { size = 0 } in some (ip', update ip' d)
    ]
  ]

-- The bytes of a round: to the end of the block, or all that are left.
abbrev pub round_size : (off left : ℕ) → ℕ
round_size off left = if ltb left (bsize - off % bsize) then left else bsize - off % bsize

-- `memmove(bp->data + i, src, m)`.
abbrev pub overwrite : (i : ℕ) → (src old : List ℕ) → List ℕ
overwrite i src old = take i old ++ (src ++ drop (i + length src) old)

abbrev pub write_block : (b i : ℕ) → List ℕ → Disk → Disk
write_block b i src d = record d {
  store = record d.store {
    blocks = λ q. if q == b then overwrite i src (d.store.blocks b) else d.store.blocks q;
  };
}

-- The loop of `readi`: the bytes read, oldest first.
unfoldable pub read_blocks : (fuel off left : ℕ) → Ip → Disk → Option (List ℕ × Ip × Disk)
unfolding bmap
read_blocks zero off left ip d = some ([], ip, d)
read_blocks (suc fuel) off left ip d = elim (ltb 0 left) [
  | false ↦ some ([], ip, d)
  | true ↦ elim (bmap (off / bsize) ip d) [
    | none ↦ none
    | some (b, ip, d) ↦
        let m = round_size off left in
        let got = take m (drop (off % bsize) (d.store.blocks b)) in
        elim (read_blocks fuel (off + m) (left - m) ip d) [
          | none ↦ none
          | some (rest, ip, d) ↦ some (got ++ rest, ip, d)
        ]
  ]
]

-- The loop of `writei`, on what is left of the source.
unfoldable pub write_blocks : (fuel off : ℕ) → List ℕ → Ip → Disk → Option (Ip × Disk)
unfolding bmap
write_blocks zero off src ip d = some (ip, d)
write_blocks (suc fuel) off src ip d = elim (ltb 0 (length src)) [
  | false ↦ some (ip, d)
  | true ↦ elim (bmap (off / bsize) ip d) [
    | none ↦ none
    | some (b, ip, d) ↦
        let m = round_size off (length src) in
        write_blocks fuel (off + m) (drop m src) ip (write_block b (off % bsize) (take m src) d)
  ]
]

module _ (device_read : (n : ℕ) → Ip → Disk → ℤ × List ℕ × Disk) where
  -- The result, the bytes, and the state.
  unfoldable pub readi : (off n : ℕ) → Ip → Disk → Option (ℤ × List ℕ × Ip × Disk)
  unfolding read_blocks
  readi off n ip d =
      if ip.device
      then (let (r, bytes, d) = device_read n ip d in some (r, bytes, ip, d))
      else if ltb ip.size off || ltb ((off + n) % 2 ^ 32) off
      then some (negsuc 0, [], ip, d)
      else (let n = if ltb ip.size ((off + n) % 2 ^ 32) then ip.size - off else n in
          elim (read_blocks n off n ip d) [
            | none ↦ none
            | some (bytes, ip, d) ↦ some (pos n, bytes, ip, d)
          ])

module _ (device_write : List ℕ → Ip → Disk → ℤ × Disk) (update : Ip → Disk → Disk) where
  unfoldable pub writei : (off : ℕ) → List ℕ → Ip → Disk → Option (ℤ × Ip × Disk)
  unfolding write_blocks
  writei off src ip d =
      let n = length src in
      if ip.device
      then (let (r, d) = device_write src ip d in some (r, ip, d))
      else if ltb ip.size off || ltb ((off + n) % 2 ^ 32) off
      then some (negsuc 0, ip, d)
      else if ltb (maxfile * bsize) ((off + n) % 2 ^ 32)
      then some (negsuc 0, ip, d)
      else elim (write_blocks n off src ip d) [
        | none ↦ none
        | some (ip, d) ↦
            let grown = record ip { size = off + n } in
            if ltb 0 n && ltb ip.size (off + n)
            then some (pos n, grown, update grown d)
            else some (pos n, ip, d)
      ]
