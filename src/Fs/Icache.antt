-- ===== src/Fs/Icache.antt =====
-- The inode cache of xv6-public/fs.c. A `struct inode *` is the index of its slot; what `itrunc` and
-- `iupdate` do to the disk is a parameter.
pub mod Sharing
pub mod Steps
use cserl_bootcamp.Common.{
  ℕ, zero, suc, ◌+◌, ◌-◌, Bool, true, false, ◌&&◌, not, Option, none, some, List, [], ◌∷◌, ◌==◌,
  ltb, if◌then◌else◌, get_elem?, modify, find_index,
}

-- `struct inode`, less its addresses and its device numbers.
pub record Inode : Type 0 where
  pub dev : ℕ
  pub inum : ℕ
  pub ref : ℕ
  pub valid : Bool
  pub type : ℕ
  pub nlink : ℕ

abbrev pub Icache : Type 0
Icache = List Inode

abbrev pub is_inode : (dev inum : ℕ) → Inode → Bool
is_inode dev inum ip = ltb 0 ip.ref && (ip.dev == dev) && (ip.inum == inum)

abbrev pub is_empty_slot : Inode → Bool
is_empty_slot ip = ip.ref == 0

abbrev pub assign : (dev inum : ℕ) → Inode → Inode
assign dev inum ip = record ip { dev = dev; inum = inum; ref = 1; valid = false }

abbrev pub add_ref : Inode → Inode
add_ref ip = record ip { ref = ip.ref + 1 }

-- `none` is the panic.
unfoldable pub iget : (dev inum : ℕ) → Icache → Option (ℕ × Icache)
iget dev inum c = elim (find_index (is_inode dev inum) c) [
  | some i ↦ some (i, modify c i add_ref)
  | none ↦ elim (find_index is_empty_slot c) [
    | none ↦ none
    | some i ↦ some (i, modify c i (assign dev inum))
  ]
]

unfoldable pub idup : ℕ → Icache → Icache
idup i c = modify c i add_ref

-- Whether `iput` frees the inode on disk.
abbrev pub is_dropped : Inode → Bool
is_dropped ip = ip.valid && (ip.nlink == 0) && (ip.ref == 1)

abbrev pub drop_inode : Inode → Inode
drop_inode ip = if is_dropped ip then record ip { type = 0; valid = false } else ip

abbrev pub put_ref : Inode → Inode
put_ref ip = record ip { ref = ip.ref - 1 }

-- `ip->ref--`, the second of the two parts of `iput` that hold `icache.lock`.
unfoldable pub iput_ref : ℕ → Icache → Icache
iput_ref i c = modify c i put_ref

module _ {S : Type 0} (itrunc iupdate : Inode → S → S) where
  -- `iput` up to `releasesleep`.
  unfoldable pub iput_drop : ℕ → Icache → S → Icache × S
  iput_drop i c s = elim (get_elem? c i) [
    | none ↦ (c, s)
    | some ip ↦ (
      modify c i drop_inode,
      (if is_dropped ip then iupdate (record ip { type = 0 }) (itrunc ip s) else s),
    )
  ]

  unfoldable pub iput : ℕ → Icache → S → Icache × S
  unfolding iput_drop iput_ref
  iput i c s = let (c', s') = iput_drop i c s in (iput_ref i c', s')
