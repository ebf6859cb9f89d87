-- ===== src/Fs/Balloc.antt =====
-- The bitmap of xv6-public/fs.c, as the list of its bits, one for each of the `sb.size` blocks.
pub mod Free
use cserl_bootcamp.Common.{
  ℕ, Bool, true, false, not, Option, none, some, List, ◌==◌, if◌then◌else◌, get_elem?, find_index,
  set, replicate,
}

abbrev pub bsize : ℕ
bsize = 512

-- The bits, and the blocks as the log has them.
pub record Store : Type 0 where
  pub bits : List Bool
  pub blocks : ℕ → List ℕ

-- `bzero`
unfoldable pub bzero : ℕ → Store → Store
bzero b s = record s { blocks = λ a. if a == b then replicate bsize 0 else s.blocks a }

-- `none` is the panic.
unfoldable pub balloc : Store → Option (ℕ × Store)
unfolding bzero
balloc s = elim (find_index not s.bits) [
  | none ↦ none
  | some b ↦ some (b, bzero b (record s { bits = set s.bits b true }))
]

-- The bit of a block past the end of the bitmap is one of the block behind it; `beyond` is what is done
-- with it there.
module _ (beyond : ℕ → Store → Option Store) where
  -- `none` is the panic.
  unfoldable pub bfree : ℕ → Store → Option Store
  bfree b s = elim (get_elem? s.bits b) [
    | none ↦ beyond b s
    | some used ↦ if not used then none else some (record s { bits = set s.bits b false })
  ]
