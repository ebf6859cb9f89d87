-- ===== src/Bio/Examples.antt =====
-- The theorems on the buffer cache at a concrete block.
use cserl_bootcamp.Common.{
  get_elem?, ℕ, ◌⊎◌, if◌then◌else◌, ◌≤◌, ◌≡◌, refl, true, false, some, [], ◌∷◌, modify, arith,
}
use cserl_bootcamp.Bio.{Buf, Blocks, blank_buf, binit, bget, find_last, recycle, bread, bwrite}
use cserl_bootcamp.Bio.Cached.{copies}
use cserl_bootcamp.Bio.Get.{GetPost, bget-GetPost}
use cserl_bootcamp.Bio.Held.{Holders, same_block, no_blocks, Reach, here, next, gets, Reach-copies}
use cserl_bootcamp.Bio.Disk.{bread-bwrite}

bget-GetPost_example : GetPost 1 7 binit (bget 1 7 binit)
bget-GetPost_example = bget-GetPost 1 7 binit

-- Block 7 is in the last buffer, with one reference to it.
abbrev one_block : Holders
one_block = record {
  cache = modify binit 29 (recycle 1 7);
  held = λ d k. if same_block 1 7 d k then 1 else 0;
}

one_block-Reach : Reach no_blocks one_block
unfolding bget find_last
one_block-Reach = next here (
    gets 1 7 29 (modify binit 29 (recycle 1 7)) (λ e. absurd (omega arith)) (omega arith) refl refl)

Reach-copies_example :
    (copies 1 7 one_block.cache ≤ 1)
    × ((one_block.held 1 7 ≡ 0)
        ⊎ ((copies 1 7 one_block.cache ≡ 1)
            × ((i : ℕ) × (b : Buf) × (get_elem? one_block.cache i ≡ some b)
                × (b.dev ≡ 1)
                × (b.blockno ≡ 7)
                × (b.refcnt ≡ one_block.held 1 7))))
Reach-copies_example = Reach-copies 1 7 (λ e. absurd (omega arith)) one_block-Reach

abbrev written : Buf
written = record blank_buf { valid = true; dev = 1; blockno = 7; locked = true; bytes = 5 ∷ [] }

abbrev empty_buf : Buf
empty_buf = record blank_buf { dev = 1; blockno = 7; locked = true }

abbrev blank_disk : Blocks
blank_disk a = []

bread-bwrite_example :
    (b' : Buf) × (disk' : Blocks) × (c' : Buf) × (bwrite 1000 written blank_disk ≡ some (b', disk'))
    × (b'.valid ≡ true)
    × (b'.dirty ≡ false)
    × (b'.bytes ≡ 5 ∷ [])
    × (bread 1000 empty_buf disk' ≡ some (c', disk'))
    × (c'.bytes ≡ 5 ∷ [])
bread-bwrite_example =
    bread-bwrite 1000 written empty_buf blank_disk
      (record { locked = refl; dev = refl; inside = omega arith })
      (record { locked = refl; dev = refl; inside = omega arith }) refl refl
