-- ===== src/Fs/Content/Bmap.antt =====
-- What `bmap` does to the block numbers of an inode.
use mathlib.Core.Path.{subst}
use cserl_bootcamp.Common.{
  take_then, take_else, ℕ, ◌+◌, ◌-◌, ◌%◌, ◌≤◌, ◌<◌, ◌≡◌, ◌≢◌, sym, ap, ◌∙◌, true, false, Option,
  none, some, ◌==◌, ltb, ltb→lt, if◌then◌else◌, set, inl, inr, ◌⊎◌, Bool-cases, arith,
}
use cserl_bootcamp.Fs.Content.{
  Ip, Disk, ndirect, nindirect, maxfile, indirect, table_entry, direct, bmap,
}
use cserl_bootcamp.Fs.Content.Slots.{IsDistinct, update}
use cserl_bootcamp.Fs.Content.Assign.{slot, IsFull, data_of, Assigned, AssignPost}
use cserl_bootcamp.Fs.Content.Layout.{slot_table}
use cserl_bootcamp.Fs.Content.Entry.{direct-AssignPost, indirect-AssignPost, entry-AssignPost}

-- What `bmap` ends in: a panic out of range or for want of blocks, or a block for the block `bn` of the
-- file.
abbrev pub BmapPost : (bn : ℕ) → Ip → Disk → Option (ℕ × Ip × Disk) → Type 0
BmapPost bn ip d none =
    (maxfile ≤ bn) ⊎ IsFull d.store.bits ⊎ ((b : ℕ) × IsFull (set d.store.bits b true))
BmapPost bn ip d (some (b, ip', d')) =
    IsDistinct (slot ip' d') d'.store.bits
    × (b ≢ 0)
    × (slot ip' d' bn ≡ b)
    × ((k : ℕ) → data_of ip' d' k ≡ data_of ip d k)
    × ((k : ℕ) → slot ip' d' (k % maxfile) ≡ update (slot ip d) bn b (k % maxfile))

-- The second step of `bmap` on an indirect block.
then-BmapPost :
    (bn t : ℕ) (ip : Ip) (d : Disk) (ip1 : Ip) (d1 : Disk) (r : Option (ℕ × Ip × Disk))
    → bn < maxfile
    → Assigned maxfile t ip d ip1 d1
    → AssignPost bn ip1 d1 r
    → BmapPost bn ip d r
then-BmapPost bn t ip d ip1 d1 none lt first second = elim first.bits [
  | inl same ↦ inr (inl (subst IsFull same second))
  | inr marked ↦ inr (inr (t, subst IsFull marked second))
]
then-BmapPost bn t ip d ip1 d1 (some (b, ip', d')) lt first second = (
  second.distinct,
  second.real,
  second.slots bn ∙ take_then (bn == bn) _ _ (ground arith),
  λ k. second.kept k ∙ first.kept k,
  λ k.
      second.slots (k % maxfile)
      ∙ ap (λ v. if k % maxfile == bn then b else v)
          (first.slots (k % maxfile) ∙ take_else (k % maxfile == maxfile) _ _ (below k)),
)
  where
    below : (k : ℕ) → (k % maxfile == maxfile) ≡ false
    below k = let lt : k % maxfile < maxfile = omega arith in ground arith

Assigned-BmapPost :
    (bn : ℕ) (ip : Ip) (d : Disk) (r : Option (ℕ × Ip × Disk))
    → AssignPost bn ip d r
    → BmapPost bn ip d r
Assigned-BmapPost bn ip d none post = inr (inl post)
Assigned-BmapPost bn ip d (some (b, ip', d')) post = (
  post.distinct,
  post.real,
  post.slots bn ∙ take_then (bn == bn) _ _ (ground arith),
  post.kept,
  λ k. post.slots (k % maxfile),
)

after_table :
    (bn : ℕ) (ip : Ip) (d : Disk) (r : Option (ℕ × Ip × Disk))
    → ndirect ≤ bn
    → bn < maxfile
    → AssignPost maxfile ip d r
    → BmapPost bn ip d
        (elim r [ none ↦ none | some (table, ip, d) ↦ table_entry table (bn - ndirect) ip d ])
after_table bn ip d none lo lt post = inr (inl post)
after_table bn ip d (some (t, ip1, d1)) lo lt post =
    let table : ip1.addrs ndirect ≡ t = sym (slot_table ip1 d1) ∙ post.slots maxfile in
    let place : ndirect + (bn - ndirect) ≡ bn = omega arith in
    then-BmapPost bn t ip d ip1 d1 (table_entry t (bn - ndirect) ip1 d1) lt post (
      subst (λ k. AssignPost k ip1 d1 (table_entry t (bn - ndirect) ip1 d1)) place
        (entry-AssignPost ip1 d1 post.distinct t (bn - ndirect) (omega arith) table post.real))

-- `bmap` on an inode whose blocks are distinct, in use and not block 0: it returns a block that stands
-- for the block `bn` of the file from then on, and no other block of the file stands elsewhere than it
-- did; the bytes of every block of the file are as they were, where a block that is not there reads as
-- zeros; the blocks of the inode, with the indirect block, are distinct and in use again. It panics only
-- out of range, where no block is free, or where none is free once the indirect block is taken.
pub bmap-BmapPost :
    (bn : ℕ) (ip : Ip) (d : Disk)
    → IsDistinct (slot ip d) d.store.bits
    → BmapPost bn ip d (bmap bn ip d)
unfolding bmap
bmap-BmapPost bn ip d distinct = elim (Bool-cases (ltb bn ndirect)) [
  | inl small ↦ rw small (
      Assigned-BmapPost bn ip d (direct bn ip d)
        (direct-AssignPost ip d distinct bn (ltb→lt bn ndirect small)))
  | inr large ↦ elim (Bool-cases (ltb (bn - ndirect) nindirect)) [
    | inl inside ↦
        rw (large, inside)
          (after_table bn ip d (indirect ip d) (ground arith) (ground arith)
            (indirect-AssignPost ip d distinct))
    | inr out ↦ rw (large, out) (inl (ground arith))
  ]
]
