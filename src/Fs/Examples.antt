-- ===== src/Fs/Examples.antt =====
-- The theorems on paths and directories at concrete ones.
use cserl_bootcamp.Common.{
  ℕ, ◌+◌, ◌≡◌, refl, Bool, true, false, Option, some, List, [], ◌∷◌, ◌==◌, if◌then◌else◌, ltb,
  count, modify, arith,
}
use cserl_bootcamp.Fs.Path.{start_at, namex}
use cserl_bootcamp.Fs.Path.Elements.{elements}
use cserl_bootcamp.Fs.Path.Walk.{walk, namex-walk}
use cserl_bootcamp.Fs.Icache.{Inode, iget, assign, iput_drop}
use cserl_bootcamp.Fs.Icache.Sharing.{Holders, Reach, here, next, gets, loads}
use cserl_bootcamp.Fs.Icache.Steps.{no_inodes, blank_inode, DropPost, Reach-slot}
use cserl_bootcamp.Fs.Content.{Ip, Disk, ndirect, maxfile, bmap}
use cserl_bootcamp.Fs.Content.Slots.{IsDistinct}
use cserl_bootcamp.Fs.Content.Assign.{slot}
use cserl_bootcamp.Fs.Content.Bmap.{BmapPost, bmap-BmapPost}
use cserl_bootcamp.Fs.Dir.{Dirent, namecmp, found, dirlookup, dirlink}
use cserl_bootcamp.Fs.Dir.Link.{dirlink-dirlookup}

-- "//a/b"
abbrev path : List ℕ
path = 47 ∷ 47 ∷ 97 ∷ 47 ∷ 98 ∷ []

-- Inodes are numbers, and each entry of a directory leads to the next one; the state counts the inodes that
-- are given up.
abbrev is_dir : ℕ → ℕ → Bool
is_dir ip s = ltb ip 3

abbrev next_inode : ℕ → List ℕ → ℕ → Option ℕ × ℕ
next_inode ip name s = (some (ip + 1), s)

abbrev give_up : ℕ → ℕ → ℕ
give_up ip s = s + 1

abbrev root : ℕ → ℕ × ℕ
root s = (1, s)

namex-walk_example : namex is_dir next_inode give_up root root false path 0 ≡ (
    let (ip, s') = start_at is_dir next_inode give_up root root path 0 in
    walk is_dir next_inode give_up false (elements path) ip [] s')
namex-walk_example = namex-walk is_dir next_inode give_up root root false path 0

abbrev dir : List Dirent
dir = record { inum = 1; name = 46 ∷ [] } ∷ record { inum = 0; name = [] } ∷ []

abbrev dir_a : List Dirent
dir_a = record { inum = 1; name = 46 ∷ [] } ∷ record { inum = 7; name = 97 ∷ [] } ∷ []

dirlink-dirlookup_example :
    ((off : ℕ) × (dirlookup true dir_a (97 ∷ []) ≡ found 7 off))
    × ((other : List ℕ)
        → namecmp other (97 ∷ []) ≡ false
        → dirlookup true dir_a other ≡ dirlookup true dir other)
unfolding dirlink namecmp
dirlink-dirlookup_example = dirlink-dirlookup dir dir_a (97 ∷ []) 7 refl refl

-- Inode 1 of device 1, which has been read and has no links left, with one reference to it.
abbrev last_inode : Inode
last_inode = record blank_inode { dev = 1; inum = 1; ref = 1; valid = true; type = 2 }

abbrev got_one : Holders
got_one = record { cache = modify no_inodes.cache 0 (assign 1 1); held = 0 ∷ [] }

abbrev one_left : Holders
one_left = record {
  cache = modify got_one.cache 0 (λ ip. record ip { valid = true; type = 2; nlink = 0 });
  held = 0 ∷ [];
}

abbrev count_calls : Inode → ℕ → ℕ
count_calls ip disk = disk + 1

one_left-Reach : Reach count_calls count_calls no_inodes one_left
unfolding iget
one_left-Reach =
    next (next here (gets 1 1 0 got_one.cache refl refl)) (loads 0 2 0 (omega arith) refl)

abbrev held_slot : ℕ
held_slot = 0

Reach-slot_example :
    (last_inode.ref ≡ count held_slot one_left.held)
    × (held_slot ≡ held_slot)
    × DropPost count_calls count_calls held_slot 1 last_inode 5
        (iput_drop count_calls count_calls held_slot one_left.cache 5)
Reach-slot_example =
    Reach-slot count_calls count_calls held_slot held_slot last_inode last_inode 5 one_left-Reach
      refl refl (omega arith) (omega arith) refl refl

-- A file without a block, on a disk with two free blocks.
abbrev empty_file : Ip
empty_file = record { device = false; size = 0; addrs = λ i. 0 }

abbrev two_free : Disk
two_free = record {
  store = record { bits = true ∷ false ∷ false ∷ []; blocks = λ q. [] };
  word = λ q i. 0;
}

if_same : (c : Bool) (x y : ℕ) → x ≡ 0 → y ≡ 0 → (if c then x else y) ≡ 0
if_same true x y e f = e
if_same false x y e f = f

slot_empty : (k : ℕ) → slot empty_file two_free k ≡ 0
unfolding slot
slot_empty k =
    if_same (ltb k ndirect) _ _ refl
      (if_same (k == maxfile) _ _ refl (if_same (ltb maxfile k) _ _ refl refl))

two_free-IsDistinct : IsDistinct (slot empty_file two_free) two_free.store.bits
two_free-IsDistinct = record {
  boot_used = refl;
  used = λ k ne. absurd (ne (slot_empty k));
  apart = λ i j ne e. absurd (ne (slot_empty i));
}

bmap-BmapPost_example : BmapPost 14 empty_file two_free (bmap 14 empty_file two_free)
bmap-BmapPost_example = bmap-BmapPost 14 empty_file two_free two_free-IsDistinct
