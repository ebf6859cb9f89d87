-- ===== src/Fs/Dir.antt =====
-- Directories of xv6-public/fs.c, as the list of their entries. `readi` and `writei` of one entry read and
-- write one place of the list; a directory whose size is no multiple of an entry does not arise.
pub mod Link
use cserl_bootcamp.Common.{
  ℕ, zero, suc, ◌+◌, ◌*◌, ◌%◌, ◌^◌, Bool, true, false, ◌&&◌, not, Option, none, some, List, [], ◌∷◌,
  ◌==◌, ltb, if◌then◌else◌, length, take,
}
use cserl_bootcamp.Fs.Path.{dirsiz}

-- `struct dirent`: its name up to a NUL, if there is one. `inum` is a `ushort`.
pub record Dirent : Type 0 where
  pub inum : ℕ
  pub name : List ℕ

-- `MAXFILE * BSIZE`
abbrev pub max_size : ℕ
max_size = 71680

abbrev pub same_bytes : List ℕ → List ℕ → Bool
same_bytes [] [] = true
same_bytes [] (b ∷ bs) = false
same_bytes (a ∷ xs) [] = false
same_bytes (a ∷ xs) (b ∷ bs) = (a == b) && same_bytes xs bs

-- Whether `namecmp` returns 0.
unfoldable pub namecmp : List ℕ → List ℕ → Bool
namecmp s t = same_bytes (take dirsiz s) (take dirsiz t)

-- The loop of `dirlookup` from `off` on: the inode number and the offset of the entry.
unfoldable pub lookup_from : ℕ → List Dirent → List ℕ → Option (ℕ × ℕ)
unfolding namecmp
lookup_from off [] name = none
lookup_from off (de ∷ des) name =
    let rest = lookup_from (off + 16) des name in
    if de.inum == 0 then rest else if namecmp name de.name then some (de.inum, off) else rest

pub data Found : Type 0 where
  not_dir : Found
  missing : Found
  found : (inum off : ℕ) → Found

unfoldable pub dirlookup : (is_dir : Bool) → List Dirent → List ℕ → Found
unfolding lookup_from
dirlookup is_dir des name =
    if not is_dir
    then not_dir
    else elim (lookup_from 0 des name) [ none ↦ missing | some (inum, off) ↦ found inum off ]

-- The entry that the second loop of `dirlink` stops at.
unfoldable pub free_entry : List Dirent → ℕ
free_entry [] = 0
free_entry (de ∷ des) = let rest = free_entry des in if de.inum == 0 then 0 else suc rest

-- `writei` of entry `i`, the place after the last included.
abbrev pub write_entry : List Dirent → ℕ → Dirent → List Dirent
write_entry [] i e = e ∷ []
write_entry (de ∷ des) zero e = e ∷ des
write_entry (de ∷ des) (suc i) e = de ∷ write_entry des i e

-- What `dirlink` does: it panics, returns -1, or writes an entry.
pub data Linked : Type 0 where
  panics : Linked
  present : Linked
  linked : List Dirent → Linked

unfoldable pub dirlink : (is_dir : Bool) → List Dirent → List ℕ → ℕ → Linked
unfolding dirlookup free_entry
dirlink is_dir des name inum = elim (dirlookup is_dir des name) [
  | not_dir ↦ panics
  | found inum' off ↦ present
  | missing ↦
      let i = free_entry des in
      if ltb max_size (16 * i + 16)
      then panics
      else linked (write_entry des i (record { inum = inum % 2 ^ 16; name = take dirsiz name }))
]
