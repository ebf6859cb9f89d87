-- ===== src/Fs/Path.antt =====
-- Path names of xv6-public/fs.c. A string is the list of its bytes before the NUL; an inode and what
-- `dirlookup`, `iput` and the type of a locked inode depend on are parameters.
pub mod Elements
pub mod Walk
use cserl_bootcamp.Common.{
  ℕ, zero, suc, ◌+◌, Bool, true, false, ◌&&◌, not, Option, none, some, List, [], ◌∷◌, ◌==◌,
  if◌then◌else◌, length, take,
}

abbrev pub dirsiz : ℕ
dirsiz = 14

abbrev pub is_slash : ℕ → Bool
is_slash c = c == 47

unfoldable pub skip_slashes : List ℕ → List ℕ
skip_slashes [] = []
skip_slashes (c ∷ cs) = let rest = skip_slashes cs in if is_slash c then rest else c ∷ cs

-- The bytes up to the next slash, and the rest.
unfoldable pub split_elem : List ℕ → List ℕ × List ℕ
split_elem [] = ([], [])
split_elem (c ∷ cs) =
    let (s, rest) = split_elem cs in if is_slash c then ([], c ∷ cs) else (c ∷ s, rest)

-- The first element, as `name` holds it, and the rest of the path.
unfoldable pub skipelem : List ℕ → Option (List ℕ × List ℕ)
unfolding skip_slashes split_elem
skipelem path = elim (skip_slashes path) [
  | [] ↦ none
  | c ∷ cs ↦ (let (s, rest) = split_elem (c ∷ cs) in some (take dirsiz s, skip_slashes rest))
]

abbrev pub is_end : List ℕ → Bool
is_end [] = true
is_end (c ∷ cs) = false

module _ {I S : Type 0} (is_dir : I → S → Bool) (dirlookup : I → List ℕ → S → Option I × S)
    (iput : I → S → S) where
  -- The loop of `namex`; every round takes a byte off the path. The result has the `name` that
  -- `nameiparent` hands back.
  unfoldable pub namex_loop :
      (fuel : ℕ) (nameiparent : Bool) → I → (path name : List ℕ) → S → Option (I × List ℕ) × S
  unfolding skipelem
  namex_loop zero nameiparent ip path name s = (none, s)
  namex_loop (suc fuel) nameiparent ip path name s = elim (skipelem path) [
    | none ↦ if nameiparent then (none, iput ip s) else (some (ip, name), s)
    | some (name', path') ↦
        let (found, s') = dirlookup ip name' s in
        let rest : I → Option (I × List ℕ) × S =
          λ next. namex_loop fuel nameiparent next path' name' (iput ip s') in
        if not (is_dir ip s)
        then (none, iput ip s)
        else if nameiparent && is_end path'
        then (some (ip, name'), s)
        else elim found [ none ↦ (none, iput ip s') | some next ↦ rest next ]
  ]

  module _ (root : S → I × S) (cwd : S → I × S) where
    -- `iget` of the root, or `idup` of the current directory.
    abbrev pub start_at : List ℕ → S → I × S
    start_at [] s = cwd s
    start_at (c ∷ cs) s = if is_slash c then root s else cwd s

    unfoldable pub namex : Bool → List ℕ → S → Option (I × List ℕ) × S
    unfolding namex_loop
    namex nameiparent path s =
        let (ip, s') = start_at path s in namex_loop (length path + 1) nameiparent ip path [] s'
