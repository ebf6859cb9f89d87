-- ===== src/Fs/Path/Walk.antt =====
-- `namex` walks the elements of the path.
use cserl_bootcamp.Common.{
  ℕ, zero, suc, ◌+◌, ◌<◌, ◌≡◌, refl, Bool, ◌&&◌, not, Option, none, some, List, [], ◌∷◌,
  if◌then◌else◌, length, Option-cases, inl, inr, arith,
}
use cserl_bootcamp.Fs.Path.{skipelem, namex_loop, start_at, namex}
use cserl_bootcamp.Fs.Path.Elements.{elements, no_names, Taken, skipelem-Taken}

module _ {I S : Type 0} (is_dir : I → S → Bool) (dirlookup : I → List ℕ → S → Option I × S)
    (iput : I → S → S) where
  -- A walk through directories by a list of names. With `to_parent` it stops before the last name.
  abbrev pub walk : (to_parent : Bool) → List (List ℕ) → I → List ℕ → S → Option (I × List ℕ) × S
  walk to_parent [] ip name s = if to_parent then (none, iput ip s) else (some (ip, name), s)
  walk to_parent (n ∷ ns) ip name s =
      let (found, s') = dirlookup ip n s in
      let rest : I → Option (I × List ℕ) × S = λ next. walk to_parent ns next n (iput ip s') in
      if not (is_dir ip s)
      then (none, iput ip s)
      else if to_parent && no_names ns
      then (some (ip, n), s)
      else elim found [ none ↦ (none, iput ip s') | some next ↦ rest next ]

  namex_loop-walk :
      (fuel : ℕ) (p : Bool) (ip : I) (path name : List ℕ) (s : S)
      → length path < fuel
      → namex_loop is_dir dirlookup iput fuel p ip path name s ≡ walk p (elements path) ip name s
  unfolding namex_loop
  namex_loop-walk zero p ip path name s lt = absurd (omega arith)
  namex_loop-walk (suc fuel) p ip path name s lt =
      go (skipelem path) refl (skipelem-Taken path) (λ next n rest shorter.
        namex_loop-walk fuel p next rest n (iput ip (dirlookup ip n s).1) (omega arith))
    where
      go :
          (taken : Option (List ℕ × List ℕ))
          → skipelem path ≡ taken
          → Taken path (skipelem path)
          → ((next : I) (n rest : List ℕ)
              → length rest < length path
              → namex_loop is_dir dirlookup iput fuel p next rest n (iput ip (dirlookup ip n s).1)
                ≡ walk p (elements rest) next n (iput ip (dirlookup ip n s).1))
          → namex_loop is_dir dirlookup iput (suc fuel) p ip path name s
            ≡ walk p (elements path) ip name s
      go none e took ih =
          let nil : elements path ≡ [] = rw e at took in rw (e, namex_loop, nil) refl
      go (some (n, rest)) e took ih =
          let (all, shorter, ends) = rw e at took in
          elim (Option-cases (dirlookup ip n s).0) [
            | inl miss ↦ rw (e, namex_loop, all, ends, miss) refl
            | inr (next, hit) ↦ rw (e, namex_loop, all, ends, hit, ih next n rest shorter) refl
          ]

  module _ (root cwd : S → I × S) where
    -- `namex` walks the elements of the path one after the other, from the root if the path begins
    -- with a slash and from the current directory if not: it fails where an inode on the way is no
    -- directory or has no entry of that name, and gives up each inode that it passes and keeps the
    -- one that it returns. For `nameiparent` it stops before the last element, which it hands back, and
    -- fails if the path has none. No path makes its loop run out.
    pub namex-walk :
        (p : Bool) (path : List ℕ) (s : S)
        → namex is_dir dirlookup iput root cwd p path s ≡ (
            let (ip, s') = start_at is_dir dirlookup iput root cwd path s in
            walk p (elements path) ip [] s')
    unfolding namex
    namex-walk p path s =
        let (ip, s') = start_at is_dir dirlookup iput root cwd path s in
        namex_loop-walk (length path + 1) p ip path [] s' (omega arith)
