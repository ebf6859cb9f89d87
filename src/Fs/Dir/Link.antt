-- ===== src/Fs/Dir/Link.antt =====
-- `dirlink`, then `dirlookup`.
use cserl_bootcamp.Common.{
  ℕ, zero, suc, ◌+◌, ◌*◌, ◌%◌, ◌^◌, ◌≡◌, refl, sym, ap, ◌∙◌, true, false, none, some, List, [], ◌∷◌,
  ◌==◌, ltb, take, Bool-cases, Option-cases, inl, inr, arith,
}
use cserl_bootcamp.Fs.Path.{dirsiz}
use cserl_bootcamp.Fs.Dir.{
  Dirent, same_bytes, namecmp, lookup_from, found, dirlookup, free_entry, max_size, write_entry,
  linked, dirlink,
}

same_bytes_self : (s : List ℕ) → same_bytes s s ≡ true
same_bytes_self [] = refl
same_bytes_self (a ∷ xs) =
    let self : (a == a) ≡ true = ground arith in rw (self, same_bytes_self xs) refl

take-take : (n : ℕ) (s : List ℕ) → take n (take n s) ≡ take n s
take-take zero s = refl
take-take (suc n) [] = refl
take-take (suc n) (a ∷ xs) = ap (λ r. a ∷ r) (take-take n xs)

namecmp-take : (s : List ℕ) → namecmp s (take dirsiz s) ≡ true
unfolding namecmp
namecmp-take s =
    ap (same_bytes (take dirsiz s)) (take-take dirsiz s) ∙ same_bytes_self (take dirsiz s)

abbrev new_entry : List ℕ → ℕ → Dirent
new_entry name inum = record { inum = inum; name = take dirsiz name }

module _ (off : ℕ) (de : Dirent) (des : List Dirent) (name : List ℕ) where
  lookup-skip :
      (de.inum == 0) ≡ true → lookup_from off (de ∷ des) name ≡ lookup_from (off + 16) des name
  unfolding lookup_from
  lookup-skip free = rw free refl

  lookup-past :
      namecmp name de.name ≡ false
      → lookup_from off (de ∷ des) name ≡ lookup_from (off + 16) des name
  unfolding lookup_from
  lookup-past other = elim (Bool-cases (de.inum == 0)) [
    | inl free ↦ rw free refl
    | inr taken ↦ rw (taken, other) refl
  ]

  lookup-hit :
      (de.inum == 0) ≡ false
      → namecmp name de.name ≡ true
      → lookup_from off (de ∷ des) name ≡ some (de.inum, off)
  unfolding lookup_from
  lookup-hit taken same = rw (taken, same) refl

module _ (de : Dirent) (des : List Dirent) (e : Dirent) where
  write-first : (de.inum == 0) ≡ true → write_entry (de ∷ des) (free_entry (de ∷ des)) e ≡ e ∷ des
  unfolding free_entry
  write-first free = rw free refl

  write-further :
      (de.inum == 0) ≡ false
      → write_entry (de ∷ des) (free_entry (de ∷ des)) e ≡ de ∷ write_entry des (free_entry des) e
  unfolding free_entry
  write-further taken = rw taken refl

free-first : (de : Dirent) (des : List Dirent) → (de.inum == 0) ≡ true → free_entry (de ∷ des) ≡ 0
unfolding free_entry
free-first de des free = rw free refl

free-further :
    (de : Dirent) (des : List Dirent)
    → (de.inum == 0) ≡ false
    → free_entry (de ∷ des) ≡ suc (free_entry des)
unfolding free_entry
free-further de des taken = rw taken refl

lookup-new :
    (off : ℕ) (des : List Dirent) (name : List ℕ) (inum : ℕ)
    → (inum == 0) ≡ false
    → lookup_from off des name ≡ none
    → lookup_from off (write_entry des (free_entry des) (new_entry name inum)) name
      ≡ some (inum, off + 16 * free_entry des)
unfolding free_entry
lookup-new off [] name inum used miss =
    lookup-hit off (new_entry name inum) [] name used (namecmp-take name)
    ∙ ap (λ o. some (inum, o)) (omega arith)
lookup-new off (de ∷ des) name inum used miss = elim (Bool-cases (de.inum == 0)) [
  | inl free ↦
      let zero_at : free_entry (de ∷ des) ≡ 0 = free-first de des free in
      ap (λ d. lookup_from off d name) (write-first de des (new_entry name inum) free)
      ∙ lookup-hit off (new_entry name inum) des name used (namecmp-take name)
      ∙ ap (λ o. some (inum, o)) (omega arith)
  | inr taken ↦ elim (Bool-cases (namecmp name de.name)) [
    | inl same ↦ absurd (cc (lookup-hit off de des name taken same, miss))
    | inr other ↦
        let suc_at : free_entry (de ∷ des) ≡ suc (free_entry des) = free-further de des taken in
        ap (λ d. lookup_from off d name) (write-further de des (new_entry name inum) taken)
        ∙ lookup-past off de (write_entry des (free_entry des) (new_entry name inum)) name other
        ∙ lookup-new (off + 16) des name inum used (sym (lookup-past off de des name other) ∙ miss)
        ∙ ap (λ o. some (inum, o)) (omega arith)
  ]
]

lookup-other :
    (off : ℕ) (des : List Dirent) (name other : List ℕ) (inum : ℕ)
    → namecmp other (take dirsiz name) ≡ false
    → lookup_from off (write_entry des (free_entry des) (new_entry name inum)) other
      ≡ lookup_from off des other
unfolding free_entry lookup_from
lookup-other off [] name other inum ne = lookup-past off (new_entry name inum) [] other ne
lookup-other off (de ∷ des) name other inum ne = elim (Bool-cases (de.inum == 0)) [
  | inl free ↦
      ap (λ d. lookup_from off d other) (write-first de des (new_entry name inum) free)
      ∙ lookup-past off (new_entry name inum) des other ne
      ∙ sym (lookup-skip off de des other free)
  | inr taken ↦
      let further = write_entry des (free_entry des) (new_entry name inum) in
      let ih = lookup-other (off + 16) des name other inum ne in
      ap (λ d. lookup_from off d other) (write-further de des (new_entry name inum) taken)
      ∙ elim (Bool-cases (namecmp other de.name)) [
        | inl same ↦
            lookup-hit off de further other taken same
            ∙ sym (lookup-hit off de des other taken same)
        | inr past ↦
            lookup-past off de further other past ∙ ih ∙ sym (lookup-past off de des other past)
      ]
]

-- A name that `dirlink` has entered in a directory is found there with the 16 bits of its inode number
-- that an entry holds, where they are not all 0, and any other name, as far as DIRSIZ bytes tell them apart, is found as it was before.
pub dirlink-dirlookup :
    (des des' : List Dirent) (name : List ℕ) (inum : ℕ)
    → (inum % 2 ^ 16 == 0) ≡ false
    → dirlink true des name inum ≡ linked des'
    → ((off : ℕ) × (dirlookup true des' name ≡ found (inum % 2 ^ 16) off))
      × ((other : List ℕ)
          → namecmp other (take dirsiz name) ≡ false
          → dirlookup true des' other ≡ dirlookup true des other)
unfolding dirlink dirlookup
dirlink-dirlookup des des' name inum used run = elim (Option-cases (lookup_from 0 des name)) [
  | inr ((i, off), hit) ↦ absurd (cc (rw (hit, dirlink, dirlookup) at run))
  | inl miss ↦ elim (Bool-cases (ltb max_size (16 * free_entry des + 16))) [
    | inl full ↦ absurd (cc (rw (miss, full, dirlink, dirlookup) at run))
    | inr room ↦
        let same : write_entry des (free_entry des) (new_entry name (inum % 2 ^ 16)) ≡ des' =
          cc (rw (miss, room, dirlink, dirlookup) at run) in
        let new = lookup-new 0 des name (inum % 2 ^ 16) used miss in
        (
          (0 + 16 * free_entry des, rw (sym same, new, dirlookup) refl),
          λ other ne.
              rw (sym same, lookup-other 0 des name other (inum % 2 ^ 16) ne, dirlookup) refl,
        )
  ]
]
