-- ===== src/File/Owners.antt =====
-- Who holds which open file: the references that processes have, and the count of each file.
use cserl_bootcamp.Common.{
  ℕ, ◌+◌, ◌-◌, ◌≤◌, ◌≡◌, ◌≢◌, ◌<◌, ◌⊎◌, refl, sym, ap, ◌∙◌, Bool, false, some, List, [], ◌∷◌, ◌==◌,
  ltb, if◌then◌else◌, arith, inl, inr, Bool-cases, Option-cases, get_elem?, modify, find_index,
  get_elem?-modify, find_index-some, replicate, get_elem?-replicate, bit, count, drop_one,
  drop_one-count,
}
use cserl_bootcamp.File.{
  File, FileType, fd_none, fd_pipe, fd_inode, Ftable, Release, nothing, close_pipe, put_inode,
  filealloc, filedup, fileclose, release_of,
}

-- The table, and the references in use, each the index of its file.
pub record Owners : Type 0 where
  pub files : Ftable
  pub held : List ℕ

-- A file is opened; a reference that is held is duplicated or closed; and who holds one sets what it
-- stands for, as `pipealloc` and `sys_open` do, or moves its offset.
pub data Step (s t : Owners) : Type 0 where
  opens :
      (i : ℕ)
      → (filealloc s.files).0 ≡ some i
      → t ≡ record { files = (filealloc s.files).1; held = i ∷ s.held }
      → Step s t
  dups :
      (i : ℕ) (u : Ftable)
      → 1 ≤ count i s.held
      → filedup i s.files ≡ some u
      → t ≡ record { files = u; held = i ∷ s.held }
      → Step s t
  sets :
      (i : ℕ) (f : File)
      → 1 ≤ count i s.held
      → get_elem? s.files i ≡ some f
      → (type : FileType) (readable writable : Bool) (pipe ip off : ℕ)
      → t ≡ record {
        files = modify s.files i (λ _. record {
          type = type;
          ref = f.ref;
          readable = readable;
          writable = writable;
          pipe = pipe;
          ip = ip;
          off = off;
        });
        held = s.held;
      }
      → Step s t
  closes :
      (i : ℕ) (r : Release) (u : Ftable)
      → 1 ≤ count i s.held
      → fileclose i s.files ≡ some (r, u)
      → t ≡ record { files = u; held = drop_one i s.held }
      → Step s t

pub data Reach (s : Owners) : Owners → Type 0 where
  here : Reach s s
  next : {t u : Owners} → Reach s t → Step t u → Reach s u

-- The count of every file is the number of references to it.
abbrev pub Counted : Owners → Type 0
Counted s = (i : ℕ) (f : File) → get_elem? s.files i ≡ some f → f.ref ≡ count i s.held

modify-slot :
    (t : Ftable) (i j : ℕ) (h : File → File) (f : File)
    → get_elem? (modify t i h) j ≡ some f
    → (g : File) × (get_elem? t j ≡ some g) × (f ≡ (if i == j then h g else g))
modify-slot t i j h f at = elim (Option-cases (get_elem? t j)) [
  | inl out ↦ absurd (ground (arith, get_elem?-modify t i j h))
  | inr (g, there) ↦ (g, there, ground (arith, get_elem?-modify t i j h))
]

-- A change of the count of one held slot by the same number as the references to it.
modify-Counted :
    (s : Owners) (i : ℕ) (g : File) (h : File → File) (held' : List ℕ)
    → Counted s
    → get_elem? s.files i ≡ some g
    → (h g).ref ≡ count i held'
    → ((j : ℕ) → i ≢ j → count j held' ≡ count j s.held)
    → Counted (record { files = modify s.files i h; held = held' })
modify-Counted s i g h held' v there at_i other j f at =
    let (q, q_at, eq) = modify-slot s.files i j h f at in
    elim (Bool-cases (i == j)) [
      | inl same ↦
          let here : i ≡ j = ground arith in
          let one : g ≡ q = cc (there, q_at, here) in
          let changed : f ≡ h q = rw same at eq in
          ap (λ (x : File). x.ref) changed
          ∙ ap (λ x. (h x).ref) (sym one)
          ∙ at_i
          ∙ ap (λ k. count k held') here
      | inr apart ↦
          let kept : f ≡ q = rw apart at eq in
          ap (λ (x : File). x.ref) kept ∙ v j q q_at ∙ sym (other j (λ e. ground arith))
    ]

filealloc-Counted :
    (s : Owners) (i : ℕ)
    → Counted s
    → (filealloc s.files).0 ≡ some i
    → (count i s.held ≡ 0) × Counted (record { files = (filealloc s.files).1; held = i ∷ s.held })
unfolding filealloc
filealloc-Counted s i v e = elim (Option-cases (find_index (λ (f : File). f.ref == 0) s.files)) [
  | inl full ↦ absurd (cc (rw (full, filealloc) at e))
  | inr (k, got) ↦
      let same : k ≡ i = cc (rw (got, filealloc) at e) in
      let (g, there, free) = find_index-some (λ (f : File). f.ref == 0) s.files k got in
      let none_held : count k s.held ≡ 0 = ground (arith, v k g there) in
      rw (got, filealloc, sym same)
        (
          none_held,
          modify-Counted s k g (λ f. record f { ref = 1 }) (k ∷ s.held) v there (ground arith)
              (λ j ne. ground arith),
        )
]

filedup-Counted :
    (s : Owners) (i : ℕ) (u : Ftable)
    → Counted s
    → filedup i s.files ≡ some u
    → Counted (record { files = u; held = i ∷ s.held })
unfolding filedup
filedup-Counted s i u v e = elim (Option-cases (get_elem? s.files i)) [
  | inl out ↦ absurd (cc (rw (out, filedup) at e))
  | inr (f, there) ↦ elim (Bool-cases (ltb f.ref 1)) [
    | inl panic ↦ absurd (cc (rw (there, panic, filedup) at e))
    | inr fine ↦
        let same : modify s.files i (λ f. record f { ref = f.ref + 1 }) ≡ u =
          cc (rw (there, fine, filedup) at e) in
        rw (sym same) (
          modify-Counted s i f (λ f. record f { ref = f.ref + 1 }) (i ∷ s.held) v there
            (ground (arith, v i f there)) (λ j ne. ground arith))
  ]
]

fileclose-Counted :
    (s : Owners) (i : ℕ) (r : Release) (u : Ftable)
    → Counted s
    → 1 ≤ count i s.held
    → fileclose i s.files ≡ some (r, u)
    → Counted (record { files = u; held = drop_one i s.held })
unfolding fileclose
fileclose-Counted s i r u v held e = elim (Option-cases (get_elem? s.files i)) [
  | inl out ↦ absurd (cc (rw (out, fileclose) at e))
  | inr (f, there) ↦
      let fine : ltb f.ref 1 ≡ false = ground (arith, v i f there) in
      let fewer : bit (i == i) + count i (drop_one i s.held) ≡ count i s.held =
        drop_one-count i i s.held held in
      elim (Bool-cases (ltb 0 (f.ref - 1))) [
        | inl more ↦
            let same : modify s.files i (λ f. record f { ref = f.ref - 1 }) ≡ u =
              cc (rw (there, fine, more, fileclose) at e) in
            rw (sym same) (
              modify-Counted s i f (λ f. record f { ref = f.ref - 1 }) (drop_one i s.held) v there
                (ground (arith, v i f there, fewer))
                (λ j ne. ground (arith, drop_one-count j i s.held held)))
        | inr last ↦
            let same : modify s.files i (λ f. record f { ref = 0; type = fd_none }) ≡ u =
              cc (rw (there, fine, last, fileclose) at e) in
            rw (sym same) (
              modify-Counted s i f (λ f. record f { ref = 0; type = fd_none }) (drop_one i s.held) v
                there (ground (arith, v i f there, fewer))
                (λ j ne. ground (arith, drop_one-count j i s.held held)))
      ]
]

Reach-Counted : {s t : Owners} → Counted s → Reach s t → Counted t
Reach-Counted start here = start
Reach-Counted start (next {t = w} r (opens i e to)) =
    rw to (filealloc-Counted w i (Reach-Counted start r) e).1
Reach-Counted start (next {t = w} r (dups i u h e to)) =
    rw to (filedup-Counted w i u (Reach-Counted start r) e)
Reach-Counted start (next {t = w} r (sets i f h at type readable writable pipe ip off to)) =
    let old = Reach-Counted start r in
    rw to (modify-Counted w i f _ w.held old at (old i f at) (λ j ne. refl))
Reach-Counted start (next {t = w} r (closes i q u h e to)) =
    rw to (fileclose-Counted w i q u (Reach-Counted start r) h e)

abbrev pub nfile : ℕ
nfile = 100

abbrev pub blank_file : File
blank_file = record {
  type = fd_none;
  ref = 0;
  readable = false;
  writable = false;
  pipe = 0;
  ip = 0;
  off = 0;
}

-- `ftable` at boot, with no reference to it.
abbrev pub no_files : Owners
no_files = record { files = replicate nfile blank_file; held = [] }

no_files-Counted : Counted no_files
no_files-Counted i f at = ap (λ (x : File). x.ref) (get_elem?-replicate nfile blank_file i at)

-- What the last `fileclose` of a file lets go of: nothing, its end of a pipe, or its inode.
pub data LetsGo (f : File) : Release → Type 0 where
  of_none : f.type ≡ fd_none → LetsGo f nothing
  of_pipe : f.type ≡ fd_pipe → LetsGo f (close_pipe f.pipe f.writable)
  of_inode : f.type ≡ fd_inode → LetsGo f (put_inode f.ip)

release_of-LetsGo : (f : File) → LetsGo f (release_of f)
release_of-LetsGo f = go f.type refl
  where
    go :
        (k : FileType)
        → f.type ≡ k
        → LetsGo f (elim k [
          | fd_none ↦ nothing
          | fd_pipe ↦ close_pipe f.pipe f.writable
          | fd_inode ↦ put_inode f.ip
        ])
    go fd_none e = of_none e
    go fd_pipe e = of_pipe e
    go fd_inode e = of_inode e

-- What the table promises to those who hold references to file `i`, which is `f`.
pub record Promises (s : Owners) (i : ℕ) (f : File) : Type 0 where
  pub kept : (filealloc s.files).0 ≢ some i
  pub dup : (u : Ftable) × (filedup i s.files ≡ some u)
  pub close :
      (r : Release) × (u : Ftable) × (fileclose i s.files ≡ some (r, u))
      × (((count i s.held ≡ 1) × LetsGo f r) ⊎ ((1 < count i s.held) × (r ≡ nothing)))

-- In every state of the file table that is reached by opening files, and by setting, duplicating and
-- closing what is held: to a file with a reference that is held, `filealloc` does not return its slot,
-- and neither `filedup` nor `fileclose` panics. If the reference is the last one, `fileclose` closes the
-- end of the pipe where the file is one, gives up the inode where it has one, and else does nothing
-- more; if there are others, it does nothing more.
pub Reach-Promises :
    (i : ℕ) (f : File) {t : Owners}
    → Reach no_files t
    → get_elem? t.files i ≡ some f
    → 1 ≤ count i t.held
    → Promises t i f
unfolding filedup fileclose
Reach-Promises i f {t} reach at h =
    let v = Reach-Counted no_files-Counted reach in
    let counted : f.ref ≡ count i t.held = v i f at in
    record {
      kept = λ e. omega (arith, (filealloc-Counted t i v e).0, h);
      dup =
          let fine : ltb f.ref 1 ≡ false = ground arith in
          (modify t.files i (λ f. record f { ref = f.ref + 1 }), rw (at, fine, filedup) refl);
      close =
          let fine : ltb f.ref 1 ≡ false = ground arith in
          elim (Bool-cases (ltb 0 (f.ref - 1))) [
            | inl more ↦ (
              nothing,
              modify t.files i (λ f. record f { ref = f.ref - 1 }),
              rw (at, fine, more, fileclose) refl,
              inr (ground arith, refl),
            )
            | inr last ↦ (
              release_of f,
              modify t.files i (λ f. record f { ref = 0; type = fd_none }),
              rw (at, fine, last, fileclose) refl,
              inl (ground arith, release_of-LetsGo f),
            )
          ];
    }
