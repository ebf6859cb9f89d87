-- ===== src/File.antt =====
-- xv6-public/file.c: the table of open files. A `struct file *` is the index of its slot, and a pipe or
-- an inode is a number.
pub mod Owners
pub mod Write
mod Examples
use cserl_bootcamp.Common.{
  ℕ, zero, suc, ◌+◌, ◌-◌, ◌*◌, ◌%◌, ◌^◌, Bool, true, false, ◌||◌, not, Option, none, some, List, [],
  ◌∷◌, ◌==◌, ltb, leb, if◌then◌else◌, ℤ, pos, negsuc, get_elem?, modify, find_index,
}

pub data FileType : Type 0 where
  fd_none fd_pipe fd_inode : FileType

-- `struct file`
pub record File : Type 0 where
  pub type : FileType
  pub ref : ℕ
  pub readable : Bool
  pub writable : Bool
  pub pipe : ℕ
  pub ip : ℕ
  pub off : ℕ

abbrev pub Ftable : Type 0
Ftable = List File

unfoldable pub filealloc : Ftable → Option ℕ × Ftable
filealloc t = elim (find_index (λ f. f.ref == 0) t) [
  | none ↦ (none, t)
  | some i ↦ (some i, modify t i (λ f. record f { ref = 1 }))
]

-- `none` is the panic.
unfoldable pub filedup : ℕ → Ftable → Option Ftable
filedup i t = elim (get_elem? t i) [
  | none ↦ none
  | some f ↦ if ltb f.ref 1 then none else some (modify t i (λ f. record f { ref = f.ref + 1 }))
]

-- What `fileclose` goes on to do once `ftable.lock` is released.
pub data Release : Type 0 where
  nothing : Release
  close_pipe : (pipe : ℕ) → (writable : Bool) → Release
  put_inode : (ip : ℕ) → Release

abbrev pub release_of : File → Release
release_of f = elim f.type [
  | fd_none ↦ nothing
  | fd_pipe ↦ close_pipe f.pipe f.writable
  | fd_inode ↦ put_inode f.ip
]

unfoldable pub fileclose : ℕ → Ftable → Option (Release × Ftable)
fileclose i t = elim (get_elem? t i) [
  | none ↦ none
  | some f ↦
      if ltb f.ref 1
      then none
      else if ltb 0 (f.ref - 1)
      then some (nothing, modify t i (λ f. record f { ref = f.ref - 1 }))
      else some (release_of f, modify t i (λ f. record f { ref = 0; type = fd_none }))
]

-- `f->off += r` where `r > 0`.
abbrev pub advance : File → ℤ → File
advance f (pos r) = if r == 0 then f else record f { off = (f.off + r) % 2 ^ 32 }
advance f (negsuc r) = f

module _ {S : Type 0} (piperead : (pipe n : ℕ) → S → ℤ × S)
    (readi : (ip off n : ℕ) → S → ℤ × S) where
  unfoldable pub fileread : File → ℕ → S → Option (ℤ × File × S)
  fileread f n s = if not f.readable then some (negsuc 0, f, s) else elim f.type [
    | fd_none ↦ none
    | fd_pipe ↦ (let (r, s') = piperead f.pipe n s in some (r, f, s'))
    | fd_inode ↦ (let (r, s') = readi f.ip f.off n s in some (r, advance f r, s'))
  ]

module _ {S : Type 0} (stati : ℕ → S → S) where
  -- Whether the call succeeds (0 or -1).
  unfoldable pub filestat : File → S → Bool × S
  filestat f s = elim f.type [
    | fd_none ↦ (false, s)
    | fd_pipe ↦ (false, s)
    | fd_inode ↦ (true, stati f.ip s)
  ]

-- `((MAXOPBLOCKS-1-1-2) / 2) * 512`
abbrev pub max_write : ℕ
max_write = 1536

abbrev pub chunk : (i n : ℕ) → ℕ
chunk i n = if ltb max_write (n - i) then max_write else n - i

module _ {S : Type 0} (pipewrite : (pipe n : ℕ) → S → ℤ × S)
    (writei : (ip i off n : ℕ) → S → ℤ × S) where
  -- The loop of `filewrite`, and the `i` that it ends with; `writei` writes from byte `i` of the buffer
  -- on. Each round but the last makes `i` larger, so that `n` rounds are enough.
  unfoldable pub write_loop : (fuel i n : ℕ) → File → S → Option (ℕ × File × S)
  write_loop zero i n f s = some (i, f, s)
  write_loop (suc fuel) i n f s =
      if not (ltb i n)
      then some (i, f, s)
      else (let (r, s') = writei f.ip i f.off (chunk i n) s in
          let f' = advance f r in
          elim r [
            | negsuc k ↦ some (i, f', s')
            | pos k ↦
                let rest = write_loop fuel (i + k) n f' s' in if k == chunk i n then rest else none
          ])

  unfoldable pub filewrite : File → ℕ → S → Option (ℤ × File × S)
  unfolding write_loop
  filewrite f n s = if not f.writable then some (negsuc 0, f, s) else elim f.type [
    | fd_none ↦ none
    | fd_pipe ↦ (let (r, s') = pipewrite f.pipe n s in some (r, f, s'))
    | fd_inode ↦ elim (write_loop n 0 n f s) [
      | none ↦ none
      | some (i, f', s') ↦ some ((if i == n then pos n else negsuc 0), f', s')
    ]
  ]
