-- ===== src/File/Examples.antt =====
-- The theorems on file.c at concrete files.
use cserl_bootcamp.Common.{
  ℕ, ◌+◌, refl, true, false, modify, [], ◌∷◌, ℤ, pos, negsuc, ltb, if◌then◌else◌, arith,
}
use cserl_bootcamp.File.{File, fd_pipe, fd_inode, filealloc, filewrite}
use cserl_bootcamp.File.Owners.{
  Owners, Reach, here, next, opens, sets, Promises, no_files, blank_file, Reach-Promises,
}
use cserl_bootcamp.File.Write.{WritePost, filewrite-WritePost}

abbrev opened : Owners
opened = record { files = (filealloc no_files.files).1; held = 0 ∷ [] }

opened-Reach : Reach no_files opened
unfolding filealloc
opened-Reach = next here (opens 0 refl refl)

-- The file is the writing end of pipe 4.
abbrev one_ref : File
one_ref = record blank_file { type = fd_pipe; ref = 1; writable = true; pipe = 4 }

abbrev piped : Owners
piped = record { files = modify opened.files 0 (λ _. one_ref); held = 0 ∷ [] }

piped-Reach : Reach no_files piped
unfolding filealloc
piped-Reach =
    next opened-Reach
      (sets 0 (record blank_file { ref = 1 }) (omega arith) refl fd_pipe false true 4 0 0 refl)

Reach-Promises_example : Promises piped 0 one_ref
unfolding filealloc
Reach-Promises_example = Reach-Promises 0 one_ref piped-Reach refl (omega arith)

-- A file of 10 bytes, and a disk that has room for 2000 bytes more and counts those written.
abbrev log_file : File
log_file = record blank_file { type = fd_inode; ref = 1; writable = true; ip = 3; off = 10 }

abbrev room : ℕ
room = 2000

abbrev count_bytes : (ip i off n : ℕ) → ℕ → ℤ × ℕ
count_bytes ip i off n written =
    if ltb room (written + n) then (negsuc 0, written) else (pos n, written + n)

abbrev no_pipe : (pipe n : ℕ) → ℕ → ℤ × ℕ
no_pipe pipe n written = (pos 0, written)

filewrite-WritePost_example :
    WritePost no_pipe count_bytes log_file 5000 0 (filewrite no_pipe count_bytes log_file 5000 0)
filewrite-WritePost_example =
    filewrite-WritePost no_pipe count_bytes log_file 5000 0 refl refl (omega arith)
