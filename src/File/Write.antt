-- ===== src/File/Write.antt =====
-- `filewrite` splits a long write into transactions that fit the log.
use mathlib.Core.Path.{subst}
use cserl_bootcamp.Common.{
  take_then, take_else, if◌then◌else◌, ℕ, zero, suc, ◌+◌, ◌%◌, ◌^◌, ◌≤◌, ◌<◌, ◌≡◌, ◌≢◌, ◌⊎◌, refl,
  sym, ap, ◌∙◌, true, false, Option, none, some, ◌==◌, ==_iff, ltb, ltb→lt, arith, inl, inr,
  Bool-cases, ℤ, pos, negsuc,
}
use cserl_bootcamp.File.{File, fd_inode, advance, chunk, write_loop, filewrite}

chunk_pos : (i n : ℕ) → i < n → 0 < chunk i n
chunk_pos i n lt = ground arith

chunk_le : (i n : ℕ) → i ≤ n → i + chunk i n ≤ n
chunk_le i n le = ground arith

-- The file with its offset moved on by `n` bytes.
abbrev pub moved : File → ℕ → File
moved f n = record f { off = (f.off + n) % 2 ^ 32 }

moved-moved : (f : File) (k n : ℕ) → moved (moved f k) n ≡ moved f (k + n)
moved-moved f k n = ap (λ o. record f { off = o }) (omega arith)

moved_zero : (f : File) → f.off < 2 ^ 32 → f ≡ moved f 0
moved_zero f small = ap (λ o. record f { off = o }) (omega arith)

ℤ-cases : (r : ℤ) → ((k : ℕ) × (r ≡ pos k)) ⊎ ((k : ℕ) × (r ≡ negsuc k))
ℤ-cases (pos k) = inl (k, refl)
ℤ-cases (negsuc k) = inr (k, refl)

module _ {S : Type 0} (pipewrite : (pipe n : ℕ) → S → ℤ × S)
    (writei : (ip i off n : ℕ) → S → ℤ × S) where
  -- One round of the loop, after each result of `writei`.
  round_whole :
      (fuel i n c : ℕ) (f : File) (s : S)
      → ltb i n ≡ true
      → chunk i n ≡ c
      → (writei f.ip i f.off (chunk i n) s).0 ≡ pos c
      → (c == 0) ≡ false
      → write_loop pipewrite writei (suc fuel) i n f s
        ≡ write_loop pipewrite writei fuel
            (i + c)
            n
            (moved f c)
            (writei f.ip i f.off (chunk i n) s).1
  unfolding write_loop
  round_whole fuel i n c f s more size r nonzero =
      let even : (c == chunk i n) ≡ true = ground arith in
      let step : advance f (writei f.ip i f.off (chunk i n) s).0 ≡ moved f c =
        ap (advance f) r ∙ rw nonzero refl in
      rw (more, r, even)
        (ap
          (λ g. write_loop pipewrite writei fuel (i + c) n g (writei f.ip i f.off (chunk i n) s).1)
          step)

  round_error :
      (fuel i n k : ℕ) (f : File) (s : S)
      → ltb i n ≡ true
      → (writei f.ip i f.off (chunk i n) s).0 ≡ negsuc k
      → write_loop pipewrite writei (suc fuel) i n f s
        ≡ some (i, f, (writei f.ip i f.off (chunk i n) s).1)
  unfolding write_loop
  round_error fuel i n k f s more r =
      let same : advance f (writei f.ip i f.off (chunk i n) s).0 ≡ f = ap (advance f) r in
      rw (more, r) (ap (λ g. some (i, g, (writei f.ip i f.off (chunk i n) s).1)) same)

  round_short :
      (fuel i n k : ℕ) (f : File) (s : S)
      → ltb i n ≡ true
      → (writei f.ip i f.off (chunk i n) s).0 ≡ pos k
      → (k == chunk i n) ≡ false
      → write_loop pipewrite writei (suc fuel) i n f s ≡ none
  unfolding write_loop
  round_short fuel i n k f s more r short = rw (more, r, short) refl

  module _ (f : File) (n : ℕ) where
    -- `writei` of the chunk at byte `i` of the buffer, which goes to the place `i` behind the offset.
    abbrev pub writes_at : ℕ → S → ℤ × S
    writes_at i s = writei f.ip i ((f.off + i) % 2 ^ 32) (chunk i n) s

    -- Calls of `writei`, each of which has written its chunk whole, up to byte `i` of the buffer.
    pub data Chunks (s : S) : ℕ → S → Type 0 where
      none_yet : Chunks s 0 s
      one_more :
          {i : ℕ} {s1 : S}
          → Chunks s i s1
          → i < n
          → (writes_at i s1).0 ≡ pos (chunk i n)
          → Chunks s (i + chunk i n) (writes_at i s1).1

    pub record Refused (s : S) (i : ℕ) (s' : S) : Type 0 where
      pub before : S
      pub chunks : Chunks s i before
      pub code : ℕ
      pub result : (writes_at i before).0 ≡ negsuc code
      pub after : s' ≡ (writes_at i before).1

    pub record Short (s : S) : Type 0 where
      pub index : ℕ
      pub before : S
      pub chunks : Chunks s index before
      pub inside : index < n
      pub count : ℕ
      pub result : (writes_at index before).0 ≡ pos count
      pub fewer : count ≢ chunk index n

    abbrev LoopPost : S → Option (ℕ × File × S) → Type 0
    LoopPost s none = Short s
    LoopPost s (some (i, g, s')) =
        ((i ≡ n) × (g ≡ moved f n) × Chunks s n s') ⊎ ((i < n) × (g ≡ moved f i) × Refused s i s')

    write_loop-LoopPost :
        (fuel i : ℕ) (s s1 : S)
        → Chunks s i s1
        → i ≤ n
        → n ≤ i + fuel
        → LoopPost s (write_loop pipewrite writei fuel i n (moved f i) s1)
    unfolding write_loop
    write_loop-LoopPost zero i s s1 chunks le enough =
        let same : i ≡ n = omega arith in
        inl (same, ap (moved f) same, subst (λ k. Chunks s k s1) same chunks)
    write_loop-LoopPost (suc fuel) i s s1 chunks le enough = elim (Bool-cases (ltb i n)) [
      | inr done ↦
          let same : i ≡ n = ground arith in
          rw done (inl (same, ap (moved f) same, subst (λ k. Chunks s k s1) same chunks))
      | inl more ↦
          let lt = ltb→lt i n more in
          elim (ℤ-cases (writes_at i s1).0) [
            | inr (k, r) ↦ subst (LoopPost s) (sym (round_error fuel i n k (moved f i) s1 more r)) (
                inr (
                  lt,
                  refl,
                  record { before = s1; chunks = chunks; code = k; result = r; after = refl },
                ))
            | inl (k, r) ↦ elim (Bool-cases (k == chunk i n)) [
              | inr short ↦
                  subst (LoopPost s) (sym (round_short fuel i n k (moved f i) s1 more r short))
                    (record {
                      index = i;
                      before = s1;
                      chunks = chunks;
                      inside = lt;
                      count = k;
                      result = r;
                      fewer = λ e. ground arith;
                    })
              | inl even ↦
                  let c = chunk i n in
                  let all : (writes_at i s1).0 ≡ pos c = r ∙ ap pos ((==_iff k c).0 even) in
                  let positive : 0 < c = chunk_pos i n lt in
                  let up : i + c ≤ n = chunk_le i n le in
                  subst (LoopPost s)
                    (sym (
                      round_whole fuel i n c (moved f i) s1 more refl all (ground arith)
                      ∙ ap (λ g. write_loop pipewrite writei fuel (i + c) n g (writes_at i s1).1)
                          (moved-moved f i c)))
                    (write_loop-LoopPost fuel (i + c) s (writes_at i s1).1 (one_more chunks lt all)
                      up (omega arith))
            ]
          ]
    ]

    -- What `filewrite` ends in: a panic, the number of bytes, or -1.
    abbrev pub WritePost : S → Option (ℤ × File × S) → Type 0
    WritePost s none = Short s
    WritePost s (some (pos m, g, s')) = (m ≡ n) × (g ≡ moved f n) × Chunks s n s'
    WritePost s (some (negsuc k, g, s')) =
        (k ≡ 0) × ((i : ℕ) × (i < n) × (g ≡ moved f i) × Refused s i s')

    -- `filewrite` once its loop is done.
    done :
        (s : S) (r : Option (ℕ × File × S))
        → f.writable ≡ true
        → f.type ≡ fd_inode
        → write_loop pipewrite writei n 0 n f s ≡ r
        → filewrite pipewrite writei f n s ≡ (elim r [
          | none ↦ none
          | some (i, f', s') ↦ some ((if i == n then pos n else negsuc 0), f', s')
        ])
    unfolding filewrite
    done s r can inode run = rw (can, inode, run, filewrite) refl

    LoopPost-WritePost :
        (s : S) (r : Option (ℕ × File × S))
        → LoopPost s r
        → WritePost s (elim r [
          | none ↦ none
          | some (i, f', s') ↦ some ((if i == n then pos n else negsuc 0), f', s')
        ])
    LoopPost-WritePost s none post = post
    LoopPost-WritePost s (some (i, g, s')) (inl (same, at, chunks)) =
        let all : (i == n) ≡ true = ground arith in
        subst (λ r. WritePost s (some (r, g, s'))) (sym (take_then (i == n) (pos n) (negsuc 0) all))
          (refl, at, chunks)
    LoopPost-WritePost s (some (i, g, s')) (inr (lt, at, refused)) =
        let part : (i == n) ≡ false = ground arith in
        subst (λ r. WritePost s (some (r, g, s')))
          (sym (take_else (i == n) (pos n) (negsuc 0) part)) (refl, (i, lt, at, refused))

    -- `filewrite` of `n` bytes to a file that is open for writing on an inode calls `writei` for one
    -- chunk after the other, each at the place in the file that its place in the buffer gives, and ends.
    -- It returns `n`, with the offset moved on by `n`, where every call has written its chunk whole; -1
    -- at the first call that fails, with the offset moved on by the chunks before it; and it panics at
    -- the first call that writes another number of bytes than the chunk has.
    pub filewrite-WritePost :
        (s : S)
        → f.writable ≡ true
        → f.type ≡ fd_inode
        → f.off < 2 ^ 32
        → WritePost s (filewrite pipewrite writei f n s)
    filewrite-WritePost s can inode small =
        let start : moved f 0 ≡ f = sym (moved_zero f small) in
        let loop = write_loop pipewrite writei n 0 n f s in
        let post : LoopPost s loop =
          subst (λ g. LoopPost s (write_loop pipewrite writei n 0 n g s)) start
            (write_loop-LoopPost n 0 s s none_yet (omega arith) (omega arith)) in
        subst (WritePost s) (sym (done s loop can inode refl)) (LoopPost-WritePost s loop post)
