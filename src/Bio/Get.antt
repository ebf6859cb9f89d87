-- ===== src/Bio/Get.antt =====
-- `bget` and `brelse` on a cache, and that no block is cached twice.
use cserl_bootcamp.Common.{
  ℕ, zero, suc, ◌+◌, ◌<◌, ◌≡◌, ◌≢◌, ◌⊎◌, refl, sym, ap, true, false, not, Option, none, some, List,
  [], ◌∷◌, ◌==◌, get_elem?, modify, find_index, find_index-some, replicate, bit, Bool-cases,
  Option-cases, inl, inr, arith,
}
use cserl_bootcamp.Bio.{
  Buf, blank_buf, binit, nbuf, is_block, is_idle, find_last, bget, remove, dec, brelse,
}
use cserl_bootcamp.Bio.Cached.{
  copies, copies-remove, copies-none, find_last-some, find_last-none, Distinct, hold-Distinct,
  recycle-Distinct,
}

-- A buffer that may be used again: nobody refers to it, and it has nothing that is not on the disk.
abbrev pub Unused : Buf → Type 0
Unused d = (d.refcnt ≡ 0) × (d.dirty ≡ false)

-- What `bget` finds: the buffer of the block; or, where no buffer has it, one to use again; or neither.
abbrev pub GetPost : (dev blockno : ℕ) → List Buf → Option (ℕ × List Buf) → Type 0
GetPost dev blockno c none =
    (copies dev blockno c ≡ 0) × ((j : ℕ) (d : Buf) → get_elem? c j ≡ some d → ¬ Unused d)
GetPost dev blockno c (some (i, c')) =
    (b : Buf) × (get_elem? c i ≡ some b)
    × (((b.dev ≡ dev)
          × (b.blockno ≡ blockno)
          × (c' ≡ modify c i (λ b. record b { refcnt = b.refcnt + 1 })))
        ⊎ ((copies dev blockno c ≡ 0)
            × Unused b
            × ((j : ℕ) (d : Buf) → i < j → get_elem? c j ≡ some d → ¬ Unused d)
            × (c'
                ≡ modify c i (λ b. record {
                  valid = false;
                  dirty = false;
                  dev = dev;
                  blockno = blockno;
                  refcnt = 1;
                  locked = b.locked;
                  bytes = b.bytes;
                }))))

is_idle-Unused : (d : Buf) → is_idle d ≡ true → Unused d
is_idle-Unused d e = ground arith

busy-Unused : (d : Buf) → is_idle d ≡ false → ¬ Unused d
busy-Unused d e (none_refer, clean) = ground arith

-- `bget` returns the buffer that caches the block, with one more reference, where there is one. If not, it
-- returns the least recently used of the buffers that nobody refers to and that are not dirty, made
-- over to the block: with one reference, not valid and not dirty. It panics only if the block is not
-- cached and every buffer is dirty or referred to. No other buffer changes.
pub bget-GetPost : (dev blockno : ℕ) (c : List Buf) → GetPost dev blockno c (bget dev blockno c)
unfolding bget
bget-GetPost dev blockno c = elim (Option-cases (find_index (is_block dev blockno) c)) [
  | inr (i, got) ↦
      let (b, at, hit) = find_index-some (is_block dev blockno) c i got in
      rw (got, bget) (b, at, inl (ground arith, ground arith, refl))
  | inl miss ↦
      let absent = copies-none dev blockno c miss in
      elim (Option-cases (find_last is_idle c)) [
        | inr (i, got) ↦
            let (b, at, idle, later) = find_last-some is_idle c i got in
            rw (miss, got, bget)
              (
                b,
                at,
                inr (
                  absent,
                  is_idle-Unused b idle,
                  (λ j d lt at'. busy-Unused d (later j d lt at')),
                  refl,
                ),
              )
        | inl full ↦
            rw (miss, full, bget)
              (absent, λ j d at. busy-Unused d (find_last-none is_idle c j d full at))
      ]
]

pub bget-Distinct :
    (dev blockno i : ℕ) (c d : List Buf)
    → bget dev blockno c ≡ some (i, d)
    → Distinct c
    → Distinct d
bget-Distinct dev blockno i c d run v = go (rw run at (bget-GetPost dev blockno c))
  where
    go : GetPost dev blockno c (some (i, d)) → Distinct d
    go (b, at, inl (same_dev, same_block, eq)) = rw eq (hold-Distinct c i b at v)
    go (b, at, inr (absent, idle, later, eq)) =
        rw eq (recycle-Distinct dev blockno c i b at absent v)

abbrev pub released : Buf → Buf
released b = record b { locked = false; refcnt = dec b.refcnt }

pub modify-Distinct :
    (c : List Buf) (i : ℕ) (f : Buf → Buf)
    → ((dev blockno : ℕ) (b : Buf) → is_block dev blockno (f b) ≡ is_block dev blockno b)
    → Distinct c
    → Distinct (modify c i f)
modify-Distinct c i f same v dev blockno ne = omega (arith, kept c i, v dev blockno ne)
  where
    kept : (c : List Buf) (i : ℕ) → copies dev blockno (modify c i f) ≡ copies dev blockno c
    kept [] i = refl
    kept (x ∷ xs) zero = ap (λ k. bit k + copies dev blockno xs) (same dev blockno x)
    kept (x ∷ xs) (suc i) = ap (λ k. bit (is_block dev blockno x) + k) (kept xs i)

pub brelse-Distinct : (i : ℕ) (c d : List Buf) → brelse i c ≡ some d → Distinct c → Distinct d
unfolding brelse
brelse-Distinct i c d run v = elim (Option-cases (get_elem? c i)) [
  | inl out ↦ absurd (cc (rw (out, brelse) at run))
  | inr (b, at) ↦ elim (Bool-cases (not b.locked)) [
    | inl panic ↦ absurd (cc (rw (at, panic, brelse) at run))
    | inr fine ↦ elim (Bool-cases (dec b.refcnt == 0)) [
      | inl last ↦
          let moved : released b ∷ remove c i ≡ d = cc (rw (at, fine, last, brelse) at run) in
          rw (sym moved)
            λ dev blockno ne. omega (arith, copies-remove dev blockno c i b at, v dev blockno ne)
      | inr more ↦
          let kept : modify c i released ≡ d = cc (rw (at, fine, more, brelse) at run) in
          rw (sym kept) (modify-Distinct c i released (λ dev blockno b. refl) v)
    ]
  ]
]

copies-blank : (dev blockno n : ℕ) → dev ≢ 0 → copies dev blockno (replicate n blank_buf) ≡ 0
copies-blank dev blockno zero ne = refl
copies-blank dev blockno (suc n) ne =
    let other : is_block dev blockno blank_buf ≡ false = ground arith in
    omega (arith, ap bit other, copies-blank dev blockno n ne)

pub binit-Distinct : Distinct binit
binit-Distinct dev blockno ne = omega (arith, copies-blank dev blockno nbuf ne)
