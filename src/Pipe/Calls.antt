-- ===== src/Pipe/Calls.antt =====
-- The calls on a pipe against a queue of at most PIPESIZE bytes.
use cserl_bootcamp.Common.{
  ℕ, zero, suc, ◌≡◌, ◌≢◌, ◌↔◌, ◌⊎◌, inl, inr, refl, ap, sym, ◌∙◌, Bool, true, false, not, ◌&&◌,
  ◌||◌, List, [], ◌∷◌, ◌++◌, length, take, drop, Bool-cases, arith,
}
use mathlib.Core.List.{append-nil, append_assoc}
use cserl_bootcamp.Pipe.{
  Pipe, pipesize, is_full, is_empty, put, head, Written, all, broken, sleeps, pipewrite, read_loop,
  Read, bytes, killed, waits, piperead, pipeclose,
}
use cserl_bootcamp.Pipe.Ring.{
  IsValid, contents, count, length-window, full_iff, empty_iff, put-IsValid, contents-put,
  advance-IsValid, contents-advance,
}

-- The ends of the pipe stay as they were.
pub record SameEnds (p q : Pipe) : Type 0 where
  pub readopen : q.readopen ≡ p.readopen
  pub writeopen : q.writeopen ≡ p.writeopen

-- The pipe holds what it held and then `front`.
pub record Holds (p : Pipe) (front : List ℕ) (q : Pipe) : Type 0 where
  pub valid : IsValid q
  pub ends : SameEnds p q
  pub held : contents q ≡ contents p ++ front

-- What each end of a run of `pipewrite` says.
abbrev pub WritePost : Bool → List ℕ → Pipe → Written → Type 0
WritePost dead cs p (all q) = Holds p cs q
WritePost dead cs p (broken q) =
    (front : List ℕ) × (rest : List ℕ) × (cs ≡ front ++ rest)
    × Holds p front q
    × (count q ≡ pipesize)
    × ((not p.readopen || dead) ≡ true)
WritePost dead cs p (sleeps rest q) =
    (front : List ℕ) × (cs ≡ front ++ rest)
    × (rest ≢ [])
    × Holds p front q
    × (count q ≡ pipesize)
    × (p.readopen ≡ true)
    × (dead ≡ false)

pub Holds-cons :
    {p q : Pipe} (c : ℕ) (cs : List ℕ)
    → IsValid p
    → is_full p ≡ false
    → Holds (put p c) cs q
    → Holds p (c ∷ cs) q
Holds-cons {p} {q} c cs v room h = record {
  valid = h.valid;
  ends = record { readopen = h.ends.readopen; writeopen = h.ends.writeopen };
  held = h.held ∙ rw (contents-put v c room) (append_assoc (contents p) (c ∷ []) cs);
}

WritePost-cons :
    (dead : Bool) (c : ℕ) (cs : List ℕ) (p : Pipe) (w : Written)
    → IsValid p
    → is_full p ≡ false
    → WritePost dead cs (put p c) w
    → WritePost dead (c ∷ cs) p w
WritePost-cons dead c cs p (all q) v room h = Holds-cons c cs v room h
WritePost-cons dead c cs p (broken q) v room (front, rest, split, h, full, why) =
    (c ∷ front, rest, ap (λ xs. c ∷ xs) split, Holds-cons c front v room h, full, why)
WritePost-cons dead c cs p (sleeps rest q) v room (front, split, some, h, full, opened, live) =
    (c ∷ front, ap (λ xs. c ∷ xs) split, some, Holds-cons c front v room h, full, opened, live)

pub Holds-nil : {p : Pipe} → IsValid p → Holds p [] p
Holds-nil {p} v = record {
  valid = v;
  ends = record { readopen = refl; writeopen = refl };
  held = sym (append-nil (contents p));
}

-- A run of `pipewrite` appends its bytes in order and keeps the invariant. It writes all of them;
-- or it stops where the pipe is full, and fails if the reading end is closed or the writer has been
-- killed, and otherwise sleeps with the bytes that are left.
pub pipewrite-WritePost :
    (dead : Bool) (cs : List ℕ) {p : Pipe} → IsValid p → WritePost dead cs p (pipewrite dead cs p)
unfolding pipewrite
pipewrite-WritePost dead [] v = Holds-nil v
pipewrite-WritePost dead (c ∷ cs) {p} v = elim (Bool-cases (is_full p)) [
  | inl full ↦ elim (Bool-cases (not p.readopen || dead)) [
    | inl why ↦ rw (full, why) ([], c ∷ cs, refl, Holds-nil v, (full_iff v).0 full, why)
    | inr ok ↦
        rw (full, ok)
          ([], refl, (λ e. cc), Holds-nil v, (full_iff v).0 full, ground arith, ground arith)
  ]
  | inr room ↦
      rw room
        (WritePost-cons dead c cs p _ v room (pipewrite-WritePost dead cs (put-IsValid v c room)))
]

contents-nil : (p : Pipe) → count p ≡ 0 → contents p ≡ []
contents-nil p e = rw e refl

read_loop-take :
    (n : ℕ) {p : Pipe}
    → IsValid p
    → ((read_loop n p).0 ≡ take n (contents p))
      × (contents (read_loop n p).1 ≡ drop n (contents p))
      × IsValid (read_loop n p).1
      × SameEnds p (read_loop n p).1
unfolding read_loop
read_loop-take zero v = (refl, refl, v, record { readopen = refl; writeopen = refl })
read_loop-take (suc n) {p} v = elim (Bool-cases (is_empty p)) [
  | inl stop ↦
      let zero_left : contents p ≡ [] = contents-nil p ((empty_iff v).0 stop) in
      rw (stop, zero_left) (refl, refl, v, record { readopen = refl; writeopen = refl })
  | inr some ↦
      let (got, left, v', ends) = read_loop-take n (advance-IsValid v some) in
      rw (some, contents-advance v some)
        (
          ap (λ xs. head p ∷ xs) got,
          left,
          v',
          record { readopen = ends.readopen; writeopen = ends.writeopen },
        )
]

-- What each result of `piperead` says.
abbrev pub ReadPost : Bool → ℕ → Pipe → Read → Type 0
ReadPost dead n p (bytes cs q) =
    (cs ≡ take n (contents p))
    × (contents q ≡ drop n (contents p))
    × IsValid q
    × SameEnds p q
    × ((contents p ≢ []) ⊎ (p.writeopen ≡ false))
ReadPost dead n p killed = (contents p ≡ []) × (p.writeopen ≡ true) × (dead ≡ true)
ReadPost dead n p waits = (contents p ≡ []) × (p.writeopen ≡ true) × (dead ≡ false)

-- `piperead` of `n` bytes takes the first `n` bytes of the pipe, or all that there are, and leaves
-- the rest in order, once the pipe holds a byte or the writing end is closed. On an empty pipe with
-- a writer it fails if the reader has been killed, and sleeps if not.
pub piperead-ReadPost :
    (dead : Bool) (n : ℕ) {p : Pipe} → IsValid p → ReadPost dead n p (piperead dead n p)
unfolding piperead
piperead-ReadPost dead n {p} v = elim (Bool-cases (is_empty p && p.writeopen)) [
  | inl wait ↦
      let none_left : contents p ≡ [] = contents-nil p ((empty_iff v).0 (ground arith)) in
      elim (Bool-cases dead) [
        | inl hit ↦ rw (wait, hit) (none_left, ground arith, refl)
        | inr live ↦ rw (wait, live) (none_left, ground arith, refl)
      ]
  | inr go ↦
      let (got, left, v', ends) = read_loop-take n v in rw go (got, left, v', ends, may_read v go)
]
  where
    may_read :
        {p : Pipe}
        → IsValid p
        → (is_empty p && p.writeopen) ≡ false
        → (contents p ≢ []) ⊎ (p.writeopen ≡ false)
    may_read {p} v go = elim (Bool-cases p.writeopen) [
      | inl opened ↦ inl (λ nil.
          let zero_left : count p ≡ 0 =
            sym (length-window p.buf p.nread (count p)) ∙ ap length nil in
          ground (arith, (empty_iff v).1))
      | inr closed ↦ inr closed
    ]

-- `pipeclose` frees the page of a pipe when its second end is closed, and not before.
pub pipeclose-frees :
    (p : Pipe) (writable : Bool)
    → let (q, freed) = pipeclose p writable in
      ((freed ≡ true) ↔ ((q.readopen ≡ false) × (q.writeopen ≡ false)))
      × (q.readopen ≡ (writable && p.readopen))
      × (q.writeopen ≡ (not writable && p.writeopen))
unfolding pipeclose
pipeclose-frees p writable = ground arith
