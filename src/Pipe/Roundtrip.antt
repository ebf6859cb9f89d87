-- ===== src/Pipe/Roundtrip.antt =====
-- What goes into a pipe comes out of it.
use cserl_bootcamp.Common.{
  ℕ, ◌+◌, ◌≤◌, ◌≡◌, ◌≢◌, inl, inr, refl, ap, sym, ◌∙◌, Bool, List, [], ◌∷◌, ◌++◌, length, take,
  Bool-cases, arith,
}
use cserl_bootcamp.Pipe.{
  Pipe, pipesize, is_full, all, pipewrite, Read, bytes, killed, waits, piperead,
}
use cserl_bootcamp.Pipe.Ring.{
  IsValid, contents, count, length-window, full_iff, put-IsValid, count-put,
}
use cserl_bootcamp.Pipe.Calls.{Holds, Holds-cons, Holds-nil, ReadPost, piperead-ReadPost}

-- A run of `pipewrite` that finds room for all of its bytes neither fails nor sleeps.
pub pipewrite-all :
    (dead : Bool) (cs : List ℕ) {p : Pipe}
    → IsValid p
    → count p + length cs ≤ pipesize
    → (q : Pipe) × (pipewrite dead cs p ≡ all q) × Holds p cs q
unfolding pipewrite
pipewrite-all dead [] {p} v h = (p, refl, Holds-nil v)
pipewrite-all dead (c ∷ cs) {p} v h = elim (Bool-cases (is_full p)) [
  | inl full ↦ absurd (omega (arith, (full_iff v).0 full))
  | inr room ↦
      let (q, run, held) =
        pipewrite-all dead cs (put-IsValid v c room) (omega (arith, count-put v c room)) in
      (q, rw (room, run) refl, Holds-cons c cs v room held)
]

take-length : (xs : List ℕ) → take (length xs) xs ≡ xs
take-length [] = refl
take-length (x ∷ xs) = ap (λ ys. x ∷ ys) (take-length xs)

read_back :
    (dead : Bool) (xs : List ℕ) {q : Pipe}
    → IsValid q
    → contents q ≡ xs
    → xs ≢ []
    → (r : Pipe) × (piperead dead (length xs) q ≡ bytes xs r)
read_back dead xs {q} v e some =
    go (piperead dead (length xs) q) refl (piperead-ReadPost dead (length xs) v)
  where
    go :
        (out : Read)
        → piperead dead (length xs) q ≡ out
        → ReadPost dead (length xs) q out
        → (r : Pipe) × (piperead dead (length xs) q ≡ bytes xs r)
    go (bytes ys r) run (got, left, v', ends, why) =
        let same : ys ≡ xs = rw (e, take-length) at got in (r, run ∙ ap (λ zs. bytes zs r) same)
    go killed run (nil, opened, hit) = absurd (some (sym e ∙ nil))
    go waits run (nil, opened, live) = absurd (some (sym e ∙ nil))

-- What is written into an empty pipe, up to its capacity, is read back as it was written.
pub piperead-pipewrite :
    (dead dead' : Bool) (c : ℕ) (cs : List ℕ) {p : Pipe}
    → IsValid p
    → contents p ≡ []
    → length (c ∷ cs) ≤ pipesize
    → (q r : Pipe) × (pipewrite dead (c ∷ cs) p ≡ all q)
      × (piperead dead' (length (c ∷ cs)) q ≡ bytes (c ∷ cs) r)
piperead-pipewrite dead dead' c cs {p} v nil fit =
    let none_left : count p ≡ 0 = sym (length-window p.buf p.nread (count p)) ∙ ap length nil in
    let (q, run, held) = pipewrite-all dead (c ∷ cs) v (omega arith) in
    let full : contents q ≡ c ∷ cs = held.held ∙ ap (λ xs. xs ++ (c ∷ cs)) nil in
    let (r, read) = read_back dead' (c ∷ cs) held.valid full (λ e. cc) in (q, r, run, read)
