-- ===== src/Pipe.antt =====
-- xv6-public/pipe.c: the ring of bytes of a pipe, its two ends, and the calls that write, read and
-- close. A call runs under `p->lock` until it returns or sleeps.
pub mod Ring
pub mod Calls
pub mod Roundtrip
mod Examples
use cserl_bootcamp.Common.{
  ℕ, zero, suc, ◌+◌, ◌-◌, ◌%◌, ◌^◌, Bool, true, false, not, ◌&&◌, ◌||◌, List, [], ◌∷◌, ◌==◌,
  if◌then◌else◌, get_or, set, replicate,
}

abbrev pub pipesize : ℕ
pipesize = 512

-- `struct pipe`; the counters are `uint`.
pub record Pipe : Type 0 where
  pub buf : List ℕ
  pub nread : ℕ
  pub nwrite : ℕ
  pub readopen : Bool
  pub writeopen : Bool

-- The pipe that `pipealloc` sets up in a fresh page, whose bytes are `junk`.
unfoldable pub pipealloc : List ℕ → Pipe
pipealloc junk = record { buf = junk; nread = 0; nwrite = 0; readopen = true; writeopen = true }

abbrev pub is_full : Pipe → Bool
is_full p = p.nwrite == (p.nread + pipesize) % 2 ^ 32

abbrev pub is_empty : Pipe → Bool
is_empty p = p.nread == p.nwrite

-- `p->data[p->nwrite++ % PIPESIZE] = c`
abbrev pub put : Pipe → ℕ → Pipe
put p c = record p { buf = set p.buf (p.nwrite % pipesize) c; nwrite = (p.nwrite + 1) % 2 ^ 32 }

-- `p->data[p->nread++ % PIPESIZE]`
abbrev pub head : Pipe → ℕ
head p = get_or p.buf (p.nread % pipesize) 0

abbrev pub advance : Pipe → Pipe
advance p = record p { nread = (p.nread + 1) % 2 ^ 32 }

-- How a run of `pipewrite` over the bytes that are left ends: it has written them all, it fails
-- because nobody reads or the writer has been killed, or it sleeps with some bytes left.
pub data Written : Type 0 where
  all : Pipe → Written
  broken : Pipe → Written
  sleeps : List ℕ → Pipe → Written

unfoldable pub pipewrite : (killed : Bool) → List ℕ → Pipe → Written
pipewrite killed [] p = all p
pipewrite killed (c ∷ cs) p =
    let rest = pipewrite killed cs (put p c) in
    if is_full p then if not p.readopen || killed then broken p else sleeps (c ∷ cs) p else rest

-- The copying loop of `piperead`: at most `n` bytes.
unfoldable pub read_loop : ℕ → Pipe → List ℕ × Pipe
read_loop zero p = ([], p)
read_loop (suc n) p =
    let (cs, p') = read_loop n (advance p) in if is_empty p then ([], p) else (head p ∷ cs, p')

-- `piperead`: the bytes that it stores (it returns their number), a failure, or a sleep.
pub data Read : Type 0 where
  bytes : List ℕ → Pipe → Read
  killed : Read
  waits : Read

unfoldable pub piperead : (dead : Bool) → ℕ → Pipe → Read
unfolding read_loop
piperead dead n p =
    if is_empty p && p.writeopen
    then if dead then killed else waits
    else (let (cs, p') = read_loop n p in bytes cs p')

-- `pipeclose`: the pipe, and whether its page is freed.
unfoldable pub pipeclose : Pipe → Bool → Pipe × Bool
pipeclose p writable =
    let p' = if writable then record p { writeopen = false } else record p { readopen = false } in
    (p', not p'.readopen && not p'.writeopen)
