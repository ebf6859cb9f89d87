-- ===== src/Pipe/Examples.antt =====
-- The theorems on pipes at concrete pipes.
use cserl_bootcamp.Common.{◌-◌, ◌^◌, ◌≡◌, refl, true, false, [], ◌∷◌, ◌++◌, replicate, arith}
use cserl_bootcamp.Pipe.{Pipe, pipewrite, piperead, all, bytes}
use cserl_bootcamp.Pipe.Ring.{IsValid, contents}
use cserl_bootcamp.Pipe.Calls.{WritePost, ReadPost, pipewrite-WritePost, piperead-ReadPost}
use cserl_bootcamp.Pipe.Roundtrip.{piperead-pipewrite}

-- Two bytes across the end of the ring, and counters about to wrap.
abbrev wrapped : Pipe
wrapped = record {
  buf = 9 ∷ replicate 510 0 ++ (8 ∷ []);
  nread = 2 ^ 32 - 1;
  nwrite = 1;
  readopen = true;
  writeopen = true;
}

abbrev fresh : Pipe
fresh = record { buf = replicate 512 0; nread = 5; nwrite = 5; readopen = true; writeopen = true }

wrapped-IsValid : IsValid wrapped
wrapped-IsValid = omega arith

fresh-IsValid : IsValid fresh
fresh-IsValid = omega arith

contents-wrapped : contents wrapped ≡ 8 ∷ 9 ∷ []
contents-wrapped = refl

pipewrite-WritePost_example :
    WritePost false (1 ∷ 2 ∷ []) wrapped (pipewrite false (1 ∷ 2 ∷ []) wrapped)
pipewrite-WritePost_example = pipewrite-WritePost false (1 ∷ 2 ∷ []) wrapped-IsValid

piperead-ReadPost_example : ReadPost false 1 wrapped (piperead false 1 wrapped)
piperead-ReadPost_example = piperead-ReadPost false 1 wrapped-IsValid

piperead-pipewrite_example :
    (q r : Pipe) × (pipewrite false (7 ∷ 8 ∷ []) fresh ≡ all q)
    × (piperead false 2 q ≡ bytes (7 ∷ 8 ∷ []) r)
piperead-pipewrite_example =
    piperead-pipewrite false false 7 (8 ∷ []) fresh-IsValid refl (omega arith)
