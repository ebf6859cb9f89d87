-- ===== src/Log/Crash.antt =====
-- When a disk recovers to given contents, and what one write does to that.
use cserl_bootcamp.Common.{
  ℕ, zero, suc, ◌+◌, ◌<◌, ◌≡◌, refl, ap, Bool, true, false, ◌||◌, ◌&&◌, List, [], ◌∷◌, ◌==◌, ltb,
  leb, length, get_elem?, take, some,
}
use cserl_bootcamp.Log.{
  Block, Disk, Area, State, Run, ok, crashed, ◌>>=◌, put, bwrite, overlay, encode, decode,
}

-- The blocks of the log area: the header and the log blocks.
abbrev pub in_log : Area → ℕ → Bool
in_log log a = leb log.start a && ltb a (log.start + log.size)

abbrev pub mem : ℕ → List ℕ → Bool
mem a [] = false
mem a (b ∷ bs) = (a == b) || mem a bs

-- Recovery of disk `d` leaves contents `h` outside the log: what the header names is in the log,
-- and everything else is in its place.
pub record Recovers (log : Area) (d h : Disk) : Type 0 where
  pub blocks : List ℕ
  pub header : decode (d log.start) ≡ blocks
  pub fits : length blocks < log.size
  pub outside : (b : ℕ) → mem b blocks ≡ true → in_log log b ≡ false
  pub home : (b : ℕ) → in_log log b ≡ false → mem b blocks ≡ false → d b ≡ h b
  pub logged : (i b : ℕ) → get_elem? blocks i ≡ some b → d (log.start + i + 1) ≡ h b

-- What holds of a run that ends, and of the disk of one that stops.
pub data Ends (P : State → Type 0) (Q : Disk → Type 0) : Run → Type 0 where
  ended : {s : State} → P s → Ends P Q (ok s)
  stopped : {d : Disk} → Q d → Ends P Q (crashed d)

pub bind :
    {P P' : State → Type 0} {Q : Disk → Type 0} {r : Run} {f : State → Run}
    → Ends P Q r
    → ((s : State) → P s → Ends P' Q (f s))
    → Ends P' Q (r >>= f)
bind (ended p) next = next _ p
bind (stopped q) next = stopped q

pub Ends-ok : {P : State → Type 0} {Q : Disk → Type 0} {s : State} → Ends P Q (ok s) → P s
Ends-ok (ended p) = p

pub Ends-crashed : {P : State → Type 0} {Q : Disk → Type 0} {d : Disk} → Ends P Q (crashed d) → Q d
Ends-crashed (stopped q) = q

pub mono :
    {P P' : State → Type 0} {Q Q' : Disk → Type 0} {r : Run}
    → Ends P Q r
    → ((s : State) → P s → P' s)
    → ((d : Disk) → Q d → Q' d)
    → Ends P' Q' r
mono (ended p) f g = ended (f _ p)
mono (stopped q) f g = stopped (g _ q)

-- The state after a write that the power lasts for.
abbrev pub written : ℕ → Block → ℕ → State → State
written b w k s = record s { disk = put s.disk b w; view = put s.view b w; power = k }

pub bwrite-Ends :
    {P : State → Type 0} {Q : Disk → Type 0} (b : ℕ) (w : Block) (s : State)
    → Q s.disk
    → ((k : ℕ) → P (written b w k s))
    → Ends P Q (bwrite b w s)
unfolding bwrite
bwrite-Ends {P} {Q} b w s q p = go s.power refl
  where
    go : (k : ℕ) → s.power ≡ k → Ends P Q (bwrite b w s)
    go zero e = rw (e, bwrite) (stopped q)
    go (suc k) e = rw (e, bwrite) (ended (p k))

take_all : (ys : List ℕ) → take (length ys) ys ≡ ys
take_all [] = refl
take_all (y ∷ ys) = ap (λ zs. y ∷ zs) (take_all ys)

take-overlay : (xs w : List ℕ) → take (length xs) (overlay xs w) ≡ xs
take-overlay [] w = refl
take-overlay (x ∷ xs) [] = ap (λ ys. x ∷ ys) (take_all xs)
take-overlay (x ∷ xs) (y ∷ w) = ap (λ ys. x ∷ ys) (take-overlay xs w)

-- A header is read back as it was written.
pub decode-encode : (blocks : List ℕ) (w : Block) → decode (encode blocks w) ≡ blocks
decode-encode blocks [] = take_all blocks
decode-encode blocks (y ∷ w) = take-overlay blocks w
