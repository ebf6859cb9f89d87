-- ===== src/Log.antt =====
-- The write-ahead log of xv6-public/log.c. A block is the list of its 32-bit words. `view` is what
-- `bread` returns, the cached copy of a block where there is one; `disk` is what survives a crash.
-- Each `bwrite` takes one unit of `power`, and the machine stops where a write finds none.
pub mod Crash
pub mod Recovery
mod Examples
pub mod Commit
pub mod Ops
pub mod Reserve
use cserl_bootcamp.Common.{
  ℕ, zero, suc, ◌+◌, ◌-◌, ◌*◌, Bool, true, false, ◌||◌, List, [], ◌∷◌, ◌++◌, ◌==◌, ltb, leb,
  if◌then◌else◌, length, get_or, take, drop,
}

abbrev pub maxopblocks : ℕ
maxopblocks = 10

abbrev pub logsize : ℕ
logsize = 30

abbrev pub Block : Type 0
Block = List ℕ

abbrev pub Disk : Type 0
Disk = ℕ → Block

-- `log.start` and `log.size`
pub record Area : Type 0 where
  pub start : ℕ
  pub size : ℕ

-- The disk, what `bread` sees, `log.lh` (its `n` is the length) and the power that is left.
pub record State : Type 0 where
  pub disk : Disk
  pub view : Disk
  pub lh : List ℕ
  pub power : ℕ

pub data Run : Type 0 where
  ok : State → Run
  crashed : Disk → Run

infixl 5 ◌>>=◌
abbrev pub ◌>>=◌ : Run → (State → Run) → Run
ok s >>= f = f s
crashed d >>= f = crashed d

abbrev pub put : Disk → ℕ → Block → Disk
put d b w a = if a == b then w else d a

-- `bwrite` of a buffer for block `b` that holds `w`.
unfoldable pub bwrite : ℕ → Block → State → Run
bwrite b w s = elim s.power [
  | zero ↦ crashed s.disk
  | suc k ↦ ok (record s { disk = put s.disk b w; view = put s.view b w; power = k })
]

-- Assignments to the first words of a block.
abbrev pub overlay : List ℕ → Block → Block
overlay [] w = w
overlay (x ∷ xs) [] = x ∷ xs
overlay (x ∷ xs) (y ∷ w) = x ∷ overlay xs w

-- `struct logheader` in a block: `n`, and then `block[0 .. n)`.
abbrev pub encode : List ℕ → Block → Block
encode blocks w = overlay (length blocks ∷ blocks) w

abbrev pub decode : Block → List ℕ
decode w = take (get_or w 0 0) (drop 1 w)

module _ (log : Area) where
  -- `install_trans` from `tail` on.
  unfoldable pub install_from : ℕ → List ℕ → State → Run
  install_from tail [] s = ok s
  install_from tail (b ∷ bs) s =
      bwrite b (s.view (log.start + tail + 1)) s >>= install_from (tail + 1) bs

  unfoldable pub install_trans : State → Run
  unfolding install_from
  install_trans s = install_from 0 s.lh s

  unfoldable pub read_head : State → State
  read_head s = record s { lh = decode (s.view log.start) }

  unfoldable pub write_head : State → Run
  write_head s = bwrite log.start (encode s.lh (s.view log.start)) s

  unfoldable pub recover_from_log : State → Run
  unfolding install_trans read_head write_head
  recover_from_log s = install_trans (read_head s) >>= λ s'. write_head (record s' { lh = [] })

  -- `write_log` from `tail` on.
  unfoldable pub write_log_from : ℕ → List ℕ → State → Run
  write_log_from tail [] s = ok s
  write_log_from tail (b ∷ bs) s =
      bwrite (log.start + tail + 1) (s.view b) s >>= write_log_from (tail + 1) bs

  unfoldable pub write_log : State → Run
  unfolding write_log_from
  write_log s = write_log_from 0 s.lh s

  unfoldable pub commit : State → Run
  unfolding write_log write_head install_trans
  commit s =
      if ltb 0 (length s.lh)
      then (write_log s
          >>= write_head
          >>= install_trans
          >>= (λ s'. write_head (record s' { lh = [] })))
      else ok s

-- The machine after a crash: memory is lost.
abbrev pub reboot : Disk → ℕ → State
reboot d power = record { disk = d; view = d; lh = []; power = power }
