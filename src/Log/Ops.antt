-- ===== src/Log/Ops.antt =====
-- `begin_op`, `end_op` and `log_write` of xv6-public/log.c, each under `log.lock`.
use cserl_bootcamp.Common.{
  ℕ, zero, suc, ◌+◌, ◌-◌, ◌*◌, Bool, true, false, ◌||◌, List, [], ◌∷◌, ◌++◌, ◌==◌, ltb, leb,
  if◌then◌else◌, length,
}
use cserl_bootcamp.Log.{maxopblocks, logsize}
use cserl_bootcamp.Log.Crash.{mem}

-- `log.lh`, `log.outstanding` and `log.committing`
pub record Book : Type 0 where
  pub lh : List ℕ
  pub outstanding : ℕ
  pub committing : Bool

-- One round of the loop of `begin_op`.
pub data Begin : Type 0 where
  sleeps : Begin
  entered : Book → Begin

unfoldable pub begin_op : Book → Begin
begin_op l =
    if l.committing
    then sleeps
    else if ltb logsize (length l.lh + (l.outstanding + 1) * maxopblocks)
    then sleeps
    else entered (record l { outstanding = l.outstanding + 1 })

-- `end_op` up to its first `release`: it panics, it goes on to commit, or it wakes the others.
-- `negative` stands for a count that falls below 0, which no caller of `begin_op` can bring about.
pub data End : Type 0 where
  negative : End
  panics : End
  commits : Book → End
  wakes : Book → End

unfoldable pub end_op : Book → End
end_op l = elim l.outstanding [
  | zero ↦ negative
  | suc k ↦
      if l.committing
      then panics
      else if k == 0
      then commits (record l { outstanding = 0; committing = true })
      else wakes (record l { outstanding = k })
]

-- The rest of `end_op`, after `commit`, which leaves no block in the header.
unfoldable pub end_commit : Book → Book
end_commit l = record l { lh = []; committing = false }

pub data Logged : Type 0 where
  too_big : Logged
  outside_trans : Logged
  logged : Book → Logged

-- `log_write` of a buffer for block `b`, with `log.size` as `size`.
unfoldable pub log_write : (size b : ℕ) → Book → Logged
log_write size b l =
    if leb logsize (length l.lh) || leb (size - 1) (length l.lh)
    then too_big
    else if ltb l.outstanding 1
    then outside_trans
    else logged (if mem b l.lh then l else record l { lh = l.lh ++ (b ∷ []) })
