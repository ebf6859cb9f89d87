-- ===== src/Log/Reserve/Room.antt =====
-- When `log_write` finds room.
use cserl_bootcamp.Common.{
  ℕ, zero, suc, ◌+◌, ◌≤◌, ◌<◌, ◌≡◌, refl, false, List, [], ◌∷◌, ◌++◌, if◌then◌else◌, length,
  get_elem?, some, arith,
}
use cserl_bootcamp.Log.{logsize}
use cserl_bootcamp.Log.Crash.{mem}
use cserl_bootcamp.Log.Ops.{Book, too_big, logged, log_write}
use cserl_bootcamp.Log.Reserve.{System, sum, Reach, here, next, IsReserved}
use cserl_bootcamp.Log.Reserve.Keeps.{Step-IsReserved}

-- The log after `initlock` and recovery: nothing logged and no call in progress.
abbrev pub idle : System
idle = record { book = record { lh = []; outstanding = 0; committing = false }; budgets = [] }

Reach-IsReserved : {size : ℕ} {s : System} → Reach size idle s → IsReserved s
Reach-IsReserved here = record { calls = refl; room = omega arith; each = tt; alone = λ e. refl }
Reach-IsReserved (next r st) = Step-IsReserved st (Reach-IsReserved r)

get-sum : (ks : List ℕ) (i k : ℕ) → get_elem? ks i ≡ some k → k ≤ sum ks
get-sum [] i k e = absurd (ground arith)
get-sum (j ∷ ks) zero k e = ground arith
get-sum (j ∷ ks) (suc i) k e = omega (arith, get-sum ks i k e)

get-length : (ks : List ℕ) (i k : ℕ) → get_elem? ks i ≡ some k → 0 < length ks
get-length [] i k e = absurd (ground arith)
get-length (j ∷ ks) i k e = omega arith

-- In every state that the log reaches, a system call in progress that has logged fewer than
-- MAXOPBLOCKS new blocks may log another: `log_write` does not panic, provided that the log area is
-- larger than LOGSIZE. Fewer than LOGSIZE blocks are logged before, and the header then names the
-- block too.
pub Reach-log_write :
    (size b i k : ℕ) {s : System}
    → logsize < size
    → Reach size idle s
    → get_elem? s.budgets i ≡ some (suc k)
    → (length s.book.lh < logsize)
      × ((l : Book) × (log_write size b s.book ≡ logged l)
          × (l.lh ≡ (if mem b s.book.lh then s.book.lh else s.book.lh ++ (b ∷ []))))
unfolding log_write
Reach-log_write size b i k {s} big reach at =
    let r = Reach-IsReserved reach in
    let lt : length s.book.lh < logsize = omega (arith, r.room, get-sum s.budgets i (suc k) at) in
    let calls : 0 < s.book.outstanding =
      omega (arith, r.calls, get-length s.budgets i (suc k) at) in
    (
      lt,
      (
        (if mem b s.book.lh then s.book else record (s.book) { lh = s.book.lh ++ (b ∷ []) }),
        ground arith,
        ground arith,
      ),
    )

-- With a log area of LOGSIZE blocks, as mkfs.c makes it, `log_write` panics as soon as all but one
-- of the blocks that `begin_op` gives out are logged, whoever may still log a block.
pub log_write-too_big :
    (b : ℕ) (l : Book) → logsize ≤ length l.lh + 1 → log_write logsize b l ≡ too_big
unfolding log_write
log_write-too_big b l h = ground arith
