-- ===== src/Log/Reserve.antt =====
-- The reservation of log space: `begin_op` lets a system call in only where its writes will fit.
pub mod Keeps
pub mod Room
use cserl_bootcamp.Common.{
  ℕ, zero, suc, ◌+◌, ◌-◌, ◌*◌, ◌≤◌, ◌<◌, ◌≡◌, ◌≢◌, refl, ap, ◌∙◌, Bool, true, false, ◌||◌, ◌&&◌,
  List, [], ◌∷◌, ◌++◌, ◌==◌, ltb, leb, if◌then◌else◌, length, length-append, length-set, set,
  get_elem?, some, none, Bool-cases, inl, inr, arith,
}
use cserl_bootcamp.Log.{maxopblocks, logsize}
use cserl_bootcamp.Log.Crash.{mem}
use cserl_bootcamp.Log.Ops.{
  Book, Begin, sleeps, entered, begin_op, End, negative, panics, commits, wakes, end_op, end_commit,
  Logged, too_big, outside_trans, logged, log_write,
}

-- The log with the number of blocks that each system call in progress may still add.
pub record System : Type 0 where
  pub book : Book
  pub budgets : List ℕ

abbrev pub sum : List ℕ → ℕ
sum [] = 0
sum (k ∷ ks) = k + sum ks

abbrev pub remove : List ℕ → ℕ → List ℕ
remove [] i = []
remove (k ∷ ks) zero = ks
remove (k ∷ ks) (suc i) = k ∷ remove ks i

abbrev pub Small : List ℕ → Type 0
Small [] = Unit {0}
Small (k ∷ ks) = (k ≤ maxopblocks) × Small ks

-- System calls begin, log blocks that are new or already there, and end; a commit ends.
pub data Step (size : ℕ) (s t : System) : Type 0 where
  begins :
      (l : Book)
      → begin_op s.book ≡ entered l
      → t ≡ record { book = l; budgets = maxopblocks ∷ s.budgets }
      → Step size s t
  adds :
      (b i k : ℕ) (l : Book)
      → get_elem? s.budgets i ≡ some (suc k)
      → mem b s.book.lh ≡ false
      → log_write size b s.book ≡ logged l
      → t ≡ record { book = l; budgets = set s.budgets i k }
      → Step size s t
  absorbs :
      (b : ℕ) (l : Book)
      → mem b s.book.lh ≡ true
      → log_write size b s.book ≡ logged l
      → t ≡ record { book = l; budgets = s.budgets }
      → Step size s t
  ends :
      (i k : ℕ) (l : Book)
      → get_elem? s.budgets i ≡ some k
      → end_op s.book ≡ wakes l
      → t ≡ record { book = l; budgets = remove s.budgets i }
      → Step size s t
  ends_last :
      (i k : ℕ) (l : Book)
      → get_elem? s.budgets i ≡ some k
      → end_op s.book ≡ commits l
      → t ≡ record { book = l; budgets = remove s.budgets i }
      → Step size s t
  committed :
      s.book.committing ≡ true
      → t ≡ record { book = end_commit s.book; budgets = s.budgets }
      → Step size s t

pub data Reach (size : ℕ) (s : System) : System → Type 0 where
  here : Reach size s s
  next : {t u : System} → Reach size s t → Step size t u → Reach size s u

-- What is logged and what may still be logged fit together, and a commit runs alone.
pub record IsReserved (s : System) : Type 0 where
  pub calls : s.book.outstanding ≡ length s.budgets
  pub room : length s.book.lh + sum s.budgets ≤ logsize
  pub each : Small s.budgets
  pub alone : s.book.committing ≡ true → s.budgets ≡ []
