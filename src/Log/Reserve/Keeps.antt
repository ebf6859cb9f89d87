-- ===== src/Log/Reserve/Keeps.antt =====
-- Every step of the log keeps the reservation.
use cserl_bootcamp.Common.{
  ℕ, zero, suc, ◌*◌, ◌≤◌, ◌≡◌, refl, ap, true, false, List, [], ◌∷◌, length, length-append,
  length-set, set, get_elem?, some, arith,
}
use cserl_bootcamp.Log.{maxopblocks}
use cserl_bootcamp.Log.Crash.{mem}
use cserl_bootcamp.Log.Ops.{
  Book, entered, begin_op, commits, wakes, end_op, end_commit, logged, log_write,
}
use cserl_bootcamp.Log.Reserve.{
  System, sum, remove, Small, Step, begins, adds, absorbs, ends, ends_last, committed, IsReserved,
}

sum-le : (ks : List ℕ) → Small ks → sum ks ≤ length ks * maxopblocks
sum-le [] h = omega arith
sum-le (k ∷ ks) h = omega (arith, sum-le ks h.1)

sum-set : (ks : List ℕ) (i k : ℕ) → get_elem? ks i ≡ some (suc k) → suc (sum (set ks i k)) ≡ sum ks
sum-set [] i k e = absurd (ground arith)
sum-set (j ∷ ks) zero k e = ground arith
sum-set (j ∷ ks) (suc i) k e = omega (arith, sum-set ks i k e)

Small-set : (ks : List ℕ) (i k : ℕ) → get_elem? ks i ≡ some (suc k) → Small ks → Small (set ks i k)
Small-set [] i k e h = h
Small-set (j ∷ ks) zero k e h = ground arith
Small-set (j ∷ ks) (suc i) k e h = (h.0, Small-set ks i k e h.1)

sum-remove : (ks : List ℕ) (i : ℕ) → sum (remove ks i) ≤ sum ks
sum-remove [] i = omega arith
sum-remove (j ∷ ks) zero = omega arith
sum-remove (j ∷ ks) (suc i) = omega (arith, sum-remove ks i)

Small-remove : (ks : List ℕ) (i : ℕ) → Small ks → Small (remove ks i)
Small-remove [] i h = h
Small-remove (j ∷ ks) zero h = h.1
Small-remove (j ∷ ks) (suc i) h = (h.0, Small-remove ks i h.1)

length-remove :
    (ks : List ℕ) (i k : ℕ) → get_elem? ks i ≡ some k → suc (length (remove ks i)) ≡ length ks
length-remove [] i k e = absurd (ground arith)
length-remove (j ∷ ks) zero k e = refl
length-remove (j ∷ ks) (suc i) k e = ap suc (length-remove ks i k e)

length-nil : (ks : List ℕ) → length ks ≡ 0 → ks ≡ []
length-nil [] e = refl
length-nil (k ∷ ks) e = absurd (omega arith)

module _ (size : ℕ) {s : System} (r : IsReserved s) where
  begins-IsReserved :
      (l : Book)
      → begin_op s.book ≡ entered l
      → IsReserved (record { book = l; budgets = maxopblocks ∷ s.budgets })
  unfolding begin_op
  begins-IsReserved l e = record {
    calls = ground (arith, r.calls);
    room = ground (arith, r.calls, sum-le s.budgets r.each);
    each = (omega arith, r.each);
    alone = ground arith;
  }

  adds-IsReserved :
      (b i k : ℕ) (l : Book)
      → get_elem? s.budgets i ≡ some (suc k)
      → mem b s.book.lh ≡ false
      → log_write size b s.book ≡ logged l
      → IsReserved (record { book = l; budgets = set s.budgets i k })
  unfolding log_write
  adds-IsReserved b i k l at new e = record {
    calls = ground (arith, r.calls, length-set s.budgets i k);
    room = ground (arith, r.room, sum-set s.budgets i k at, length-append {0} s.book.lh (b ∷ []));
    each = Small-set s.budgets i k at r.each;
    alone = λ c. let nil : s.budgets ≡ [] = r.alone (ground arith) in absurd (cc (rw nil at at));
  }

  absorbs-IsReserved :
      (b : ℕ) (l : Book)
      → mem b s.book.lh ≡ true
      → log_write size b s.book ≡ logged l
      → IsReserved (record { book = l; budgets = s.budgets })
  unfolding log_write
  absorbs-IsReserved b l old e = ground (arith, r.calls, r.room, r.each, r.alone)

  ends-IsReserved :
      (i k : ℕ) (l : Book)
      → get_elem? s.budgets i ≡ some k
      → end_op s.book ≡ wakes l
      → IsReserved (record { book = l; budgets = remove s.budgets i })
  unfolding end_op
  ends-IsReserved i k l at e = record {
    calls = ground (arith, r.calls, length-remove s.budgets i k at);
    room = ground (arith, r.room, sum-remove s.budgets i);
    each = Small-remove s.budgets i r.each;
    alone = ground arith;
  }

  ends_last-IsReserved :
      (i k : ℕ) (l : Book)
      → get_elem? s.budgets i ≡ some k
      → end_op s.book ≡ commits l
      → IsReserved (record { book = l; budgets = remove s.budgets i })
  unfolding end_op
  ends_last-IsReserved i k l at e = record {
    calls = ground (arith, r.calls, length-remove s.budgets i k at);
    room = ground (arith, r.room, sum-remove s.budgets i);
    each = Small-remove s.budgets i r.each;
    alone = λ c.
        length-nil (remove s.budgets i) (ground (arith, r.calls, length-remove s.budgets i k at));
  }

  committed-IsReserved :
      s.book.committing ≡ true
      → IsReserved (record { book = end_commit s.book; budgets = s.budgets })
  unfolding end_commit
  committed-IsReserved busy = record {
    calls = r.calls;
    room = omega (arith, r.room);
    each = r.each;
    alone = λ e. absurd (ground arith);
  }

-- Every step keeps the reservation.
pub Step-IsReserved : {size : ℕ} {s t : System} → Step size s t → IsReserved s → IsReserved t
Step-IsReserved {size} (begins l e u) r = rw u (begins-IsReserved size r l e)
Step-IsReserved {size} (adds b i k l at new e u) r = rw u (adds-IsReserved size r b i k l at new e)
Step-IsReserved {size} (absorbs b l old e u) r = rw u (absorbs-IsReserved size r b l old e)
Step-IsReserved {size} (ends i k l at e u) r = rw u (ends-IsReserved size r i k l at e)
Step-IsReserved {size} (ends_last i k l at e u) r = rw u (ends_last-IsReserved size r i k l at e)
Step-IsReserved {size} (committed busy u) r = rw u (committed-IsReserved size r busy)
