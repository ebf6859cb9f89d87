-- ===== src/Proc/Invariant/Keep.antt =====
-- The functions of the process table that keep every process in its phase, and the invariant.
use cserl_bootcamp.Common.{
  ℤ, ℕ, ◌≡◌, some, ◌==◌, find_index, Option-cases, Bool-cases, inl, inr, arith,
}
use cserl_bootcamp.Proc.Table.{
  running, Chan, Proc, PTable, is_runnable, proc_at, proc_at?, kill, sleep_on, awake, yield,
  dispatch, growproc, new_size,
}
use cserl_bootcamp.Proc.Slots.{proc_at-proc_at?}
use cserl_bootcamp.Proc.Invariant.{IsValid, update-IsValid}

-- `kill` keeps the invariant, whichever process it finds.
pub kill-IsValid : (pid : ℕ) {t : PTable} → IsValid t → IsValid (kill pid t).1
unfolding kill
kill-IsValid pid {t} v = elim (Option-cases (find_index (λ p. p.pid == pid) t.procs)) [
  | inl stop ↦ rw (stop, kill) v
  | inr (i, found) ↦ rw (found, kill) (update-IsValid i _ (λ p e. ground arith) v)
]

module _ (cur : ℕ) {t : PTable} {p : Proc} (e : proc_at? t cur ≡ some p) where
  -- `sleep` by a running process keeps the invariant.
  pub sleep_on-IsValid : (c : Chan) → p.state ≡ running → IsValid t → IsValid (sleep_on cur c t)
  unfolding sleep_on
  sleep_on-IsValid c run v = update-IsValid cur _ (λ q e'. ground (arith, e)) v

  -- `yield` by a running process keeps the invariant.
  pub yield-IsValid : p.state ≡ running → IsValid t → IsValid (yield cur t)
  unfolding yield
  yield-IsValid run v = update-IsValid cur _ (λ q e'. ground (arith, e)) v

-- The end of `sleep` keeps the invariant.
pub awake-IsValid : (cur : ℕ) {t : PTable} → IsValid t → IsValid (awake cur t)
unfolding awake
awake-IsValid cur v = update-IsValid cur _ (λ q e. ground arith) v

-- A round of `scheduler` keeps the invariant.
pub dispatch-IsValid : (i : ℕ) {t : PTable} → IsValid t → IsValid (dispatch i t).1
unfolding dispatch
dispatch-IsValid i {t} v = elim (Bool-cases (is_runnable (proc_at t i).state)) [
  | inl run ↦ rw run (update-IsValid i _ (λ q e. ground (arith, proc_at-proc_at? t i {p = q} e)) v)
  | inr other ↦ rw other v
]

-- `growproc` keeps the invariant, whatever it makes of the size.
pub growproc-IsValid :
    (allocuvm deallocuvm : (oldsz newsz : ℕ) → ℕ) (n : ℤ) (cur : ℕ) {t : PTable}
    → IsValid t
    → IsValid (growproc allocuvm deallocuvm n cur t).1
unfolding growproc
growproc-IsValid allocuvm deallocuvm n cur {t} v =
    elim (Option-cases (new_size allocuvm deallocuvm n (proc_at t cur).sz)) [
      | inl fails ↦ rw (fails, growproc) v
      | inr (sz, got) ↦ rw (got, growproc) (update-IsValid cur _ (λ q e. ground arith) v)
    ]
