-- ===== src/Log/Examples.antt =====
-- The theorems on the log at a concrete transaction.
use cserl_bootcamp.Common.{
  ℕ, zero, suc, ◌+◌, ◌<◌, ◌≡◌, ◌⊎◌, refl, false, some, [], ◌∷◌, ◌++◌, if◌then◌else◌, get_elem?,
  arith,
}
use cserl_bootcamp.Log.{
  Disk, Area, State, ok, crashed, put, bwrite, commit, recover_from_log, reboot, logsize,
}
use cserl_bootcamp.Log.Crash.{mem, Recovers, Ends}
use cserl_bootcamp.Log.Recovery.{Settled, Cleared, recover_from_log-Ends}
use cserl_bootcamp.Log.Commit.{Ready, after_commit, commit-Ends, recover-commit}
use cserl_bootcamp.Log.Ops.{Book, begin_op, log_write, logged}
use cserl_bootcamp.Log.Reserve.{System, Reach, here, next, begins, adds}
use cserl_bootcamp.Log.Reserve.Room.{idle, Reach-log_write}

-- The log in blocks 2 to 6, and a transaction on blocks 9 and 8, whose power fails at write `power`.
abbrev area : Area
area = record { start = 2; size = 5 }

abbrev old_disk : Disk
old_disk a = if mem a (2 ∷ []) then 0 ∷ 0 ∷ 0 ∷ 0 ∷ [] else a ∷ []

abbrev cached : Disk
cached a = if mem a (8 ∷ 9 ∷ []) then (a + 100) ∷ [] else old_disk a

abbrev transaction : ℕ → State
transaction power = record { disk = old_disk; view = cached; lh = 9 ∷ 8 ∷ []; power = power }

transaction-Ready : Ready area (transaction 4)
transaction-Ready = record {
  cleared = refl;
  fits = omega arith;
  outside = λ b m. ground arith;
  synced = λ a i. ground arith;
}

commit-Ends_example :
    Ends
      (λ s'. Settled area s'.disk (after_commit (transaction 4)) × Cleared area s'.disk)
      (λ d. Recovers area d old_disk ⊎ Recovers area d (after_commit (transaction 4)))
      (commit area (transaction 4))
commit-Ends_example = commit-Ends transaction-Ready

-- The disk after the power failed in the middle of the installation: block 9 is done, block 8 not.
abbrev torn : Disk
torn = put (put (put (put old_disk 3 (109 ∷ [])) 4 (108 ∷ [])) 2 (2 ∷ 9 ∷ 8 ∷ 0 ∷ [])) 9 (109 ∷ [])

abbrev recovered : State
recovered = record {
  disk = put (put (put torn 9 (109 ∷ [])) 8 (108 ∷ [])) 2 (0 ∷ 9 ∷ 8 ∷ 0 ∷ []);
  view = put (put (put torn 9 (109 ∷ [])) 8 (108 ∷ [])) 2 (0 ∷ 9 ∷ 8 ∷ 0 ∷ []);
  lh = [];
  power = 7;
}

commit-torn : commit area (transaction 4) ≡ crashed torn
unfolding commit bwrite
commit-torn = refl

recover_torn : recover_from_log area (reboot torn 10) ≡ ok recovered
unfolding recover_from_log bwrite
recover_torn = refl

recover-commit_example :
    (Settled area recovered.disk old_disk
      ⊎ Settled area recovered.disk (after_commit (transaction 4)))
    × Cleared area recovered.disk
recover-commit_example = recover-commit transaction-Ready torn 10 recovered commit-torn recover_torn

logged_torn :
    (i b : ℕ)
    → get_elem? (9 ∷ 8 ∷ []) i ≡ some b
    → torn (2 + i + 1) ≡ after_commit (transaction 4) b
logged_torn zero b e = ground arith
logged_torn (suc zero) b e = ground arith
logged_torn (suc (suc i)) b e = cc

torn-Recovers : Recovers area torn (after_commit (transaction 4))
torn-Recovers = record {
  blocks = 9 ∷ 8 ∷ [];
  header = refl;
  fits = omega arith;
  outside = λ b m. ground arith;
  home = λ b o m. ground arith;
  logged = logged_torn;
}

recover_from_log-Ends_example :
    Ends
      (λ s. Settled area s.disk (after_commit (transaction 4)) × Cleared area s.disk)
      (λ d'. Recovers area d' (after_commit (transaction 4)))
      (recover_from_log area (reboot torn 2))
recover_from_log-Ends_example = recover_from_log-Ends torn 2 torn-Recovers

abbrev busy : System
busy = record {
  book = record { lh = 7 ∷ []; outstanding = 1; committing = false };
  budgets = 9 ∷ [];
}

busy-Reach : Reach 31 idle busy
unfolding begin_op log_write
busy-Reach = next (next here (begins _ refl refl)) (adds 7 0 9 _ refl refl refl refl)

Reach-log_write_example :
    (1 < logsize)
    × ((l : Book) × (log_write 31 8 busy.book ≡ logged l)
        × (l.lh ≡ (if mem 8 (7 ∷ []) then 7 ∷ [] else (7 ∷ []) ++ (8 ∷ []))))
Reach-log_write_example = Reach-log_write 31 8 0 8 (omega arith) busy-Reach refl
