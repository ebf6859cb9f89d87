-- ===== src/Log/Commit.antt =====
-- `commit` is atomic: a crash at any write leaves the old contents or the new ones.
use mathlib.Core.Path.{subst}
use cserl_bootcamp.Common.{
  ℕ, suc, ◌+◌, ◌<◌, ◌≡◌, ◌⊎◌, refl, sym, true, false, List, [], ◌∷◌, ltb, if◌then◌else◌, length,
  get_elem?, get_elem?-lt, some, Bool-cases, inl, inr, arith,
}
use cserl_bootcamp.Log.{
  Disk, Area, State, ok, crashed, install_trans, write_head, write_log_from, commit,
  recover_from_log, reboot,
}
use cserl_bootcamp.Log.Crash.{
  in_log, mem, Recovers, Ends, ended, Ends-ok, Ends-crashed, bind, mono, written, bwrite-Ends,
  decode-encode,
}
use cserl_bootcamp.Log.Recovery.{
  Settled, Cleared, LogSynced, Installing, mem-get, slot_in_log, install_from-Ends, clear-Ends,
  recover_from_log-Ends,
}

-- The contents that a transaction makes: the cached copies of the blocks that it names.
abbrev pub after_commit : State → Disk
after_commit s b = if mem b s.lh then s.view b else s.disk b

-- A transaction that is ready to commit.
pub record Ready (log : Area) (s : State) : Type 0 where
  pub cleared : Cleared log s.disk
  pub fits : length s.lh < log.size
  pub outside : (b : ℕ) → mem b s.lh ≡ true → in_log log b ≡ false
  pub synced : LogSynced log s

-- Where `write_log` stands, started at `s`, with the blocks `rest` to go.
record Logging (log : Area) (s : State) (tail : ℕ) (rest : List ℕ) (t : State) : Type 0 where
  cleared : Cleared log t.disk
  home : (b : ℕ) → in_log log b ≡ false → t.disk b ≡ s.disk b
  views : (b : ℕ) → in_log log b ≡ false → t.view b ≡ s.view b
  synced : LogSynced log t
  lh : t.lh ≡ s.lh
  size : tail + length rest ≡ length s.lh
  todo : (i b : ℕ) → get_elem? rest i ≡ some b → get_elem? s.lh (tail + i) ≡ some b
  done : (i b : ℕ) → i < tail → get_elem? s.lh i ≡ some b → t.disk (log.start + i + 1) ≡ s.view b

length-nil : (xs : List ℕ) → length xs ≡ 0 → xs ≡ []
length-nil [] e = refl
length-nil (x ∷ xs) e = absurd (omega arith)

module _ {log : Area} {s : State} (r : Ready log s) where
  Recovers-cleared : (d : Disk) → Cleared log d → Settled log d s.disk → Recovers log d s.disk
  Recovers-cleared d c same = record {
    blocks = [];
    header = c;
    fits = omega (arith, r.fits);
    outside = λ b m. absurd (ground arith);
    home = λ b o m. same b o;
    logged = λ i b e. absurd (ground arith);
  }

  Logging-next :
      (tail b k : ℕ) (bs : List ℕ) (t : State)
      → Logging log s tail (b ∷ bs) t
      → Logging log s (tail + 1) bs (written (log.start + tail + 1) (s.view b) k t)
  Logging-next tail b k bs t g =
      let here : get_elem? s.lh tail ≡ some b =
        (let z : tail + 0 ≡ tail = omega arith in rw z at (g.todo 0 b refl)) in
      let slot = slot_in_log log s.lh tail b r.fits here in
      record {
        cleared = ground (arith, g.cleared);
        home = λ c o. ground (arith, g.home c o);
        views = λ c o. ground (arith, g.views c o);
        synced = λ a i. ground (arith, g.synced a i);
        lh = g.lh;
        size = omega (arith, g.size);
        todo =
            λ i c e. let z : tail + 1 + i ≡ tail + suc i = omega arith in rw z (g.todo (suc i) c e);
        done = λ i c lt e. ground (arith, g.done i c);
      }

  write_log_from-Ends :
      (tail : ℕ) (rest : List ℕ) (t : State)
      → Logging log s tail rest t
      → Ends
          (λ t'. Logging log s (length s.lh) [] t')
          (λ d. Recovers log d s.disk)
          (write_log_from log tail rest t)
  unfolding write_log_from
  write_log_from-Ends tail [] t g =
      let z : tail ≡ length s.lh = omega (arith, g.size) in ended (rw (← z) g)
  write_log_from-Ends tail (b ∷ bs) t g =
      let here : get_elem? s.lh tail ≡ some b =
        (let z : tail + 0 ≡ tail = omega arith in rw z at (g.todo 0 b refl)) in
      let w : t.view b ≡ s.view b = g.views b (r.outside b (mem-get s.lh tail b here)) in
      rw w (
        bind
          (bwrite-Ends {P = λ t'. Logging log s (tail + 1) bs t'} (log.start + tail + 1) (s.view b)
            t (Recovers-cleared t.disk g.cleared g.home) (λ k. Logging-next tail b k bs t g))
          (λ t' g'. write_log_from-Ends (tail + 1) bs t' g'))

  -- The write of the header is the commit.
  write_head-Ends :
      (t : State)
      → Logging log s (length s.lh) [] t
      → Ends
          (λ t'. Installing log (after_commit s) 0 s.lh t' × (t'.lh ≡ s.lh))
          (λ d. Recovers log d s.disk)
          (write_head log t)
  unfolding write_head
  write_head-Ends t g = bwrite-Ends log.start _ t (Recovers-cleared t.disk g.cleared g.home) λ k. (
    record {
      recovers = record {
        blocks = s.lh;
        header = ground (arith, decode-encode t.lh (t.view log.start), g.lh);
        fits = r.fits;
        outside = r.outside;
        home = λ b o m. ground (arith, g.home b o, r.fits);
        logged =
            λ i b e. ground (arith, g.done i b, get_elem?-lt s.lh i {x = b} e, mem-get s.lh i b e);
      };
      synced = λ a i. ground (arith, g.synced a i);
      todo = λ i b e. let z : 0 + i ≡ i = omega arith in rw z e;
      done = λ b o m. ground (arith, g.home b o, r.fits);
    },
    g.lh,
  )

  install_trans-lh :
      (t : State)
      → Installing log (after_commit s) 0 s.lh t
      → t.lh ≡ s.lh
      → Ends
          (λ t'.
            Recovers log t'.disk (after_commit s)
            × Settled log t'.disk (after_commit s)
            × LogSynced log t')
          (λ d. Recovers log d (after_commit s))
          (install_trans log t)
  unfolding install_trans
  install_trans-lh t g e =
      install_from-Ends 0 t.lh t (subst (λ l. Installing log (after_commit s) 0 l t) (sym e) g)

  abbrev pub Either : Disk → Type 0
  Either d = Recovers log d s.disk ⊎ Recovers log d (after_commit s)

  start-Logging : Logging log s 0 s.lh s
  start-Logging = record {
    cleared = r.cleared;
    home = λ b o. refl;
    views = λ b o. refl;
    synced = r.synced;
    lh = refl;
    size = omega arith;
    todo = λ i b e. let z : 0 + i ≡ i = omega arith in rw z e;
    done = λ i b lt e. absurd (omega arith);
  }

  commit_some :
      ltb 0 (length s.lh) ≡ true
      → Ends
          (λ s'. Settled log s'.disk (after_commit s) × Cleared log s'.disk)
          Either
          (commit log s)
  unfolding commit
  commit_some busy =
      rw (busy, commit)
        (bind
          (bind
            (bind (mono (write_log_from-Ends 0 s.lh s start-Logging) (λ t g. g) (λ d. inl))
              (λ t g. mono (write_head-Ends t g) (λ t' g'. g') (λ d. inl)))
            (λ t g. mono (install_trans-lh t g.0 g.1) (λ t' g'. g') (λ d. inr)))
          (λ t g. mono (clear-Ends t (omega (arith, r.fits)) g.0 g.1) (λ t' g'. g') (λ d. inr)))

  -- `commit` of a transaction that fits the log, from a cleared log: if the power lasts, every block
  -- that the transaction names holds its new contents on disk, every other block outside the log is
  -- as it was, and the log is cleared. If the machine stops at any write, the disk recovers either
  -- to the contents before the transaction or to those after it.
  pub commit-Ends :
      Ends
        (λ s'. Settled log s'.disk (after_commit s) × Cleared log s'.disk)
        (λ d. Recovers log d s.disk ⊎ Recovers log d (after_commit s))
        (commit log s)
  unfolding commit
  commit-Ends = elim (Bool-cases (ltb 0 (length s.lh))) [
    | inl busy ↦ commit_some busy
    | inr none_logged ↦ nothing none_logged
  ]
    where
      nothing :
          ltb 0 (length s.lh) ≡ false
          → Ends
              (λ s'. Settled log s'.disk (after_commit s) × Cleared log s'.disk)
              Either
              (commit log s)
      nothing e =
          let nil : s.lh ≡ [] = length-nil s.lh (ground arith) in
          rw (e, commit) (ended ((λ b o. ground arith), r.cleared))

  -- A crash inside `commit`, followed by a boot whose recovery gets through, leaves on the disk the
  -- contents before the transaction or those after it, and a cleared log.
  pub recover-commit :
      (d : Disk) (power : ℕ) (s' : State)
      → commit log s ≡ crashed d
      → recover_from_log log (reboot d power) ≡ ok s'
      → (Settled log s'.disk s.disk ⊎ Settled log s'.disk (after_commit s)) × Cleared log s'.disk
  recover-commit d power s' crash boot = elim (Ends-crashed (rw crash at commit-Ends)) [
    | inl before ↦
        let p = Ends-ok (rw boot at (recover_from_log-Ends d power before)) in (inl p.0, p.1)
    | inr after ↦
        let p = Ends-ok (rw boot at (recover_from_log-Ends d power after)) in (inr p.0, p.1)
  ]
