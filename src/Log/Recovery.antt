-- ===== src/Log/Recovery.antt =====
-- Recovery from the log, and its crashes.
use cserl_bootcamp.Common.{
  ℕ, zero, suc, ◌+◌, ◌<◌, ◌≡◌, refl, ◌∙◌, true, false, List, [], ◌∷◌, length, get_elem?,
  get_elem?-lt, some, arith,
}
use cserl_bootcamp.Log.{
  Disk, Area, State, put, encode, decode, install_from, write_head, recover_from_log, reboot,
}
use cserl_bootcamp.Log.Crash.{
  in_log, mem, Recovers, Ends, ended, bind, written, bwrite-Ends, decode-encode,
}

-- All blocks outside the log are in place.
abbrev pub Settled : Area → Disk → Disk → Type 0
Settled log d h = (b : ℕ) → in_log log b ≡ false → d b ≡ h b

-- The header names no block.
abbrev pub Cleared : Area → Disk → Type 0
Cleared log d = decode (d log.start) ≡ []

-- The cache agrees with the disk on the log area.
abbrev pub LogSynced : Area → State → Type 0
LogSynced log s = (a : ℕ) → in_log log a ≡ true → s.view a ≡ s.disk a

-- Where `install_trans` stands with the blocks `rest` to go.
pub record Installing (log : Area) (h : Disk) (tail : ℕ) (rest : List ℕ) (s : State) : Type 0 where
  pub recovers : Recovers log s.disk h
  pub synced : LogSynced log s
  pub todo : (i b : ℕ) → get_elem? rest i ≡ some b → get_elem? recovers.blocks (tail + i) ≡ some b
  pub done : (b : ℕ) → in_log log b ≡ false → mem b rest ≡ false → s.disk b ≡ h b

pub mem-get : (bs : List ℕ) (i b : ℕ) → get_elem? bs i ≡ some b → mem b bs ≡ true
mem-get [] i b e = absurd (ground arith)
mem-get (c ∷ bs) zero b e = ground arith
mem-get (c ∷ bs) (suc i) b e = ground (arith, mem-get bs i b)

-- The address of a log block that the header covers.
pub slot_in_log :
    (log : Area) (blocks : List ℕ) (i b : ℕ)
    → length blocks < log.size
    → get_elem? blocks i ≡ some b
    → in_log log (log.start + i + 1) ≡ true
slot_in_log log blocks i b fit e = ground (arith, get_elem?-lt blocks i {x = b} e)

module _ {log : Area} {h : Disk} where
  Recovers-install :
      (d : Disk) (r : Recovers log d h) (i b : ℕ)
      → get_elem? r.blocks i ≡ some b
      → Recovers log (put d b (h b)) h
  Recovers-install d r i b e =
      let out : in_log log b ≡ false = r.outside b (mem-get r.blocks i b e) in
      record {
        blocks = r.blocks;
        header = ground (arith, r.header, r.fits);
        fits = r.fits;
        outside = r.outside;
        home = λ c o m. ground (arith, r.home c);
        logged = λ j c e'. ground (arith, r.logged j c, slot_in_log log r.blocks j c r.fits e');
      }

  Installing-next :
      (tail b k : ℕ) (bs : List ℕ) (s : State)
      → Installing log h tail (b ∷ bs) s
      → Installing log h (tail + 1) bs (written b (h b) k s)
  unfolding Recovers-install
  Installing-next tail b k bs s g =
      let here : get_elem? g.recovers.blocks tail ≡ some b =
        (let z : tail + 0 ≡ tail = omega arith in rw z at (g.todo 0 b refl)) in
      let out : in_log log b ≡ false =
        g.recovers.outside b (mem-get g.recovers.blocks tail b here) in
      record {
        recovers = Recovers-install s.disk g.recovers tail b here;
        synced = λ a i. ground (arith, g.synced a);
        todo =
            λ i c e. let z : tail + 1 + i ≡ tail + suc i = omega arith in rw z (g.todo (suc i) c e);
        done = λ c o m. ground (arith, g.done c);
      }

  pub install_from-Ends :
      (tail : ℕ) (rest : List ℕ) (s : State)
      → Installing log h tail rest s
      → Ends
          (λ s'. Recovers log s'.disk h × Settled log s'.disk h × LogSynced log s')
          (λ d. Recovers log d h)
          (install_from log tail rest s)
  unfolding install_from
  install_from-Ends tail [] s g = ended (g.recovers, (λ b o. g.done b o refl), g.synced)
  install_from-Ends tail (b ∷ bs) s g =
      let here : get_elem? g.recovers.blocks tail ≡ some b =
        (let z : tail + 0 ≡ tail = omega arith in rw z at (g.todo 0 b refl)) in
      let slot = slot_in_log log g.recovers.blocks tail b g.recovers.fits here in
      let w : s.view (log.start + tail + 1) ≡ h b =
        g.synced _ slot ∙ g.recovers.logged tail b here in
      rw w (
        bind
          (bwrite-Ends {P = λ s'. Installing log h (tail + 1) bs s'} b (h b) s g.recovers
            (λ k. Installing-next tail b k bs s g))
          (λ s' g'. install_from-Ends (tail + 1) bs s' g'))

  -- The header is cleared in one write.
  pub clear-Ends :
      (s : State)
      → 0 < log.size
      → Recovers log s.disk h
      → Settled log s.disk h
      → Ends
          (λ s'. Settled log s'.disk h × Cleared log s'.disk)
          (λ d. Recovers log d h)
          (write_head log (record s { lh = [] }))
  unfolding write_head
  clear-Ends s size r settled =
      bwrite-Ends log.start (encode [] (s.view log.start)) (record s { lh = [] }) r
        λ k.
          ((λ b o. ground (arith, settled b)), ground (arith, decode-encode [] (s.view log.start)))

  -- What `recover_from_log` does at boot: it leaves the contents that the disk stood for, with a
  -- cleared log. If it is itself cut short by a crash, the disk still stands for the same.
  pub recover_from_log-Ends :
      (d : Disk) (power : ℕ)
      → Recovers log d h
      → Ends
          (λ s. Settled log s.disk h × Cleared log s.disk)
          (λ d'. Recovers log d' h)
          (recover_from_log log (reboot d power))
  unfolding recover_from_log
  recover_from_log-Ends d power r =
      let same : decode (d log.start) ≡ r.blocks = r.header in
      bind
        (install_from-Ends 0 (decode (d log.start))
          (record (reboot d power) { lh = decode (d log.start) })
          (record {
            recovers = r;
            synced = λ a i. refl;
            todo = λ i b e. let z : 0 + i ≡ i = omega arith in rw (z, ← same) e;
            done = λ b o m. r.home b o (rw same at m);
          }))
        (λ s' p. clear-Ends s' (omega (arith, r.fits)) p.0 p.1)
