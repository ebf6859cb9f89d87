-- ===== src/Fs/Content/Entry.antt =====
-- What each of the three kinds of entries of an inode ends in, xv6-public/fs.c: bmap.
use mathlib.Core.Path.{subst}
use cserl_bootcamp.Common.{
  ℕ, ◌+◌, ◌<◌, ◌≡◌, ◌≢◌, sym, ap, ◌∙◌, none, some, ◌==◌, ==_iff, inl, inr, Bool-cases, Option-cases,
  arith,
}
use cserl_bootcamp.Fs.Content.{
  Ip, Disk, ndirect, nindirect, maxfile, set_addr, set_word, new_block, indirect, table_entry,
  direct,
}
use cserl_bootcamp.Fs.Content.Slots.{IsDistinct}
use cserl_bootcamp.Fs.Content.Assign.{
  slot, New, IsFull, NewPost, new_block-NewPost, Assigned, AssignPost, there-Assigned,
  fresh-Assigned,
}
use cserl_bootcamp.Fs.Content.Layout.{
  slot_direct, slot_table, slot_entry, direct-slots, table-slots, entry-slots,
}

New-of_run : (d : Disk) (b : ℕ) (d' : Disk) → new_block d ≡ some (b, d') → New d b d'
New-of_run d b d' run = subst (NewPost d) run (new_block-NewPost d)

Full-of_run : (d : Disk) → new_block d ≡ none → IsFull d.store.bits
Full-of_run d run = subst (NewPost d) run (new_block-NewPost d)

module _ (ip : Ip) (d : Disk) (distinct : IsDistinct (slot ip d) d.store.bits) where
  pub direct-AssignPost : (bn : ℕ) → bn < ndirect → AssignPost bn ip d (direct bn ip d)
  unfolding direct
  direct-AssignPost bn lt = elim (Bool-cases (ip.addrs bn == 0)) [
    | inr there ↦
        rw (there, direct)
          (there-Assigned bn (ip.addrs bn) ip d distinct (slot_direct ip d bn lt)
            (λ e. ground arith))
    | inl nil ↦ elim (Option-cases (new_block d)) [
      | inl full ↦ rw (nil, full, direct) (Full-of_run d full)
      | inr ((b, d'), run) ↦
          let new = New-of_run d b d' run in
          rw (nil, run, direct)
            (fresh-Assigned bn b ip d (set_addr bn b ip) d' distinct new.0 new.1 new.3
              (slot_direct ip d bn lt ∙ (==_iff (ip.addrs bn) 0).0 nil)
              (direct-slots ip d distinct b d' new bn lt))
    ]
  ]

  pub indirect-AssignPost : AssignPost maxfile ip d (indirect ip d)
  unfolding indirect
  indirect-AssignPost = elim (Bool-cases (ip.addrs ndirect == 0)) [
    | inr there ↦
        rw (there, indirect)
          (there-Assigned maxfile (ip.addrs ndirect) ip d distinct (slot_table ip d)
            (λ e. ground arith))
    | inl nil ↦ elim (Option-cases (new_block d)) [
      | inl full ↦ rw (nil, full, indirect) (Full-of_run d full)
      | inr ((b, d'), run) ↦
          let new = New-of_run d b d' run in
          rw (nil, run, indirect)
            (fresh-Assigned maxfile b ip d (set_addr ndirect b ip) d' distinct new.0 new.1 new.3
              (slot_table ip d ∙ (==_iff (ip.addrs ndirect) 0).0 nil)
              (table-slots ip d distinct b d' new ((==_iff (ip.addrs ndirect) 0).0 nil)))
    ]
  ]

  pub entry-AssignPost :
      (table i : ℕ)
      → i < nindirect
      → ip.addrs ndirect ≡ table
      → table ≢ 0
      → AssignPost (ndirect + i) ip d (table_entry table i ip d)
  unfolding table_entry
  entry-AssignPost table i lt e ne =
      let ne' : ip.addrs ndirect ≢ 0 = λ z. ne (sym e ∙ z) in
      let at : slot ip d (ndirect + i) ≡ d.word table i =
        slot_entry ip d i lt ne' ∙ ap (λ t. d.word t i) e in
      elim (Bool-cases (d.word table i == 0)) [
        | inr there ↦
            rw (there, table_entry)
              (there-Assigned (ndirect + i) (d.word table i) ip d distinct at (λ z. ground arith))
        | inl nil ↦ elim (Option-cases (new_block d)) [
          | inl full ↦ rw (nil, full, table_entry) (Full-of_run d full)
          | inr ((b, d'), run) ↦
              let new = New-of_run d b d' run in
              rw (nil, run, table_entry)
                (subst (λ t. Assigned (ndirect + i) b ip d ip (set_word t i b d')) e
                  (fresh-Assigned (ndirect + i) b ip d ip (set_word (ip.addrs ndirect) i b d')
                    distinct new.0 new.1 new.3 (at ∙ (==_iff (d.word table i) 0).0 nil)
                    (entry-slots ip d distinct b d' new i lt ne')))
        ]
      ]
