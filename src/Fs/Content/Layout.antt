-- ===== src/Fs/Content/Layout.antt =====
-- The slots of an inode once an entry of it is written.
use cserl_bootcamp.Common.{
  take_then, take_else, ℕ, ◌+◌, ◌-◌, ◌≤◌, ◌<◌, ◌≡◌, ◌≢◌, refl, sym, ap, ◌∙◌, Bool, true, false,
  ◌&&◌, some, ◌==◌, ==_iff, ltb, if◌then◌else◌, get_elem?, inl, inr, ◌⊎◌, Bool-cases, arith,
}
use cserl_bootcamp.Fs.Content.{Ip, Disk, ndirect, nindirect, maxfile, set_addr, set_word}
use cserl_bootcamp.Fs.Content.Slots.{IsDistinct, update, fresh_ne}
use cserl_bootcamp.Fs.Content.Assign.{slot, New}

-- The three places of a slot.
pub slot_direct : (ip : Ip) (d : Disk) (k : ℕ) → k < ndirect → slot ip d k ≡ ip.addrs k
unfolding slot
slot_direct ip d k lt = let t : ltb k ndirect ≡ true = ground arith in rw t refl

pub slot_table : (ip : Ip) (d : Disk) → slot ip d maxfile ≡ ip.addrs ndirect
unfolding slot
slot_table ip d = refl

pub slot_entry :
    (ip : Ip) (d : Disk) (i : ℕ)
    → i < nindirect
    → ip.addrs ndirect ≢ 0
    → slot ip d (ndirect + i) ≡ d.word (ip.addrs ndirect) i
unfolding slot
slot_entry ip d i lt ne =
    let t : ltb (ndirect + i) ndirect ≡ false = ground arith in
    let m : (ndirect + i == maxfile) ≡ false = ground arith in
    let h : ltb maxfile (ndirect + i) ≡ false = ground arith in
    let z : (ip.addrs ndirect == 0) ≡ false = ground arith in
    let back : ndirect + i - ndirect ≡ i = omega arith in
    rw (t, m, h, z) (ap (d.word (ip.addrs ndirect)) back)

-- The entry of the indirect block, if there is one.
abbrev mid : Ip → Disk → ℕ → ℕ
mid ip d i = if ip.addrs ndirect == 0 then 0 else d.word (ip.addrs ndirect) (i - ndirect)

slot_mid : (ip : Ip) (d : Disk) (i : ℕ) → ndirect ≤ i → i < maxfile → slot ip d i ≡ mid ip d i
unfolding slot
slot_mid ip d i lo hi =
    let t : ltb i ndirect ≡ false = ground arith in
    let m : (i == maxfile) ≡ false = ground arith in
    let h : ltb maxfile i ≡ false = ground arith in rw (t, m, h) refl

slot_out : (ip : Ip) (d : Disk) (i : ℕ) → maxfile < i → slot ip d i ≡ 0
unfolding slot
slot_out ip d i hi =
    let t : ltb i ndirect ≡ false = ground arith in
    let m : (i == maxfile) ≡ false = ground arith in
    let h : ltb maxfile i ≡ true = ground arith in rw (t, m, h) refl

Place-cases :
    (i : ℕ) → (i < ndirect) ⊎ ((ndirect ≤ i) × (i < maxfile)) ⊎ (i ≡ maxfile) ⊎ (maxfile < i)
Place-cases i = ground arith

and_false : (a b : Bool) → b ≡ false → (a && b) ≡ false
and_false true b e = e
and_false false b e = refl

mid_nil : (ip : Ip) (d : Disk) (i : ℕ) → ip.addrs ndirect ≡ 0 → mid ip d i ≡ 0
mid_nil ip d i nil = take_then (ip.addrs ndirect == 0) _ _ ((==_iff (ip.addrs ndirect) 0).1 nil)

mid_addrs :
    (ip2 ip : Ip) (d : Disk) (i : ℕ)
    → ip2.addrs ndirect ≡ ip.addrs ndirect
    → mid ip2 d i ≡ mid ip d i
mid_addrs ip2 ip d i e = ap (λ t. if t == 0 then 0 else d.word t (i - ndirect)) e

same_slot :
    (ip2 : Ip) (d2 : Disk) (ip : Ip) (d : Disk) (i : ℕ)
    → (i < ndirect → ip2.addrs i ≡ ip.addrs i)
    → (i ≡ maxfile → ip2.addrs ndirect ≡ ip.addrs ndirect)
    → (ndirect ≤ i → i < maxfile → mid ip2 d2 i ≡ mid ip d i)
    → slot ip2 d2 i ≡ slot ip d i
same_slot ip2 d2 ip d i low table high = elim (Place-cases i) [
  | inl lo ↦ slot_direct ip2 d2 i lo ∙ low lo ∙ sym (slot_direct ip d i lo)
  | inr (inl (lo, hi)) ↦ slot_mid ip2 d2 i lo hi ∙ high lo hi ∙ sym (slot_mid ip d i lo hi)
  | inr (inr (inl at)) ↦
      ap (slot ip2 d2) at
      ∙ slot_table ip2 d2
      ∙ table at
      ∙ sym (slot_table ip d)
      ∙ ap (slot ip d) (sym at)
  | inr (inr (inr hi)) ↦ slot_out ip2 d2 i hi ∙ sym (slot_out ip d i hi)
]

module _ (ip : Ip) (d : Disk) (distinct : IsDistinct (slot ip d) d.store.bits) (b : ℕ) (d' : Disk)
    (new : New d b d') where
  table_ne : ip.addrs ndirect ≢ 0 → ip.addrs ndirect ≢ b
  table_ne ne e =
      let used = distinct.used maxfile (λ z. ne (sym (slot_table ip d) ∙ z)) in
      let both : some true ≡ some false =
        sym used ∙ ap (get_elem? d.store.bits) (slot_table ip d ∙ e) ∙ new.0 in
      ground arith

  word_table :
      (i : ℕ) → ip.addrs ndirect ≢ 0 → d'.word (ip.addrs ndirect) i ≡ d.word (ip.addrs ndirect) i
  word_table i ne =
      let far : (ip.addrs ndirect == b) ≡ false = ground (arith, table_ne ne) in
      ap (λ w. w (ip.addrs ndirect) i) new.2 ∙ rw far refl

  mid_kept : (i : ℕ) → mid ip d' i ≡ mid ip d i
  mid_kept i = elim (Bool-cases (ip.addrs ndirect == 0)) [
    | inl nil ↦ rw nil refl
    | inr there ↦ rw there (word_table (i - ndirect) (λ e. ground arith))
  ]

  mid_new : (i : ℕ) → mid (set_addr ndirect b ip) d' i ≡ 0
  mid_new i =
      let real : (b == 0) ≡ false =
        ground (arith, fresh_ne (slot ip d) d.store.bits distinct 0 b new.0) in
      take_else (b == 0) _ _ real
      ∙ ap (λ w. w b (i - ndirect)) new.2
      ∙ take_then (b == b) _ _ (ground arith)

  mid_word :
      (j i : ℕ)
      → ndirect ≤ i
      → (i == ndirect + j) ≡ false
      → mid ip (set_word (ip.addrs ndirect) j b d') i ≡ mid ip d' i
  mid_word j i lo there =
      let far : (i - ndirect == j) ≡ false = ground arith in
      ap (λ v. if ip.addrs ndirect == 0 then 0 else v)
        (take_else ((ip.addrs ndirect == ip.addrs ndirect) && (i - ndirect == j)) _ _
          (and_false _ _ far))

  set_other : (k i : ℕ) → (i == k) ≡ false → (set_addr k b ip).addrs i ≡ ip.addrs i
  set_other k i ne = rw ne refl

  pub direct-slots :
      (k : ℕ) → k < ndirect → (i : ℕ) → slot (set_addr k b ip) d' i ≡ update (slot ip d) k b i
  direct-slots k lt i = elim (Bool-cases (i == k)) [
    | inl here ↦
        let e : i ≡ k = (==_iff i k).0 here in
        rw here (slot_direct (set_addr k b ip) d' i (omega arith) ∙ rw here refl)
    | inr there ↦
        let apart : (ndirect == k) ≡ false = ground arith in
        rw there (
          same_slot (set_addr k b ip) d' ip d i (λ lo. set_other k i there)
            (λ at. set_other k ndirect apart)
            (λ lo hi. mid_addrs (set_addr k b ip) ip d' i (set_other k ndirect apart) ∙ mid_kept i))
  ]

  pub table-slots :
      ip.addrs ndirect ≡ 0
      → (i : ℕ) → slot (set_addr ndirect b ip) d' i ≡ update (slot ip d) maxfile b i
  table-slots nil i = elim (Bool-cases (i == maxfile)) [
    | inl here ↦
        let e : i ≡ maxfile = (==_iff i maxfile).0 here in
        rw here (ap (slot (set_addr ndirect b ip) d') e ∙ slot_table (set_addr ndirect b ip) d')
    | inr there ↦ rw there (
        same_slot (set_addr ndirect b ip) d' ip d i (λ lo. set_other ndirect i (ground arith))
          (λ at. absurd (ground arith)) (λ lo hi. mid_new i ∙ sym (mid_nil ip d i nil)))
  ]

  pub entry-slots :
      (j : ℕ)
      → j < nindirect
      → ip.addrs ndirect ≢ 0
      → (i : ℕ)
      → slot ip (set_word (ip.addrs ndirect) j b d') i ≡ update (slot ip d) (ndirect + j) b i
  entry-slots j lt ne i = elim (Bool-cases (i == ndirect + j)) [
    | inl here ↦
        let e : i ≡ ndirect + j = (==_iff i (ndirect + j)).0 here in
        rw here (
          ap (slot ip (set_word (ip.addrs ndirect) j b d')) e
          ∙ slot_entry ip (set_word (ip.addrs ndirect) j b d') j lt ne
          ∙ take_then ((ip.addrs ndirect == ip.addrs ndirect) && (j == j)) _ _ (ground arith))
    | inr there ↦ rw there (
        same_slot ip (set_word (ip.addrs ndirect) j b d') ip d i (λ lo. refl) (λ at. refl)
          (λ lo hi. mid_word j i lo there ∙ mid_kept i))
  ]
