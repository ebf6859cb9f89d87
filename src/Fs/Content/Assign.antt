-- ===== src/Fs/Content/Assign.antt =====
-- A slot of an inode that gets a fresh block.
use mathlib.Core.Path.{subst}
use cserl_bootcamp.Common.{
  take_then, take_else, not_equal, ℕ, ◌-◌, ◌≡◌, ◌≢◌, refl, sym, ap, ◌∙◌, Bool, true, false, not,
  Option, none, some, List, ◌==◌, ==_iff, ltb, if◌then◌else◌, get_elem?, find_index,
  find_index-some, set, replicate, inl, inr, ◌⊎◌, Bool-cases, Option-cases, arith,
}
use cserl_bootcamp.Fs.Balloc.{balloc, bzero, bsize}
use cserl_bootcamp.Fs.Content.{Ip, Disk, ndirect, maxfile, new_block}
use cserl_bootcamp.Fs.Content.Slots.{
  IsDistinct, update, update-IsDistinct, IsDistinct-same, fresh_ne, other,
}

-- The block number of the block `k` of the file; the indirect block stands behind them.
unfoldable pub slot : Ip → Disk → ℕ → ℕ
slot ip d k =
    if ltb k ndirect
    then ip.addrs k
    else if k == maxfile
    then ip.addrs ndirect
    else if ltb maxfile k
    then 0
    else if ip.addrs ndirect == 0
    then 0
    else d.word (ip.addrs ndirect) (k - ndirect)

-- A fresh block: it was free and is now marked, and as words it is clear.
abbrev pub New : Disk → ℕ → Disk → Type 0
New d b d' =
    (get_elem? d.store.bits b ≡ some false)
    × (d'.store.bits ≡ set d.store.bits b true)
    × (d'.word ≡ (λ q i. if q == b then 0 else d.word q i))
    × (d'.store.blocks ≡ (λ q. if q == b then replicate bsize 0 else d.store.blocks q))

not-true : (x : Bool) → not x ≡ true → x ≡ false
not-true x h = ground arith

-- No block is free.
abbrev pub IsFull : List Bool → Type 0
IsFull bits = find_index not bits ≡ none

abbrev pub NewPost : Disk → Option (ℕ × Disk) → Type 0
NewPost d none = IsFull d.store.bits
NewPost d (some (b, d')) = New d b d'

pub new_block-NewPost : (d : Disk) → NewPost d (new_block d)
unfolding new_block balloc bzero
new_block-NewPost d = elim (Option-cases (find_index not d.store.bits)) [
  | inl full ↦ rw (full, new_block, balloc) full
  | inr (b, got) ↦
      let (x, at, free) = find_index-some not d.store.bits b got in
      rw (got, new_block, balloc) (at ∙ ap (λ y. some y) (not-true x free), refl, refl, refl)
]

-- The bytes of a slot; a slot without a block stands for zeros.
abbrev pub data_of : Ip → Disk → ℕ → List ℕ
data_of ip d k = if slot ip d k == 0 then replicate bsize 0 else d.store.blocks (slot ip d k)

-- The slot `k` has the block `b`, which is not block 0, and every other slot is as it was.
pub record Assigned (k b : ℕ) (ip : Ip) (d : Disk) (ip' : Ip) (d' : Disk) : Type 0 where
  pub distinct : IsDistinct (slot ip' d') d'.store.bits
  pub real : b ≢ 0
  pub slots : (i : ℕ) → slot ip' d' i ≡ update (slot ip d) k b i
  pub kept : (i : ℕ) → data_of ip' d' i ≡ data_of ip d i
  pub bits : (d'.store.bits ≡ d.store.bits) ⊎ (d'.store.bits ≡ set d.store.bits b true)

abbrev pub AssignPost : (k : ℕ) → Ip → Disk → Option (ℕ × Ip × Disk) → Type 0
AssignPost k ip d none = IsFull d.store.bits
AssignPost k ip d (some (b, ip', d')) = Assigned k b ip d ip' d'

-- A slot that has its block.
pub there-Assigned :
    (k b : ℕ) (ip : Ip) (d : Disk)
    → IsDistinct (slot ip d) d.store.bits
    → slot ip d k ≡ b
    → b ≢ 0
    → Assigned k b ip d ip d
there-Assigned k b ip d distinct at real = record {
  distinct = distinct;
  real = real;
  slots = same;
  kept = λ i. refl;
  bits = inl refl;
}
  where
    same : (i : ℕ) → slot ip d i ≡ update (slot ip d) k b i
    same i = elim (Bool-cases (i == k)) [
      | inl here ↦ rw here (ap (slot ip d) ((==_iff i k).0 here) ∙ at)
      | inr there ↦ rw there refl
    ]

fresh-kept :
    (k b : ℕ) (ip : Ip) (d : Disk) (ip' : Ip) (d' : Disk)
    → IsDistinct (slot ip d) d.store.bits
    → get_elem? d.store.bits b ≡ some false
    → d'.store.blocks ≡ (λ q. if q == b then replicate bsize 0 else d.store.blocks q)
    → slot ip d k ≡ 0
    → ((i : ℕ) → slot ip' d' i ≡ update (slot ip d) k b i)
    → (i : ℕ) → data_of ip' d' i ≡ data_of ip d i
fresh-kept k b ip d ip' d' distinct free blocks nil slots i = elim (Bool-cases (i == k)) [
  | inl here ↦
      let e : i ≡ k = (==_iff i k).0 here in
      let now : slot ip' d' i ≡ b = slots i ∙ take_then (i == k) _ _ here in
      let real : (slot ip' d' i == 0) ≡ false =
        not_equal (slot ip' d' i) 0
          (λ z. fresh_ne (slot ip d) d.store.bits distinct k b free (sym now ∙ z)) in
      let was : (slot ip d i == 0) ≡ true = (==_iff (slot ip d i) 0).1 (ap (slot ip d) e ∙ nil) in
      take_else (slot ip' d' i == 0) _ _ real
      ∙ ap d'.store.blocks now
      ∙ ap (λ f. f b) blocks
      ∙ take_then (b == b) _ _ (ground arith)
      ∙ sym (take_then (slot ip d i == 0) _ _ was)
  | inr there ↦
      let same : slot ip' d' i ≡ slot ip d i = slots i ∙ take_else (i == k) _ _ there in
      ap (λ q. if q == 0 then replicate bsize 0 else d'.store.blocks q) same
      ∙ elim (Bool-cases (slot ip d i == 0)) [
        | inl none_there ↦
            take_then (slot ip d i == 0) _ _ none_there
            ∙ sym (take_then (slot ip d i == 0) _ _ none_there)
        | inr real ↦
            let ne : slot ip d i ≢ b =
              other (slot ip d) d.store.bits distinct k b free i (λ z. ground arith) in
            take_else (slot ip d i == 0) _ _ real
            ∙ ap (λ f. f (slot ip d i)) blocks
            ∙ take_else (slot ip d i == b) _ _ (not_equal (slot ip d i) b ne)
            ∙ sym (take_else (slot ip d i == 0) _ _ real)
      ]
]

-- A slot that gets a fresh block.
pub fresh-Assigned :
    (k b : ℕ) (ip : Ip) (d : Disk) (ip' : Ip) (d' : Disk)
    → IsDistinct (slot ip d) d.store.bits
    → get_elem? d.store.bits b ≡ some false
    → d'.store.bits ≡ set d.store.bits b true
    → d'.store.blocks ≡ (λ q. if q == b then replicate bsize 0 else d.store.blocks q)
    → slot ip d k ≡ 0
    → ((i : ℕ) → slot ip' d' i ≡ update (slot ip d) k b i)
    → Assigned k b ip d ip' d'
fresh-Assigned k b ip d ip' d' distinct free bits blocks nil slots = record {
  distinct = subst (IsDistinct (slot ip' d')) (sym bits) (
      IsDistinct-same (update (slot ip d) k b) (slot ip' d') (set d.store.bits b true) slots
        (update-IsDistinct (slot ip d) d.store.bits distinct k b free));
  real = fresh_ne (slot ip d) d.store.bits distinct k b free;
  slots = slots;
  kept = fresh-kept k b ip d ip' d' distinct free blocks nil slots;
  bits = inr bits;
}
