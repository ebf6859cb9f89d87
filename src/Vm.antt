-- ===== src/Vm.antt =====
-- Page tables, xv6-public/vm.c. A page is its kernel address; the memory has, for each page, its 1024
-- entries, which the page tables are made of, and its 4096 bytes. An entry is its address and the
-- flags PTE_P, PTE_W and PTE_U.
pub mod Walk
pub mod Entry
pub mod Range
pub mod Map
pub mod Uva
pub mod Copyout
pub mod Space
pub mod Shrink
pub mod Grow
mod Examples
use cserl_bootcamp.Common.{
  ℕ, zero, suc, ◌+◌, ◌-◌, ◌*◌, ◌/◌, ◌%◌, ◌^◌, Bool, true, false, ◌&&◌, ◌||◌, not, Option, none,
  some, List, [], ◌∷◌, ◌==◌, ltb, leb, if◌then◌else◌, length, get_or, drop,
}
use cserl_bootcamp.Kalloc
use cserl_bootcamp.Kalloc.{Kmem, kalloc, kfree, pgsize, kernbase, phystop, v2p}

pub record Pte : Type 0 where
  pub addr : ℕ
  pub p : Bool
  pub w : Bool
  pub u : Bool

-- The entry 0.
abbrev pub absent : Pte
absent = record { addr = 0; p = false; w = false; u = false }

pub record Vm : Type 0 where
  pub entry : (page index : ℕ) → Pte
  pub byte : (page offset : ℕ) → ℕ
  pub kmem : Kmem

-- `PDX` and `PTX`.
abbrev pub pdx : ℕ → ℕ
pdx va = va / 4194304 % 1024

abbrev pub ptx : ℕ → ℕ
ptx va = va / 4096 % 1024

abbrev pub p2v : ℕ → ℕ
p2v pa = (pa + kernbase) % 2 ^ 32

abbrev pub pgrounddown : ℕ → ℕ
pgrounddown a = a / pgsize * pgsize

abbrev pub pgroundup : ℕ → ℕ
pgroundup a = pgrounddown ((a + pgsize - 1) % 2 ^ 32)

-- A result and the memory; a panic; or no fuel left.
pub data Run {ℓ} (A : Type ℓ) : Type ℓ where
  ok : (value : A) (s : Vm) → Run A
  panic : Run A
  spent : Run A

unfoldable pub bind {ℓ κ} : {A : Type ℓ} {B : Type κ} → Run A → (A → Vm → Run B) → Run B
bind (ok a s) f = f a s
bind panic f = panic
bind spent f = spent

abbrev pub put : (page index : ℕ) → Pte → Vm → Vm
put page index e s = record s { entry = λ q i. if q == page && i == index then e else s.entry q i }

-- `memset(page, 0, PGSIZE)`.
abbrev pub clear_page : ℕ → Vm → Vm
clear_page page s = record s {
  entry = λ q i. if q == page then absent else s.entry q i;
  byte = λ q i. if q == page then 0 else s.byte q i;
}

-- `kalloc` on the memory.
abbrev pub take_page : Vm → Option ℕ × Vm
take_page s = let (page, k) = kalloc s.kmem in (page, record s { kmem = k })

-- The place of the entry for `va`: its table and its index there.
unfoldable pub walkpgdir : (pgdir va : ℕ) → (alloc : Bool) → Vm → Option (ℕ × ℕ) × Vm
unfolding kalloc
walkpgdir pgdir va alloc s =
    let pde = s.entry pgdir (pdx va) in
    if pde.p
    then (some (p2v pde.addr, ptx va), s)
    else if not alloc
    then (none, s)
    else elim s.kmem.freelist [
      | [] ↦ (none, s)
      | pgtab ∷ free ↦
          let s' = clear_page pgtab (record s { kmem = record s.kmem { freelist = free } }) in
          let e : Pte = record { addr = v2p pgtab; p = true; w = true; u = true } in
          (some (pgtab, ptx va), put pgdir (pdx va) e s')
    ]

-- `pa | perm | PTE_P`, where the low bits of `pa` are flags.
abbrev pub pte_of : (pa : ℕ) → (w u : Bool) → Pte
pte_of pa w u = record {
  addr = pgrounddown pa;
  p = true;
  w = w || (pa / 2 % 2 == 1);
  u = u || (pa / 4 % 2 == 1);
}

-- The loop of `mappages`; `true` is the result 0, `false` is -1.
unfoldable pub map_loop : (fuel pgdir a last pa : ℕ) → (w u : Bool) → Vm → Run Bool
unfolding walkpgdir
map_loop zero pgdir a last pa w u s = spent
map_loop (suc fuel) pgdir a last pa w u s =
    let (found, s) = walkpgdir pgdir a true s in
    elim found [
      | none ↦ ok false s
      | some (t, i) ↦
          let s' = put t i (pte_of pa w u) s in
          elim (s.entry t i).p [
            | true ↦ panic
            | false ↦ elim (a == last) [
              | true ↦ ok true s'
              | false ↦
                  map_loop fuel pgdir ((a + pgsize) % 2 ^ 32) last ((pa + pgsize) % 2 ^ 32) w u s'
            ]
          ]
    ]

-- The pages from that of `va` to that of the last byte, with 32-bit addresses.
abbrev pub last_page : (va size : ℕ) → ℕ
last_page va size = pgrounddown ((va + size + (2 ^ 32 - 1)) % 2 ^ 32)

unfoldable pub mappages : (pgdir va size pa : ℕ) → (w u : Bool) → Vm → Run Bool
unfolding map_loop
mappages pgdir va size pa w u s =
    let a = pgrounddown va in
    let last = last_page va size in
    map_loop ((last + (2 ^ 32 - a)) % 2 ^ 32 / pgsize + 1) pgdir a last pa w u s

module _ (end_addr : ℕ) where
  unfoldable pub free_page : ℕ → Vm → Run (Unit {0})
  unfolding kfree
  free_page v s = elim (kfree end_addr v s.kmem) [
    | none ↦ panic
    | some k ↦ ok tt (record s { kmem = k })
  ]

  unfoldable pub dealloc_loop : (fuel pgdir a oldsz newsz : ℕ) → Vm → Run ℕ
  unfolding walkpgdir free_page bind
  dealloc_loop zero pgdir a oldsz newsz s = spent
  dealloc_loop (suc fuel) pgdir a oldsz newsz s = elim (ltb a oldsz) [
    | false ↦ ok newsz s
    | true ↦ elim (walkpgdir pgdir a false s).0 [
      | none ↦ dealloc_loop fuel pgdir ((pdx a + 1) * 4194304 % 2 ^ 32) oldsz newsz s
      | some (t, i) ↦ elim (s.entry t i).p [
        | false ↦ dealloc_loop fuel pgdir ((a + pgsize) % 2 ^ 32) oldsz newsz s
        | true ↦ elim ((s.entry t i).addr == 0) [
          | true ↦ panic
          | false ↦
              bind (free_page (p2v (s.entry t i).addr) s) λ _ s.
                dealloc_loop fuel pgdir ((a + pgsize) % 2 ^ 32) oldsz newsz (put t i absent s)
        ]
      ]
    ]
  ]

  unfoldable pub deallocuvm : (pgdir oldsz newsz : ℕ) → Vm → Run ℕ
  unfolding dealloc_loop
  deallocuvm pgdir oldsz newsz s =
      if leb oldsz newsz
      then ok oldsz s
      else dealloc_loop (oldsz / pgsize + 2) pgdir (pgroundup newsz) oldsz newsz s

  unfoldable pub alloc_loop : (fuel pgdir a oldsz newsz : ℕ) → Vm → Run ℕ
  unfolding deallocuvm mappages bind free_page
  alloc_loop zero pgdir a oldsz newsz s = spent
  alloc_loop (suc fuel) pgdir a oldsz newsz s = elim (ltb a newsz) [
    | false ↦ ok newsz s
    | true ↦ elim s.kmem.freelist [
      | [] ↦ bind (deallocuvm pgdir newsz oldsz s) λ _ s. ok 0 s
      | mem ∷ free ↦
          let s' = clear_page mem (record s { kmem = record s.kmem { freelist = free } }) in
          bind (mappages pgdir a pgsize (v2p mem) true true s') λ mapped s. elim mapped [
            | true ↦ alloc_loop fuel pgdir ((a + pgsize) % 2 ^ 32) oldsz newsz s
            | false ↦
                bind (deallocuvm pgdir newsz oldsz s) λ _ s. bind (free_page mem s) λ _ s. ok 0 s
          ]
    ]
  ]

  unfoldable pub allocuvm : (pgdir oldsz newsz : ℕ) → Vm → Run ℕ
  unfolding alloc_loop
  allocuvm pgdir oldsz newsz s =
      if leb kernbase newsz
      then ok 0 s
      else if ltb newsz oldsz
      then ok oldsz s
      else alloc_loop (newsz / pgsize + 2) pgdir (pgroundup oldsz) oldsz newsz s

-- `none` is the null pointer. A missing page table makes `walkpgdir` return null, which the source
-- reads through: `null` is the entry that stands there.
unfoldable pub read_pte : (null : Pte) (pgdir uva : ℕ) → Vm → Pte
unfolding walkpgdir
read_pte null pgdir uva s = elim (walkpgdir pgdir uva false s).0 [
  | none ↦ null
  | some (t, i) ↦ s.entry t i
]

unfoldable pub uva2ka : (null : Pte) (pgdir uva : ℕ) → Vm → Option ℕ
unfolding read_pte
uva2ka null pgdir uva s =
    let pte = read_pte null pgdir uva s in
    if not pte.p then none else if not pte.u then none else some (p2v pte.addr)

-- `memmove` of the first `n` bytes of `buf` into a page.
abbrev pub write_bytes : (page offset n : ℕ) → List ℕ → Vm → Vm
write_bytes page offset n buf s = record s {
  byte = λ q i.
      if q == page && leb offset i && ltb i (offset + n)
      then get_or buf (i - offset) 0
      else s.byte q i;
}

-- The loop of `copyout`, on what is left of the buffer.
unfoldable pub copyout_loop : (fuel : ℕ) (null : Pte) (pgdir va : ℕ) → List ℕ → Vm → Run Bool
unfolding uva2ka
copyout_loop zero null pgdir va buf s = spent
copyout_loop (suc fuel) null pgdir va buf s = elim (ltb 0 (length buf)) [
  | false ↦ ok true s
  | true ↦
      let va0 = pgrounddown va in
      elim (uva2ka null pgdir va0 s) [
        | none ↦ ok false s
        | some pa0 ↦
            let most = pgsize - (va - va0) in
            let n = if ltb (length buf) most then length buf else most in
            copyout_loop fuel null pgdir ((va0 + pgsize) % 2 ^ 32) (drop n buf)
              (write_bytes pa0 (va - va0) n buf s)
      ]
]

unfoldable pub copyout : (null : Pte) (pgdir va : ℕ) → List ℕ → Vm → Run Bool
unfolding copyout_loop
copyout null pgdir va buf s = copyout_loop (length buf + 1) null pgdir va buf s

unfoldable pub clearpteu : (pgdir uva : ℕ) → Vm → Run (Unit {0})
unfolding walkpgdir
clearpteu pgdir uva s = elim (walkpgdir pgdir uva false s).0 [
  | none ↦ panic
  | some (t, i) ↦ ok tt (put t i (record (s.entry t i) { u = false }) s)
]
