-- ===== src/Vm/Space.antt =====
-- Address spaces, xv6-public/vm.c: setupkvm, freevm, inituvm, loaduvm, copyuvm. `data_addr` and
-- `end_addr` are the linker's `data` and `end`.
use cserl_bootcamp.Common.{
  ℕ, zero, suc, ◌+◌, ◌-◌, ◌/◌, ◌%◌, ◌^◌, Bool, true, false, Option, none, some, List, [], ◌∷◌, ◌==◌,
  ltb, leb, if◌then◌else◌, length,
}
use cserl_bootcamp.Kalloc.{pgsize, kernbase, phystop, v2p}
use cserl_bootcamp.Vm.{
  Vm, p2v, Run, ok, panic, spent, bind, walkpgdir, mappages, free_page, deallocuvm, clear_page,
  write_bytes,
}

abbrev pub extmem : ℕ
extmem = 1048576

abbrev pub kernlink : ℕ
kernlink = kernbase + extmem

abbrev pub devspace : ℕ
devspace = 4261412864

pub record Kmap : Type 0 where
  pub virt : ℕ
  pub phys_start : ℕ
  pub phys_end : ℕ
  pub perm : Bool

-- The mappings of the kernel; `perm` is PTE_W.
abbrev pub kmap : (data_addr : ℕ) → List Kmap
kmap data_addr =
    record { virt = kernbase; phys_start = 0; phys_end = extmem; perm = true }
    ∷ record { virt = kernlink; phys_start = v2p kernlink; phys_end = v2p data_addr; perm = false }
    ∷ record { virt = data_addr; phys_start = v2p data_addr; phys_end = phystop; perm = true }
    ∷ record { virt = devspace; phys_start = devspace; phys_end = 0; perm = true }
    ∷ []

-- A page from the list of free pages; `f` has what is done with it.
abbrev with_page : {A : Type 0} → Vm → Run A → (ℕ → Vm → Run A) → Run A
with_page s empty f = elim s.kmem.freelist [
  | [] ↦ empty
  | page ∷ free ↦ f page (record s { kmem = record s.kmem { freelist = free } })
]

abbrev copy_page : (from to : ℕ) → Vm → Vm
copy_page from to s = record s { byte = λ q i. if q == to then s.byte from i else s.byte q i }

module _ (end_addr : ℕ) where
  -- The loop of `freevm` over the directory, `n` entries from `i` on.
  unfoldable pub free_tables : (n pgdir i : ℕ) → Vm → Run (Unit {0})
  unfolding free_page bind
  free_tables zero pgdir i s = ok tt s
  free_tables (suc n) pgdir i s = elim (s.entry pgdir i).p [
    | true ↦
        bind (free_page end_addr (p2v (s.entry pgdir i).addr) s)
          λ _ s. free_tables n pgdir (i + 1) s
    | false ↦ free_tables n pgdir (i + 1) s
  ]

  unfoldable pub freevm : (pgdir : ℕ) → Vm → Run (Unit {0})
  unfolding free_tables
  freevm pgdir s = elim (pgdir == 0) [
    | true ↦ panic
    | false ↦
        bind (deallocuvm end_addr pgdir kernbase 0 s)
          λ _ s. bind (free_tables 1024 pgdir 0 s) λ _ s. free_page end_addr pgdir s
  ]

  unfoldable pub map_kernel : List Kmap → (pgdir : ℕ) → Vm → Run (Option ℕ)
  unfolding freevm
  map_kernel [] pgdir s = ok (some pgdir) s
  map_kernel (k ∷ ks) pgdir s =
      bind
        (mappages pgdir k.virt ((k.phys_end + (2 ^ 32 - k.phys_start)) % 2 ^ 32) k.phys_start k.perm
          false s)
        λ mapped s. elim mapped [
          | true ↦ map_kernel ks pgdir s
          | false ↦ bind (freevm pgdir s) λ _ s. ok none s
        ]

  unfoldable pub setupkvm : (data_addr : ℕ) → Vm → Run (Option ℕ)
  unfolding map_kernel
  setupkvm data_addr s = with_page s (ok none s) λ pgdir s. elim (ltb devspace (p2v phystop)) [
    | true ↦ panic
    | false ↦ map_kernel (kmap data_addr) pgdir (clear_page pgdir s)
  ]

  -- The loop of `copyuvm` from `i` on.
  unfoldable pub copy_loop : (fuel d pgdir i sz : ℕ) → Vm → Run (Option ℕ)
  unfolding freevm
  copy_loop zero d pgdir i sz s = spent
  copy_loop (suc fuel) d pgdir i sz s = elim (ltb i sz) [
    | false ↦ ok (some d) s
    | true ↦ elim (walkpgdir pgdir i false s).0 [
      | none ↦ panic
      | some (t, k) ↦ elim (s.entry t k).p [
        | false ↦ panic
        | true ↦ with_page s (bind (freevm d s) λ _ s. ok none s) λ mem s'.
            bind
              (mappages d i pgsize (v2p mem) (s.entry t k).w (s.entry t k).u
                (copy_page (p2v (s.entry t k).addr) mem s'))
              λ mapped s. elim mapped [
                | true ↦ copy_loop fuel d pgdir ((i + pgsize) % 2 ^ 32) sz s
                | false ↦ bind (free_page end_addr mem s) λ _ s. bind (freevm d s) λ _ s. ok none s
              ]
      ]
    ]
  ]

  unfoldable pub copyuvm : (data_addr pgdir sz : ℕ) → Vm → Run (Option ℕ)
  unfolding setupkvm copy_loop
  copyuvm data_addr pgdir sz s =
      bind (setupkvm data_addr s) λ made s. elim made [
        | none ↦ ok none s
        | some d ↦ copy_loop (sz / pgsize + 2) d pgdir 0 sz s
      ]

-- Without a free page the source writes through a null pointer; the model stops there.
unfoldable pub inituvm : (pgdir : ℕ) → (init : List ℕ) → Vm → Run (Unit {0})
unfolding mappages bind
inituvm pgdir init s = elim (leb pgsize (length init)) [
  | true ↦ panic
  | false ↦ with_page s panic λ mem s.
      bind (mappages pgdir 0 pgsize (v2p mem) true true (clear_page mem s))
        λ mapped s. ok tt (write_bytes mem 0 (length init) init s)
]

-- `readi` of `n` bytes into a page has its result as an unsigned number, as the source compares it.
module _ (readi : (ip page offset n : ℕ) → Vm → ℕ × Vm) where
  unfoldable pub load_loop : (fuel pgdir addr ip offset i sz : ℕ) → Vm → Run Bool
  unfolding walkpgdir
  load_loop zero pgdir addr ip offset i sz s = spent
  load_loop (suc fuel) pgdir addr ip offset i sz s = elim (ltb i sz) [
    | false ↦ ok true s
    | true ↦ elim (walkpgdir pgdir ((addr + i) % 2 ^ 32) false s).0 [
      | none ↦ panic
      | some (t, k) ↦
          let n = if ltb (sz - i) pgsize then sz - i else pgsize in
          let (got, s') = readi ip (p2v (s.entry t k).addr) ((offset + i) % 2 ^ 32) n s in
          elim (got == n) [
            | false ↦ ok false s'
            | true ↦ load_loop fuel pgdir addr ip offset ((i + pgsize) % 2 ^ 32) sz s'
          ]
    ]
  ]

  unfoldable pub loaduvm : (pgdir addr ip offset sz : ℕ) → Vm → Run Bool
  unfolding load_loop
  loaduvm pgdir addr ip offset sz s = elim (addr % pgsize == 0) [
    | false ↦ panic
    | true ↦ load_loop (sz / pgsize + 2) pgdir addr ip offset 0 sz s
  ]
