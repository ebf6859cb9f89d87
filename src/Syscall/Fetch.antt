-- ===== src/Syscall/Fetch.antt =====
-- The checks of syscall.c keep the kernel inside the memory of the process.
use cserl_bootcamp.Common.{
  ℕ, zero, suc, ◌+◌, ◌-◌, ◌*◌, ◌%◌, ◌^◌, ◌≤◌, ◌<◌, ◌≡◌, ◌≢◌, inl, inr, sym, ap, ◌∙◌, false, ◌||◌,
  some, ◌==◌, ltb, leb, Bool-cases, Option-cases, arith,
}
use cserl_bootcamp.Str.{Mem}
use cserl_bootcamp.Syscall.{load, fetchint, find_nul, fetchstr, argint, argptr, argstr}

abbrev pub kernbase : ℕ
kernbase = 2147483648

-- The string of length `len` at `s` ends within the first `n` bytes.
pub record Ends (m : Mem) (s n len : ℕ) : Type 0 where
  pub inside : len < n
  pub nul : m (s + len) ≡ 0
  pub first : (i : ℕ) → i < len → m (s + i) ≢ 0

low_end :
    (sz addr : ℕ)
    → sz ≤ kernbase
    → leb sz addr || ltb sz ((addr + 4) % 2 ^ 32) ≡ false
    → addr + 4 ≤ sz
low_end sz addr small fine =
    let below : addr < sz = ground arith in
    let same : (addr + 4) % 2 ^ 32 ≡ addr + 4 = omega arith in ground (arith, same)

first_at : (m : Mem) (s : ℕ) → m (s + 0) ≡ m s
first_at m s = ap m (omega arith)

next_at : (m : Mem) (s i : ℕ) → m (s + suc i) ≡ m (s + 1 + i)
next_at m s i = ap m (omega arith)

Ends-next : (m : Mem) (s n k : ℕ) → m s ≢ 0 → Ends m (s + 1) n k → Ends m s (suc n) (suc k)
Ends-next m s n k more r = record {
  inside = omega (arith, r.inside);
  nul = next_at m s k ∙ r.nul;
  first = first;
}
  where
    first : (i : ℕ) → i < suc k → m (s + i) ≢ 0
    first zero lt z = more (sym (first_at m s) ∙ z)
    first (suc i) lt z = r.first i (omega arith) (sym (next_at m s i) ∙ z)

module _ (sz esp : ℕ) (m : Mem) where
  fetchint_lem :
      (addr v : ℕ)
      → sz ≤ kernbase
      → fetchint sz esp m addr ≡ some v
      → (addr + 4 ≤ sz) × (v ≡ load m addr)
  unfolding fetchint
  fetchint_lem addr v small e = elim (Bool-cases (leb sz addr || ltb sz ((addr + 4) % 2 ^ 32))) [
    | inl bad ↦ absurd (cc (rw bad at e))
    | inr fine ↦ (low_end sz addr small fine, sym (cc (rw fine at e)))
  ]

  find_nul-Ends : (s n len : ℕ) → find_nul sz esp m s n ≡ some len → Ends m s n len
  unfolding find_nul
  find_nul-Ends s zero len e = absurd (cc e)
  find_nul-Ends s (suc n) len e = elim (Bool-cases (m s == 0)) [
    | inl nul ↦
        let zero_len : 0 ≡ len = cc (rw nul at e) in
        rw (sym zero_len) (record {
          inside = omega arith;
          nul = first_at m s ∙ ground arith;
          first = λ i lt. absurd (omega arith);
        })
    | inr more ↦ elim (Option-cases (find_nul sz esp m (s + 1) n)) [
      | inl nothing ↦ absurd (cc (rw (more, nothing) at e))
      | inr (k, got) ↦
          let len_k : suc k ≡ len = cc (rw (more, got) at e) in
          let r = find_nul-Ends (s + 1) n k got in
          rw (sym len_k) (Ends-next m s n k (λ z. ground arith) r)
    ]
  ]

  argint_lem :
      (n v : ℕ)
      → sz ≤ kernbase
      → argint sz esp m n ≡ some v
      → ((esp + 4 + 4 * n) % 2 ^ 32 + 4 ≤ sz) × (v ≡ load m ((esp + 4 + 4 * n) % 2 ^ 32))
  unfolding argint
  argint_lem n v small e = fetchint_lem ((esp + 4 + 4 * n) % 2 ^ 32) v small e

  -- `argptr`, in a process whose size `sz` is at most KERNBASE, hands the kernel a pointer only to memory
  -- that lies whole in the process: the word of the argument and the `size` bytes that it points to end
  -- at `sz` or below, wrap-around included.
  pub argptr-inside :
      (n size p : ℕ)
      → sz ≤ kernbase
      → argptr sz esp m n size ≡ some p
      → ((esp + 4 + 4 * n) % 2 ^ 32 + 4 ≤ sz)
        × (p ≡ load m ((esp + 4 + 4 * n) % 2 ^ 32))
        × (p < sz)
        × (p + size ≤ sz)
  unfolding argptr
  argptr-inside n size p small e = elim (Option-cases (argint sz esp m n)) [
    | inl nothing ↦ absurd (cc (rw (nothing, argptr) at e))
    | inr (v, got) ↦
        elim (Bool-cases (leb (2 ^ 31) size || leb sz v || ltb sz ((v + size) % 2 ^ 32))) [
          | inl bad ↦ absurd (cc (rw (got, bad, argptr) at e))
          | inr fine ↦
              let same : v ≡ p = cc (rw (got, fine, argptr) at e) in
              let (low, word) = argint_lem n v small got in
              let (below, end_below) = block_end v size small fine in
              rw (sym same) (low, word, below, end_below)
        ]
  ]
    where
      block_end :
          (v size : ℕ)
          → sz ≤ kernbase
          → leb (2 ^ 31) size || leb sz v || ltb sz ((v + size) % 2 ^ 32) ≡ false
          → (v < sz) × (v + size ≤ sz)
      block_end v size small fine =
          let below : v < sz = ground arith in
          let fits : size < 2 ^ 31 = ground arith in
          let same : (v + size) % 2 ^ 32 ≡ v + size = omega arith in (below, ground (arith, same))

  -- `argstr` hands the kernel a pointer only to a string that ends inside the process, and its length.
  pub argstr-Ends :
      (n p len : ℕ)
      → sz ≤ kernbase
      → argstr sz esp m n ≡ some (p, len)
      → (p ≡ load m ((esp + 4 + 4 * n) % 2 ^ 32)) × (p + len < sz) × Ends m p (sz - p) len
  unfolding argstr fetchstr
  argstr-Ends n p len small e = elim (Option-cases (argint sz esp m n)) [
    | inl nothing ↦ absurd (cc (rw (nothing, argstr) at e))
    | inr (v, got) ↦ elim (Bool-cases (leb sz v)) [
      | inl out ↦ absurd (cc (rw (got, out, argstr, fetchstr) at e))
      | inr below ↦ elim (Option-cases (find_nul sz esp m v (sz - v))) [
        | inl open_end ↦ absurd (cc (rw (got, below, open_end, argstr, fetchstr) at e))
        | inr (k, found) ↦
            let same : v ≡ p = cc (rw (got, below, found, argstr, fetchstr) at e) in
            let same_len : k ≡ len = cc (rw (got, below, found, argstr, fetchstr) at e) in
            let ends = find_nul-Ends v (sz - v) k found in
            rw (sym same, sym same_len)
              ((argint_lem n v small got).1, omega (arith, ends.inside), ends)
      ]
    ]
  ]
