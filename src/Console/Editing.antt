-- ===== src/Console/Editing.antt =====
-- Editing keeps what has been handed over.
use cserl_bootcamp.Common.{
  ℕ, zero, suc, ◌+◌, ◌-◌, ◌%◌, ◌^◌, ◌≤◌, ◌<◌, ◌≡◌, ◌≢◌, ◌⊎◌, refl, ◌∙◌, true, ◌||◌, not, ◌==◌, ltb,
  if◌then◌else◌, set, get_or-set_ne, length, length-set, ==_iff, Bool-cases, inl, inr, arith,
}
use cserl_bootcamp.Console.Input.{
  input_buf, Input, dist, char_at, erase_one, kill_line, accept, consoleintr,
}

-- The read index is before the write index, that before the edit index, and all within the ring.
pub record IsValid (s : Input) : Type 0 where
  pub size : length s.buf ≡ input_buf
  pub words : (s.r < 2 ^ 32) × (s.w < 2 ^ 32) × (s.e < 2 ^ 32)
  pub order : dist s.r s.w ≤ dist s.r s.e
  pub bound : dist s.r s.e ≤ input_buf

-- `s'` has all that was handed over in `s`, in its place.
pub record Keeps (s s' : Input) : Type 0 where
  pub valid : IsValid s'
  pub read : s'.r ≡ s.r
  pub more : dist s.r s.w ≤ dist s.r s'.w
  pub chars : (k : ℕ) → k < dist s.r s.w → char_at s' (s.r + k) ≡ char_at s (s.r + k)

Keeps-self : {s : Input} → IsValid s → Keeps s s
Keeps-self v = record { valid = v; read = refl; more = omega arith; chars = λ k lt. refl }

erase_one-Keeps : {s : Input} → IsValid s → s.e ≢ s.w → Keeps s (erase_one s)
erase_one-Keeps {s} v ne = record {
  valid = record {
    size = v.size;
    words = (v.words.0, v.words.1, omega arith);
    order = closer s.r s.w s.e v.words v.order ne;
    bound = nearer s.r s.w s.e v.words v.order v.bound ne;
  };
  read = refl;
  more = omega arith;
  chars = λ k lt. refl;
}
  where
    closer :
        (r w e : ℕ)
        → (r < 2 ^ 32) × (w < 2 ^ 32) × (e < 2 ^ 32)
        → dist r w ≤ dist r e
        → e ≢ w
        → dist r w ≤ dist r ((e + 2 ^ 32 - 1) % 2 ^ 32)
    closer r w e (a, b, c) le ne =
        let apart : (e < w) ⊎ (w < e) = ground arith in omega (arith, apart)

    nearer :
        (r w e : ℕ)
        → (r < 2 ^ 32) × (w < 2 ^ 32) × (e < 2 ^ 32)
        → dist r w ≤ dist r e
        → dist r e ≤ input_buf
        → e ≢ w
        → dist r ((e + 2 ^ 32 - 1) % 2 ^ 32) ≤ input_buf
    nearer r w e (a, b, c) le bd ne =
        let apart : (e < w) ⊎ (w < e) = ground arith in omega (arith, apart)

kill_line-Keeps : (fuel : ℕ) {s : Input} → IsValid s → Keeps s (kill_line fuel s)
unfolding kill_line
kill_line-Keeps zero v = Keeps-self v
kill_line-Keeps (suc fuel) {s} v =
    elim (Bool-cases ((s.e == s.w) || (char_at s ((s.e + 2 ^ 32 - 1) % 2 ^ 32) == 10))) [
      | inl stop ↦ rw stop (Keeps-self v)
      | inr go ↦
          let k = erase_one-Keeps v (λ e. ground arith) in
          let rest = kill_line-Keeps fuel k.valid in
          rw go (record {
            valid = rest.valid;
            read = rest.read;
            more = rest.more;
            chars = λ i lt. rest.chars i lt;
          })
    ]

-- Where the loop of `^U` stops: at the write index, or after the end of a line.
abbrev pub Stopped : Input → Type 0
Stopped s = (s.e ≡ s.w) ⊎ (char_at s ((s.e + 2 ^ 32 - 1) % 2 ^ 32) ≡ 10)

Stopped-test :
    (s : Input) → (s.e == s.w) || (char_at s ((s.e + 2 ^ 32 - 1) % 2 ^ 32) == 10) ≡ true → Stopped s
Stopped-test s stop = elim (Bool-cases (s.e == s.w)) [
  | inl same ↦ inl ((==_iff s.e s.w).0 same)
  | inr other ↦ inr (ground arith)
]

no_dist : (w e : ℕ) → w < 2 ^ 32 → e < 2 ^ 32 → dist w e ≤ 0 → e ≡ w
no_dist w e small small' le = let apart : (e < w) ⊎ (w ≤ e) = ground arith in omega (arith, apart)

less_dist :
    (w e fuel : ℕ)
    → w < 2 ^ 32
    → e < 2 ^ 32
    → e ≢ w
    → dist w e ≤ suc fuel
    → dist w ((e + 2 ^ 32 - 1) % 2 ^ 32) ≤ fuel
less_dist w e fuel small small' ne le =
    let apart : (e < w) ⊎ (w < e) = ground arith in omega (arith, apart)

-- `^U` erases back to the last end of a line or to what has been handed over: as many rounds of its
-- loop as there are characters after the write index are enough.
pub kill_line-Stopped :
    (fuel : ℕ) (s : Input)
    → s.w < 2 ^ 32
    → s.e < 2 ^ 32
    → dist s.w s.e ≤ fuel
    → Stopped (kill_line fuel s)
unfolding kill_line
kill_line-Stopped zero s small small' le = inl (no_dist s.w s.e small small' le)
kill_line-Stopped (suc fuel) s small small' le =
    elim (Bool-cases ((s.e == s.w) || (char_at s ((s.e + 2 ^ 32 - 1) % 2 ^ 32) == 10))) [
      | inl stop ↦ rw stop (Stopped-test s stop)
      | inr go ↦ rw go (
          kill_line-Stopped fuel (erase_one s) small (omega arith)
            (less_dist s.w s.e fuel small small' (λ e. ground arith) le))
    ]

-- The state after a character is stored at the edit index.
abbrev stored : ℕ → Input → Input
stored c s = record s { buf = set s.buf (s.e % input_buf) c; e = (s.e + 1) % 2 ^ 32 }

dist-next :
    (r e : ℕ)
    → r < 2 ^ 32
    → e < 2 ^ 32
    → dist r e < input_buf
    → dist r ((e + 1) % 2 ^ 32) ≡ dist r e + 1
dist-next r e small small' room =
    let apart : (e < r) ⊎ (r ≤ e) = ground arith in omega (arith, apart)

other_place :
    (r e k : ℕ)
    → r < 2 ^ 32
    → e < 2 ^ 32
    → dist r e < input_buf
    → k < dist r e
    → e % input_buf ≢ (r + k) % input_buf
other_place r e k small small' room lt same =
    let apart : (e < r) ⊎ (r ≤ e) = ground arith in omega (arith, apart)

stored-Keeps : (c : ℕ) {s : Input} → IsValid s → dist s.r s.e < input_buf → Keeps s (stored c s)
stored-Keeps c {s} v room =
    let (small_r, small_w, small_e) = v.words in
    let next = dist-next s.r s.e small_r small_e room in
    record {
      valid = record {
        size = length-set s.buf (s.e % input_buf) c ∙ v.size;
        words = (small_r, small_w, omega arith);
        order = omega (arith, next, v.order);
        bound = omega (arith, next);
      };
      read = refl;
      more = omega arith;
      chars = λ k lt.
          get_or-set_ne s.buf c 0
            (other_place s.r s.e k small_r small_e room (omega (arith, v.order)));
    }

handed-Keeps :
    (c : ℕ) {s : Input}
    → IsValid s
    → dist s.r s.e < input_buf
    → Keeps s (record (stored c s) { w = (s.e + 1) % 2 ^ 32 })
handed-Keeps c {s} v room =
    let k = stored-Keeps c v room in
    let next = dist-next s.r s.e v.words.0 v.words.2 room in
    record {
      valid = record {
        size = k.valid.size;
        words = (v.words.0, omega arith, omega arith);
        order = omega arith;
        bound = k.valid.bound;
      };
      read = refl;
      more = omega (arith, next, v.order);
      chars = k.chars;
    }

accept-Keeps : (c : ℕ) {s : Input} → IsValid s → Keeps s (accept c s).0
unfolding accept
accept-Keeps c {s} v = elim (Bool-cases ((c == 0) || not (ltb (dist s.r s.e) input_buf))) [
  | inl full ↦ rw (full, accept) (Keeps-self v)
  | inr room ↦
      let c' = if c == 13 then 10 else c in
      let e' = (s.e + 1) % 2 ^ 32 in
      let free : dist s.r s.e < input_buf = ground arith in
      elim (Bool-cases ((c' == 10) || (c' == 4) || (e' == (s.r + input_buf) % 2 ^ 32))) [
        | inl line ↦ rw (room, line, accept) (handed-Keeps c' v free)
        | inr more ↦ rw (room, more, accept) (stored-Keeps c' v free)
      ]
]

-- Whatever characters come in, `consoleintr` keeps the order of the three indices and their bound by the
-- size of the ring; and no character that has been handed over to readers is changed or taken back, be it
-- by an erase, by the end of the line or by characters that are typed ahead.
pub consoleintr-Keeps : (c : ℕ) {s : Input} → IsValid s → Keeps s (consoleintr c s).0
unfolding consoleintr
consoleintr-Keeps c {s} v = elim (Bool-cases (c == 16)) [
  | inl dump ↦ rw (dump, consoleintr) (Keeps-self v)
  | inr c16 ↦ elim (Bool-cases (c == 21)) [
    | inl line ↦ rw (c16, line, consoleintr) (kill_line-Keeps (dist s.w s.e) v)
    | inr c21 ↦ elim (Bool-cases ((c == 8) || (c == 127))) [
      | inl erase ↦ elim (Bool-cases (s.e == s.w)) [
        | inl nil ↦ rw (c16, c21, erase, nil, consoleintr) (Keeps-self v)
        | inr more ↦ rw (c16, c21, erase, more, consoleintr) (erase_one-Keeps v (λ e. ground arith))
      ]
      | inr plain ↦ rw (c16, c21, plain, consoleintr) (accept-Keeps c v)
    ]
  ]
]
