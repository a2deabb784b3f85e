-- ===== src/Str/Copy.antt =====
-- `memcpy`, `memmove` and `memset` of pintos lib/string.c.
use jungle_data_structures.Prelude.{
  ℕ, zero, suc, ◌+◌, ◌-◌, ◌<◌, ◌≤◌, ◌≡◌, ◌≢◌, ◌⊎◌, inl, inr, sym, ap, ap₂, ◌∙◌, true, not, Option,
  some, ◌||◌, ltb, ◌==◌, if◌then◌else◌, arith, Bool-cases, ltb→lt, ltb→le,
}
use jungle_data_structures.Prelude.Run.{Outcome, done, panic}
use jungle_data_structures.Str.Bytes.{
  Mem, Owns, copied, poke, poke_self, poke_ne, load-done, store-done, Owns-poke, Owns-head,
  Owns-tail, Owns-init,
}
use jungle_data_structures.Str.Defs.{copy_up, copy_down, memcpy, memmove}

-- The outcome of a copy: it returns `r`, and memory is as before but for the `n` bytes from `dst`,
-- which are those that stood at `src` before.
abbrev pub Copies : Mem → (dst src n r : ℕ) → Outcome Mem ℕ → Type 0
Copies m dst src n r run = (k : Mem) × (run ≡ done r k) × ((a : ℕ) → k a ≡ copied m dst src n a)

at : (m : Mem) (a b : ℕ) → a ≡ b → m a ≡ m b
at m a b e = ap m e

pub copied_inside : (m : Mem) (dst src n i : ℕ) → i < n → copied m dst src n (dst + i) ≡ m (src + i)
copied_inside m dst src n i lt = ground (arith, at m (src + (dst + i - dst)) (src + i))

pub copied_outside :
    (m : Mem) (dst src n a : ℕ) → (a < dst) ⊎ (dst + n ≤ a) → copied m dst src n a ≡ m a
copied_outside m dst src n a out = ground arith

-- Where an address stands relative to the range.
place : (dst n a : ℕ) → ((a < dst) ⊎ (dst + n ≤ a)) ⊎ ((i : ℕ) × (i < n) × (a ≡ dst + i))
place dst n a = elim (Bool-cases (ltb a dst)) [
  | inl t ↦ inl (inl (ltb→lt a dst t))
  | inr t ↦ elim (Bool-cases (ltb a (dst + n))) [
    | inl u ↦ inr (
      a - dst,
      omega (arith, ltb→le a dst t, ltb→lt a (dst + n) u),
      omega (arith, ltb→le a dst t),
    )
    | inr u ↦ inl (inr (ltb→le a (dst + n) u))
  ]
]

-- Equal reads at every place are equal memories.
eq_of_place :
    (m : Mem) (dst src n a : ℕ) {v : Option ℕ}
    → ((a < dst) ⊎ (dst + n ≤ a) → v ≡ m a)
    → ((i : ℕ) → i < n → a ≡ dst + i → v ≡ m (src + i))
    → v ≡ copied m dst src n a
eq_of_place m dst src n a {v} out inside = elim (place dst n a) [
  | inl o ↦ out o ∙ sym (copied_outside m dst src n a o)
  | inr (i, lt, e) ↦
      inside i lt e ∙ sym (copied_inside m dst src n i lt) ∙ sym (ap (copied m dst src n) e)
]

up :
    (m : Mem) (dst src n b a : ℕ)
    → m src ≡ some b
    → (dst ≤ src) ⊎ (src + suc n ≤ dst)
    → (i : ℕ) → i < suc n
    → a ≡ dst + i
    → copied (poke m dst b) (dst + 1) (src + 1) n a ≡ m (src + i)
up m dst src n b a e apart zero lt ea =
    copied_outside (poke m dst b) (dst + 1) (src + 1) n a (omega arith)
    ∙ at (poke m dst b) a dst (omega arith)
    ∙ poke_self m dst b
    ∙ sym e
    ∙ at m src (src + 0) (omega arith)
up m dst src n b a e apart (suc i) lt ea =
    let m1 = poke m dst b in
    at (copied m1 (dst + 1) (src + 1) n) a (dst + 1 + i) (omega arith)
    ∙ copied_inside m1 (dst + 1) (src + 1) n i (omega arith)
    ∙ poke_ne m dst b (src + 1 + i) (omega arith)
    ∙ at m (src + 1 + i) (src + suc i) (omega arith)

-- One step upwards, then the rest.
copied_step_up :
    (m : Mem) (dst src n b a : ℕ)
    → m src ≡ some b
    → (dst ≤ src) ⊎ (src + suc n ≤ dst)
    → copied (poke m dst b) (dst + 1) (src + 1) n a ≡ copied m dst src (suc n) a
copied_step_up m dst src n b a e apart =
    let m1 = poke m dst b in
    eq_of_place m dst src (suc n) a
      (λ out.
        copied_outside m1 (dst + 1) (src + 1) n a (omega arith) ∙ poke_ne m dst b a (omega arith))
      (λ i lt ea. up m dst src n b a e apart i lt ea)

copy_up-copied :
    (n dst src : ℕ) (m : Mem)
    → Owns m dst n
    → Owns m src n
    → (dst ≤ src) ⊎ (src + n ≤ dst)
    → Copies m dst src n (dst + n) (copy_up n dst src m)
unfolding copy_up
copy_up-copied zero dst src m od os apart =
    (m, ap (λ r. done r m) (omega arith), λ a. sym (copied_outside m dst src 0 a (omega arith)))
copy_up-copied (suc n) dst src m od os apart =
    let (b, eb) = Owns-head m src n os in
    let (c, ec) = Owns-head m dst n od in
    let m1 = poke m dst b in
    let od' = Owns-poke m dst b (dst + 1) n (Owns-tail m dst n od) in
    let os' = Owns-poke m dst b (src + 1) n (Owns-tail m src n os) in
    let apart' : (dst + 1 ≤ src + 1) ⊎ (src + 1 + n ≤ dst + 1) = omega arith in
    let (k, run, copy) = copy_up-copied n (dst + 1) (src + 1) m1 od' os' apart' in
    (
      k,
      rw (load-done m src b eb, store-done m dst b c ec) (run ∙ ap (λ r. done r k) (omega arith)),
      λ a. copy a ∙ copied_step_up m dst src n b a eb apart,
    )

-- The byte that stands last in an owned range.
Owns-last : (m : Mem) (a n : ℕ) → Owns m a (suc n) → (b : ℕ) × (m (a + suc n - 1) ≡ some b)
Owns-last m a n o =
    let (b, e) = o n (omega arith) in (b, at m (a + suc n - 1) (a + n) (omega arith) ∙ e)

down :
    (m : Mem) (dst src n b a : ℕ)
    → m (src + suc n - 1) ≡ some b
    → (src ≤ dst) ⊎ (dst + suc n ≤ src)
    → copied (poke m (dst + suc n - 1) b) dst src n a ≡ copied m dst src (suc n) a
down m dst src n b a e apart =
    let q = dst + suc n - 1 in
    let m1 = poke m q b in
    eq_of_place m dst src (suc n) a
      (λ out. copied_outside m1 dst src n a (omega arith) ∙ poke_ne m q b a (omega arith))
      (λ i lt ea. elim (Bool-cases (i == n)) [
        | inl t ↦
            copied_outside m1 dst src n a (ground arith)
            ∙ at m1 a q (ground arith)
            ∙ poke_self m q b
            ∙ sym e
            ∙ at m (src + suc n - 1) (src + i) (ground arith)
        | inr t ↦
            at (copied m1 dst src n) a (dst + i) (omega arith)
            ∙ copied_inside m1 dst src n i (ground arith)
            ∙ poke_ne m q b (src + i) (ground arith)
      ])

copy_down-copied :
    (n dst src : ℕ) (m : Mem)
    → Owns m dst n
    → Owns m src n
    → (src ≤ dst) ⊎ (dst + n ≤ src)
    → Copies m dst src n dst (copy_down n (dst + n) (src + n) m)
unfolding copy_down
copy_down-copied zero dst src m od os apart =
    (m, ap (λ r. done r m) (omega arith), λ a. sym (copied_outside m dst src 0 a (omega arith)))
copy_down-copied (suc n) dst src m od os apart =
    let q = dst + suc n - 1 in
    let (b, eb) = Owns-last m src n os in
    let (c, ec) = Owns-last m dst n od in
    let m1 = poke m q b in
    let od' = Owns-poke m q b dst n (Owns-init m dst n od) in
    let os' = Owns-poke m q b src n (Owns-init m src n os) in
    let apart' : (src ≤ dst) ⊎ (dst + n ≤ src) = omega arith in
    let (k, run, copy) = copy_down-copied n dst src m1 od' os' apart' in
    let dq : q ≡ dst + n = omega arith in
    let sq : src + suc n - 1 ≡ src + n = omega arith in
    (
      k,
      rw (load-done m (src + suc n - 1) b eb, store-done m q b c ec)
          (ap₂ (λ x y. copy_down n x y m1) dq sq ∙ run),
      λ a. copy a ∙ down m dst src n b a eb apart,
    )

assert_block_true : (p size : ℕ) → (p ≢ 0) ⊎ (size ≡ 0) → (not (p == 0) || size == 0) ≡ true
assert_block_true p size h = ground arith

module _ (m : Mem) (dst src size : ℕ) where
  -- `memcpy` on owned ranges that do not overlap, neither of them at `NULL` unless it is empty,
  -- copies the bytes, changes no others, and returns the destination.
  pub memcpy-copied :
      Owns m dst size
      → Owns m src size
      → (dst ≢ 0) ⊎ (size ≡ 0)
      → (src ≢ 0) ⊎ (size ≡ 0)
      → (dst + size ≤ src) ⊎ (src + size ≤ dst)
      → Copies m dst src size dst (memcpy dst src size m)
  unfolding memcpy
  memcpy-copied od os nd ns apart =
      let (k, run, copy) = copy_up-copied size dst src m od os (omega arith) in
      (k, rw (assert_block_true dst size nd, assert_block_true src size ns, run), copy)

  -- `memmove` on owned ranges, overlapping or not, copies the bytes that stood at the source and
  -- changes no others. It returns the destination when that is not below the source, and the end
  -- of the destination when it is.
  pub memmove-copied :
      Owns m dst size
      → Owns m src size
      → (dst ≢ 0) ⊎ (size ≡ 0)
      → (src ≢ 0) ⊎ (size ≡ 0)
      → Copies m dst src size (if ltb dst src then dst + size else dst) (memmove dst src size m)
  unfolding memmove
  memmove-copied od os nd ns =
      rw (assert_block_true dst size nd, assert_block_true src size ns)
        (elim (Bool-cases (ltb dst src)) [
          | inl t ↦ rw t (copy_up-copied size dst src m od os (ground arith))
          | inr t ↦ rw t (copy_down-copied size dst src m od os (ground arith))
        ])

  -- A null pointer with a size that is not zero stops `memcpy` and `memmove` at their assertions.
  pub copy-null :
      (dst ≡ 0) ⊎ (src ≡ 0)
      → size ≢ 0
      → (memcpy dst src size m ≡ panic) × (memmove dst src size m ≡ panic)
  unfolding memcpy memmove
  copy-null null pos = (ground arith, ground arith)
