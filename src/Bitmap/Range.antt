-- ===== src/Bitmap/Range.antt =====
-- The functions of pintos lib/kernel/bitmap.c on a range of bits.
use jungle_data_structures.Prelude.{
  ℕ, zero, suc, ◌+◌, ◌^◌, ◌<◌, ◌≤◌, ◌≡◌, ◌⊎◌, inl, inr, refl, ap, ◌∙◌, Bool, true, false, not, ◌&&◌,
  ◌==◌, ltb, leb, if◌then◌else◌, arith, Bool-cases, le→leb, lt→leb, subst,
}
use jungle_data_structures.Prelude.Run.{Outcome, done, panic}
use jungle_data_structures.Bitmap.Defs.{
  Bitmap, add64, same_bool, bitmap_set, set_loop, bitmap_set_multiple, count_loop, bitmap_count,
  contains_loop, bitmap_contains, bitmap_test,
}
use jungle_data_structures.Bitmap.View.{view, IsBitmap, bitmap_test-view}
use jungle_data_structures.Bitmap.Single.{bitmap_set-Writes}

pub add64-small : (a b : ℕ) → a + b < 2 ^ 64 → add64 a b ≡ a + b
add64-small a b h = omega arith

-- Every bit of the range has the value; some bit of the range has the other value.
abbrev pub Clear : Bitmap → Bool → ℕ → ℕ → Type 0
Clear b value i cnt = (k : ℕ) → i ≤ k → k < i + cnt → view b k ≡ value

abbrev pub Spoiled : Bitmap → Bool → ℕ → ℕ → Type 0
Spoiled b value i cnt = (k : ℕ) × (i ≤ k) × (k < i + cnt) × (view b k ≡ not value)

abbrev pub in_range : ℕ → ℕ → ℕ → Bool
in_range start cnt j = leb start j && ltb j (start + cnt)

-- The outcome of writing `value` to a range: the bits of the range have it, the others are as they
-- were, and the bitmap keeps its size.
abbrev pub WritesRange : Bitmap → (start cnt : ℕ) → Bool → Outcome Bitmap (Unit {0}) → Type 0
WritesRange b start cnt value run =
    (b' : Bitmap) × (run ≡ done tt b')
    × IsBitmap b'
    × (b'.bit_cnt ≡ b.bit_cnt)
    × ((j : ℕ) → view b' j ≡ (if in_range start cnt j then value else view b j))

range_step :
    (start n j : ℕ) (value old : Bool)
    → (if in_range (start + 1) n j then value else (if j == start then value else old))
      ≡ (if in_range start (suc n) j then value else old)
range_step start n j value old = ground arith

range_empty : (start j : ℕ) (value old : Bool) → old ≡ (if in_range start 0 j then value else old)
range_empty start j value old = ground arith

set_loop-suc :
    (n start i s : ℕ) (value : Bool) (b b1 b2 : Bitmap)
    → add64 start i ≡ s
    → bitmap_set s value b ≡ done tt b1
    → set_loop n start (i + 1) value b1 ≡ done tt b2
    → set_loop (suc n) start i value b ≡ done tt b2
unfolding set_loop
set_loop-suc n start i s value b b1 b2 e run1 run2 = rw (e, run1) run2

set_loop-WritesRange :
    (n start i : ℕ) (value : Bool) (b : Bitmap)
    → IsBitmap b
    → start + i + n ≤ b.bit_cnt
    → WritesRange b (start + i) n value (set_loop n start i value b)
unfolding set_loop
set_loop-WritesRange zero start i value b v le =
    (b, refl, v, refl, λ j. range_empty (start + i) j value (view b j))
set_loop-WritesRange (suc n) start i value b v le =
    let e = add64-small start i (omega (arith, v.small)) in
    let (b1, run1, v1, cnt1, bits1) = bitmap_set-Writes b (start + i) v (omega arith) value in
    let next = set_loop-WritesRange n start (i + 1) value b1 v1 (omega (arith, cnt1)) in
    let (b2, run2, v2, cnt2, bits2) = next in
    let at : start + (i + 1) ≡ start + i + 1 = omega arith in
    (
      b2,
      set_loop-suc n start i (start + i) value b b1 b2 e run1 run2,
      v2,
      cnt2 ∙ cnt1,
      λ j.
          bits2 j
          ∙ ap (λ s. if in_range s n j then value else view b1 j) at
          ∙ ap (λ t. if in_range (start + i + 1) n j then value else t) (bits1 j)
          ∙ range_step (start + i) n j value (view b j),
    )

same_of : (t value : Bool) → same_bool t value ≡ true → t ≡ not (not value)
same_of t value h = ground arith

other_of : (t value : Bool) → same_bool t value ≡ false → t ≡ not value
other_of t value h = ground arith

eq_of : (a b : ℕ) → (a == b) ≡ true → a ≡ b
eq_of a b h = ground arith

module _ (b : Bitmap) (start cnt : ℕ) (v : IsBitmap b) where
  in_bounds : start + cnt ≤ b.bit_cnt → leb (add64 start cnt) b.bit_cnt ≡ true
  in_bounds le = le→leb (add64 start cnt) b.bit_cnt (omega (arith, v.small))

  -- `bitmap_set_multiple` within the bitmap gives the bits of the range the value and leaves the
  -- others.
  pub bitmap_set_multiple-WritesRange :
      (value : Bool)
      → start + cnt ≤ b.bit_cnt
      → WritesRange b start cnt value (bitmap_set_multiple start cnt value b)
  unfolding bitmap_set_multiple
  bitmap_set_multiple-WritesRange value le =
      let zero_off : start + 0 ≡ start = omega arith in
      rw (le→leb start b.bit_cnt (omega arith), in_bounds le)
        (subst (λ s. WritesRange b s cnt value (set_loop cnt start 0 value b)) zero_off
          (set_loop-WritesRange cnt start 0 value b v (omega arith)))

  contains_loop-lem :
      (n i : ℕ) (value : Bool)
      → start + i + n ≤ b.bit_cnt
      → (contains_loop n start i value b ≡ done true b) × Spoiled b (not value) (start + i) n
        ⊎ (contains_loop n start i value b ≡ done false b) × Clear b (not value) (start + i) n
  unfolding contains_loop
  contains_loop-lem zero i value le = inr (refl, λ k p q. absurd (omega arith))
  contains_loop-lem (suc n) i value le =
      let e = add64-small start i (omega (arith, v.small)) in
      let test = bitmap_test-view b (start + i) v (omega arith) in
      elim (Bool-cases (same_bool (view b (start + i)) value)) [
        | inl hit ↦ inl (
          rw (e, test, hit),
          (start + i, omega arith, omega arith, same_of (view b (start + i)) value hit),
        )
        | inr miss ↦ elim (contains_loop-lem n (i + 1) value (omega arith)) [
          | inl (run, (k, p, q, r)) ↦ inl (rw (e, test, miss) run, (k, omega arith, omega arith, r))
          | inr (run, clear) ↦ inr (
            rw (e, test, miss) run,
            λ k p q. elim (Bool-cases (k == start + i)) [
              | inl here ↦
                  ap (view b) (eq_of k (start + i) here) ∙ other_of (view b (start + i)) value miss
              | inr there ↦ clear k (ground arith) (omega arith)
            ],
          )
        ]
      ]

  -- `bitmap_contains` on a range within the bitmap returns whether some bit of it has the value,
  -- and changes nothing.
  pub bitmap_contains-lem :
      (value : Bool)
      → start + cnt ≤ b.bit_cnt
      → (bitmap_contains start cnt value b ≡ done true b) × Spoiled b (not value) start cnt
        ⊎ (bitmap_contains start cnt value b ≡ done false b) × Clear b (not value) start cnt
  unfolding bitmap_contains
  bitmap_contains-lem value le =
      let zero_off : start + 0 ≡ start = omega arith in
      rw (le→leb start b.bit_cnt (omega arith), in_bounds le)
        (subst
          (λ s.
            (contains_loop cnt start 0 value b ≡ done true b) × Spoiled b (not value) s cnt
            ⊎ (contains_loop cnt start 0 value b ≡ done false b) × Clear b (not value) s cnt)
          zero_off (contains_loop-lem cnt 0 value (omega arith)))

  -- A range that does not lie within the bitmap, its sum not wrapping, stops the range functions at
  -- their assertions.
  pub range-panic :
      (value : Bool)
      → b.bit_cnt < start + cnt
      → start + cnt < 2 ^ 64
      → (bitmap_set_multiple start cnt value b ≡ panic)
        × (bitmap_contains start cnt value b ≡ panic)
        × (bitmap_count start cnt value b ≡ panic)
  unfolding bitmap_set_multiple bitmap_contains bitmap_count
  range-panic value lt small =
      let out : leb (add64 start cnt) b.bit_cnt ≡ false =
        lt→leb (add64 start cnt) b.bit_cnt (omega (arith, add64-small start cnt small)) in
      elim (Bool-cases (leb start b.bit_cnt)) [
        | inl t ↦ (rw (t, out), rw (t, out), rw (t, out))
        | inr t ↦ (rw t, rw t, rw t)
      ]

-- How many of the `n` bits from `i` have the value.
unfoldable pub tally : Bitmap → Bool → ℕ → ℕ → ℕ
tally b value i zero = 0
tally b value i (suc n) = tally b value i n + (if same_bool (view b (i + n)) value then 1 else 0)

tally-first :
    (b : Bitmap) (value : Bool) (i n : ℕ)
    → tally b value i (suc n)
      ≡ (if same_bool (view b i) value then 1 else 0) + tally b value (i + 1) n
unfolding tally
tally-first b value i zero = let z : i + 0 ≡ i = omega arith in rw z (omega arith)
tally-first b value i (suc n) =
    let z : i + suc n ≡ i + 1 + n = omega arith in
    ap (λ t. t + (if same_bool (view b (i + suc n)) value then 1 else 0)) (tally-first b value i n)
    ∙ ap
        (λ k.
          (if same_bool (view b i) value then 1 else 0)
          + tally b value (i + 1) n
          + (if same_bool (view b k) value then 1 else 0))
        z
    ∙ omega arith

count_if : (t : Bool) (c : ℕ) → (if t then c + 1 else c) ≡ c + (if t then 1 else 0)
count_if t c = ground arith

count_loop-suc :
    (n start i s c : ℕ) (value t : Bool) (b : Bitmap)
    → add64 start i ≡ s
    → bitmap_test s b ≡ done t b
    → count_loop (suc n) start i value c b
      ≡ count_loop n start (i + 1) value (if same_bool t value then c + 1 else c) b
unfolding count_loop
count_loop-suc n start i s c value t b e run = rw (e, run)

module _ (b : Bitmap) (start : ℕ) (v : IsBitmap b) where
  count_loop-tally :
      (n i c : ℕ) (value : Bool)
      → start + i + n ≤ b.bit_cnt
      → count_loop n start i value c b ≡ done (c + tally b value (start + i) n) b
  unfolding count_loop
  count_loop-tally zero i c value le = unfold tally in ap (λ r. done r b) (omega arith)
  count_loop-tally (suc n) i c value le =
      let e = add64-small start i (omega (arith, v.small)) in
      let t = view b (start + i) in
      let at : start + (i + 1) ≡ start + i + 1 = omega arith in
      count_loop-suc n start i (start + i) c value t b e
        (bitmap_test-view b (start + i) v (omega arith))
      ∙ count_loop-tally n (i + 1) (if same_bool t value then c + 1 else c) value (omega arith)
      ∙ ap (λ r. done r b)
          (omega (
            arith,
            count_if (same_bool t value) c,
            tally-first b value (start + i) n,
            ap (λ s. tally b value s n) at,
          ))

  -- `bitmap_count` on a range within the bitmap returns how many bits of it have the value, and
  -- changes nothing.
  pub bitmap_count-tally :
      (cnt : ℕ) (value : Bool)
      → start + cnt ≤ b.bit_cnt
      → bitmap_count start cnt value b ≡ done (tally b value start cnt) b
  unfolding bitmap_count
  bitmap_count-tally cnt value le =
      let zero_off : start + 0 ≡ start = omega arith in
      rw (le→leb start b.bit_cnt (omega arith), in_bounds b start cnt v le)
        (count_loop-tally cnt 0 0 value (omega arith)
          ∙ ap (λ r. done r b) (omega (arith, ap (λ s. tally b value s cnt) zero_off)))
