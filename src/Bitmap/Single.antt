-- ===== src/Bitmap/Single.antt =====
-- `bitmap_mark`, `bitmap_reset`, `bitmap_flip` and `bitmap_set` of pintos lib/kernel/bitmap.c.
use jungle_data_structures.Prelude.{
  ℕ, ◌+◌, ◌/◌, ◌%◌, ◌^◌, ◌<◌, ◌≤◌, ◌≡◌, inl, inr, refl, sym, ap, ◌∙◌, Bool, true, false, not, some,
  ◌==◌, if◌then◌else◌, get_elem?, set, length, length-set, get_elem?-set, arith, Bool-cases, lt→ltb,
  le→ltb,
}
use Prim.Native.Nat.{bit_and, bit_or, bit_xor, min, max}
use jungle_data_structures.Prelude.Bits.{
  bit, bit-lt, bit-or, bit-and, bit-xor, bit-pow, bit-not_pow,
}
use jungle_data_structures.Prelude.Run.{Outcome, done, panic}
use jungle_data_structures.Bitmap.Defs.{
  Bitmap, complement, update, bitmap_mark, bitmap_reset, bitmap_flip, bitmap_set,
}
use jungle_data_structures.Bitmap.View.{view, IsBitmap, elem_at}

-- The outcome of writing `value` at `i`: the bitmap keeps its size, bit `i` has the value, and every
-- other bit is as it was.
abbrev pub Writes : Bitmap → ℕ → Bool → Outcome Bitmap (Unit {0}) → Type 0
Writes b i value run =
    (b' : Bitmap) × (run ≡ done tt b')
    × IsBitmap b'
    × (b'.bit_cnt ≡ b.bit_cnt)
    × ((j : ℕ) → view b' j ≡ (if j == i then value else view b j))

-- Bits are told apart by their element and their place in it.
same_place : (i j : ℕ) → i / 64 ≡ j / 64 → (j % 64 == i % 64) ≡ (j == i)
same_place i j e = ground arith

-- A change of one element that writes `value` at digit `i % 64` and keeps the others.
update-Writes :
    (b : Bitmap) (i : ℕ) (value : Bool) (f : ℕ → ℕ)
    → IsBitmap b
    → i < b.bit_cnt
    → ((w k : ℕ)
        → get_elem? b.bits (i / 64) ≡ some w
        → k < 64
        → (bit k (f w) == 1) ≡ (if k == i % 64 then value else bit k w == 1))
    → Writes b i value (update (i / 64) f b)
unfolding update
update-Writes b i value f v lt digits =
    let (w, e) = elem_at b i v lt in
    let b' : Bitmap = record b { bits = set b.bits (i / 64) (f w) } in
    let inside : i / 64 < length b.bits = omega (arith, v.sized) in
    (
      b',
      rw (e, update),
      record { sized = length-set b.bits (i / 64) (f w) ∙ v.sized; small = v.small },
      refl,
      λ j. elim (Bool-cases (i / 64 == j / 64)) [
        | inl same ↦
            let at : i / 64 ≡ j / 64 = ground arith in
            let there : get_elem? b.bits (j / 64) ≡ some w = sym (ap (get_elem? b.bits) at) ∙ e in
            rw (get_elem?-set b.bits (i / 64) (j / 64) (f w) inside, same, there)
              (digits w (j % 64) e (omega arith)
                ∙ ap (λ t. if t then value else bit (j % 64) w == 1) (same_place i j at))
        | inr other ↦
            let ne : (j == i) ≡ false = ground arith in
            rw (get_elem?-set b.bits (i / 64) (j / 64) (f w) inside, other, ne)
      ],
    )

or_digit :
    (t u : ℕ) (c : Bool)
    → t < 2
    → u ≡ (if c then 1 else 0)
    → (max t u == 1) ≡ (if c then true else t == 1)
or_digit t u true lt e = ground arith
or_digit t u false lt e = ground arith

and_digit :
    (t u : ℕ) (c : Bool)
    → t < 2
    → u ≡ (if c then 0 else 1)
    → (min t u == 1) ≡ (if c then false else t == 1)
and_digit t u true lt e = ground arith
and_digit t u false lt e = ground arith

xor_digit :
    (t u : ℕ) (c : Bool)
    → t < 2
    → u ≡ (if c then 1 else 0)
    → ((t + u) % 2 == 1) ≡ (if c then not (t == 1) else t == 1)
xor_digit t u true lt e = ground arith
xor_digit t u false lt e = ground arith

module _ (b : Bitmap) (i : ℕ) (v : IsBitmap b) (lt : i < b.bit_cnt) where
  -- `bitmap_mark` sets the bit and leaves the others.
  pub bitmap_mark-Writes : Writes b i true (bitmap_mark i b)
  unfolding bitmap_mark
  bitmap_mark-Writes =
      update-Writes b i true (λ w. bit_or w (2 ^ (i % 64))) v lt
        λ w k e small. rw (bit-or k w (2 ^ (i % 64))) (
          or_digit (bit k w) (bit k (2 ^ (i % 64))) (k == i % 64) (bit-lt k w) (bit-pow k (i % 64)))

  -- `bitmap_reset` clears the bit and leaves the others.
  pub bitmap_reset-Writes : Writes b i false (bitmap_reset i b)
  unfolding bitmap_reset
  bitmap_reset-Writes =
      update-Writes b i false (λ w. bit_and w (complement (2 ^ (i % 64)))) v lt
        λ w k e small. rw (bit-and k w (complement (2 ^ (i % 64)))) (
          and_digit (bit k w) (bit k (complement (2 ^ (i % 64)))) (k == i % 64) (bit-lt k w)
            (bit-not_pow 64 k (i % 64) small (omega arith)))

  -- `bitmap_flip` negates the bit and leaves the others.
  pub bitmap_flip-Writes : Writes b i (not (view b i)) (bitmap_flip i b)
  unfolding bitmap_flip
  bitmap_flip-Writes =
      update-Writes b i (not (view b i)) (λ w. bit_xor w (2 ^ (i % 64))) v lt
        λ w k e small.
          rw (bit-xor k w (2 ^ (i % 64)), e)
            (xor_digit (bit k w) (bit k (2 ^ (i % 64))) (k == i % 64) (bit-lt k w)
                (bit-pow k (i % 64))
              ∙ flip_there w k)
    where
      flip_there :
          (w k : ℕ)
          → (if k == i % 64 then not (bit k w == 1) else bit k w == 1)
            ≡ (if k == i % 64 then not (bit (i % 64) w == 1) else bit k w == 1)
      flip_there w k = elim (Bool-cases (k == i % 64)) [
        | inl t ↦ let same : k ≡ i % 64 = ground arith in rw same
        | inr t ↦ rw t
      ]

  -- `bitmap_set` gives the bit the value and leaves the others.
  pub bitmap_set-Writes : (value : Bool) → Writes b i value (bitmap_set i value b)
  unfolding bitmap_set
  bitmap_set-Writes true = rw (lt→ltb i b.bit_cnt lt) bitmap_mark-Writes
  bitmap_set-Writes false = rw (lt→ltb i b.bit_cnt lt) bitmap_reset-Writes

-- An index that is no bit's stops `bitmap_set` at its assertion.
pub bitmap_set-panic :
    (b : Bitmap) (i : ℕ) (value : Bool) → b.bit_cnt ≤ i → bitmap_set i value b ≡ panic
unfolding bitmap_set
bitmap_set-panic b i value le = rw (le→ltb i b.bit_cnt le)
