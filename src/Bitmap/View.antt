-- ===== src/Bitmap/View.antt =====
-- What a bitmap stands for: a truth value at each index, and when its element array has the size
-- that its bit count asks for.
use jungle_data_structures.Prelude.{
  ℕ, ◌+◌, ◌*◌, ◌/◌, ◌%◌, ◌^◌, ◌<◌, ◌≡◌, ◌⊎◌, inl, inr, Bool, true, false, not, Option, none, some,
  ◌==◌, get_elem?, length, get_elem?-some, arith, lt→ltb,
}
use jungle_data_structures.Prelude.Bits.{bit, bit-lt, and-pow, pow-pos}
use jungle_data_structures.Prelude.Run.{done}
use jungle_data_structures.Bitmap.Defs.{Bitmap, elem_cnt, masked, bitmap_test}

-- The digit of an element, 0 where there is none.
abbrev pub digit : ℕ → Option ℕ → ℕ
digit j none = 0
digit j (some w) = bit j w

-- The value of the bit numbered `i`.
abbrev pub view : Bitmap → ℕ → Bool
view b i = digit (i % 64) (get_elem? b.bits (i / 64)) == 1

pub record IsBitmap (b : Bitmap) : Type 0 where
  pub sized : length b.bits ≡ elem_cnt b.bit_cnt
  pub small : b.bit_cnt + 64 < 2 ^ 64

-- The element that holds a bit of the bitmap.
pub elem_at :
    (b : Bitmap) (i : ℕ)
    → IsBitmap b
    → i < b.bit_cnt
    → (w : ℕ) × (get_elem? b.bits (i / 64) ≡ some w)
elem_at b i v lt = get_elem?-some b.bits (i / 64) (omega (arith, v.sized))

digit-cases : (k w : ℕ) → (bit k w ≡ 0) ⊎ (bit k w ≡ 1)
digit-cases k w = omega (arith, bit-lt k w)

zero_digit : (t : ℕ) → not (0 * t == 0) ≡ false
zero_digit t = ground arith

one_digit : (t : ℕ) → 0 < t → not (1 * t == 0) ≡ true
one_digit t h = ground arith

bit_set : (w k : ℕ) → not (bit k w * 2 ^ k == 0) ≡ (bit k w == 1)
bit_set w k = elim (digit-cases k w) [
  | inl z ↦ rw z (zero_digit (2 ^ k))
  | inr o ↦ rw o (one_digit (2 ^ k) (pow-pos k))
]

masked-done :
    (b : Bitmap) (i w : ℕ)
    → get_elem? b.bits (i / 64) ≡ some w
    → masked i b ≡ done (bit (i % 64) w * 2 ^ (i % 64)) b
unfolding masked
masked-done b i w e = rw (e, masked, and-pow (i % 64) w)

-- `bitmap_test` of a bit of the bitmap returns its value and changes nothing.
pub bitmap_test-view :
    (b : Bitmap) (i : ℕ) → IsBitmap b → i < b.bit_cnt → bitmap_test i b ≡ done (view b i) b
unfolding bitmap_test
bitmap_test-view b i v lt =
    let (w, e) = elem_at b i v lt in
    rw (lt→ltb i b.bit_cnt lt, masked-done b i w e, bit_set w (i % 64), e)
