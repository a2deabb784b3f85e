-- ===== src/Bitmap/Defs.antt =====
-- The functions of pintos lib/kernel/bitmap.c. An `elem_type` is a number below `2 ^ 64`, a
-- `size_t` sum wraps at `2 ^ 64`, and an access outside the element array is a fault.
use Prim.Native.Nat.{bit_and, bit_or, bit_xor}
use jungle_data_structures.Prelude.{
  ℕ, zero, suc, ◌+◌, ◌-◌, ◌*◌, ◌/◌, ◌%◌, ◌^◌, Bool, true, false, not, none, some, List, ◌==◌, ltb,
  leb, if◌then◌else◌, get_elem?, set,
}
use jungle_data_structures.Prelude.Run.{Outcome, done, fault, assert, ◌>>=◌, ◌>>◌}

abbrev pub elem_bits : ℕ
elem_bits = 64

abbrev pub bitmap_error : ℕ
bitmap_error = 2 ^ 64 - 1

-- `a + b` in `size_t`.
abbrev pub add64 : ℕ → ℕ → ℕ
add64 a b = (a + b) % 2 ^ 64

pub record Bitmap : Type 0 where
  pub bit_cnt : ℕ
  pub bits : List ℕ

abbrev pub Act : Type 0 → Type 0
Act A = Bitmap → Outcome Bitmap A

abbrev pub elem_idx : ℕ → ℕ
elem_idx bit_idx = bit_idx / elem_bits

abbrev pub bit_mask : ℕ → ℕ
bit_mask bit_idx = 2 ^ (bit_idx % elem_bits)

-- `DIV_ROUND_UP (bit_cnt, ELEM_BITS)`
abbrev pub elem_cnt : ℕ → ℕ
elem_cnt bit_cnt = (bit_cnt + elem_bits - 1) / elem_bits

unfoldable pub byte_cnt : ℕ → ℕ
byte_cnt bit_cnt = 8 * elem_cnt bit_cnt

-- `~ x` in an `elem_type`.
abbrev pub complement : ℕ → ℕ
complement x = 2 ^ 64 - 1 - x

-- `b->bits[idx] = f (b->bits[idx])`
unfoldable pub update : ℕ → (ℕ → ℕ) → Act (Unit {0})
update idx f b = elim (get_elem? b.bits idx) [
  | none ↦ fault
  | some w ↦ done tt (record b { bits = set b.bits idx (f w) })
]

unfoldable pub bitmap_mark : ℕ → Act (Unit {0})
bitmap_mark bit_idx = update (elem_idx bit_idx) (λ w. bit_or w (bit_mask bit_idx))

unfoldable pub bitmap_reset : ℕ → Act (Unit {0})
bitmap_reset bit_idx = update (elem_idx bit_idx) (λ w. bit_and w (complement (bit_mask bit_idx)))

unfoldable pub bitmap_flip : ℕ → Act (Unit {0})
bitmap_flip bit_idx = update (elem_idx bit_idx) (λ w. bit_xor w (bit_mask bit_idx))

unfoldable pub bitmap_set : ℕ → Bool → Act (Unit {0})
bitmap_set idx value b =
    (assert (ltb idx b.bit_cnt) >> (if value then bitmap_mark idx else bitmap_reset idx)) b

-- The word that holds the bit, anded with its mask.
unfoldable pub masked : ℕ → Act ℕ
masked idx b = elim (get_elem? b.bits (elem_idx idx)) [
  | none ↦ fault
  | some w ↦ done (bit_and w (bit_mask idx)) b
]

unfoldable pub bitmap_test : ℕ → Act Bool
bitmap_test idx b = (assert (ltb idx b.bit_cnt) >> (masked idx >>= λ w. done (not (w == 0)))) b

-- `ASSERT (start <= b->bit_cnt); ASSERT (start + cnt <= b->bit_cnt);`
abbrev pub assert_range : ℕ → ℕ → Act (Unit {0})
assert_range start cnt b =
    (assert (leb start b.bit_cnt) >> assert (leb (add64 start cnt) b.bit_cnt)) b

-- The loops run over `i` with the rounds that are left.
unfoldable pub set_loop : ℕ → (start i : ℕ) → Bool → Act (Unit {0})
set_loop zero start i value = done tt
set_loop (suc n) start i value = do bitmap_set (add64 start i) value; set_loop n start (i + 1) value

unfoldable pub bitmap_set_multiple : (start cnt : ℕ) → Bool → Act (Unit {0})
bitmap_set_multiple start cnt value = do assert_range start cnt; set_loop cnt start 0 value

unfoldable pub bitmap_set_all : Bool → Act (Unit {0})
bitmap_set_all value b = bitmap_set_multiple 0 b.bit_cnt value b

abbrev pub same_bool : Bool → Bool → Bool
same_bool true v = v
same_bool false v = not v

unfoldable pub count_loop : ℕ → (start i : ℕ) → Bool → (value_cnt : ℕ) → Act ℕ
count_loop zero start i value value_cnt = done value_cnt
count_loop (suc n) start i value value_cnt = do
  t ← bitmap_test (add64 start i)
  count_loop n start (i + 1) value (if same_bool t value then value_cnt + 1 else value_cnt)

unfoldable pub bitmap_count : (start cnt : ℕ) → Bool → Act ℕ
bitmap_count start cnt value = do assert_range start cnt; count_loop cnt start 0 value 0

unfoldable pub contains_loop : ℕ → (start i : ℕ) → Bool → Act Bool
contains_loop zero start i value = done false
contains_loop (suc n) start i value = do
  t ← bitmap_test (add64 start i)
  if same_bool t value then done true else contains_loop n start (i + 1) value

unfoldable pub bitmap_contains : (start cnt : ℕ) → Bool → Act Bool
bitmap_contains start cnt value = do assert_range start cnt; contains_loop cnt start 0 value

unfoldable pub bitmap_any : (start cnt : ℕ) → Act Bool
bitmap_any start cnt = bitmap_contains start cnt true

unfoldable pub bitmap_none : (start cnt : ℕ) → Act Bool
bitmap_none start cnt = bitmap_contains start cnt true >>= λ t. done (not t)

unfoldable pub bitmap_all : (start cnt : ℕ) → Act Bool
bitmap_all start cnt = bitmap_contains start cnt false >>= λ t. done (not t)

-- `for (i = start; i <= last; i++)`, over the `last + 1 - start` rounds that are left at `i`.
unfoldable pub scan_loop : ℕ → (i cnt : ℕ) → Bool → Act ℕ
scan_loop zero i cnt value = done bitmap_error
scan_loop (suc n) i cnt value = do
  t ← bitmap_contains i cnt (not value)
  if t then scan_loop n (i + 1) cnt value else done i

unfoldable pub bitmap_scan : (start cnt : ℕ) → Bool → Act ℕ
bitmap_scan start cnt value b =
    (assert (leb start b.bit_cnt)
        >> (if leb cnt b.bit_cnt
            then scan_loop (b.bit_cnt - cnt + 1 - start) start cnt value
            else done bitmap_error))
      b

unfoldable pub bitmap_scan_and_flip : (start cnt : ℕ) → Bool → Act ℕ
bitmap_scan_and_flip start cnt value = do
  idx ← bitmap_scan start cnt value
  if idx == bitmap_error then done idx else (bitmap_set_multiple idx cnt (not value) >> done idx)

-- `bitmap_create_in_buf` in storage whose element array holds `words`.
unfoldable pub bitmap_create_in_buf : (bit_cnt : ℕ) → (words : List ℕ) → Outcome Bitmap (Unit {0})
bitmap_create_in_buf bit_cnt words =
    bitmap_set_all false (record { bit_cnt = bit_cnt; bits = words })
