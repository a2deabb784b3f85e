-- ===== src/Prelude/Bits.antt =====
-- Single binary digits of a number, and how the native bit operations act on them.
use Prim.Native.Nat.{
  ℕ, zero, suc, ◌+◌, ◌-◌, ◌*◌, ◌/◌, ◌%◌, ◌^◌, ◌≤◌, ◌<◌, min, max, bit_and, bit_or, bit_xor, digits,
  differ, bit_and-bitwise, bit_or-bitwise, bit_xor-bitwise,
}
use mathlib.Core.Path.{◌≡◌, refl, sym, ap, ◌∙◌}
use mathlib.Core.Logic.{◌⊎◌, inl, inr}
use native.Mathlib.Omega.{arith}
use native.Mathlib.Nat.{pow-suc}
use jungle_data_structures.Prelude.Tests.{◌==◌, if◌then◌else◌}

-- The digit of weight `2 ^ j`.
unfoldable pub bit : ℕ → ℕ → ℕ
bit zero x = x % 2
bit (suc j) x = bit j (x / 2)

pub bit-lt : (j x : ℕ) → bit j x < 2
unfolding bit
bit-lt zero x = omega arith
bit-lt (suc j) x = bit-lt j (x / 2)

ℕ-cases : (x : ℕ) → (x ≡ 0) ⊎ (0 < x)
ℕ-cases zero = inl refl
ℕ-cases (suc x) = inr (omega arith)

-- More fuel than digits makes no difference.
module _ (z : ℕ → ℕ) (f : ℕ → ℕ → ℕ) where
  enough : (n k a b : ℕ) → a ≤ n → a ≤ k → digits z f n a b ≡ digits z f k a b
  enough zero zero a b p q = refl
  enough zero (suc k) zero b p q = refl
  enough zero (suc k) (suc a) b p q = absurd (omega arith)
  enough (suc n) zero zero b p q = refl
  enough (suc n) zero (suc a) b p q = absurd (omega arith)
  enough (suc n) (suc k) zero b p q = refl
  enough (suc n) (suc k) (suc a) b p q =
      ap (λ t. t * 2 + f (suc a % 2) (b % 2))
        (enough n k (suc a / 2) (b / 2) (omega arith) (omega arith))

  lowest :
      (a b : ℕ)
      → digits z f (suc a) (suc a) b
        ≡ digits z f (suc a / 2) (suc a / 2) (b / 2) * 2 + f (suc a % 2) (b % 2)
  lowest a b =
      ap (λ t. t * 2 + f (suc a % 2) (b % 2))
        (enough a (suc a / 2) (suc a / 2) (b / 2) (omega arith) (omega arith))

differ_zero : (y : ℕ) → differ 0 y ≡ y
differ_zero y = refl

pub or_lowest : (a b : ℕ) → bit_or a b ≡ bit_or (a / 2) (b / 2) * 2 + max (a % 2) (b % 2)
or_lowest zero b = simp bit_or-bitwise (omega arith)
or_lowest (suc a) b = simp bit_or-bitwise (lowest (λ y. y) max a b)

and_lowest : (a b : ℕ) → bit_and a b ≡ bit_and (a / 2) (b / 2) * 2 + min (a % 2) (b % 2)
and_lowest zero b = simp bit_and-bitwise (omega arith)
and_lowest (suc a) b = simp bit_and-bitwise (lowest (λ y. 0) min a b)

xor_lowest : (a b : ℕ) → bit_xor a b ≡ bit_xor (a / 2) (b / 2) * 2 + differ (a % 2) (b % 2)
xor_lowest zero b = simp bit_xor-bitwise (omega arith)
xor_lowest (suc a) b = simp bit_xor-bitwise (lowest (λ y. y) differ a b)

-- On digits `differ` is the sum modulo 2.
differ_digits : (x y : ℕ) → x < 2 → y < 2 → differ x y ≡ (x + y) % 2
differ_digits zero y p q = omega arith
differ_digits (suc zero) zero p q = refl
differ_digits (suc zero) (suc zero) p q = refl
differ_digits (suc zero) (suc (suc y)) p q = absurd (omega arith)
differ_digits (suc (suc x)) y p q = absurd (omega arith)

pub bit-or : (j x y : ℕ) → bit j (bit_or x y) ≡ max (bit j x) (bit j y)
unfolding bit
bit-or zero x y = omega (arith, or_lowest x y)
bit-or (suc j) x y = ap (bit j) (omega (arith, or_lowest x y)) ∙ bit-or j (x / 2) (y / 2)

pub bit-and : (j x y : ℕ) → bit j (bit_and x y) ≡ min (bit j x) (bit j y)
unfolding bit
bit-and zero x y = omega (arith, and_lowest x y)
bit-and (suc j) x y = ap (bit j) (omega (arith, and_lowest x y)) ∙ bit-and j (x / 2) (y / 2)

pub bit-xor : (j x y : ℕ) → bit j (bit_xor x y) ≡ (bit j x + bit j y) % 2
unfolding bit
bit-xor zero x y =
    omega (arith, xor_lowest x y, differ_digits (x % 2) (y % 2) (omega arith) (omega arith))
bit-xor (suc j) x y =
    ap (bit j)
      (omega (arith, xor_lowest x y, differ_digits (x % 2) (y % 2) (omega arith) (omega arith)))
    ∙ bit-xor j (x / 2) (y / 2)

bit-zero : (j : ℕ) → bit j 0 ≡ 0
unfolding bit
bit-zero zero = refl
bit-zero (suc j) = bit-zero j

half_pow : (k : ℕ) → 2 ^ suc k / 2 ≡ 2 ^ k
half_pow k = omega (arith, pow-suc 2 k)

same_suc : (j k a b : ℕ) → (if j == k then a else b) ≡ (if suc j == suc k then a else b)
same_suc j k a b = ground arith

-- The digits of a mask `1 << k`.
pub bit-pow : (j k : ℕ) → bit j (2 ^ k) ≡ (if j == k then 1 else 0)
unfolding bit
bit-pow zero zero = refl
bit-pow zero (suc k) = ground (arith, pow-suc 2 k)
bit-pow (suc j) zero = bit-zero j ∙ ground arith
bit-pow (suc j) (suc k) = ap (bit j) (half_pow k) ∙ bit-pow j k ∙ same_suc j k 1 0

and_zero : (n x : ℕ) → x ≤ n → bit_and x 0 ≡ 0
and_zero zero x h = let z : x ≡ 0 = omega arith in ap (λ y. bit_and y 0) z
and_zero (suc n) x h = elim (ℕ-cases x) [
  | inl z ↦ ap (λ y. bit_and y 0) z
  | inr p ↦ omega (arith, and_lowest x 0, and_zero n (x / 2) (omega arith))
]

or_zero_below : (n x : ℕ) → x ≤ n → bit_or x 0 ≡ x
or_zero_below zero x h = let z : x ≡ 0 = omega arith in ap (λ y. bit_or y 0) z ∙ sym z
or_zero_below (suc n) x h = elim (ℕ-cases x) [
  | inl z ↦ ap (λ y. bit_or y 0) z ∙ sym z
  | inr p ↦ omega (arith, or_lowest x 0, or_zero_below n (x / 2) (omega arith))
]

pub or_zero : (x : ℕ) → bit_or x 0 ≡ x
or_zero x = or_zero_below x x (omega arith)

-- An even number and the lowest digit.
pub or_even_one : (x : ℕ) → x % 2 ≡ 0 → bit_or x 1 ≡ x + 1
or_even_one x e = omega (arith, or_lowest x 1, or_zero (x / 2), e)

-- `x & (1 << k)` is the digit in its place.
pub and-pow : (k x : ℕ) → bit_and x (2 ^ k) ≡ bit k x * 2 ^ k
unfolding bit
and-pow zero x = omega (arith, and_lowest x 1, and_zero (x / 2) (x / 2) (omega arith))
and-pow (suc k) x = omega (
  arith,
  and_lowest x (2 ^ suc k),
  pow-suc 2 k,
  ap (bit_and (x / 2)) (half_pow k),
  and-pow k (x / 2),
  ap (λ (t : ℕ). bit k (x / 2) * t) (pow-suc 2 k),
)

pub pow-pos : (k : ℕ) → 0 < 2 ^ k
pow-pos zero = omega arith
pow-pos (suc k) = omega (arith, pow-suc 2 k, pow-pos k)

pow-lt : (k w : ℕ) → k < w → 2 ^ k < 2 ^ w
pow-lt k zero h = elim h [ ]
pow-lt zero (suc w) h = omega (arith, pow-suc 2 w, pow-pos w)
pow-lt (suc k) (suc w) h = omega (arith, pow-suc 2 w, pow-suc 2 k, pow-lt k w)

-- A word of `w` ones.
bit-ones : (w j : ℕ) → j < w → bit j (2 ^ w - 1) ≡ 1
unfolding bit
bit-ones zero j h = elim h [ ]
bit-ones (suc w) zero h = omega (arith, pow-suc 2 w, pow-pos w)
bit-ones (suc w) (suc j) h =
    ap (bit j) (omega (arith, pow-suc 2 w, pow-pos w)) ∙ bit-ones w j (omega arith)

-- The digits of `~ (1 << k)` in a word of `w` bits.
pub bit-not_pow :
    (w j k : ℕ) → j < w → k < w → bit j (2 ^ w - 1 - 2 ^ k) ≡ (if j == k then 0 else 1)
unfolding bit
bit-not_pow zero j k p q = elim p [ ]
bit-not_pow (suc w) zero zero p q = omega (arith, pow-suc 2 w, pow-pos w)
bit-not_pow (suc w) zero (suc k) p q =
    ground (arith, pow-suc 2 w, pow-suc 2 k, pow-lt k w (omega arith))
bit-not_pow (suc w) (suc j) zero p q =
    ap (bit j) (omega (arith, pow-suc 2 w, pow-pos w)) ∙ bit-ones w j (omega arith) ∙ ground arith
bit-not_pow (suc w) (suc j) (suc k) p q =
    ap (bit j) (omega (arith, pow-suc 2 w, pow-suc 2 k, pow-lt k w (omega arith)))
    ∙ bit-not_pow w j k (omega arith) (omega arith)
    ∙ same_suc j k 0 1
