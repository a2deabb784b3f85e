-- ===== src/Prelude/Distinct.antt =====
-- Lists of addresses in which none stands twice.
use Prim.Native.Nat.{ℕ}
use mathlib.Core.Path.{◌≡◌, refl}
use mathlib.Core.Bool.{Bool, true, false, ◌||◌}
use mathlib.Core.List.{List, [], ◌∷◌, ◌++◌}
use native.Mathlib.Omega.{arith}
use jungle_data_structures.Prelude.Tests.{◌==◌}

abbrev pub has : ℕ → List ℕ → Bool
has a [] = false
has a (x ∷ xs) = (a == x) || has a xs

abbrev pub Distinct : List ℕ → Type 0
Distinct [] = Unit
Distinct (x ∷ xs) = (has x xs ≡ false) × Distinct xs

pub has-append : (a : ℕ) (xs ys : List ℕ) → has a (xs ++ ys) ≡ (has a xs || has a ys)
has-append a [] ys = refl
has-append a (x ∷ xs) ys = ground (arith, has-append a xs ys)

pub outside_parts :
    (a : ℕ) (xs ys : List ℕ) → has a (xs ++ ys) ≡ false → (has a xs ≡ false) × (has a ys ≡ false)
outside_parts a xs ys o = (ground (arith, has-append a xs ys), ground (arith, has-append a xs ys))

no_other :
    (x a : ℕ) (xs ys : List ℕ) → has x (xs ++ ys) ≡ false → has a ys ≡ true → (a == x) ≡ false
no_other x a xs ys o i = ground (arith, has-append x xs ys)

pub Distinct-append :
    (xs ys : List ℕ)
    → Distinct (xs ++ ys)
    → Distinct xs × Distinct ys × ((a : ℕ) → has a ys ≡ true → has a xs ≡ false)
Distinct-append [] ys d = (tt, d, λ a i. refl)
Distinct-append (x ∷ xs) ys (dx, d) =
    let (p, q, apart) = Distinct-append xs ys d in
    (
      (ground (arith, has-append x xs ys), p),
      q,
      λ a i. ground (arith, apart a i, no_other x a xs ys dx i),
    )

pub Distinct-join :
    (xs ys : List ℕ)
    → Distinct xs
    → Distinct ys
    → ((a : ℕ) → has a ys ≡ true → has a xs ≡ false)
    → Distinct (xs ++ ys)
Distinct-join [] ys p q apart = q
Distinct-join (x ∷ xs) ys (px, p) q apart = (
  ground (arith, has-append x xs ys, apart x),
  Distinct-join xs ys p q (λ a i. ground (arith, apart a i)),
)
