-- ===== src/Malloc/Sizes.antt =====
-- The sizes that `mm_malloc` of malloc-lab/mm.c computes from a request.
use jungle_data_structures.Prelude.{ℕ, ◌+◌, ◌*◌, ◌/◌, ◌%◌, ◌≡◌, ◌≤◌, ◌<◌, arith}
use jungle_data_structures.Malloc.Alloc.{adjusted, extension}

-- The size of a block in units of eight bytes, and by how many the heap is extended.
abbrev pub wanted : (size : ℕ) → ℕ
wanted size = adjusted size / 8

abbrev pub extra : (size : ℕ) → ℕ
extra size = (extension (adjusted size) / 2 + 1) / 2

module _ (size : ℕ) (large : 8 < size) (small : size < 536870912) where
  adjusted-bounds :
      (adjusted size % 8 ≡ 0) × (size + 8 ≤ adjusted size) × (adjusted size ≤ size + 80)
  unfolding adjusted
  adjusted-bounds =
      (ground (arith, large, small), ground (arith, large, small), ground (arith, large, small))

  pub adjusted-wanted : adjusted size ≡ 8 * wanted size
  adjusted-wanted = let (z, _, _) = adjusted-bounds in omega (arith, z)

  pub wanted-ge : size + 8 ≤ 8 * wanted size
  wanted-ge = let (z, l, _) = adjusted-bounds in omega (arith, z, l)

  extension-bounds :
      (asize : ℕ)
      → asize < 536870993
      → (asize ≤ extension asize)
        × (1024 ≤ extension asize)
        × (extension asize ≤ asize + asize / 24 + 1024)
  unfolding extension
  extension-bounds asize l = (ground (arith, l), ground (arith, l), ground (arith, l))

  pub extra-ge : wanted size ≤ extra size
  extra-ge =
      let (_, _, u) = adjusted-bounds in
      let (l, k, _) = extension-bounds (adjusted size) (omega (arith, u, small)) in
      omega (arith, l, k)

  pub extra-large : 3 ≤ extra size
  extra-large =
      let (_, _, u) = adjusted-bounds in
      let (l, k, _) = extension-bounds (adjusted size) (omega (arith, u, small)) in omega (arith, k)

  pub extra-small : 8 * extra size < 2147483648
  extra-small =
      let (_, _, u) = adjusted-bounds in
      let (_, _, k) = extension-bounds (adjusted size) (omega (arith, u, small)) in
      omega (arith, k, u, small)
