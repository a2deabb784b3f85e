-- ===== src/Palloc/Fill.antt =====
-- `memset` of pintos lib/string.c on memory that the caller owns.
use jungle_data_structures.Prelude.{
  ℕ, zero, suc, ◌+◌, ◌-◌, ◌%◌, ◌≡◌, ◌≤◌, ◌<◌, refl, subst, some, ne→==, arith,
}
use jungle_data_structures.Prelude.Run.{done}
use jungle_data_structures.Str.Bytes.{Mem, Owns, poke, store-done, Owns-poke, Owns-head, Owns-tail}
use jungle_data_structures.Str.Defs.{memset, memset_loop}

-- Memory in which the same addresses are owned.
abbrev pub SameOwned : Mem → Mem → Type 0
SameOwned m k = (a n : ℕ) → Owns m a n → Owns k a n

memset_loop-done :
    (m : Mem) (dst n v : ℕ)
    → Owns m dst n
    → (k : Mem) × (memset_loop n dst v m ≡ done tt k) × SameOwned m k
unfolding memset_loop
memset_loop-done m dst zero v o = (m, refl, λ a n o. o)
memset_loop-done m dst (suc n) v o =
    let (b, e) = Owns-head m dst n o in
    let m1 = poke m dst v in
    let (k, r, same) =
      memset_loop-done m1 (dst + 1) n v (Owns-tail m1 dst n (Owns-poke m dst v dst (suc n) o)) in
    (k, rw (store-done m dst v b e) r, λ a n o. same a n (Owns-poke m dst v a n o))

-- `memset` on owned memory ends and returns the address.
pub memset-done :
    (m : Mem) (dst v n : ℕ)
    → 0 < dst
    → Owns m dst n
    → (k : Mem) × (memset dst v n m ≡ done dst k) × SameOwned m k
unfolding memset
memset-done m dst v n pos o =
    let (k, r, same) = memset_loop-done m dst n (v % 256) o in
    (k, rw (ne→== dst 0 (λ e. omega (arith, e, pos)), r) refl, same)

-- A part of an owned range.
pub Owns-part : (m : Mem) (a n b k : ℕ) → Owns m a n → a ≤ b → b + k ≤ a + n → Owns m b k
Owns-part m a n b k o l h i lt =
    subst (λ x. (c : ℕ) × (m x ≡ some c)) (omega (arith, l))
      (o (b - a + i) (omega (arith, l, h, lt)))
