-- ===== src/Random/Permutation.antt =====
-- The state of pintos lib/random.c is a permutation of the bytes.
use jungle_data_structures.Prelude.{
  Bool, ◌⊎◌, inl, inr, ℕ, zero, suc, ◌+◌, ◌%◌, ◌≡◌, ◌≤◌, ◌<◌, refl, sym, subst, ap, ◌∙◌, true,
  false, ◌==◌, if◌then◌else◌, List, [], ◌∷◌, arith, Bool-cases,
}
use jungle_data_structures.Random.Defs.{
  Rng, swap_byte, seed_byte, init_loop, random_init, next_byte, bytes_loop, random_bytes,
}

-- Every byte stands in the table exactly once: `place` tells where.
pub record IsPermutation (s : ℕ → ℕ) : Type 0 where
  pub place : ℕ → ℕ
  pub byte : (i : ℕ) → i < 256 → s i < 256
  pub index : (x : ℕ) → x < 256 → place x < 256
  pub there : (x : ℕ) → x < 256 → s (place x) ≡ x
  pub back : (i : ℕ) → i < 256 → place (s i) ≡ i

-- The exchange of two indices.
exchanged : (a b k : ℕ) → ℕ
exchanged a b k = if k == b then a else (if k == a then b else k)

exchanged-lt : (a b k : ℕ) → a < 256 → b < 256 → k < 256 → exchanged a b k < 256
unfolding exchanged
exchanged-lt a b k x y z = ground (arith, x, y, z)

exchanged_twice : (a b k : ℕ) → exchanged a b (exchanged a b k) ≡ k
unfolding exchanged
exchanged_twice a b k = ground arith

swap_byte-exchanged : (a b : ℕ) (s : ℕ → ℕ) (k : ℕ) → swap_byte a b s k ≡ s (exchanged a b k)
unfolding swap_byte exchanged
swap_byte-exchanged a b s k = elim (Bool-cases (k == b)) [
  | inl e ↦ rw e refl
  | inr e ↦ elim (Bool-cases (k == a)) [ inl f ↦ rw (e, f) refl | inr f ↦ rw (e, f) refl ]
]

swap_byte-IsPermutation :
    (a b : ℕ) (s : ℕ → ℕ) → a < 256 → b < 256 → IsPermutation s → IsPermutation (swap_byte a b s)
swap_byte-IsPermutation a b s x y w = record {
  place = λ v. exchanged a b (w.place v);
  byte = λ i l.
      subst (λ t. t < 256) (sym (swap_byte-exchanged a b s i))
        (w.byte (exchanged a b i) (exchanged-lt a b i x y l));
  index = λ v l. exchanged-lt a b (w.place v) x y (w.index v l);
  there = λ v l.
      swap_byte-exchanged a b s (exchanged a b (w.place v))
      ∙ ap s (exchanged_twice a b (w.place v))
      ∙ w.there v l;
  back = λ i l.
      ap (λ t. exchanged a b (w.place t)) (swap_byte-exchanged a b s i)
      ∙ ap (exchanged a b) (w.back (exchanged a b i) (exchanged-lt a b i x y l))
      ∙ exchanged_twice a b i;
}

init_loop-IsPermutation :
    (n seed i j : ℕ) (s : ℕ → ℕ)
    → i + n ≤ 256
    → IsPermutation s
    → IsPermutation (init_loop n seed i j s)
unfolding init_loop
init_loop-IsPermutation zero seed i j s l w = w
init_loop-IsPermutation (suc n) seed i j s l w =
    init_loop-IsPermutation n seed (i + 1) ((j + (s i + seed_byte seed i)) % 256) _
      (omega (arith, l))
      (swap_byte-IsPermutation i ((j + (s i + seed_byte seed i)) % 256) s (omega (arith, l))
        (omega arith) w)

-- Once it was initialised, the table is a permutation and the indices are bytes.
pub record IsRng (g : Rng) : Type 0 where
  pub table : IsPermutation g.s
  pub i_byte : g.s_i < 256
  pub j_byte : g.s_j < 256
  pub ready : g.inited ≡ true

random_init-IsRng : (seed : ℕ) → IsRng (random_init seed)
unfolding random_init
random_init-IsRng seed = record {
  table =
      init_loop-IsPermutation 256 seed 0 0 (λ i. i) (omega arith)
        (record {
          place = λ x. x;
          byte = λ i l. l;
          index = λ x l. l;
          there = λ x l. refl;
          back = λ i l. refl;
        });
  i_byte = omega arith;
  j_byte = omega arith;
  ready = refl;
}

next_byte-IsRng : (g : Rng) → IsRng g → IsRng (next_byte g).0 × ((next_byte g).1 < 256)
unfolding next_byte
next_byte-IsRng g w =
    let i = (g.s_i + 1) % 256 in
    let j = (g.s_j + g.s i) % 256 in
    let t = swap_byte-IsPermutation i j g.s (omega arith) (omega arith) w.table in
    (
      record { table = t; i_byte = omega arith; j_byte = omega arith; ready = w.ready },
      t.byte ((swap_byte i j g.s i + swap_byte i j g.s j) % 256) (omega arith),
    )

-- So many bytes.
abbrev pub AreBytes : ℕ → List ℕ → Type 0
AreBytes zero [] = Unit {0}
AreBytes zero (b ∷ bs) = ⊥
AreBytes (suc n) [] = ⊥
AreBytes (suc n) (b ∷ bs) = (b < 256) × AreBytes n bs

bytes_loop-IsRng :
    (size : ℕ) (g : Rng)
    → IsRng g
    → IsRng (bytes_loop size g).0 × AreBytes size (bytes_loop size g).1
unfolding bytes_loop
bytes_loop-IsRng zero g w = (w, tt)
bytes_loop-IsRng (suc size) g w =
    let (w1, l) = next_byte-IsRng g w in
    let (w2, ls) = bytes_loop-IsRng size (next_byte g).0 w1 in (w2, (l, ls))

-- What holds of the loop, by whether the state is initialised.
abbrev Filled : (size : ℕ) → Rng → Bool → Type 0
Filled size g t =
    IsRng (bytes_loop size (if t then g else random_init 0)).0
    × AreBytes size (bytes_loop size (if t then g else random_init 0)).1

-- From a state that was never initialised, or in which every byte stands once in the table,
-- `random_bytes` writes as many bytes as are asked for and leaves a state that is initialised and in
-- which every byte stands once in the table.
pub random_bytes-IsRng :
    (size : ℕ) (g : Rng)
    → (g.inited ≡ false) ⊎ IsRng g
    → IsRng (random_bytes size g).0 × AreBytes size (random_bytes size g).1
unfolding random_bytes
random_bytes-IsRng size g (inl e) =
    subst (Filled size g) (sym e) (bytes_loop-IsRng size (random_init 0) (random_init-IsRng 0))
random_bytes-IsRng size g (inr w) = subst (Filled size g) (sym w.ready) (bytes_loop-IsRng size g w)
