-- ===== src/Tests/Randoms.antt =====
-- The random numbers of pintos lib/random.c, before they were initialised.
use jungle_data_structures.Prelude.{inl, refl, false}
use jungle_data_structures.Random.Defs.{Rng, random_bytes}
use jungle_data_structures.Random.Permutation.{IsRng, AreBytes, random_bytes-IsRng}

abbrev no_seed : Rng
no_seed = record { s = λ i. 0; s_i = 0; s_j = 0; inited = false }

random_bytes-IsRng_example :
    IsRng (random_bytes 2 no_seed).0 × AreBytes 2 (random_bytes 2 no_seed).1
random_bytes-IsRng_example = random_bytes-IsRng 2 no_seed (inl refl)
