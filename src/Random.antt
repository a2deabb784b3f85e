-- ===== src/Random.antt =====
-- The random numbers of pintos lib/random.c.
pub mod Defs
pub mod Permutation
