-- ===== src/Random/Defs.antt =====
-- The functions of pintos lib/random.c. A `uint8_t` sum wraps at 256. The buffer that `random_bytes`
-- fills is returned as a list.
use jungle_data_structures.Prelude.{
  ℕ, zero, suc, ◌+◌, ◌*◌, ◌/◌, ◌%◌, ◌^◌, Bool, true, ◌==◌, if◌then◌else◌, List, [], ◌∷◌,
}

-- The static variables `s`, `s_i`, `s_j` and `inited`.
pub record Rng : Type 0 where
  pub s : ℕ → ℕ
  pub s_i : ℕ
  pub s_j : ℕ
  pub inited : Bool

unfoldable pub swap_byte : (a b : ℕ) → (ℕ → ℕ) → ℕ → ℕ
swap_byte a b s k = if k == b then s a else (if k == a then s b else s k)

-- `seedp[i % sizeof seed]`, the lowest byte first.
abbrev pub seed_byte : (seed i : ℕ) → ℕ
seed_byte seed i = seed / 256 ^ (i % 4) % 256

-- The second loop of `random_init`, with the rounds left.
unfoldable pub init_loop : ℕ → (seed i j : ℕ) → (ℕ → ℕ) → ℕ → ℕ
init_loop zero seed i j s = s
init_loop (suc n) seed i j s =
    let j = (j + (s i + seed_byte seed i)) % 256 in init_loop n seed (i + 1) j (swap_byte i j s)

unfoldable pub random_init : (seed : ℕ) → Rng
random_init seed = record { s = init_loop 256 seed 0 0 (λ i. i); s_i = 0; s_j = 0; inited = true }

-- One round of `random_bytes`: the state after it and the byte.
unfoldable pub next_byte : Rng → Rng × ℕ
next_byte g =
    let i = (g.s_i + 1) % 256 in
    let j = (g.s_j + g.s i) % 256 in
    let s = swap_byte i j g.s in (record g { s = s; s_i = i; s_j = j }, s ((s i + s j) % 256))

unfoldable pub bytes_loop : (size : ℕ) → Rng → Rng × List ℕ
bytes_loop zero g = (g, [])
bytes_loop (suc size) g =
    let (g1, b) = next_byte g in let (g2, bs) = bytes_loop size g1 in (g2, b ∷ bs)

unfoldable pub random_bytes : (size : ℕ) → Rng → Rng × List ℕ
random_bytes size g = bytes_loop size (if g.inited then g else random_init 0)

abbrev pub from_bytes : List ℕ → ℕ
from_bytes [] = 0
from_bytes (b ∷ bs) = b + 256 * from_bytes bs

unfoldable pub random_ulong : Rng → Rng × ℕ
random_ulong g = let (g1, bs) = random_bytes 8 g in (g1, from_bytes bs)
