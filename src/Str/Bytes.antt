-- ===== src/Str/Bytes.antt =====
-- Byte-addressed memory, and the ranges of it that pintos lib/string.c works on.
use jungle_data_structures.Prelude.{
  ℕ, suc, ◌+◌, ◌-◌, ◌<◌, ◌≡◌, ◌≢◌, refl, subst, true, false, Bool, Option, none, some, List, [],
  ◌∷◌, arith, ◌==◌, ltb, leb, ◌&&◌, if◌then◌else◌,
}
use jungle_data_structures.Prelude.Run.{Outcome, done, fault}

-- The byte at each address, `none` where the caller owns no memory. `NULL` is 0.
abbrev pub Mem : Type 0
Mem = ℕ → Option ℕ

abbrev pub Act : Type 0 → Type 0
Act A = Mem → Outcome Mem A

unfoldable pub poke : Mem → ℕ → ℕ → Mem
poke m p b a = if a == p then some b else m a

-- `*p`, read as an `unsigned char`.
unfoldable pub load : ℕ → Act ℕ
load p m = elim (m p) [ none ↦ fault | some b ↦ done b m ]

-- `*p = b`
unfoldable pub store : ℕ → ℕ → Act (Unit {0})
store p b m = elim (m p) [ none ↦ fault | some old ↦ done tt (poke m p b) ]

-- The caller owns the `n` bytes from `a`.
abbrev pub Owns : Mem → ℕ → ℕ → Type 0
Owns m a n = (i : ℕ) → i < n → (b : ℕ) × (m (a + i) ≡ some b)

-- The bytes from `a` are those of the list.
abbrev pub Holds : Mem → ℕ → List ℕ → Type 0
Holds m a [] = Unit
Holds m a (x ∷ xs) = (m a ≡ some x) × Holds m (a + 1) xs

-- From `a` stands the string of these characters, none of them null, and its terminator.
abbrev pub IsString : Mem → ℕ → List ℕ → Type 0
IsString m a [] = m a ≡ some 0
IsString m a (x ∷ xs) = (x ≢ 0) × (m a ≡ some x) × IsString m (a + 1) xs

-- Memory in which the `n` bytes from `dst` are those that `m` has from `src`.
abbrev pub copied : Mem → ℕ → ℕ → ℕ → Mem
copied m dst src n a = if leb dst a && ltb a (dst + n) then m (src + (a - dst)) else m a

pub load-done : (m : Mem) (p b : ℕ) → m p ≡ some b → load p m ≡ done b m
unfolding load
load-done m p b e = ground arith

pub store-done : (m : Mem) (p b c : ℕ) → m p ≡ some c → store p b m ≡ done tt (poke m p b)
unfolding store
store-done m p b c e = ground arith

pub poke_self : (m : Mem) (p b : ℕ) → poke m p b p ≡ some b
unfolding poke
poke_self m p b = ground arith

pub poke_ne : (m : Mem) (p b a : ℕ) → a ≢ p → poke m p b a ≡ m a
unfolding poke
poke_ne m p b a ne = ground arith

pub Owns-poke : (m : Mem) (p b a n : ℕ) → Owns m a n → Owns (poke m p b) a n
unfolding poke
Owns-poke m p b a n o i lt = owned (a + i == p) (o i lt)
  where
    owned :
        (t : Bool)
        → (c : ℕ) × (m (a + i) ≡ some c)
        → (c : ℕ) × ((if t then some b else m (a + i)) ≡ some c)
    owned true o = (b, refl)
    owned false o = o

-- The first byte of an owned range, and the rest of the range.
pub Owns-head : (m : Mem) (a n : ℕ) → Owns m a (suc n) → (b : ℕ) × (m a ≡ some b)
Owns-head m a n o = subst (λ k. (b : ℕ) × (m k ≡ some b)) (omega arith) (o 0 (omega arith))

pub Owns-tail : (m : Mem) (a n : ℕ) → Owns m a (suc n) → Owns m (a + 1) n
Owns-tail m a n o i lt =
    subst (λ k. (b : ℕ) × (m k ≡ some b)) (omega arith) (o (suc i) (omega arith))

pub Owns-init : (m : Mem) (a n : ℕ) → Owns m a (suc n) → Owns m a n
Owns-init m a n o i lt = o i (omega arith)
