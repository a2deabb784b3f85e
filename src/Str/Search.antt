-- ===== src/Str/Search.antt =====
-- `strpbrk` and `strstr` of pintos lib/string.c.
use jungle_data_structures.Prelude.{
  ℕ, zero, suc, ◌+◌, ◌-◌, ◌%◌, ◌≤◌, ◌<◌, ◌≡◌, ◌≢◌, inl, inr, refl, ap, ◌∙◌, Bool, true, false, not,
  ◌&&◌, Option, none, some, List, [], ◌∷◌, ltb, leb, ◌==◌, if◌then◌else◌, arith, Bool-cases, ne→==,
  length, le_or_lt, le→leb, lt→leb,
}
use jungle_data_structures.Prelude.Int.{ℤ, pos, negsuc, minus_one}
use jungle_data_structures.Prelude.Run.{done, give_up, ◌>>=◌}
use jungle_data_structures.Prelude.Distinct.{has}
use jungle_data_structures.Str.Bytes.{Act, Mem, IsString, load, load-done}
use jungle_data_structures.Str.Defs.{strchr, strlen, memcmp_loop, memcmp}
use jungle_data_structures.Str.Text.{
  terminated, find_idx?, at_index, strchr-find_idx?, strlen-length,
}

unfoldable pub strpbrk : ℕ → (string stop : ℕ) → Act ℕ
strpbrk zero string stop = give_up
strpbrk (suc fuel) string stop = do
  b ← load string
  if b == 0 then done 0 else do
    r ← strchr (suc fuel) stop b
    if not (r == 0) then done string else strpbrk fuel (string + 1) stop

abbrev is_zero : ℤ → Bool
is_zero (pos n) = n == 0
is_zero (negsuc n) = false

-- The loop of `strstr`, in as many rounds as there are places.
unfoldable pub strstr_loop : ℕ → (haystack needle needle_len : ℕ) → Act ℕ
strstr_loop zero haystack needle needle_len = done 0
strstr_loop (suc rounds) haystack needle needle_len = do
  r ← memcmp haystack needle needle_len
  if is_zero r then done haystack else strstr_loop rounds (haystack + 1) needle needle_len

unfoldable pub strstr : ℕ → (haystack needle : ℕ) → Act ℕ
strstr fuel haystack needle = do
  haystack_len ← strlen fuel haystack
  needle_len ← strlen fuel needle
  if leb needle_len haystack_len
      then strstr_loop (haystack_len - needle_len + 1) haystack needle needle_len
      else done 0

-- The byte `c` is a character of the string `ds`, its terminator counted.
abbrev pub stops : List ℕ → ℕ → Bool
stops ds c = has (c % 256) (terminated ds)

found : (b c : ℕ) (xs : List ℕ) → b ≢ 0 → (at_index b (find_idx? c xs) == 0) ≡ not (has c xs)
unfolding find_idx?
found b c [] ne = refl
found b c (x ∷ xs) ne = ground (arith, found b c xs)

pub strchr-stops :
    (fuel b c : ℕ) (m : Mem) (ds : List ℕ)
    → b ≢ 0
    → IsString m b ds
    → length ds < fuel
    → (r : ℕ) × (strchr fuel b c m ≡ done r m) × ((r == 0) ≡ not (stops ds c))
strchr-stops fuel b c m ds ne s lt = (
  at_index b (find_idx? (c % 256) (terminated ds)),
  strchr-find_idx? fuel b c m ds ne s lt,
  found b (c % 256) (terminated ds) ne,
)

-- The index of the first element that satisfies a test.
abbrev pub next_index : Option ℕ → Option ℕ
next_index none = none
next_index (some i) = some (suc i)

abbrev pub index_where : (ℕ → Bool) → List ℕ → Option ℕ
index_where f [] = none
index_where f (x ∷ xs) = if f x then some 0 else next_index (index_where f xs)

at_next : (a : ℕ) (o : Option ℕ) → at_index (a + 1) o ≡ at_index a (next_index o)
at_next a none = refl
at_next a (some i) = omega arith

-- `strpbrk` returns the address of the first character of the string that is in `stop`, or `NULL`
-- if none is, and writes nothing. One round more than both have characters is enough.
pub strpbrk-index_where :
    (fuel a b : ℕ) (m : Mem) (xs ds : List ℕ)
    → b ≢ 0
    → IsString m a xs
    → IsString m b ds
    → length xs + length ds < fuel
    → strpbrk fuel a b m ≡ done (at_index a (index_where (stops ds) xs)) m
unfolding strpbrk
strpbrk-index_where zero a b m xs ds nb s t lt = elim lt [ ]
strpbrk-index_where (suc fuel) a b m [] ds nb s t lt = rw (load-done m a 0 s) refl
strpbrk-index_where (suc fuel) a b m (x ∷ xs) ds nb (ne, e, s) t lt =
    let (r, run, null) = strchr-stops (suc fuel) b x m ds nb t (omega arith) in
    elim (Bool-cases (stops ds x)) [
      | inl hit ↦
          rw (load-done m a x e, ne→== x 0 ne, run, null, hit) (ap (λ p. done p m) (omega arith))
      | inr miss ↦
          rw (load-done m a x e, ne→== x 0 ne, run, null, miss)
            (strpbrk-index_where fuel (a + 1) b m xs ds nb s t (omega arith)
              ∙ ap (λ p. done p m) (at_next a (index_where (stops ds) xs)))
    ]

-- The list `zs` starts with `ys`.
abbrev pub starts : List ℕ → List ℕ → Bool
starts [] zs = true
starts (y ∷ ys) [] = false
starts (y ∷ ys) (z ∷ zs) = (z == y) && starts ys zs

-- The first index at which `ys` stands in a list.
abbrev pub index_of : List ℕ → List ℕ → Option ℕ
index_of ys [] = if starts ys [] then some 0 else none
index_of ys (z ∷ zs) = if starts ys (z ∷ zs) then some 0 else next_index (index_of ys zs)

starts-short : (ys zs : List ℕ) → length zs < length ys → starts ys zs ≡ false
starts-short [] zs lt = absurd (omega (arith, lt))
starts-short (y ∷ ys) [] lt = refl
starts-short (y ∷ ys) (z ∷ zs) lt = ground (arith, starts-short ys zs)

index_of-short : (ys zs : List ℕ) → length zs < length ys → index_of ys zs ≡ none
index_of-short ys [] lt = rw (starts-short ys [] lt) refl
index_of-short ys (z ∷ zs) lt =
    rw (starts-short ys (z ∷ zs) lt, index_of-short ys zs (omega (arith, lt))) refl

signed_ne_zero : (t : Bool) → is_zero (if t then pos 1 else minus_one) ≡ false
signed_ne_zero true = refl
signed_ne_zero false = refl

module _ (m : Mem) where
  memcmp_loop-starts :
      (a b : ℕ) (zs ys : List ℕ)
      → IsString m a zs
      → IsString m b ys
      → length ys ≤ length zs
      → (v : ℤ) × (memcmp_loop (length ys) a b m ≡ done v m) × (is_zero v ≡ starts ys zs)
  unfolding memcmp_loop
  memcmp_loop-starts a b zs [] s t le = (pos 0, refl, refl)
  memcmp_loop-starts a b [] (y ∷ ys) s t le = absurd (omega (arith, le))
  memcmp_loop-starts a b (z ∷ zs) (y ∷ ys) (nz, ez, s) (ny, ey, t) le = elim (Bool-cases (z == y)) [
    | inl same ↦
        let (v, run, e) = memcmp_loop-starts (a + 1) (b + 1) zs ys s t (omega (arith, le)) in
        (v, rw (load-done m a z ez, load-done m b y ey, same) run, rw same e)
    | inr other ↦ (
      if ltb y z then pos 1 else minus_one,
      rw (load-done m a z ez, load-done m b y ey, other) refl,
      rw other (signed_ne_zero (ltb y z)),
    )
  ]

  module _ (b : ℕ) (ys : List ℕ) (nb : b ≢ 0) (t : IsString m b ys) where
    one_round :
        (rounds a : ℕ) (zs : List ℕ)
        → a ≢ 0
        → IsString m a zs
        → length ys ≤ length zs
        → strstr_loop (suc rounds) a b (length ys) m
          ≡ (if starts ys zs then done a m else strstr_loop rounds (a + 1) b (length ys) m)
    unfolding strstr_loop memcmp
    one_round rounds a zs na s le =
        let (v, run, e) = memcmp_loop-starts a b zs ys s t le in
        rw (ne→== a 0 na, ne→== b 0 nb, run, e) (spread (starts ys zs))
      where
        spread :
            (c : Bool)
            → (if c then done a else strstr_loop rounds (a + 1) b (length ys)) m
              ≡ (if c then done a m else strstr_loop rounds (a + 1) b (length ys) m)
        spread true = refl
        spread false = refl

    no_round : (n : ℕ) → n < length ys → n + 1 - length ys ≡ 0
    no_round n lt = omega (arith, lt)

    rounds : (n : ℕ) → length ys ≤ n → n + 1 - length ys ≡ suc (n - length ys)
    rounds n le = omega (arith, le)

    none_left : length ys ≤ 0 → 0 - length ys ≡ 0
    none_left le = omega (arith, le)

    strstr_loop-index_of :
        (a : ℕ) (zs : List ℕ)
        → a ≢ 0
        → IsString m a zs
        → strstr_loop (length zs + 1 - length ys) a b (length ys) m
          ≡ done (at_index a (index_of ys zs)) m
    unfolding strstr_loop
    strstr_loop-index_of a [] na s = elim (le_or_lt (length ys) 0) [
      | inl le ↦ rw (rounds 0 le) (
          one_round (0 - length ys) a [] na s le ∙ elim (Bool-cases (starts ys [])) [
            | inl hit ↦ rw hit (ap (λ p. done p m) (omega arith))
            | inr miss ↦ rw (miss, none_left le) refl
          ])
      | inr lt ↦ rw (no_round 0 lt, index_of-short ys [] lt) refl
    ]
    strstr_loop-index_of a (z ∷ zs) na (nz, ez, s) = elim (le_or_lt (length ys) (suc (length zs))) [
      | inl le ↦ rw (rounds (suc (length zs)) le) (
          one_round (suc (length zs) - length ys) a (z ∷ zs) na (nz, ez, s) le
          ∙ elim (Bool-cases (starts ys (z ∷ zs))) [
            | inl hit ↦ rw hit (ap (λ p. done p m) (omega arith))
            | inr miss ↦
                rw (miss, ← add_one)
                  (strstr_loop-index_of (a + 1) zs (omega arith) s
                    ∙ ap (λ p. done p m) (at_next a (index_of ys zs)))
          ])
      | inr lt ↦ rw (no_round (suc (length zs)) lt, index_of-short ys (z ∷ zs) lt) refl
    ]
      where
        add_one : length zs + 1 - length ys ≡ suc (length zs) - length ys
        add_one = omega arith

-- `strstr` returns the address of the first place at which `needle` stands in `haystack`, or `NULL`
-- if there is none, and writes nothing. One round more than either has characters is enough.
pub strstr-index_of :
    (fuel a b : ℕ) (m : Mem) (xs ys : List ℕ)
    → a ≢ 0
    → b ≢ 0
    → IsString m a xs
    → IsString m b ys
    → length xs < fuel
    → length ys < fuel
    → strstr fuel a b m ≡ done (at_index a (index_of ys xs)) m
unfolding strstr
strstr-index_of fuel a b m xs ys na nb s t lx ly = elim (le_or_lt (length ys) (length xs)) [
  | inl le ↦
      rw
        (
          strlen-length fuel a m xs na s lx,
          strlen-length fuel b m ys nb t ly,
          le→leb (length ys) (length xs) le,
          rounds le,
        )
        (strstr_loop-index_of m b ys nb t a xs na s)
  | inr lt ↦
      rw
        (
          strlen-length fuel a m xs na s lx,
          strlen-length fuel b m ys nb t ly,
          lt→leb (length ys) (length xs) lt,
          index_of-short ys xs lt,
        )
        refl
]
  where
    rounds : length ys ≤ length xs → length xs - length ys + 1 ≡ length xs + 1 - length ys
    rounds le = omega (arith, le)
