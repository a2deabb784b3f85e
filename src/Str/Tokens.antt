-- ===== src/Str/Tokens.antt =====
-- `strtok_r` of pintos lib/string.c.
use jungle_data_structures.Prelude.{
  ℕ, zero, suc, ◌+◌, ◌≤◌, ◌<◌, ◌≡◌, ◌≢◌, ◌⊎◌, inl, inr, refl, ap, ◌∙◌, subst, Bool, true, false,
  not, some, List, [], ◌∷◌, ◌==◌, if◌then◌else◌, arith, Bool-cases, ne→==, length,
}
use jungle_data_structures.Prelude.Run.{done, give_up, ◌>>=◌, ◌>>◌}
use jungle_data_structures.Str.Bytes.{
  Act, Mem, IsString, load, store, load-done, poke, poke_self, poke_ne,
}
use jungle_data_structures.Str.Defs.{strchr, assert_ptr}
use jungle_data_structures.Str.Search.{stops, strchr-stops}

-- The first loop of `strtok_r`: the position behind the delimiters, and whether it is the end of the
-- string, where the loop returns.
unfoldable pub skip_loop : ℕ → (delimiters s : ℕ) → Act (ℕ × Bool)
skip_loop zero delimiters s = give_up
skip_loop (suc fuel) delimiters s = do
  c ← load s
  r ← strchr (suc fuel) delimiters c
  if not (r == 0)
      then (if c == 0 then done (s, true) else skip_loop fuel delimiters (s + 1))
      else done (s, false)

-- The second loop: the position behind the token.
unfoldable pub token_loop : ℕ → (delimiters s : ℕ) → Act ℕ
token_loop zero delimiters s = give_up
token_loop (suc fuel) delimiters s = do
  c ← load s
  r ← strchr (suc fuel) delimiters c
  if r == 0 then token_loop fuel delimiters (s + 1) else done s

-- `saved` is what `*save_ptr` holds before; the result is the token and what it holds afterwards.
unfoldable pub strtok_r : ℕ → (s delimiters saved : ℕ) → Act (ℕ × ℕ)
strtok_r fuel s delimiters saved = do
  assert_ptr delimiters
  assert_ptr (if s == 0 then saved else s)
  k ← skip_loop fuel delimiters (if s == 0 then saved else s)
  if k.1 then done (0, k.0) else (do
    e ← token_loop fuel delimiters k.0
    c ← load e
    if not (c == 0) then (do store e 0; done (k.0, e + 1)) else done (k.0, e))

abbrev pub tail_of : List ℕ → List ℕ
tail_of [] = []
tail_of (x ∷ xs) = xs

module _ (ds : List ℕ) where
  -- How many delimiters a text starts with, and what follows them.
  abbrev pub skipped : List ℕ → ℕ
  skipped [] = 0
  skipped (x ∷ xs) = if stops ds x then suc (skipped xs) else 0

  abbrev pub trimmed : List ℕ → List ℕ
  trimmed [] = []
  trimmed (x ∷ xs) = if stops ds x then trimmed xs else x ∷ xs

  -- The characters before the first delimiter, and what follows that one.
  abbrev pub word : List ℕ → List ℕ
  word [] = []
  word (x ∷ xs) = if stops ds x then [] else x ∷ word xs

  abbrev pub from_stop : List ℕ → List ℕ
  from_stop [] = []
  from_stop (x ∷ xs) = if stops ds x then x ∷ xs else from_stop xs

  abbrev pub behind_word : List ℕ → List ℕ
  behind_word xs = tail_of (from_stop xs)

abbrev pub is_nil : List ℕ → Bool
is_nil [] = true
is_nil (x ∷ xs) = false

-- The terminator is a delimiter.
stops-zero : (ds : List ℕ) → stops ds 0 ≡ true
stops-zero [] = refl
stops-zero (d ∷ ds) = ground (arith, stops-zero ds)

pub IsString-word :
    (m : Mem) (p q : ℕ) (ds zs : List ℕ)
    → IsString m p zs
    → q ≡ p + length (word ds zs)
    → IsString (poke m q 0) p (word ds zs)
IsString-word m p q ds [] s e =
    subst (λ a. poke m q 0 a ≡ some 0) (e ∙ omega arith) (poke_self m q 0)
IsString-word m p q ds (x ∷ xs) (ne, ex, s) e = elim (Bool-cases (stops ds x)) [
  | inl hit ↦ rw hit (subst (λ a. poke m q 0 a ≡ some 0) (at_end hit e) (poke_self m q 0))
  | inr miss ↦ rw miss (
    ne,
    poke_ne m q 0 p (λ (d : p ≡ q). omega (arith, d, later miss e)) ∙ ex,
    IsString-word m (p + 1) q ds xs s (later miss e),
  )
]
  where
    at_end : stops ds x ≡ true → q ≡ p + length (word ds (x ∷ xs)) → q ≡ p
    at_end hit e = e ∙ rw hit (omega arith)

    later : stops ds x ≡ false → q ≡ p + length (word ds (x ∷ xs)) → q ≡ p + 1 + length (word ds xs)
    later miss e = e ∙ rw miss (omega arith)

pub IsString-above :
    (m : Mem) (p q : ℕ) (zs : List ℕ) → IsString m p zs → q < p → IsString (poke m q 0) p zs
IsString-above m p q [] s l = poke_ne m q 0 p (λ e. omega (arith, e, l)) ∙ s
IsString-above m p q (x ∷ xs) (ne, ex, s) l = (
  ne,
  poke_ne m q 0 p (λ e. omega (arith, e, l)) ∙ ex,
  IsString-above m (p + 1) q xs s (omega (arith, l)),
)

one_more : (p n : ℕ) → p + 1 + n ≡ p + suc n
one_more p n = omega arith

none_more : (p : ℕ) → p ≡ p + 0
none_more p = omega arith

module _ (m : Mem) (b : ℕ) (ds : List ℕ) (nb : b ≢ 0) (t : IsString m b ds) where
  pub skip_loop-trimmed :
      (fuel p : ℕ) (xs : List ℕ)
      → IsString m p xs
      → length xs + length ds < fuel
      → (skip_loop fuel b p m ≡ done (p + skipped ds xs, is_nil (trimmed ds xs)) m)
        × IsString m (p + skipped ds xs) (trimmed ds xs)
  unfolding skip_loop
  skip_loop-trimmed zero p xs s lt = absurd (omega (arith, lt))
  skip_loop-trimmed (suc fuel) p [] s lt =
      let (r, run, null) = strchr-stops (suc fuel) b 0 m ds nb t (omega (arith, lt)) in
      (
        rw (load-done m p 0 s, run, null, stops-zero ds) (ap (λ k. done (k, true) m) (omega arith)),
        subst (λ k. m k ≡ some 0) (omega arith) s,
      )
  skip_loop-trimmed (suc fuel) p (x ∷ xs) (ne, e, s) lt =
      let (r, run, null) = strchr-stops (suc fuel) b x m ds nb t (omega (arith, lt)) in
      elim (Bool-cases (stops ds x)) [
        | inl hit ↦
            let (rest, v) = skip_loop-trimmed fuel (p + 1) xs s (omega (arith, lt)) in
            let z = one_more p (skipped ds xs) in
            rw hit (
              rw (load-done m p x e, run, null, hit, ne→== x 0 ne)
                  (rest ∙ ap (λ k. done (k, is_nil (trimmed ds xs)) m) z),
              subst (λ k. IsString m k (trimmed ds xs)) z v,
            )
        | inr miss ↦ rw miss (
          rw (load-done m p x e, run, null, miss) (ap (λ k. done (k, false) m) (omega arith)),
          subst (λ k. IsString m k (x ∷ xs)) (none_more p) (ne, e, s),
        )
      ]

  -- The token, and the position behind it.
  pub token_loop-word :
      (fuel p : ℕ) (xs : List ℕ)
      → IsString m p xs
      → length xs + length ds < fuel
      → (token_loop fuel b p m ≡ done (p + length (word ds xs)) m)
        × IsString m (p + length (word ds xs)) (from_stop ds xs)
  unfolding token_loop
  token_loop-word zero p xs s lt = absurd (omega (arith, lt))
  token_loop-word (suc fuel) p [] s lt =
      let (r, run, null) = strchr-stops (suc fuel) b 0 m ds nb t (omega (arith, lt)) in
      (
        rw (load-done m p 0 s, run, null, stops-zero ds) (ap (λ k. done k m) (omega arith)),
        subst (λ k. m k ≡ some 0) (omega arith) s,
      )
  token_loop-word (suc fuel) p (x ∷ xs) (ne, e, s) lt =
      let (r, run, null) = strchr-stops (suc fuel) b x m ds nb t (omega (arith, lt)) in
      elim (Bool-cases (stops ds x)) [
        | inl hit ↦ rw hit (
          rw (load-done m p x e, run, null, hit) (ap (λ k. done k m) (omega arith)),
          subst (λ k. IsString m k (x ∷ xs)) (none_more p) (ne, e, s),
        )
        | inr miss ↦
            let (rest, v) = token_loop-word fuel (p + 1) xs s (omega (arith, lt)) in
            let z = one_more p (length (word ds xs)) in
            rw miss (
              rw (load-done m p x e, run, null, miss) (rest ∙ ap (λ k. done k m) z),
              subst (λ k. IsString m k (from_stop ds xs)) z v,
            )
      ]

pub first_or_none : (xs : List ℕ) → (xs ≡ []) ⊎ ((y : ℕ) × (ys : List ℕ) × (xs ≡ y ∷ ys))
first_or_none [] = inl refl
first_or_none (y ∷ ys) = inr (y, ys, refl)

module _ (ds : List ℕ) where
  pub all_skipped : (xs : List ℕ) → trimmed ds xs ≡ [] → skipped ds xs ≡ length xs
  all_skipped [] e = refl
  all_skipped (x ∷ xs) e = elim (Bool-cases (stops ds x)) [
    | inl hit ↦ rw hit (let e2 = rw hit at e in omega (arith, all_skipped xs e2))
    | inr miss ↦ absurd (let e2 = rw miss at e in cc)
  ]

  pub trimmed-word : (xs : List ℕ) → trimmed ds xs ≢ [] → word ds (trimmed ds xs) ≢ []
  trimmed-word [] ne e = ne refl
  trimmed-word (x ∷ xs) ne e = elim (Bool-cases (stops ds x)) [
    | inl hit ↦ trimmed-word xs (λ z. ne (rw hit z)) (rw hit at e)
    | inr miss ↦ absurd (let e2 = rw (miss, miss) at e in cc)
  ]

  pub trimmed-le : (xs : List ℕ) → length (trimmed ds xs) ≤ length xs
  trimmed-le [] = omega arith
  trimmed-le (x ∷ xs) = elim (Bool-cases (stops ds x)) [
    | inl hit ↦ rw hit (omega (arith, trimmed-le xs))
    | inr miss ↦ rw miss (omega arith)
  ]

  pub all-word : (xs : List ℕ) → from_stop ds xs ≡ [] → word ds xs ≡ xs
  all-word [] e = refl
  all-word (x ∷ xs) e = elim (Bool-cases (stops ds x)) [
    | inl hit ↦ absurd (let e2 = rw hit at e in cc)
    | inr miss ↦ rw miss (ap (λ (r : List ℕ). x ∷ r) (all-word xs (rw miss at e)))
  ]
