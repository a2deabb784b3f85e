-- ===== src/Str/NextToken.antt =====
-- What `strtok_r` of pintos lib/string.c returns and leaves behind.
use jungle_data_structures.Prelude.{
  ℕ, ◌+◌, ◌<◌, ◌≡◌, ◌≢◌, ◌⊎◌, inl, inr, refl, sym, ap, subst, Bool, not, some, List, [], ◌∷◌, ◌==◌,
  if◌then◌else◌, arith, ne→==, length,
}
use jungle_data_structures.Prelude.Run.{done, Ends, Ends-done, Ends-map, exact_then, ◌>>=◌, ◌>>◌}
use jungle_data_structures.Str.Bytes.{
  Act, Mem, IsString, load, store, load-done, store-done, poke, poke_ne,
}
use jungle_data_structures.Str.Tokens.{
  token_loop, strtok_r, skipped, trimmed, word, from_stop, behind_word, tail_of, is_nil,
  first_or_none, all_skipped, trimmed-word, trimmed-le, all-word, IsString-word, IsString-above,
  skip_loop-trimmed, token_loop-word,
}

-- What follows the second loop.
abbrev cut : (token e : ℕ) → Act (ℕ × ℕ)
cut token e = do
  c ← load e
  if not (c == 0) then (do store e 0; done (token, e + 1)) else done (token, e)

-- What follows the first.
abbrev after_skip : (fuel b : ℕ) → (ℕ × Bool) → Act (ℕ × ℕ)
after_skip fuel b k = if k.1 then done (0, k.0) else (do e ← token_loop fuel b k.0; cut k.0 e)

module _ (m : Mem) (ds : List ℕ) where
  -- At `p` stands the word at the front of `zs`, and at the position that is saved what follows it.
  abbrev pub Cut : (p : ℕ) → (zs : List ℕ) → ℕ × ℕ → Mem → Type 0
  Cut p zs k g =
      (k.0 ≡ p)
      × IsString g p (word ds zs)
      × IsString g k.1 (behind_word ds zs)
      × ((q : ℕ) → q + 1 ≢ k.1 → g q ≡ m q)

  cut-Cut :
      (p : ℕ) (zs : List ℕ)
      → IsString m p zs
      → IsString m (p + length (word ds zs)) (from_stop ds zs)
      → Ends (Cut p zs) (cut p (p + length (word ds zs)) m)
  cut-Cut p zs s v =
      let e = p + length (word ds zs) in
      elim (first_or_none (from_stop ds zs)) [
        | inl none_left ↦
            let z : m e ≡ some 0 = subst (IsString m e) none_left v in
            exact_then _ (load-done m e 0 z) (
              Ends-done (
                refl,
                subst (IsString m p) (sym (all-word ds zs none_left)) s,
                subst (IsString m e) (sym (ap tail_of none_left)) z,
                λ q ne. refl,
              ))
        | inr (d, r, split) ↦
            let (nd, ed, sr) = subst (IsString m e) split v in
            exact_then _ (load-done m e d ed) (
              rw (ne→== d 0 nd) (
                exact_then _ (store-done m e 0 d ed) (
                  Ends-done (
                    refl,
                    IsString-word m p e ds zs s refl,
                    subst (IsString (poke m e 0) (e + 1)) (sym (ap tail_of split))
                        (IsString-above m (e + 1) e r sr (omega arith)),
                    λ q ne. poke_ne m e 0 q (λ t. ne (ap (λ k. k + 1) t)),
                  ))))
      ]

  module _ (b : ℕ) (nb : b ≢ 0) (t : IsString m b ds) where
    -- There is no token left, or the next one is cut off.
    abbrev pub Token : (a : ℕ) → (xs : List ℕ) → ℕ × ℕ → Mem → Type 0
    Token a xs k g =
        ((trimmed ds xs ≡ []) × (k ≡ (0, a + length xs)) × (g ≡ m))
        ⊎ ((word ds (trimmed ds xs) ≢ []) × Cut (a + skipped ds xs) (trimmed ds xs) k g)

    after_skip-Token :
        (fuel a : ℕ) (xs : List ℕ)
        → IsString m (a + skipped ds xs) (trimmed ds xs)
        → length xs + length ds < fuel
        → Ends (Token a xs) (after_skip fuel b (a + skipped ds xs, is_nil (trimmed ds xs)) m)
    after_skip-Token fuel a xs s lt = elim (first_or_none (trimmed ds xs)) [
      | inl e ↦
          rw (ap is_nil e) (Ends-done (inl (e, ap (λ n. (0, a + n)) (all_skipped ds xs e), refl)))
      | inr (y, ys, e) ↦
          let zs = trimmed ds xs in
          let (run, v) =
            token_loop-word m b ds nb t fuel (a + skipped ds xs) zs s
              (omega (arith, lt, trimmed-le ds xs)) in
          rw (ap is_nil e) (
            exact_then _ run (
              Ends-map (cut-Cut (a + skipped ds xs) zs s v)
                (λ k g c. inr (trimmed-word ds xs (λ z. nonempty z e), c))))
    ]
      where
        nonempty : {zs : List ℕ} {y : ℕ} {ys : List ℕ} → zs ≡ [] → zs ≡ y ∷ ys → ⊥
        nonempty p q = cc

    -- With a string of delimiters at `b`, `strtok_r` from the string `xs` at `s`, or at the saved
    -- position if `s` is `NULL`, skips the delimiters at its front. If nothing is left, the result is
    -- `NULL`, the end of the string is saved, and nothing is written. Otherwise the characters up to
    -- the next delimiter, at least one, are a string at the address that is returned, what follows
    -- the delimiter is a string at the position that is saved, and no byte is changed but that before
    -- this position. One round more than both strings have characters is enough.
    pub strtok_r-Token :
        (fuel s saved a : ℕ) (xs : List ℕ)
        → (if s == 0 then saved else s) ≡ a
        → a ≢ 0
        → IsString m a xs
        → length xs + length ds < fuel
        → Ends (Token a xs) (strtok_r fuel s b saved m)
    unfolding strtok_r
    strtok_r-Token fuel s saved a xs e na v lt =
        let (run, w) = skip_loop-trimmed m b ds nb t fuel a xs v lt in
        rw (ne→== b 0 nb, e, ne→== a 0 na) (exact_then _ run (after_skip-Token fuel a xs w lt))
