-- ===== src/Str/Text.antt =====
-- The string functions of pintos lib/string.c on null-terminated strings.
use jungle_data_structures.Prelude.{
  ℕ, zero, suc, ◌+◌, ◌%◌, ◌<◌, ◌≡◌, ◌≢◌, ◌↔◌, inl, inr, refl, sym, ap, ◌∙◌, false, Option, none,
  some, List, [], ◌∷◌, ◌++◌, ltb, ◌==◌, if◌then◌else◌, arith, Bool-cases, ne→==, length,
}
use jungle_data_structures.Prelude.Int.{ℤ, pos, minus_one}
use jungle_data_structures.Prelude.Run.{done, done_value}
use jungle_data_structures.Str.Bytes.{Mem, IsString, load-done}
use jungle_data_structures.Str.Defs.{strlen_loop, strlen, strcmp_loop, strcmp, strchr_loop, strchr}

-- The bytes of a string, its terminator included.
abbrev pub terminated : List ℕ → List ℕ
terminated xs = xs ++ 0 ∷ []

strlen_loop-end :
    (fuel a : ℕ) (m : Mem) (xs : List ℕ)
    → IsString m a xs
    → length xs < fuel
    → strlen_loop fuel a m ≡ done (a + length xs) m
unfolding strlen_loop
strlen_loop-end zero a m xs s lt = elim lt [ ]
strlen_loop-end (suc fuel) a m [] s lt = rw (load-done m a 0 s) (ap (λ r. done r m) (omega arith))
strlen_loop-end (suc fuel) a m (x ∷ xs) (ne, e, s) lt =
    rw (load-done m a x e, ne→== x 0 ne)
      (strlen_loop-end fuel (a + 1) m xs s (omega arith) ∙ ap (λ r. done r m) (omega arith))

-- `strlen` returns the number of characters before the terminator, and writes nothing. One round
-- more than there are characters is enough.
pub strlen-length :
    (fuel a : ℕ) (m : Mem) (xs : List ℕ)
    → a ≢ 0
    → IsString m a xs
    → length xs < fuel
    → strlen fuel a m ≡ done (length xs) m
unfolding strlen
strlen-length fuel a m xs na s lt =
    rw (ne→== a 0 na, strlen_loop-end fuel a m xs s lt) (ap (λ r. done r m) (omega arith))

-- Dictionary order on strings, a proper prefix first: -1, 0 or 1.
unfoldable pub compare_text : List ℕ → List ℕ → ℤ
compare_text [] [] = pos 0
compare_text [] (y ∷ ys) = minus_one
compare_text (x ∷ xs) [] = pos 1
compare_text (x ∷ xs) (y ∷ ys) =
    if ltb x y then minus_one else (if ltb y x then pos 1 else compare_text xs ys)

first_differs :
    (x y : ℕ) (v : ℤ)
    → (x == y) ≡ false
    → (if ltb x y then minus_one else (if ltb y x then pos 1 else pos 0))
      ≡ (if ltb x y then minus_one else (if ltb y x then pos 1 else v))
first_differs x y v ne = ground arith

strcmp_loop-compare_text :
    (fuel a b : ℕ) (m : Mem) (xs ys : List ℕ)
    → IsString m a xs
    → IsString m b ys
    → length xs < fuel
    → strcmp_loop fuel a b m ≡ done (compare_text xs ys) m
unfolding strcmp_loop compare_text
strcmp_loop-compare_text zero a b m xs ys s t lt = elim lt [ ]
strcmp_loop-compare_text (suc fuel) a b m [] [] s t lt = rw (load-done m a 0 s, load-done m b 0 t)
strcmp_loop-compare_text (suc fuel) a b m [] (y ∷ ys) s (ne, e, t) lt =
    rw (load-done m a 0 s, load-done m b y e) (ground arith)
strcmp_loop-compare_text (suc fuel) a b m (x ∷ xs) [] (ne, e, s) t lt =
    rw (load-done m a x e, load-done m b 0 t) (ground arith)
strcmp_loop-compare_text (suc fuel) a b m (x ∷ xs) (y ∷ ys) (ne, e, s) (ne', e', t) lt =
    rw (load-done m a x e, load-done m b y e', ne→== x 0 ne)
      (elim (Bool-cases (x == y)) [
        | inl same ↦
            let xy : ltb x y ≡ false = ground arith in
            let yx : ltb y x ≡ false = ground arith in
            rw (same, xy, yx)
              (strcmp_loop-compare_text fuel (a + 1) (b + 1) m xs ys s t (omega arith))
        | inr other ↦ rw other (ap (λ v. done v m) (first_differs x y _ other))
      ])

-- `strcmp` compares two strings in dictionary order by their bytes, and writes nothing. One round
-- more than the first string is long is enough.
pub strcmp-compare_text :
    (fuel a b : ℕ) (m : Mem) (xs ys : List ℕ)
    → a ≢ 0
    → b ≢ 0
    → IsString m a xs
    → IsString m b ys
    → length xs < fuel
    → strcmp fuel a b m ≡ done (compare_text xs ys) m
unfolding strcmp
strcmp-compare_text fuel a b m xs ys na nb s t lt =
    rw (ne→== a 0 na, ne→== b 0 nb) (strcmp_loop-compare_text fuel a b m xs ys s t lt)

pub compare_text-eq : (xs ys : List ℕ) → (compare_text xs ys ≡ pos 0) ↔ (xs ≡ ys)
unfolding compare_text
compare_text-eq [] [] = (λ e. refl, λ e. refl)
compare_text-eq [] (y ∷ ys) = (λ e. cc, λ e. cc)
compare_text-eq (x ∷ xs) [] = (λ e. cc, λ e. cc)
compare_text-eq (x ∷ xs) (y ∷ ys) =
    (λ e. ground (arith, (compare_text-eq xs ys).0), λ e. ground (arith, (compare_text-eq xs ys).1))

-- `strcmp` returns 0 exactly when the strings are the same.
pub strcmp-eq :
    (fuel a b : ℕ) (m : Mem) (xs ys : List ℕ)
    → a ≢ 0
    → b ≢ 0
    → IsString m a xs
    → IsString m b ys
    → length xs < fuel
    → (strcmp fuel a b m ≡ done (pos 0) m) ↔ (xs ≡ ys)
strcmp-eq fuel a b m xs ys na nb s t lt =
    let e = strcmp-compare_text fuel a b m xs ys na nb s t lt in
    (
      λ r. (compare_text-eq xs ys).0 (done_value (sym e ∙ r)),
      λ same. e ∙ ap (λ v. done v m) ((compare_text-eq xs ys).1 same),
    )

-- The index of the first `c` in a list.
unfoldable pub find_idx? : ℕ → List ℕ → Option ℕ
find_idx? c [] = none
find_idx? c (x ∷ xs) =
    if x == c then some 0 else elim (find_idx? c xs) [ none ↦ none | some i ↦ some (suc i) ]

-- The address of the byte that an index names, or `NULL`.
abbrev pub at_index : ℕ → Option ℕ → ℕ
at_index a none = 0
at_index a (some i) = a + i

strchr_loop-find_idx? :
    (fuel a c : ℕ) (m : Mem) (xs : List ℕ)
    → IsString m a xs
    → length xs < fuel
    → strchr_loop fuel a c m ≡ done (at_index a (find_idx? c (terminated xs))) m
unfolding strchr_loop find_idx?
strchr_loop-find_idx? zero a c m xs s lt = elim lt [ ]
strchr_loop-find_idx? (suc fuel) a c m [] s lt =
    rw (load-done m a 0 s) (elim (Bool-cases (0 == c)) [
      | inl hit ↦ rw hit (ap (λ r. done r m) (omega arith))
      | inr miss ↦ rw miss
    ])
strchr_loop-find_idx? (suc fuel) a c m (x ∷ xs) (ne, e, s) lt =
    rw (load-done m a x e) (elim (Bool-cases (x == c)) [
      | inl hit ↦ rw hit (ap (λ r. done r m) (omega arith))
      | inr miss ↦
          rw (miss, ne→== x 0 ne)
            (strchr_loop-find_idx? fuel (a + 1) c m xs s (omega arith)
              ∙ ap (λ r. done r m) (shift a (find_idx? c (terminated xs))))
    ])
  where
    shift :
        (a : ℕ) (o : Option ℕ)
        → at_index (a + 1) o ≡ at_index a (elim o [ none ↦ none | some i ↦ some (suc i) ])
    shift a none = refl
    shift a (some i) = omega arith

-- `strchr` returns the address of the first byte of the string that is `c` converted to a
-- character, its terminator counted, or `NULL` if there is none, and writes nothing.
-- One round more than there are characters is enough.
pub strchr-find_idx? :
    (fuel a c : ℕ) (m : Mem) (xs : List ℕ)
    → a ≢ 0
    → IsString m a xs
    → length xs < fuel
    → strchr fuel a c m ≡ done (at_index a (find_idx? (c % 256) (terminated xs))) m
unfolding strchr
strchr-find_idx? fuel a c m xs na s lt =
    rw (ne→== a 0 na) (strchr_loop-find_idx? fuel a (c % 256) m xs s lt)
