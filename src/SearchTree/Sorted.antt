-- ===== src/SearchTree/Sorted.antt =====
-- Increasing lists of items, with one more and with one less.
use jungle_data_structures.Prelude.{
  ◌≡◌, refl, ap, ap₂, ◌∙◌, subst, true, false, inl, inr, Bool-cases, List, [], ◌∷◌, ◌++◌,
  if◌then◌else◌, arith,
}
use jungle_data_structures.Prelude.Int.{ℤ, ltb_ℤ, eqb_ℤ}

abbrev pub Above : ℤ → List ℤ → Type 0
Above v [] = Unit
Above v (x ∷ xs) = (ltb_ℤ v x ≡ true) × Above v xs

abbrev pub Below : List ℤ → ℤ → Type 0
Below [] v = Unit
Below (x ∷ xs) v = (ltb_ℤ x v ≡ true) × Below xs v

-- Each item is below all that follow.
abbrev pub Increasing : List ℤ → Type 0
Increasing [] = Unit
Increasing (x ∷ xs) = Above x xs × Increasing xs

-- An increasing list with one item more, unless it is there.
abbrev pub insert_sorted : ℤ → List ℤ → List ℤ
insert_sorted v [] = v ∷ []
insert_sorted v (x ∷ xs) =
    let rest = insert_sorted v xs in
    if ltb_ℤ v x then v ∷ (x ∷ xs) else (if ltb_ℤ x v then x ∷ rest else x ∷ xs)

abbrev pub without : ℤ → List ℤ → List ℤ
without v [] = []
without v (x ∷ xs) = let rest = without v xs in if eqb_ℤ x v then rest else x ∷ rest

trans_lt : (a b c : ℤ) → ltb_ℤ a b ≡ true → ltb_ℤ b c ≡ true → ltb_ℤ a c ≡ true
trans_lt a b c p q = ground arith

asym_lt : (a b : ℤ) → ltb_ℤ a b ≡ true → ltb_ℤ b a ≡ false
asym_lt a b p = ground arith

ne_lt : (a b : ℤ) → ltb_ℤ a b ≡ true → eqb_ℤ b a ≡ false
ne_lt a b p = ground arith

ne_gt : (a b : ℤ) → ltb_ℤ a b ≡ true → eqb_ℤ a b ≡ false
ne_gt a b p = ground arith

same_test : (a b : ℤ) → ltb_ℤ a b ≡ false → ltb_ℤ b a ≡ false → eqb_ℤ b a ≡ true
same_test a b p q = ground arith

eq_not_lt : (a b : ℤ) → ltb_ℤ a b ≡ false → ltb_ℤ b a ≡ false → a ≡ b
eq_not_lt a b p q = ground arith

pub Above-trans : (a b : ℤ) (xs : List ℤ) → ltb_ℤ a b ≡ true → Above b xs → Above a xs
Above-trans a b [] p w = tt
Above-trans a b (x ∷ xs) p (q, w) = (trans_lt a b x p q, Above-trans a b xs p w)

Below-trans : (xs : List ℤ) (a b : ℤ) → Below xs a → ltb_ℤ a b ≡ true → Below xs b
Below-trans [] a b w p = tt
Below-trans (x ∷ xs) a b (q, w) p = (trans_lt x a b q p, Below-trans xs a b w p)

Above-append : (x k : ℤ) (xs ys : List ℤ) → Above x (xs ++ k ∷ ys) → (ltb_ℤ x k ≡ true) × Above x xs
Above-append x k [] ys (p, w) = (p, tt)
Above-append x k (z ∷ xs) ys (p, w) = let (q, v) = Above-append x k xs ys w in (q, (p, v))

-- The parts of an increasing list around one of its items.
pub Increasing-append :
    (xs : List ℤ) (k : ℤ) (ys : List ℤ)
    → Increasing (xs ++ k ∷ ys)
    → Increasing xs × Below xs k × Above k ys × Increasing ys
Increasing-append [] k ys (p, w) = (tt, tt, p, w)
Increasing-append (x ∷ xs) k ys (p, w) =
    let (a, b, c, d) = Increasing-append xs k ys w in
    let (q, v) = Above-append x k xs ys p in ((v, a), (q, b), c, d)

module _ (v k : ℤ) (ys : List ℤ) where
  pub insert_sorted-left :
      (xs : List ℤ)
      → ltb_ℤ v k ≡ true
      → insert_sorted v (xs ++ k ∷ ys) ≡ insert_sorted v xs ++ k ∷ ys
  insert_sorted-left [] p = rw p refl
  insert_sorted-left (x ∷ xs) p = elim (Bool-cases (ltb_ℤ v x)) [
    | inl t ↦ rw t refl
    | inr f ↦ elim (Bool-cases (ltb_ℤ x v)) [
      | inl t ↦ rw (f, t) (ap (λ r. x ∷ r) (insert_sorted-left xs p))
      | inr g ↦ rw (f, g) refl
    ]
  ]

  pub insert_sorted-right :
      (xs : List ℤ)
      → Below xs k
      → ltb_ℤ k v ≡ true
      → insert_sorted v (xs ++ k ∷ ys) ≡ xs ++ k ∷ insert_sorted v ys
  insert_sorted-right [] w p = rw (asym_lt k v p, p) refl
  insert_sorted-right (x ∷ xs) (q, w) p =
      let t = trans_lt x k v q p in
      rw (asym_lt x v t, t) (ap (λ r. x ∷ r) (insert_sorted-right xs w p))

  pub insert_sorted-same :
      (xs : List ℤ)
      → Below xs k
      → ltb_ℤ v k ≡ false
      → ltb_ℤ k v ≡ false
      → insert_sorted v (xs ++ k ∷ ys) ≡ xs ++ k ∷ ys
  insert_sorted-same [] w p q = rw (p, q) refl
  insert_sorted-same (x ∷ xs) (t, w) p q = ground (arith, insert_sorted-same xs w p q, t)

pub without-append : (v : ℤ) (xs ys : List ℤ) → without v (xs ++ ys) ≡ without v xs ++ without v ys
without-append v [] ys = refl
without-append v (x ∷ xs) ys = ground (arith, without-append v xs ys)

pub without-Above : (v : ℤ) (xs : List ℤ) → Above v xs → without v xs ≡ xs
without-Above v [] w = refl
without-Above v (x ∷ xs) (p, w) = rw (ne_lt v x p) (ap (λ r. x ∷ r) (without-Above v xs w))

pub without-Below : (v : ℤ) (xs : List ℤ) → Below xs v → without v xs ≡ xs
without-Below v [] w = refl
without-Below v (x ∷ xs) (p, w) = rw (ne_gt x v p) (ap (λ r. x ∷ r) (without-Below v xs w))

module _ (v k : ℤ) (xs ys : List ℤ) (below : Below xs k) (above : Above k ys) where
  pub without-left : ltb_ℤ v k ≡ true → without v (xs ++ k ∷ ys) ≡ without v xs ++ k ∷ ys
  without-left p =
      without-append v xs (k ∷ ys)
      ∙ ap (λ r. without v xs ++ r) (without-Above v (k ∷ ys) (p, Above-trans v k ys p above))

  pub without-right : ltb_ℤ k v ≡ true → without v (xs ++ k ∷ ys) ≡ xs ++ k ∷ without v ys
  without-right p =
      without-append v xs (k ∷ ys)
      ∙ rw (without-Below v xs (Below-trans xs k v below p), ne_gt k v p) refl

  pub without-same : ltb_ℤ v k ≡ false → ltb_ℤ k v ≡ false → without v (xs ++ k ∷ ys) ≡ xs ++ ys
  without-same p q =
      let e : k ≡ v = eq_not_lt k v q p in
      let here : without v (k ∷ ys) ≡ ys =
        rw (same_test v k p q) (without-Above v ys (subst (λ z. Above z ys) e above)) in
      without-append v xs (k ∷ ys)
      ∙ ap₂ (λ a b. a ++ b) (without-Below v xs (subst (Below xs) e below)) here

insert_sorted-Above :
    (a v : ℤ) (xs : List ℤ) → ltb_ℤ a v ≡ true → Above a xs → Above a (insert_sorted v xs)
insert_sorted-Above a v [] p w = (p, tt)
insert_sorted-Above a v (x ∷ xs) p (q, w) = elim (Bool-cases (ltb_ℤ v x)) [
  | inl t ↦ rw t (p, (q, w))
  | inr f ↦ elim (Bool-cases (ltb_ℤ x v)) [
    | inl t ↦ rw (f, t) (q, insert_sorted-Above a v xs p w)
    | inr g ↦ rw (f, g) (q, w)
  ]
]

pub insert_sorted-Increasing :
    (v : ℤ) (xs : List ℤ) → Increasing xs → Increasing (insert_sorted v xs)
insert_sorted-Increasing v [] w = (tt, tt)
insert_sorted-Increasing v (x ∷ xs) (p, w) = elim (Bool-cases (ltb_ℤ v x)) [
  | inl t ↦ rw t ((t, Above-trans v x xs t p), (p, w))
  | inr f ↦ elim (Bool-cases (ltb_ℤ x v)) [
    | inl t ↦ rw (f, t) (insert_sorted-Above x v xs t p, insert_sorted-Increasing v xs w)
    | inr g ↦ rw (f, g) (p, w)
  ]
]

Above-without : (a v : ℤ) (xs : List ℤ) → Above a xs → Above a (without v xs)
Above-without a v [] w = tt
Above-without a v (x ∷ xs) (p, w) = elim (Bool-cases (eqb_ℤ x v)) [
  | inl t ↦ rw t (Above-without a v xs w)
  | inr f ↦ rw f (p, Above-without a v xs w)
]

pub without-Increasing : (v : ℤ) (xs : List ℤ) → Increasing xs → Increasing (without v xs)
without-Increasing v [] w = tt
without-Increasing v (x ∷ xs) (p, w) = elim (Bool-cases (eqb_ℤ x v)) [
  | inl t ↦ rw t (without-Increasing v xs w)
  | inr f ↦ rw f (Above-without x v xs p, without-Increasing v xs w)
]

pub without_first : (v : ℤ) (xs : List ℤ) → Increasing (v ∷ xs) → without v (v ∷ xs) ≡ xs
without_first v xs (above, w) = rw (eqb_self v) (without-Above v xs above)
  where
    eqb_self : (v : ℤ) → eqb_ℤ v v ≡ true
    eqb_self v = ground arith
