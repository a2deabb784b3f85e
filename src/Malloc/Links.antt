-- ===== src/Malloc/Links.antt =====
-- The free list of malloc-lab/mm.c: blocks linked by the pointers at their first 16 bytes.
use jungle_data_structures.Prelude.{
  ℕ, ◌+◌, ◌%◌, ◌≡◌, ◌≢◌, ◌≤◌, ◌<◌, ◌⊎◌, inl, inr, refl, subst, ap, ◌∙◌, ◌==◌, if◌then◌else◌, List,
  [], ◌∷◌, ◌++◌, arith,
}
use jungle_data_structures.Malloc.Store.{Ptr, write}
use jungle_data_structures.Malloc.Words.{Apart, IsPtr, write_ptr, IsPtr-write, IsPtr-write_ptr}

-- How often an address stands in a list.
abbrev pub here : Ptr → Ptr → ℕ
here x q = if q == x then 1 else 0

abbrev pub occurs : Ptr → List Ptr → ℕ
occurs q [] = 0
occurs q (x ∷ xs) = here x q + occurs q xs

pub here_self : (x : Ptr) → here x x ≡ 1
here_self x = ground arith

pub here_ne : (x q : Ptr) → q ≢ x → here x q ≡ 0
here_ne x q ne = ground arith

pub occurs-append : (q : Ptr) (xs ys : List Ptr) → occurs q (xs ++ ys) ≡ occurs q xs + occurs q ys
occurs-append q [] ys = omega arith
occurs-append q (x ∷ xs) ys = omega (arith, occurs-append q xs ys)

abbrev pub first : List Ptr → Ptr → Ptr
first [] q = q
first (x ∷ xs) q = x

abbrev pub last : List Ptr → Ptr → Ptr
last [] p = p
last (x ∷ xs) p = last xs x

-- The blocks `xs` are linked in this order, with `p` before them and `q` behind.
abbrev pub Linked : (Ptr → ℕ) → Ptr → List Ptr → Ptr → Type 0
Linked m p [] q = Unit
Linked m p (x ∷ xs) q = IsPtr m x (first xs q) × IsPtr m (x + 8) p × Linked m x xs q

pub Linked-parts :
    (m : Ptr → ℕ) (p : Ptr) (xs ys : List Ptr) (q : Ptr)
    → Linked m p (xs ++ ys) q
    → Linked m p xs (first ys q) × Linked m (last xs p) ys q
Linked-parts m p [] ys q w = (tt, w)
Linked-parts m p (x ∷ []) ys q (a, b, w) = ((a, b, tt), w)
Linked-parts m p (x ∷ y ∷ xs) ys q (a, b, w) =
    let (c, d) = Linked-parts m x (y ∷ xs) ys q w in ((a, b, c), d)

pub Linked-join :
    (m : Ptr → ℕ) (p : Ptr) (xs ys : List Ptr) (q : Ptr)
    → Linked m p xs (first ys q)
    → Linked m (last xs p) ys q
    → Linked m p (xs ++ ys) q
Linked-join m p [] ys q v w = w
Linked-join m p (x ∷ []) ys q (a, b, _) w = (a, b, w)
Linked-join m p (x ∷ y ∷ xs) ys q (a, b, v) w = (a, b, Linked-join m x (y ∷ xs) ys q v w)

-- Writes beside the links.
module _ (m : Ptr → ℕ) (w : Ptr) where
  pub Linked-write :
      (x : ℕ) (p : Ptr) (xs : List Ptr) (q : Ptr)
      → ((a : Ptr) → 1 ≤ occurs a xs → Apart w 4 a 16)
      → Linked m p xs q
      → Linked (write m w x) p xs q
  Linked-write x p [] q d l = tt
  Linked-write x p (a ∷ xs) q d (i, j, l) = (
    IsPtr-write m w x a (first xs q) (sooner a (d a (top a xs))) i,
    IsPtr-write m w x (a + 8) p (later a (d a (top a xs))) j,
    Linked-write x a xs q (λ b o. d b (omega (arith, o))) l,
  )
    where
      top : (a : Ptr) (xs : List Ptr) → 1 ≤ occurs a (a ∷ xs)
      top a xs = omega (arith, here_self a)

      sooner : (a : Ptr) → Apart w 4 a 16 → Apart w 4 a 8
      sooner a (inl l) = inl l
      sooner a (inr l) = inr (omega (arith, l))

      later : (a : Ptr) → Apart w 4 a 16 → Apart w 4 (a + 8) 8
      later a (inl l) = inl (omega (arith, l))
      later a (inr l) = inr (omega (arith, l))

  pub Linked-write_ptr :
      (v : Ptr) (p : Ptr) (xs : List Ptr) (q : Ptr)
      → ((a : Ptr) → 1 ≤ occurs a xs → Apart w 8 a 16)
      → Linked m p xs q
      → Linked (write_ptr m w v) p xs q
  Linked-write_ptr v p [] q d l = tt
  Linked-write_ptr v p (a ∷ xs) q d (i, j, l) = (
    IsPtr-write_ptr m w v a (first xs q) (sooner a (d a (top a xs))) i,
    IsPtr-write_ptr m w v (a + 8) p (later a (d a (top a xs))) j,
    Linked-write_ptr v a xs q (λ b o. d b (omega (arith, o))) l,
  )
    where
      top : (a : Ptr) (xs : List Ptr) → 1 ≤ occurs a (a ∷ xs)
      top a xs = omega (arith, here_self a)

      sooner : (a : Ptr) → Apart w 8 a 16 → Apart w 8 a 8
      sooner a (inl l) = inl l
      sooner a (inr l) = inr (omega (arith, l))

      later : (a : Ptr) → Apart w 8 a 16 → Apart w 8 (a + 8) 8
      later a (inl l) = inl (omega (arith, l))
      later a (inr l) = inr (omega (arith, l))

-- The address does not lie in the links of the block `q`.
abbrev pub Out : (a q : Ptr) → Type 0
Out a q = (a < q) ⊎ (q + 16 ≤ a)

-- The memory is the same but for the links of `xs`.
abbrev pub SameBut : List Ptr → (m g : Ptr → ℕ) → Type 0
SameBut xs m g = (a : Ptr) → ((q : Ptr) → 1 ≤ occurs q xs → Out a q) → g a ≡ m a

pub Linked-same :
    (m g : Ptr → ℕ) (p : Ptr) (xs : List Ptr) (q : Ptr)
    → ((a : Ptr) → 1 ≤ occurs a xs → (k : ℕ) → k < 16 → g (a + k) ≡ m (a + k))
    → Linked m p xs q
    → Linked g p xs q
Linked-same m g p [] q same l = tt
Linked-same m g p (x ∷ xs) q same ((e0, e1), (e2, e3), l) =
    let at = same x (top x xs) in
    (
      (subst (λ a. g a ≡ m a) (plus_zero x) (at 0 (omega arith)) ∙ e0, at 4 (omega arith) ∙ e1),
      (at 8 (omega arith) ∙ e2, subst (λ a. g a ≡ m a) (plus_twelve x) (at 12 (omega arith)) ∙ e3),
      Linked-same m g x xs q (λ a o. same a (omega (arith, o))) l,
    )
  where
    top : (a : Ptr) (xs : List Ptr) → 1 ≤ occurs a (a ∷ xs)
    top a xs = omega (arith, here_self a)

    plus_zero : (x : ℕ) → x + 0 ≡ x
    plus_zero x = omega arith

    plus_twelve : (x : ℕ) → x + 12 ≡ x + 8 + 4
    plus_twelve x = omega arith

pub first-append : (xs ys : List Ptr) (q : Ptr) → first (xs ++ ys) q ≡ first xs (first ys q)
first-append [] ys q = refl
first-append (x ∷ xs) ys q = refl

pub first_of_snoc : (xs : List Ptr) (x p q : Ptr) → first (xs ++ x ∷ []) p ≡ first (xs ++ x ∷ []) q
first_of_snoc [] x p q = refl
first_of_snoc (y ∷ xs) x p q = refl

pub last_of_snoc : (xs : List Ptr) (x p : Ptr) → last (xs ++ x ∷ []) p ≡ x
last_of_snoc [] x p = refl
last_of_snoc (y ∷ xs) x p = last_of_snoc xs x y

pub snoc_view : (c : Ptr) (cs : List Ptr) → (ds : List Ptr) × (x : Ptr) × (c ∷ cs ≡ ds ++ x ∷ [])
snoc_view c [] = ([], c, refl)
snoc_view c (b ∷ cs) =
    let (ds, x, e) = snoc_view b cs in (c ∷ ds, x, ap (λ (t : List Ptr). c ∷ t) e)

-- The links of the blocks lie in the heap, apart from each other.
pub record Space (start brk : Ptr) (xs : List Ptr) : Type 0 where
  pub positive : (q : Ptr) → 1 ≤ occurs q xs → 0 < q
  pub low : (q : Ptr) → 1 ≤ occurs q xs → start ≤ q
  pub high : (q : Ptr) → 1 ≤ occurs q xs → q + 16 ≤ brk
  pub even : (q : Ptr) → 1 ≤ occurs q xs → q % 4 ≡ 0
  pub apart : (q r : Ptr) → 1 ≤ occurs q xs → 1 ≤ occurs r xs → q ≢ r → Apart q 16 r 16
  pub once : (q : Ptr) → occurs q xs ≤ 1
  pub narrow : brk < 18446744073709551616
