-- ===== src/Malloc/Best.antt =====
-- `best_fit` of malloc-lab/mm.c.
use jungle_data_structures.Prelude.{
  le_or_lt, le→leb, lt→leb, le→ltb, lt→ltb, ℕ, zero, suc, ◌-◌, ◌%◌, ◌≡◌, ◌≤◌, ◌<◌, ◌⊎◌, inl, inr,
  refl, sym, subst, ◌==◌, eq→==, ne→==, leb, if◌then◌else◌, List, [], ◌∷◌, arith,
}
use native.Mathlib.Decide.{ℕ_discrete}
use jungle_data_structures.Prelude.Run.{done, Ends, Ends-done, Ends-continue, exact_then, ◌>>=◌}
use jungle_data_structures.Malloc.Store.{Ptr, null, Arena, Act}
use jungle_data_structures.Malloc.Defs.{get_size, next_free}
use jungle_data_structures.Malloc.Alloc.{is_better, best_fit_loop, best_fit}
use jungle_data_structures.Malloc.Words.{InHeap, get-done, get_ptr_then}
use jungle_data_structures.Malloc.Links.{here_self, here_ne, occurs, first, Linked, Space}
use jungle_data_structures.Malloc.LinkWords.{arena, word0, word4}

abbrev pub size_at : (Ptr → ℕ) → Ptr → ℕ
size_at m q = m (q - 4) - m (q - 4) % 8

abbrev pub count : List Ptr → ℕ
count [] = 0
count (x ∷ xs) = suc (count xs)

-- No listed block outside of `xs` is large enough, or `best` is the smallest of those that are.
abbrev pub IsBest : (Ptr → ℕ) → (asize : ℕ) → (fl xs : List Ptr) → Ptr → Type 0
IsBest m asize fl xs best =
    ((best ≡ null) × ((r : Ptr) → 1 ≤ occurs r fl → occurs r xs ≡ 0 → size_at m r < asize))
    ⊎ ((1 ≤ occurs best fl)
        × (asize ≤ size_at m best)
        × ((r : Ptr)
            → 1 ≤ occurs r fl
            → occurs r xs ≡ 0
            → asize ≤ size_at m r
            → size_at m best ≤ size_at m r))

module _ (m : Ptr → ℕ) (asize : ℕ) (fl : List Ptr) (x : Ptr) (xs : List Ptr) where
  -- A block is passed that is too small, or not smaller than the best.
  pass_small :
      (best : Ptr)
      → size_at m x < asize
      → IsBest m asize fl (x ∷ xs) best
      → IsBest m asize fl xs best
  pass_small best l (inl (e, f)) = inl (
    e,
    λ r i o. elim (ℕ_discrete r x) [
      | yes t ↦ subst (λ r. size_at m r < asize) (sym t) l
      | no t ↦ f r i (omega (arith, o, here_ne x r t))
    ],
  )
  pass_small best l (inr (i, j, f)) = inr (
    i,
    j,
    λ r k o h. elim (ℕ_discrete r x) [
      | yes t ↦ absurd (small r t h)
      | no t ↦ f r k (omega (arith, o, here_ne x r t)) h
    ],
  )
    where
      small : (r : Ptr) → r ≡ x → asize ≤ size_at m r → ⊥
      small r t h = let h2 = subst (λ r. asize ≤ size_at m r) t h in omega (arith, h2, l)

  pass_larger :
      (best : Ptr)
      → 1 ≤ occurs best fl
      → asize ≤ size_at m best
      → ((r : Ptr)
          → 1 ≤ occurs r fl
          → occurs r (x ∷ xs) ≡ 0
          → asize ≤ size_at m r
          → size_at m best ≤ size_at m r)
      → size_at m best ≤ size_at m x
      → IsBest m asize fl xs best
  pass_larger best i j f l = inr (
    i,
    j,
    λ r k o h. elim (ℕ_discrete r x) [
      | yes t ↦ subst (λ r. size_at m best ≤ size_at m r) (sym t) l
      | no t ↦ f r k (omega (arith, o, here_ne x r t)) h
    ],
  )

  -- A block that fits takes the place of the best.
  take_first :
      1 ≤ occurs x fl
      → asize ≤ size_at m x
      → ((r : Ptr)
          → 1 ≤ occurs r fl
          → occurs r (x ∷ xs) ≡ 0
          → asize ≤ size_at m r
          → size_at m x ≤ size_at m r)
      → IsBest m asize fl xs x
  take_first i j f = inr (
    i,
    j,
    λ r k o h. elim (ℕ_discrete r x) [
      | yes t ↦ subst (λ r. size_at m x ≤ size_at m r) (sym t) (omega arith)
      | no t ↦ f r k (omega (arith, o, here_ne x r t)) h
    ],
  )

-- An exact fit is best of all.
exact-IsBest :
    (m : Ptr → ℕ) (asize : ℕ) (fl xs : List Ptr) (x best : Ptr)
    → size_at m x ≡ asize
    → IsBest m asize fl xs best
    → 1 ≤ occurs x fl
    → occurs x xs ≡ 0
    → IsBest m asize fl [] best
exact-IsBest m asize fl xs x best e (inl (n, f)) i o = absurd (omega (arith, f x i o, e))
exact-IsBest m asize fl xs x best e (inr (j, h, f)) i o =
    inr (j, h, λ r k u v. omega (arith, f x i o (omega (arith, e)), e, v))

module _ (s : Arena) (m : Ptr → ℕ) (f : Ptr) where
  pub size_at-done :
      (q : Ptr)
      → InHeap s.mem_start_brk s.mem_brk (q - 4)
      → get_size (q - 4) (arena s m f) ≡ done (size_at m q) (arena s m f)
  unfolding get_size
  size_at-done q i = rw (get-done (record s { free_listp = f }) m (q - 4) i) refl

module _ (s : Arena) (m : Ptr → ℕ) (f : Ptr) (asize : ℕ) (fl : List Ptr)
    (w : Space s.mem_start_brk s.mem_brk fl)
    (headers : (q : Ptr) → 1 ≤ occurs q fl → InHeap s.mem_start_brk s.mem_brk (q - 4)) where
  abbrev Kept : (Ptr → Type 0) → Ptr → Arena → Type 0
  Kept Q q g = Q q × (g ≡ arena s m f)

  -- The body of the loop, up to the test for an exact fit.
  abbrev choose : (bp best : Ptr) → (bsize : ℕ) → Act Ptr
  choose bp best bsize =
      if leb asize bsize
      then (do b ← is_better bsize best; done (if b then bp else best))
      else done best

  module _ (x : Ptr) (xs : List Ptr) (i : 1 ≤ occurs x fl) where
    choose_large :
        (best : Ptr)
        → asize ≤ size_at m x
        → IsBest m asize fl (x ∷ xs) best
        → Ends
            (Kept (IsBest m asize fl xs))
            (((is_better (size_at m x) best) >>= λ b. done (if b then x else best)) (arena s m f))
    unfolding is_better
    choose_large best l (inl (e, h)) = rw e (
        Ends-done
          (take_first m asize fl x xs i l (λ r k o v. absurd (omega (arith, h r k o, v))), refl))
    choose_large best l (inr (j, v, h)) =
        rw
          (
            ne→== best null (λ e. omega (arith, e, w.positive best j)),
            size_at-done s m f best (headers best j),
          )
          (elim (le_or_lt (size_at m best) (size_at m x)) [
            | inl t ↦
                rw (le→ltb (size_at m x) (size_at m best) t)
                  (Ends-done (pass_larger m asize fl x xs best j v h t, refl))
            | inr t ↦ rw (lt→ltb (size_at m x) (size_at m best) t) (
                Ends-done
                  (take_first m asize fl x xs i l (λ r k o u. omega (arith, h r k o u, t)), refl))
          ])

    choose-IsBest :
        (best : Ptr)
        → IsBest m asize fl (x ∷ xs) best
        → Ends (Kept (IsBest m asize fl xs)) (choose x best (size_at m x) (arena s m f))
    choose-IsBest best b = elim (le_or_lt asize (size_at m x)) [
      | inl l ↦ rw (le→leb asize (size_at m x) l) (choose_large best l b)
      | inr l ↦
          rw (lt→leb asize (size_at m x) l) (Ends-done (pass_small m asize fl x xs best l b, refl))
    ]

  -- What follows the choice.
  abbrev go_on : (fuel : ℕ) → (bp best : Ptr) → (bsize : ℕ) → Act Ptr
  go_on fuel bp best bsize =
      if bsize == asize
      then done best
      else (do next ← next_free bp; best_fit_loop fuel asize next best)

  best_fit_loop-IsBest :
      (fuel : ℕ) (xs : List Ptr) (p best : Ptr)
      → count xs < fuel
      → ((q : Ptr) → occurs q xs ≤ occurs q fl)
      → Linked m p xs null
      → IsBest m asize fl xs best
      → Ends
          (Kept (IsBest m asize fl []))
          (best_fit_loop fuel asize (first xs null) best (arena s m f))
  unfolding best_fit_loop
  best_fit_loop-IsBest zero xs p best l sub k b = absurd (omega (arith, l))
  best_fit_loop-IsBest (suc fuel) [] p best l sub k b = Ends-done (b, refl)
  best_fit_loop-IsBest (suc fuel) (x ∷ xs) p best l sub (k0, k1, k2) b =
      let i : 1 ≤ occurs x fl = omega (arith, sub x, here_self x) in
      let unseen : occurs x xs ≡ 0 = omega (arith, sub x, here_self x, w.once x) in
      rw (ne→== x null (λ e. omega (arith, e, w.positive x i))) (
        exact_then _ (size_at-done s m f x (headers x i)) (
          Ends-continue (choose-IsBest x xs i best b) (λ b1 g (h, r).
            subst (λ g. Ends (Kept (IsBest m asize fl [])) (go_on fuel x b1 (size_at m x) g))
              (sym r)
              (elim (ℕ_discrete (size_at m x) asize) [
                | yes e ↦
                    rw (eq→== (size_at m x) asize e)
                      (Ends-done (exact-IsBest m asize fl xs x b1 e h i unseen, refl))
                | no ne ↦ rw (ne→== (size_at m x) asize ne) (
                    get_ptr_then (record s { free_listp = f }) m x (word0 _ _ fl w x i)
                      (word4 _ _ fl w x i) _ (first xs null) k0
                      (best_fit_loop-IsBest fuel xs x b1 (omega (arith, l))
                        (λ q. omega (arith, sub q)) k2 h))
              ]))))

  -- With the free list linked in memory, `best_fit` returns the smallest listed block that is large
  -- enough, or `NULL` when there is none, and changes nothing. One round more than there are free
  -- blocks is enough.
  pub best_fit-IsBest :
      (fuel : ℕ)
      → count fl < fuel
      → f ≡ first fl null
      → Linked m null fl null
      → Ends (Kept (IsBest m asize fl [])) (best_fit fuel asize (arena s m f))
  unfolding best_fit
  best_fit-IsBest fuel l e k =
      subst
        (λ q. Ends (Kept (IsBest m asize fl [])) (best_fit_loop fuel asize q null (arena s m f)))
        (sym e)
        (best_fit_loop-IsBest fuel fl null null l (λ q. omega arith) k
          (inl (refl, λ r i o. absurd (omega (arith, i, o)))))
