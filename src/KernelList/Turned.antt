-- ===== src/KernelList/Turned.antt =====
-- What `list_reverse` of pintos lib/kernel/list.c leaves of a list.
use jungle_data_structures.Prelude.{
  ℕ, ◌<◌, ◌≡◌, ◌≢◌, refl, sym, subst, ap, ◌∙◌, true, false, ◌||◌, some, List, [], ◌∷◌, ◌++◌, length,
  arith,
}
use jungle_data_structures.Prelude.Distinct.{Distinct-append, Distinct-join, outside_parts}
use jungle_data_structures.Prelude.Run.{Ends, Ends-done, Ends-map, Ends-continue, exact_then}
use jungle_data_structures.KernelList.Store.{Ptr, null, elem_of, Store}
use jungle_data_structures.KernelList.Defs.{KernelList, swap_ends, list_reverse}
use jungle_data_structures.KernelList.Links.{
  has, has-append, Distinct, first, last, Run, IsKernelList, ring, snoc_view,
}
use jungle_data_structures.KernelList.Edit.{list_begin-first, list_empty-is_nil, tail_outside}
use jungle_data_structures.KernelList.Reverse.{rev_onto, reverse_loop-Run}
use jungle_data_structures.KernelList.TurnEnds.{turn_one, turn_more, Run-front}

has-rev_onto : (a : Ptr) (xs acc : List Ptr) → has a (rev_onto xs acc) ≡ (has a xs || has a acc)
has-rev_onto a [] acc = refl
has-rev_onto a (x ∷ xs) acc = ground (arith, has-rev_onto a xs (x ∷ acc))

Distinct-rev_onto :
    (xs acc : List Ptr)
    → Distinct xs
    → Distinct acc
    → ((a : Ptr) → has a xs ≡ true → has a acc ≡ false)
    → Distinct (rev_onto xs acc)
Distinct-rev_onto [] acc d e apart = e
Distinct-rev_onto (x ∷ xs) acc (dx, d) e apart =
    Distinct-rev_onto xs (x ∷ acc) d (apart x (ground arith), e)
      (λ a i. ground (arith, apart a, dx, i))

first-rev_onto : (xs acc : List Ptr) (d : Ptr) → first (rev_onto xs acc) d ≡ last xs (first acc d)
first-rev_onto [] acc d = refl
first-rev_onto (x ∷ xs) acc d = first-rev_onto xs (x ∷ acc) d

last-rev_onto :
    (xs : List Ptr) (a : Ptr) (acc : List Ptr) (d : Ptr)
    → last (rev_onto xs (a ∷ acc)) d ≡ last acc a
last-rev_onto [] a acc d = refl
last-rev_onto (x ∷ xs) a acc d = last-rev_onto xs x (a ∷ acc) d

last_of_snoc : (ds : List Ptr) (z d : Ptr) → last (ds ++ z ∷ []) d ≡ z
last_of_snoc [] z d = refl
last_of_snoc (c ∷ ds) z d = last_of_snoc ds z c

module _ (l : KernelList) (k : Store) (hn : l.head ≢ null) (tn : l.tail ≢ null)
    (ht : l.tail ≢ l.head) (y : Ptr) where
  abbrev Turns : List Ptr → Type 0
  Turns ns =
      Run k l.tail (y ∷ ns) l.head
      → Distinct (y ∷ ns)
      → has l.head (y ∷ ns) ≡ false
      → has l.tail (y ∷ ns) ≡ false
      → k l.head ≡ some (elem_of null (last ns y))
      → k l.tail ≡ some (elem_of y null)
      → Ends (λ _. λ g. Run g null (ring l (y ∷ ns)) null) (swap_ends l k)

  ne_of : (a : Ptr) (xs : List Ptr) → has a (y ∷ xs) ≡ false → y ≢ a
  ne_of a xs o e = ground (arith, o, e)

  Turns-snoc : (ds : List Ptr) (z : Ptr) → Turns (ds ++ z ∷ [])
  Turns-snoc ds z r (dy, d) oh ot eh et =
      let (_, _, apart) = Distinct-append ds (z ∷ []) d in
      turn_more l k hn tn ht y z ds (ne_of l.head _ oh) (ne_of l.tail _ ot) (end_ne l.head oh)
        (end_ne l.tail ot) (λ e. self_ne dy e)
        (λ a i. (
          inner_ne a l.head i oh,
          inner_ne a l.tail i ot,
          head_ne a i dy,
          last_ne a i (apart z (one z)),
        ))
        (eh ∙ ap (λ q. some (elem_of null q)) (last_of_snoc ds z y)) et r (last_of_snoc ds z y)
    where
      one : (z : Ptr) → has z (z ∷ []) ≡ true
      one z = ground arith

      end_ne : (a : Ptr) → has a (y ∷ ds ++ z ∷ []) ≡ false → z ≢ a
      end_ne a o e = ground (arith, o, e, has-append a ds (z ∷ []))

      self_ne : has y (ds ++ z ∷ []) ≡ false → y ≢ z
      self_ne o e = ground (arith, o, e, has-append y ds (z ∷ []))

      inner_ne : (a b : Ptr) → has a ds ≡ true → has b (y ∷ ds ++ z ∷ []) ≡ false → a ≢ b
      inner_ne a b i o e = ground (arith, i, o, e, has-append b ds (z ∷ []))

      head_ne : (a : Ptr) → has a ds ≡ true → has y (ds ++ z ∷ []) ≡ false → a ≢ y
      head_ne a i o e = ground (arith, i, o, e, has-append y ds (z ∷ []))

      last_ne : (a : Ptr) → has a ds ≡ true → has z ds ≡ false → a ≢ z
      last_ne a i o e = ground (arith, i, o, e)

  turns : (ns : List Ptr) → Turns ns
  turns [] =
      λ r d oh ot eh et. turn_one l k hn tn ht y (ne_of l.head [] oh) (ne_of l.tail [] ot) eh et r
  turns (m ∷ ms) = let (ds, z, e) = snoc_view m ms in subst Turns (sym e) (Turns-snoc ds z)

-- The elements of a ring in the other order are distinct.
Distinct-turned :
    (l : KernelList) (xs : List Ptr) → Distinct (ring l xs) → Distinct (ring l (rev_onto xs []))
Distinct-turned l xs (dh, d) =
    let (dx, _, apart) = Distinct-append xs (l.tail ∷ []) d in
    (
      outside dh,
      Distinct-join (rev_onto xs []) (l.tail ∷ []) (Distinct-rev_onto xs [] dx tt (λ a i. refl))
          (refl, tt) (λ a i. still_outside a (apart a i)),
    )
  where
    still_outside : (a : Ptr) → has a xs ≡ false → has a (rev_onto xs []) ≡ false
    still_outside a o = ground (arith, o, has-rev_onto a xs [])

    outside :
        has l.head (xs ++ l.tail ∷ []) ≡ false → has l.head (rev_onto xs [] ++ l.tail ∷ []) ≡ false
    outside o = ground (
      arith,
      o,
      has-append l.head xs (l.tail ∷ []),
      has-append l.head (rev_onto xs []) (l.tail ∷ []),
      has-rev_onto l.head xs [],
    )

module _ (l : KernelList) (k : Store) (hn : l.head ≢ null) (tn : l.tail ≢ null) where
  turned :
      (ys : List Ptr) (y z : Ptr)
      → ((d : Ptr) → first ys d ≡ y)
      → ((d : Ptr) → last ys d ≡ z)
      → Run k l.tail ys l.head
      → Distinct (ring l ys)
      → k l.head ≡ some (elem_of null z)
      → k l.tail ≡ some (elem_of y null)
      → Ends (λ _. λ g. IsKernelList g l ys) (swap_ends l k)
  turned [] y z fy lz r d eh et = elim (no_element (fy 0) (fy 1)) [ ]
    where
      no_element : 0 ≡ y → 1 ≡ y → ⊥
      no_element e f = omega (arith, e, f)
  turned (x ∷ ns) y z fy lz r (dh, d) eh et =
      let (dx, _, _) = Distinct-append (x ∷ ns) (l.tail ∷ []) d in
      let (oh, th) = outside_parts l.head (x ∷ ns) (l.tail ∷ []) dh in
      Ends-map
        (turns l k hn tn (tail_ne th) x ns r dx oh (tail_outside l.tail (x ∷ ns) d)
          (eh ∙ ap (λ q. some (elem_of null q)) (sym (lz 0)))
          (et ∙ ap (λ q. some (elem_of q null)) (sym (fy 0))))
        (λ _ g run. record { linked = run; distinct = (dh, d) })
    where
      tail_ne : has l.head (l.tail ∷ []) ≡ false → l.tail ≢ l.head
      tail_ne o e = ground (arith, o, e)

-- `list_reverse` puts the elements of a list in the opposite order; one round more than there are
-- elements is enough.
pub list_reverse-rev_onto :
    (fuel : ℕ) (l : KernelList) (xs : List Ptr) (h : Store)
    → IsKernelList h l xs
    → length xs < fuel
    → Ends (λ _. λ g. IsKernelList g l (rev_onto xs [])) (list_reverse fuel l h)
unfolding list_reverse
list_reverse-rev_onto fuel l [] h w lt = exact_then _ (list_empty-is_nil h l [] w) (Ends-done w)
list_reverse-rev_onto fuel l (x ∷ xs) h w lt =
    let (hn, eh, all) = w.linked in
    let (r, tn, et) = Run-front h l.tail (x ∷ xs) l.head all in
    let (oh, _) = outside_parts l.head (x ∷ xs) (l.tail ∷ []) w.distinct.0 in
    let ot = tail_outside l.tail (x ∷ xs) w.distinct.1 in
    let (dx, _, _) = Distinct-append (x ∷ xs) (l.tail ∷ []) w.distinct.1 in
    exact_then _ (list_empty-is_nil h l (x ∷ xs) w) (
      exact_then _ (list_begin-first h l (x ∷ xs) w) (
        Ends-continue (reverse_loop-Run l fuel (x ∷ xs) [] h tt r dx (λ a i. refl) ot lt)
          (λ _ k (turn, keep).
            turned l k hn tn (rev_onto (x ∷ xs) []) (last xs x) x
              (λ d. first-rev_onto (x ∷ xs) [] d) (λ d. last-rev_onto xs x [] d) turn
              (Distinct-turned l (x ∷ xs) w.distinct) (keep l.head oh ∙ eh) (keep l.tail ot ∙ et))))
