-- ===== src/KernelList/Walk.antt =====
-- Walking along the lists of pintos lib/kernel/list.c: `list_size`, `list_max`, `list_min` and the
-- search of `list_insert_ordered`.
use jungle_data_structures.Prelude.{
  ℕ, zero, suc, ◌+◌, ◌<◌, ◌≡◌, ◌≢◌, refl, ap, ◌∙◌, true, false, not, ◌||◌, ◌&&◌, some, List, [],
  ◌∷◌, ◌++◌, ◌==◌, ne→==, eq→==, length, arith,
}
use jungle_data_structures.Prelude.Run.{done}
use jungle_data_structures.KernelList.Store.{Ptr, null, ListElem, elem_of, Store, load-done}
use jungle_data_structures.KernelList.Defs.{KernelList, is_head, list_next, size_loop, list_size}
use jungle_data_structures.KernelList.Links.{has, first, Run, IsKernelList}
use jungle_data_structures.KernelList.Update.{is_interior-done}
use jungle_data_structures.KernelList.Edit.{
  first_of_snoc, list_begin-first, first-ne-null, tail_outside,
}

either_next :
    (p n : Ptr)
    → n ≢ null
    → ((p == null) && not (n == null) || not (p == null) && not (n == null)) ≡ true
either_next p n ne = ground arith

is_head-done :
    (h : Store) (p : Ptr) (n : ListElem)
    → p ≢ null
    → h p ≡ some n
    → is_head p h ≡ done ((n.prev == null) && not (n.next == null)) h
unfolding is_head
is_head-done h p n ne e = rw (ne→== p null ne, load-done h p n ne e) refl

pub list_next-done :
    (h : Store) (x : Ptr) (n : ListElem)
    → x ≢ null
    → h x ≡ some n
    → n.next ≢ null
    → list_next x h ≡ done n.next h
unfolding list_next
list_next-done h x n ne e nn =
    rw
      (
        is_head-done h x n ne e,
        is_interior-done h x n ne e,
        either_next n.prev n.next nn,
        load-done h x n ne e,
      )
      refl

-- The part of a list that a walk has still to go.
module _ (h : Store) (l : KernelList) where
  abbrev pub Rest : Ptr → List Ptr → Type 0
  Rest p xs = Run h p (xs ++ l.tail ∷ []) null × (has l.tail xs ≡ false)

  pub Rest-next :
      (p x : Ptr) (xs : List Ptr) → Rest p (x ∷ xs) → list_next x h ≡ done (first xs l.tail) h
  Rest-next p x xs ((nx, ex, r), out) =
      let e : h x ≡ some (elem_of p (first xs l.tail)) =
        ex ∙ ap (λ q. some (elem_of p q)) (first_of_snoc xs l.tail) in
      list_next-done h x (elem_of p (first xs l.tail)) nx e (first-ne-null h x l.tail xs r)

  pub Rest-ne : (p x : Ptr) (xs : List Ptr) → Rest p (x ∷ xs) → (x == l.tail) ≡ false
  Rest-ne p x xs (r, out) = ground arith

  pub Rest-tail : (p x : Ptr) (xs : List Ptr) → Rest p (x ∷ xs) → Rest x xs
  Rest-tail p x xs ((nx, ex, r), out) = (r, ground arith)

  pub Rest-all : (xs : List Ptr) → IsKernelList h l xs → Rest l.head xs
  Rest-all xs w = (w.linked.2, tail_outside l.tail xs w.distinct.1)

  size_loop-length :
      (fuel : ℕ) (p : Ptr) (xs : List Ptr) (cnt : ℕ)
      → Rest p xs
      → length xs < fuel
      → size_loop fuel l (first xs l.tail) cnt h ≡ done (cnt + length xs) h
  unfolding size_loop
  size_loop-length zero p xs cnt r lt = ground arith
  size_loop-length (suc fuel) p [] cnt r lt =
      rw (eq→== l.tail l.tail refl) (ap (λ n. done n h) (omega arith))
  size_loop-length (suc fuel) p (x ∷ xs) cnt r lt =
      rw
        (
          Rest-ne p x xs r,
          Rest-next p x xs r,
          size_loop-length fuel x xs (cnt + 1) (Rest-tail p x xs r) (omega arith),
        )
        (ap (λ n. done n h) (omega arith))

  -- `list_size` returns the number of elements; one round more is enough.
  pub list_size-length :
      (fuel : ℕ) (xs : List Ptr)
      → IsKernelList h l xs
      → length xs < fuel
      → list_size fuel l h ≡ done (length xs) h
  unfolding list_size
  list_size-length fuel xs w lt = rw (list_begin-first h l xs w) (
      let z : 0 + length xs ≡ length xs = omega arith in
      size_loop-length fuel l.head xs 0 (Rest-all xs w) lt ∙ ap (λ n. done n h) z)
