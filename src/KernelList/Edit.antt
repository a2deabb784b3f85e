-- ===== src/KernelList/Edit.antt =====
-- Inserting into and removing from the lists of pintos lib/kernel/list.c.
use jungle_data_structures.Prelude.{
  ◌≡◌, ◌≢◌, refl, sym, ap, ◌∙◌, subst, Bool, true, false, some, List, [], ◌∷◌, ◌++◌, ◌==◌, arith,
}
use jungle_data_structures.Prelude.Run.{done, panic}
use mathlib.Core.List.{append-nil}
use jungle_data_structures.KernelList.Store.{Ptr, null, ListElem, elem_of, Store, load-done}
use jungle_data_structures.KernelList.Defs.{
  KernelList, list_begin, list_rbegin, list_empty, list_front, list_back, list_insert, list_remove,
  list_push_front, list_push_back, list_pop_front, list_pop_back,
}
use jungle_data_structures.KernelList.Sort.{unlink}
use jungle_data_structures.KernelList.Links.{
  has, has-append, Run-node, Distinct, first, last, Run, ring, IsKernelList,
}
use jungle_data_structures.KernelList.Update.{Leaves, insert_at, remove_at}

-- `l` holds `xs` in `g`, and all but the elements `zs` and the headers is as in `h`.
pub record Edited (h g : Store) (l : KernelList) (xs zs : List Ptr) : Type 0 where
  pub holds : IsKernelList g l xs
  pub outside : (a : Ptr) → has a (ring l zs) ≡ false → g a ≡ h a

-- The element of a ring behind which the elements from a place on stand.
pub ring_at :
    (hd t : Ptr) (cs : List Ptr)
    → (ds : List Ptr) × (x : Ptr) × ((zs : List Ptr)
        → hd ∷ (cs ++ zs) ++ t ∷ [] ≡ ds ++ x ∷ (zs ++ t ∷ []))
ring_at hd t [] = ([], hd, λ zs. refl)
ring_at hd t (c ∷ cs) =
    let (ds, x, e) = ring_at c t cs in (hd ∷ ds, x, λ zs. ap (λ (r : List Ptr). hd ∷ r) (e zs))

-- The elements from a place on and the tail, as a first one and others.
pub rest_at : (t : Ptr) (bs : List Ptr) → (rs : List Ptr) × (bs ++ t ∷ [] ≡ first bs t ∷ rs)
rest_at t [] = ([], refl)
rest_at t (b ∷ bs) = (bs ++ t ∷ [], refl)

module _ {h g : Store} {l : KernelList} {zs : List Ptr} where
  Edited-of_Leaves :
      (xs : List Ptr) {r : List Ptr}
      → ring l xs ≡ r
      → ((a : Ptr) → has a (ring l zs) ≡ false → has a r ≡ false)
      → Leaves h g null r null
      → Edited h g l xs zs
  Edited-of_Leaves xs e out v = record {
    holds = record {
      linked = subst (λ r. Run g null r null) (sym e) v.linked;
      distinct = subst Distinct (sym e) v.distinct;
    };
    outside = λ a o. v.outside a (out a o);
  }

module _ (h : Store) (l : KernelList) (cs bs : List Ptr) (e : Ptr) where
  -- `list_insert` of an allocated element outside of the list puts it before the one that is given,
  -- or at the end when that is the tail, and changes nothing outside of the list.
  pub list_insert-Edited :
      (n : ListElem)
      → IsKernelList h l (cs ++ bs)
      → has e (ring l (cs ++ bs)) ≡ false
      → e ≢ null
      → h e ≡ some n
      → (g : Store) × (list_insert (first bs l.tail) e h ≡ done tt g)
        × Edited h g l (cs ++ e ∷ bs) (cs ++ e ∷ bs)
  list_insert-Edited n w out ne he =
      let (ds, x, split) = ring_at l.head l.tail cs in
      let (rs, rest) = rest_at l.tail bs in
      let before : ring l (cs ++ bs) ≡ ds ++ x ∷ first bs l.tail ∷ rs =
        split bs ∙ ap (λ (r : List Ptr). ds ++ x ∷ r) rest in
      let after : ring l (cs ++ e ∷ bs) ≡ ds ++ x ∷ e ∷ first bs l.tail ∷ rs =
        split (e ∷ bs) ∙ ap (λ (r : List Ptr). ds ++ x ∷ e ∷ r) rest in
      let (g, run, v) =
        insert_at h null x (first bs l.tail) e ds rs null n
          (subst (λ r. Run h null r null) before w.linked) (subst Distinct before w.distinct)
          (ap (has e) (sym before) ∙ out) ne he in
      (g, run, Edited-of_Leaves (cs ++ e ∷ bs) after (λ a o. ap (has a) (sym after) ∙ o) v)

  pub taken_out :
      IsKernelList h l (cs ++ e ∷ bs)
      → (g : Store) × (list_remove e h ≡ done (first bs l.tail) g)
        × (unlink e e h ≡ done tt g)
        × Edited h g l (cs ++ bs) (cs ++ bs)
  taken_out w =
      let (ds, x, split) = ring_at l.head l.tail cs in
      let (rs, rest) = rest_at l.tail bs in
      let after : ring l (cs ++ bs) ≡ ds ++ x ∷ first bs l.tail ∷ rs =
        split bs ∙ ap (λ (r : List Ptr). ds ++ x ∷ r) rest in
      let before : ring l (cs ++ e ∷ bs) ≡ ds ++ x ∷ e ∷ first bs l.tail ∷ rs =
        split (e ∷ bs) ∙ ap (λ (r : List Ptr). ds ++ x ∷ e ∷ r) rest in
      let (g, run, two, v) =
        remove_at h null x (first bs l.tail) e ds rs null
          (subst (λ r. Run h null r null) before w.linked) (subst Distinct before w.distinct) in
      (g, run, two, Edited-of_Leaves (cs ++ bs) after (λ a o. ap (has a) (sym after) ∙ o) v)

  -- `list_remove` takes an element out of its list, returns the one that followed, or the tail, and
  -- changes nothing but the links of the others.
  pub list_remove-Edited :
      IsKernelList h l (cs ++ e ∷ bs)
      → (g : Store) × (list_remove e h ≡ done (first bs l.tail) g)
        × Edited h g l (cs ++ bs) (cs ++ bs)
  list_remove-Edited w = let (g, run, _, v) = taken_out w in (g, run, v)

pub first_of_snoc : (xs : List Ptr) (t : Ptr) → first (xs ++ t ∷ []) null ≡ first xs t
first_of_snoc [] t = refl
first_of_snoc (x ∷ xs) t = refl

pub first-ne-null :
    (h : Store) (p t : Ptr) (xs : List Ptr) → Run h p (xs ++ t ∷ []) null → first xs t ≢ null
first-ne-null h p t [] (ne, e, r) = ne
first-ne-null h p t (x ∷ xs) (ne, e, r) = ne

module _ (h : Store) (l : KernelList) (xs : List Ptr) (w : IsKernelList h l xs) where
  pub head-read : (l.head ≢ null) × (h l.head ≡ some (elem_of null (first xs l.tail)))
  head-read = (w.linked.0, w.linked.1 ∙ ap (λ p. some (elem_of null p)) (first_of_snoc xs l.tail))

  pub tail-read : (l.tail ≢ null) × (h l.tail ≡ some (elem_of (last xs l.head) null))
  tail-read = Run-node h l.tail [] null (l.head ∷ xs) null w.linked

  pub list_begin-first : list_begin l h ≡ done (first xs l.tail) h
  unfolding list_begin
  list_begin-first =
      rw (load-done h l.head (elem_of null (first xs l.tail)) head-read.0 head-read.1) refl

  pub list_rbegin-last : list_rbegin l h ≡ done (last xs l.head) h
  unfolding list_rbegin
  list_rbegin-last =
      rw (load-done h l.tail (elem_of (last xs l.head) null) tail-read.0 tail-read.1) refl

-- The tail is not one of the elements.
pub tail_outside : (t : Ptr) (xs : List Ptr) → Distinct (xs ++ t ∷ []) → has t xs ≡ false
tail_outside t [] d = refl
tail_outside t (x ∷ xs) (dx, d) = ground (arith, tail_outside t xs d, has-append x xs (t ∷ []))

abbrev pub is_nil : List Ptr → Bool
is_nil [] = true
is_nil (x ∷ xs) = false

module _ (h : Store) (l : KernelList) where
  first-tail : (xs : List Ptr) → IsKernelList h l xs → (first xs l.tail == l.tail) ≡ is_nil xs
  first-tail [] w = ground arith
  first-tail (x ∷ xs) w = ground (arith, tail_outside l.tail (x ∷ xs) w.distinct.1)

  pub list_empty-is_nil :
      (xs : List Ptr) → IsKernelList h l xs → list_empty l h ≡ done (is_nil xs) h
  unfolding list_empty
  list_empty-is_nil xs w = rw (list_begin-first h l xs w, first-tail xs w) refl

module _ (h : Store) (l : KernelList) (e : Ptr) (n : ListElem) where
  -- `list_push_front` puts a new element in front of all others.
  pub list_push_front-Edited :
      (xs : List Ptr)
      → IsKernelList h l xs
      → has e (ring l xs) ≡ false
      → e ≢ null
      → h e ≡ some n
      → (g : Store) × (list_push_front l e h ≡ done tt g) × Edited h g l (e ∷ xs) (e ∷ xs)
  unfolding list_push_front
  list_push_front-Edited xs w out ne he =
      let (g, run, v) = list_insert-Edited h l [] xs e n w out ne he in
      (g, rw (list_begin-first h l xs w) run, v)

  -- `list_push_back` puts a new element behind all others.
  pub list_push_back-Edited :
      (xs : List Ptr)
      → IsKernelList h l xs
      → has e (ring l xs) ≡ false
      → e ≢ null
      → h e ≡ some n
      → (g : Store) × (list_push_back l e h ≡ done tt g)
        × Edited h g l (xs ++ e ∷ []) (xs ++ e ∷ [])
  unfolding list_push_back
  list_push_back-Edited xs w out ne he =
      let v : xs ++ [] ≡ xs = append-nil xs in
      list_insert-Edited h l xs [] e n (subst (IsKernelList h l) (sym v) w)
        (ap (λ (r : List Ptr). has e (ring l r)) v ∙ out) ne he

last_of_snoc : (xs : List Ptr) (e p : Ptr) → last (xs ++ e ∷ []) p ≡ e
last_of_snoc [] e p = refl
last_of_snoc (x ∷ xs) e p = last_of_snoc xs e x

snoc_not_nil : (xs : List Ptr) (e : Ptr) → is_nil (xs ++ e ∷ []) ≡ false
snoc_not_nil [] e = refl
snoc_not_nil (x ∷ xs) e = refl

module _ (h : Store) (l : KernelList) (e : Ptr) where
  -- `list_pop_front` takes the first element out and returns it.
  pub list_pop_front-Edited :
      (xs : List Ptr)
      → IsKernelList h l (e ∷ xs)
      → (g : Store) × (list_pop_front l h ≡ done e g) × Edited h g l xs xs
  unfolding list_pop_front list_front
  list_pop_front-Edited xs w =
      let (g, run, v) = list_remove-Edited h l [] xs e w in
      let (nh, hh) = head-read h l (e ∷ xs) w in
      (
        g,
        rw (list_empty-is_nil h l (e ∷ xs) w, load-done h l.head (elem_of null e) nh hh, run) refl,
        v,
      )

  -- `list_pop_back` takes the last element out and returns it.
  pub list_pop_back-Edited :
      (xs : List Ptr)
      → IsKernelList h l (xs ++ e ∷ [])
      → (g : Store) × (list_pop_back l h ≡ done e g) × Edited h g l xs xs
  unfolding list_pop_back list_back
  list_pop_back-Edited xs w =
      let (g, run, v) = list_remove-Edited h l xs [] e w in
      let (nt, ht) = tail-read h l (xs ++ e ∷ []) w in
      let ht2 : h l.tail ≡ some (elem_of e null) = rw (sym (last_of_snoc xs e l.head)) ht in
      (
        g,
        rw
            (
              list_empty-is_nil h l (xs ++ e ∷ []) w,
              snoc_not_nil xs e,
              load-done h l.tail (elem_of e null) nt ht2,
              run,
            )
            refl,
        subst (λ r. Edited h g l r r) (append-nil xs) v,
      )

module _ (h : Store) (l : KernelList) where
  -- `list_pop_front` and `list_pop_back` on an empty list fail their `ASSERT`.
  list_pop-panic : IsKernelList h l [] → (list_pop_front l h ≡ panic) × (list_pop_back l h ≡ panic)
  unfolding list_pop_front list_front list_pop_back list_back
  list_pop-panic w = (rw (list_empty-is_nil h l [] w) refl, rw (list_empty-is_nil h l [] w) refl)
