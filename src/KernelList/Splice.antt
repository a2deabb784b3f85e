-- ===== src/KernelList/Splice.antt =====
-- What `list_next`, `list_prev` and `list_splice` of pintos lib/kernel/list.c do at a place of a list.
use jungle_data_structures.Prelude.{
  ◌≡◌, ◌≢◌, refl, sym, ap, ◌∙◌, subst, Bool, true, false, ◌||◌, some, List, [], ◌∷◌, ◌++◌, ◌==◌,
  ne→==, arith,
}
use mathlib.Core.List.{append_assoc}
use jungle_data_structures.Prelude.Run.{done}
use jungle_data_structures.KernelList.Store.{Ptr, null, ListElem, elem_of, Store, load-done}
use jungle_data_structures.KernelList.Defs.{KernelList, list_next, list_prev, list_insert, link}
use jungle_data_structures.KernelList.Sort.{splice_in, list_splice}
use jungle_data_structures.KernelList.Links.{
  has, Distinct, first, Run, Run-first, Run-second, Run-third, ring, IsKernelList,
}
use jungle_data_structures.KernelList.Update.{is_interior-done, is_tail-done, either}
use jungle_data_structures.KernelList.Edit.{ring_at, rest_at, Edited, taken_out, list_insert-Edited}
use jungle_data_structures.KernelList.Walk.{list_next-done}
use jungle_data_structures.KernelList.Unique.{element, has-ring}

module _ (h : Store) (l : KernelList) (cs bs : List Ptr) (e : Ptr)
    (w : IsKernelList h l (cs ++ e ∷ bs)) where
  -- The neighbours of an element, and its links.
  pub record Neighbours : Type 0 where
    pub before : Ptr
    pub before_ne : before ≢ null
    pub ne : e ≢ null
    pub read : h e ≡ some (elem_of before (first bs l.tail))
    pub behind_ne : first bs l.tail ≢ null
    pub behind : Ptr
    pub read_behind : h (first bs l.tail) ≡ some (elem_of e behind)

  pub neighbours : Neighbours
  neighbours =
      let (ds, x, split) = ring_at l.head l.tail cs in
      let (rs, rest) = rest_at l.tail bs in
      let q =
        subst (λ r. Run h null r null)
          (split (e ∷ bs) ∙ ap (λ (r : List Ptr). ds ++ x ∷ e ∷ r) rest) w.linked in
      let (nx, z, hx) = Run-first h x e (first bs l.tail ∷ rs) null ds null q in
      let (ne, he) = Run-second h x e (first bs l.tail ∷ rs) null ds null q in
      let (ny, hy) = Run-third h x (first bs l.tail) rs null e ds null q in
      record {
        before = x;
        before_ne = nx;
        ne = ne;
        read = he;
        behind_ne = ny;
        behind = first rs null;
        read_behind = hy;
      }

  pub list_next-at : list_next e h ≡ done (first bs l.tail) h
  list_next-at =
      let n = neighbours in
      list_next-done h e (elem_of n.before (first bs l.tail)) n.ne n.read n.behind_ne

  pub list_prev-at : list_prev (first bs l.tail) h ≡ done e h
  unfolding list_prev
  list_prev-at =
      let n = neighbours in
      let m : ListElem = elem_of e n.behind in
      rw
        (
          is_interior-done h (first bs l.tail) m n.behind_ne n.read_behind,
          is_tail-done h (first bs l.tail) m n.behind_ne n.read_behind,
          ne→== e null n.ne,
          either n.behind,
          load-done h (first bs l.tail) m n.behind_ne n.read_behind,
        )
        refl

-- Where the element passed to `list_insert` and the place are in order, it only links.
list_insert-link :
    (h : Store) (l : KernelList) (cs bs : List Ptr) (a e : Ptr)
    → IsKernelList h l (cs ++ a ∷ bs)
    → e ≢ null
    → list_insert a e h ≡ link a e h
unfolding list_insert
list_insert-link h l cs bs a e w ne =
    let n = neighbours h l cs bs a w in
    let m : ListElem = elem_of n.before (first bs l.tail) in
    rw
      (
        is_interior-done h a m n.ne n.read,
        is_tail-done h a m n.ne n.read,
        ne→== n.before null n.before_ne,
        either (first bs l.tail),
        ne→== e null ne,
      )
      refl

splice_in-link : (a e : Ptr) (h : Store) → splice_in a e e h ≡ link a e h
unfolding splice_in link
splice_in-link a e h = refl

or_left : (b c : Bool) → (b || c) ≡ false → b ≡ false
or_left b c e = ground arith

-- An element is not the first of those behind it.
first-in : (t : Ptr) (xs ys : List Ptr) → has (first ys t) ((xs ++ ys) ++ t ∷ []) ≡ true
first-in t [] [] = ground arith
first-in t [] (y ∷ ys) = ground arith
first-in t (x ∷ xs) ys = ground (arith, first-in t xs ys)

Distinct-at :
    (a t : Ptr) (cs bs : List Ptr)
    → Distinct ((cs ++ a ∷ bs) ++ t ∷ [])
    → has a (bs ++ t ∷ []) ≡ false
Distinct-at a t [] bs (da, d) = da
Distinct-at a t (c ∷ cs) bs (dc, d) = Distinct-at a t cs bs d

pub later_ne :
    (h : Store) (l : KernelList) (cs us ds : List Ptr) (a : Ptr)
    → IsKernelList h l (cs ++ (a ∷ us ++ ds))
    → (a == first ds l.tail) ≡ false
later_ne h l cs us ds a w =
    ne→== a (first ds l.tail) (λ e.
      ground (arith, e, first-in l.tail us ds, Distinct-at a l.tail cs (us ++ ds) w.distinct.1))

module _ (h : Store) (l : KernelList) (cs us bs : List Ptr) (a b : Ptr) where
  same_ring :
      (q : Ptr)
      → has q (ring l (cs ++ (b ∷ a ∷ us ++ bs))) ≡ has q (ring l ((cs ++ a ∷ us) ++ b ∷ bs))
  same_ring q =
      has-ring q b l cs (a ∷ us ++ bs)
      ∙ ap (λ (r : List Ptr). has q (ring l r) || (q == b)) (sym (append_assoc cs (a ∷ us) bs))
      ∙ sym (has-ring q b l (cs ++ a ∷ us) bs)

  -- `list_splice` of one element moves it before another that stands earlier in the same list.
  pub list_splice-Edited :
      IsKernelList h l (cs ++ (a ∷ us ++ b ∷ bs))
      → (g : Store) × (list_splice a b (first bs l.tail) h ≡ done tt g)
        × Edited h g l (cs ++ (b ∷ a ∷ us ++ bs)) (cs ++ (a ∷ us ++ b ∷ bs))
  unfolding list_splice
  list_splice-Edited w =
      let split = append_assoc cs (a ∷ us) (b ∷ bs) in
      let v = subst (IsKernelList h l) (sym split) w in
      let n = neighbours h l cs (us ++ b ∷ bs) a w in
      let m = neighbours h l (cs ++ a ∷ us) bs b v in
      let (g, _, two, u) = taken_out h l (cs ++ a ∷ us) bs b v in
      let (out, nb, k, hb) = element l (cs ++ a ∷ us) bs b h v in
      let joined = append_assoc cs (a ∷ us) bs in
      let w1 = subst (IsKernelList g l) joined u.holds in
      let (g2, ins, u2) =
        list_insert-Edited g l cs (a ∷ us ++ bs) b k w1
          (ap (λ (r : List Ptr). has b (ring l r)) (sym joined) ∙ out) nb (u.outside b out ∙ hb) in
      (
        g2,
        rw
            (
              is_interior-done h a (elem_of n.before (first (us ++ b ∷ bs) l.tail)) n.ne n.read,
              is_tail-done h a (elem_of n.before (first (us ++ b ∷ bs) l.tail)) n.ne n.read,
              ne→== n.before null n.before_ne,
              either (first (us ++ b ∷ bs) l.tail),
              later_ne h l (cs ++ a ∷ us) [] bs b v,
              list_prev-at h l (cs ++ a ∷ us) bs b v,
              is_interior-done h b (elem_of m.before (first bs l.tail)) m.ne m.read,
              ne→== m.before null m.before_ne,
              ne→== (first bs l.tail) null m.behind_ne,
              is_interior-done h b (elem_of m.before (first bs l.tail)) m.ne m.read,
              ne→== m.before null m.before_ne,
              ne→== (first bs l.tail) null m.behind_ne,
              two,
            )
            (splice_in-link a b g ∙ sym (list_insert-link g l cs (us ++ bs) a b w1 nb) ∙ ins),
        record {
          holds = u2.holds;
          outside = λ q o.
              let o1 = ap (λ (r : List Ptr). has q (ring l r)) split ∙ o in
              u2.outside q (same_ring q ∙ o1)
              ∙ u.outside q (or_left _ _ (sym (has-ring q b l (cs ++ a ∷ us) bs) ∙ o1));
        },
      )
