-- ===== src/KernelList/Update.antt =====
-- `list_insert` and `list_remove` of pintos lib/kernel/list.c at a place of the ring of links.
use jungle_data_structures.Prelude.{
  ◌≡◌, ◌≢◌, refl, sym, ◌∙◌, true, false, not, ◌||◌, ◌&&◌, some, List, ◌∷◌, ◌++◌, ◌==◌, ne→==, arith,
}
use jungle_data_structures.Prelude.Run.{done}
use jungle_data_structures.KernelList.Store.{
  Ptr, null, ListElem, elem_of, Store, write, load-done, set_prev-done, set_next-done, write_self,
  write_ne,
}
use jungle_data_structures.KernelList.Defs.{is_interior, is_tail, link, list_insert, list_remove}
use jungle_data_structures.KernelList.Sort.{unlink}
use jungle_data_structures.KernelList.Links.{
  has, Distinct, first, Run, Run-insert, Run-remove, Run-first, Run-second, Run-third,
  Distinct-pair, Distinct-insert, Distinct-remove, has-append,
}

module _ (h : Store) (p : Ptr) (n : ListElem) (ne : p ≢ null) (e : h p ≡ some n) where
  pub is_interior-done : is_interior p h ≡ done (not (n.prev == null) && not (n.next == null)) h
  unfolding is_interior
  is_interior-done = rw (ne→== p null ne, load-done h p n ne e) refl

  pub is_tail-done : is_tail p h ≡ done (not (n.prev == null) && (n.next == null)) h
  unfolding is_tail
  is_tail-done = rw (ne→== p null ne, load-done h p n ne e) refl

pub either : (v : Ptr) → (not (v == null) || v == null) ≡ true
either v = ground arith

-- The store after `link y e`, where `x` precedes `y`.
linked_in : Store → (x y e z w n : Ptr) → Store
linked_in h x y e z w n =
    write (write (write (write h e (elem_of x n)) e (elem_of x y)) x (elem_of z e)) y (elem_of e w)

module _ (h : Store) (x y e z w : Ptr) (n : ListElem) (nx : x ≢ null) (ny : y ≢ null)
    (ne : e ≢ null) (hx : h x ≡ some (elem_of z y)) (hy : h y ≡ some (elem_of x w))
    (he : h e ≡ some n) (xy : x ≢ y) (ex : e ≢ x) (ey : e ≢ y) where
  link-done : link y e h ≡ done tt (linked_in h x y e z w n.next)
  unfolding link linked_in
  link-done =
      let h1 : Store = write h e (elem_of x n.next) in
      let h2 : Store = write h1 e (elem_of x y) in
      let h3 : Store = write h2 x (elem_of z e) in
      let e1 : h1 e ≡ some (elem_of x n.next) = write_self h e (elem_of x n.next) in
      let y2 : h2 y ≡ some (elem_of x w) =
        write_ne h1 e y (elem_of x y) (λ t. ey (sym t))
        ∙ write_ne h e y (elem_of x n.next) (λ t. ey (sym t))
        ∙ hy in
      let x2 : h2 x ≡ some (elem_of z y) =
        write_ne h1 e x (elem_of x y) (λ t. ex (sym t))
        ∙ write_ne h e x (elem_of x n.next) (λ t. ex (sym t))
        ∙ hx in
      let y3 : h3 y ≡ some (elem_of x w) = write_ne h2 x y (elem_of z e) (λ t. xy (sym t)) ∙ y2 in
      rw
        (
          load-done h y (elem_of x w) ny hy,
          set_prev-done h e n x ne he,
          set_next-done h1 e (elem_of x n.next) y ne e1,
          load-done h2 y (elem_of x w) ny y2,
          set_next-done h2 x (elem_of z y) e nx x2,
          set_prev-done h3 y (elem_of x w) e ny y3,
        )
        refl

  list_insert-done : list_insert y e h ≡ done tt (linked_in h x y e z w n.next)
  unfolding list_insert
  list_insert-done =
      rw
        (
          is_interior-done h y (elem_of x w) ny hy,
          is_tail-done h y (elem_of x w) ny hy,
          ne→== x null nx,
          either w,
          ne→== e null ne,
        )
        link-done

  read-x : linked_in h x y e z w n.next x ≡ some (elem_of z e)
  unfolding linked_in write
  read-x = ground arith

  read-y : linked_in h x y e z w n.next y ≡ some (elem_of e w)
  unfolding linked_in write
  read-y = ground arith

  read-e : linked_in h x y e z w n.next e ≡ some (elem_of x y)
  unfolding linked_in write
  read-e = ground arith

  read_other : (a : Ptr) → a ≢ x → a ≢ y → a ≢ e → linked_in h x y e z w n.next a ≡ h a
  unfolding linked_in write
  read_other a ax ay ae = ground arith

-- The store after `list_remove e`, where `e` stands between `x` and `y`.
linked_out : Store → (x y z w : Ptr) → Store
linked_out h x y z w = write (write h x (elem_of z y)) y (elem_of x w)

module _ (h : Store) (x y e z w : Ptr) (nx : x ≢ null) (ny : y ≢ null) (ne : e ≢ null)
    (hx : h x ≡ some (elem_of z e)) (hy : h y ≡ some (elem_of e w)) (he : h e ≡ some (elem_of x y))
    (xy : x ≢ y) (ex : e ≢ x) (ey : e ≢ y) where
  list_remove-done : list_remove e h ≡ done y (linked_out h x y z w)
  unfolding list_remove linked_out
  list_remove-done =
      let h1 : Store = write h x (elem_of z y) in
      let h2 : Store = write h1 y (elem_of x w) in
      let e1 : h1 e ≡ some (elem_of x y) = write_ne h x e (elem_of z y) ex ∙ he in
      let y1 : h1 y ≡ some (elem_of e w) = write_ne h x y (elem_of z y) (λ t. xy (sym t)) ∙ hy in
      let e2 : h2 e ≡ some (elem_of x y) = write_ne h1 y e (elem_of x w) ey ∙ e1 in
      rw
        (
          is_interior-done h e (elem_of x y) ne he,
          ne→== x null nx,
          ne→== y null ny,
          load-done h e (elem_of x y) ne he,
          set_next-done h x (elem_of z e) y nx hx,
          load-done h1 e (elem_of x y) ne e1,
          set_prev-done h1 y (elem_of e w) x ny y1,
          load-done h2 e (elem_of x y) ne e2,
        )
        refl

  -- The same two writes in `list_splice`.
  unlink-done : unlink e e h ≡ done tt (linked_out h x y z w)
  unfolding unlink linked_out
  unlink-done =
      let h1 : Store = write h x (elem_of z y) in
      let e1 : h1 e ≡ some (elem_of x y) = write_ne h x e (elem_of z y) ex ∙ he in
      let y1 : h1 y ≡ some (elem_of e w) = write_ne h x y (elem_of z y) (λ t. xy (sym t)) ∙ hy in
      rw
        (
          load-done h e (elem_of x y) ne he,
          load-done h e (elem_of x y) ne he,
          set_next-done h x (elem_of z e) y nx hx,
          load-done h1 e (elem_of x y) ne e1,
          load-done h1 e (elem_of x y) ne e1,
          set_prev-done h1 y (elem_of e w) x ny y1,
        )
        refl

  out-x : linked_out h x y z w x ≡ some (elem_of z y)
  unfolding linked_out write
  out-x = ground arith

  out-y : linked_out h x y z w y ≡ some (elem_of x w)
  unfolding linked_out write
  out-y = ground arith

  out_other : (a : Ptr) → a ≢ x → a ≢ y → linked_out h x y z w a ≡ h a
  unfolding linked_out write
  out_other a ax ay = ground arith

-- The memory `g` holds the ring `zs`, and everything outside of it as it was in `h`.
pub record Leaves (h g : Store) (p : Ptr) (zs : List Ptr) (q : Ptr) : Type 0 where
  pub linked : Run g p zs q
  pub distinct : Distinct zs
  pub outside : (a : Ptr) → has a zs ≡ false → g a ≡ h a

pub insert_at :
    (h : Store) (p x y e : Ptr) (ds bs : List Ptr) (q : Ptr) (n : ListElem)
    → Run h p (ds ++ x ∷ y ∷ bs) q
    → Distinct (ds ++ x ∷ y ∷ bs)
    → has e (ds ++ x ∷ y ∷ bs) ≡ false
    → e ≢ null
    → h e ≡ some n
    → (g : Store) × (list_insert y e h ≡ done tt g) × Leaves h g p (ds ++ x ∷ e ∷ y ∷ bs) q
insert_at h p x y e ds bs q n r d out ne he =
    let (nx, z, hx) = Run-first h x y bs q ds p r in
    let (ny, hy) = Run-second h x y bs q ds p r in
    let xy = Distinct-pair h x y bs q ds d in
    let ex : e ≢ x = λ t. ground (arith, t, out, has-append e ds (x ∷ y ∷ bs)) in
    let ey : e ≢ y = λ t. ground (arith, t, out, has-append e ds (x ∷ y ∷ bs)) in
    let w : Ptr = first bs q in
    let g : Store = linked_in h x y e z w n.next in
    let rx = read-x h x y e z w n nx ny ne hx hy he xy ex ey in
    let ry = read-y h x y e z w n nx ny ne hx hy he xy ex ey in
    let re = read-e h x y e z w n nx ny ne hx hy he xy ex ey in
    let ro = read_other h x y e z w n nx ny ne hx hy he xy ex ey in
    (
      g,
      list_insert-done h x y e z w n nx ny ne hx hy he xy ex ey,
      record {
        linked = Run-insert h g x y e bs q ds p r d out ne re (λ m hm. cc) (λ m hm. cc) ro;
        distinct = Distinct-insert e x ds (y ∷ bs) d out;
        outside = λ a o.
            ro a (λ t. ground (arith, t, o, has-append a ds (x ∷ e ∷ y ∷ bs)))
              (λ t. ground (arith, t, o, has-append a ds (x ∷ e ∷ y ∷ bs)))
              (λ t. ground (arith, t, o, has-append a ds (x ∷ e ∷ y ∷ bs)));
      },
    )

pub remove_at :
    (h : Store) (p x y e : Ptr) (ds bs : List Ptr) (q : Ptr)
    → Run h p (ds ++ x ∷ e ∷ y ∷ bs) q
    → Distinct (ds ++ x ∷ e ∷ y ∷ bs)
    → (g : Store) × (list_remove e h ≡ done y g)
      × (unlink e e h ≡ done tt g)
      × Leaves h g p (ds ++ x ∷ y ∷ bs) q
remove_at h p x y e ds bs q r d =
    let (nx, z, hx) = Run-first h x e (y ∷ bs) q ds p r in
    let (ne, he) = Run-second h x e (y ∷ bs) q ds p r in
    let (ny, hy) = Run-third h x y bs q e ds p r in
    let (dr, out) = Distinct-remove e x ds (y ∷ bs) d in
    let xy = Distinct-pair h x y bs q ds dr in
    let ex : e ≢ x = λ t. ground (arith, t, out, has-append e ds (x ∷ y ∷ bs)) in
    let ey : e ≢ y = λ t. ground (arith, t, out, has-append e ds (x ∷ y ∷ bs)) in
    let w : Ptr = first bs q in
    let g : Store = linked_out h x y z w in
    let rx = out-x h x y e z w nx ny ne hx hy he xy ex ey in
    let ry = out-y h x y e z w nx ny ne hx hy he xy ex ey in
    let ro = out_other h x y e z w nx ny ne hx hy he xy ex ey in
    (
      g,
      list_remove-done h x y e z w nx ny ne hx hy he xy ex ey,
      unlink-done h x y e z w nx ny ne hx hy he xy ex ey,
      record {
        linked = Run-remove h g x y e bs q ds p r d (λ m hm. cc) (λ m hm. cc) ro;
        distinct = dr;
        outside = λ a o.
            ro a (λ t. ground (arith, t, o, has-append a ds (x ∷ y ∷ bs)))
              (λ t. ground (arith, t, o, has-append a ds (x ∷ y ∷ bs)));
      },
    )
