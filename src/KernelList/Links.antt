-- ===== src/KernelList/Links.antt =====
-- Runs of linked elements, and what a list in memory stands for.
use jungle_data_structures.Prelude.{
  ◌≡◌, ◌≢◌, refl, ap, true, false, some, List, [], ◌∷◌, ◌++◌, arith,
}
pub use jungle_data_structures.Prelude.Distinct.{has, Distinct, has-append}
use jungle_data_structures.KernelList.Store.{Ptr, null, ListElem, elem_of, Store}
use jungle_data_structures.KernelList.Defs.{KernelList}

-- The first element of a run, or what follows it.
abbrev pub first : List Ptr → Ptr → Ptr
first [] q = q
first (x ∷ xs) q = x

-- The elements `xs` are allocated and linked in this order, with `p` before them and `q` behind.
abbrev pub Run : Store → Ptr → List Ptr → Ptr → Type 0
Run h p [] q = Unit
Run h p (x ∷ xs) q = (x ≢ null) × (h x ≡ some (elem_of p (first xs q))) × Run h x xs q

-- All elements of a list, its headers included.
abbrev pub ring : KernelList → List Ptr → List Ptr
ring l xs = l.head ∷ xs ++ l.tail ∷ []

-- `l` holds the elements `xs` in this order.
pub record IsKernelList (h : Store) (l : KernelList) (xs : List Ptr) : Type 0 where
  pub linked : Run h null (ring l xs) null
  pub distinct : Distinct (ring l xs)

pub Run-frame :
    (h g : Store) (p : Ptr) (xs : List Ptr) (q : Ptr)
    → Run h p xs q
    → ((a : Ptr) → has a xs ≡ true → g a ≡ h a)
    → Run g p xs q
Run-frame h g p [] q r same = tt
Run-frame h g p (x ∷ xs) q (ne, e, r) same =
    (ne, ground (arith, same x), Run-frame h g x xs q r (λ a i. same a (ground arith)))

-- What is behind the first element of a run does not show in the element before it.
pub first_of_append :
    (cs : List Ptr) (x : Ptr) (ys zs : List Ptr) (q : Ptr)
    → first (cs ++ x ∷ ys) q ≡ first (cs ++ x ∷ zs) q
first_of_append [] x ys zs q = refl
first_of_append (c ∷ cs) x ys zs q = refl

-- A new element between two neighbours.
module _ (h g : Store) (x y e : Ptr) (bs : List Ptr) (q : Ptr) where
  pub Run-insert :
      (cs : List Ptr) (p : Ptr)
      → Run h p (cs ++ x ∷ y ∷ bs) q
      → Distinct (cs ++ x ∷ y ∷ bs)
      → has e (cs ++ x ∷ y ∷ bs) ≡ false
      → e ≢ null
      → g e ≡ some (elem_of x y)
      → ((n : ListElem) → h x ≡ some n → g x ≡ some (elem_of n.prev e))
      → ((n : ListElem) → h y ≡ some n → g y ≡ some (elem_of e n.next))
      → ((a : Ptr) → a ≢ x → a ≢ y → a ≢ e → g a ≡ h a)
      → Run g p (cs ++ x ∷ e ∷ y ∷ bs) q
  Run-insert [] p (nx, ex, (ny, ey, r)) (dx, (dy, d)) out ne ge gx gy same = (
    nx,
    gx (elem_of p y) ex,
    (
      ne,
      ge,
      (
        ny,
        gy (elem_of x (first bs q)) ey,
        Run-frame h g y bs q r (λ a i.
            same a (λ (t : a ≡ x). ground (arith, t, dx, i))
              (λ (t : a ≡ y). ground (arith, t, dy, i)) (λ (t : a ≡ e). ground (arith, t, out, i))),
      ),
    ),
  )
  Run-insert (c ∷ cs) p (nc, ec, r) (dc, d) out ne ge gx gy same =
      let hx : has x (cs ++ x ∷ y ∷ bs) ≡ true = ground (arith, has-append x cs (x ∷ y ∷ bs)) in
      let hy : has y (cs ++ x ∷ y ∷ bs) ≡ true = ground (arith, has-append y cs (x ∷ y ∷ bs)) in
      (
        nc,
        ground (arith, same c, first_of_append cs x (y ∷ bs) (e ∷ y ∷ bs) q),
        Run-insert cs c r d (ground (arith)) ne ge gx gy same,
      )

-- An element taken out between two neighbours.
module _ (h g : Store) (x y e : Ptr) (bs : List Ptr) (q : Ptr) where
  pub Run-remove :
      (cs : List Ptr) (p : Ptr)
      → Run h p (cs ++ x ∷ e ∷ y ∷ bs) q
      → Distinct (cs ++ x ∷ e ∷ y ∷ bs)
      → ((n : ListElem) → h x ≡ some n → g x ≡ some (elem_of n.prev y))
      → ((n : ListElem) → h y ≡ some n → g y ≡ some (elem_of x n.next))
      → ((a : Ptr) → a ≢ x → a ≢ y → g a ≡ h a)
      → Run g p (cs ++ x ∷ y ∷ bs) q
  Run-remove [] p (nx, ex, (ne, ee, (ny, ey, r))) (dx, (de, (dy, d))) gx gy same = (
    nx,
    gx (elem_of p e) ex,
    (
      ny,
      gy (elem_of e (first bs q)) ey,
      Run-frame h g y bs q r (λ a i.
          same a (λ (t : a ≡ x). ground (arith, t, dx, i))
            (λ (t : a ≡ y). ground (arith, t, dy, i))),
    ),
  )
  Run-remove (c ∷ cs) p (nc, ec, r) (dc, d) gx gy same =
      let hx : has x (cs ++ x ∷ e ∷ y ∷ bs) ≡ true =
        ground (arith, has-append x cs (x ∷ e ∷ y ∷ bs)) in
      let hy : has y (cs ++ x ∷ e ∷ y ∷ bs) ≡ true =
        ground (arith, has-append y cs (x ∷ e ∷ y ∷ bs)) in
      (
        nc,
        ground (arith, same c, first_of_append cs x (y ∷ bs) (e ∷ y ∷ bs) q),
        Run-remove cs c r d gx gy same,
      )

-- The last element of a run, or what comes before it.
abbrev pub last : List Ptr → Ptr → Ptr
last [] p = p
last (x ∷ xs) p = last xs x

pub Run-node :
    (h : Store) (x : Ptr) (bs : List Ptr) (q : Ptr) (cs : List Ptr) (p : Ptr)
    → Run h p (cs ++ x ∷ bs) q
    → (x ≢ null) × (h x ≡ some (elem_of (last cs p) (first bs q)))
Run-node h x bs q [] p (nx, ex, r) = (nx, ex)
Run-node h x bs q (c ∷ cs) p (nc, ec, r) = Run-node h x bs q cs c r

-- What a run says of its elements.
module _ (h : Store) (x y : Ptr) (bs : List Ptr) (q : Ptr) where
  pub Run-first :
      (cs : List Ptr) (p : Ptr)
      → Run h p (cs ++ x ∷ y ∷ bs) q
      → (x ≢ null) × (z : Ptr) × (h x ≡ some (elem_of z y))
  Run-first [] p (nx, ex, r) = (nx, p, ex)
  Run-first (c ∷ cs) p (nc, ec, r) = Run-first cs c r

  pub Run-second :
      (cs : List Ptr) (p : Ptr)
      → Run h p (cs ++ x ∷ y ∷ bs) q
      → (y ≢ null) × (h y ≡ some (elem_of x (first bs q)))
  Run-second [] p (nx, ex, (ny, ey, r)) = (ny, ey)
  Run-second (c ∷ cs) p (nc, ec, r) = Run-second cs c r

  pub Run-third :
      (e : Ptr) (cs : List Ptr) (p : Ptr)
      → Run h p (cs ++ x ∷ e ∷ y ∷ bs) q
      → (y ≢ null) × (h y ≡ some (elem_of e (first bs q)))
  Run-third e [] p (nx, ex, (ne, ee, (ny, ey, r))) = (ny, ey)
  Run-third e (c ∷ cs) p (nc, ec, r) = Run-third e cs c r

  pub Distinct-pair : (cs : List Ptr) → Distinct (cs ++ x ∷ y ∷ bs) → x ≢ y
  Distinct-pair [] (dx, (dy, d)) = λ e. ground (arith, dx, e)
  Distinct-pair (c ∷ cs) (dc, d) = Distinct-pair cs d

pub Distinct-insert :
    (e x : Ptr) (cs bs : List Ptr)
    → Distinct (cs ++ x ∷ bs)
    → has e (cs ++ x ∷ bs) ≡ false
    → Distinct (cs ++ x ∷ e ∷ bs)
Distinct-insert e x [] bs (dx, d) out = (ground arith, (ground arith, d))
Distinct-insert e x (c ∷ cs) bs (dc, d) out = (
  ground (arith, has-append c cs (x ∷ bs), has-append c cs (x ∷ e ∷ bs)),
  Distinct-insert e x cs bs d (ground arith),
)

pub Distinct-remove :
    (e x : Ptr) (cs bs : List Ptr)
    → Distinct (cs ++ x ∷ e ∷ bs)
    → Distinct (cs ++ x ∷ bs) × (has e (cs ++ x ∷ bs) ≡ false)
Distinct-remove e x [] bs (dx, (de, d)) = ((ground arith, d), ground arith)
Distinct-remove e x (c ∷ cs) bs (dc, d) =
    let ih = Distinct-remove e x cs bs d in
    (
      (ground (arith, has-append c cs (x ∷ bs), has-append c cs (x ∷ e ∷ bs)), ih.0),
      ground (arith, has-append c cs (x ∷ e ∷ bs), ih.1),
    )

-- The last of the elements up to a place, and the elements before that one.
pub snoc_view : (c : Ptr) (cs : List Ptr) → (ds : List Ptr) × (x : Ptr) × (c ∷ cs ≡ ds ++ x ∷ [])
snoc_view c [] = ([], c, refl)
snoc_view c (b ∷ cs) =
    let (ds, x, e) = snoc_view b cs in (c ∷ ds, x, ap (λ (t : List Ptr). c ∷ t) e)
