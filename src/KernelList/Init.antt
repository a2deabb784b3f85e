-- ===== src/KernelList/Init.antt =====
-- `list_init` of pintos lib/kernel/list.c.
use jungle_data_structures.Prelude.{◌≡◌, ◌≢◌, refl, sym, ◌∙◌, some, [], arith}
use jungle_data_structures.Prelude.Run.{done}
use jungle_data_structures.KernelList.Store.{
  Ptr, null, ListElem, elem_of, Store, write, set_prev-done, set_next-done, write_self, write_ne,
}
use jungle_data_structures.KernelList.Defs.{KernelList, list_init}
use jungle_data_structures.KernelList.Edit.{Edited}

-- The memory that `list_init` leaves, where the link of `tail` held `s` as its next.
initial : Store → (hd t : Ptr) → (n m : ListElem) → Store
initial h hd t n m =
    write
      (write (write (write h hd (elem_of null n.next)) hd (elem_of null t)) t (elem_of hd m.next)) t
      (elem_of hd null)

module _ (h : Store) (l : KernelList) (n m : ListElem) (nh : l.head ≢ null) (nt : l.tail ≢ null)
    (ht : l.head ≢ l.tail) (eh : h l.head ≡ some n) (et : h l.tail ≡ some m) where
  list_init-done : list_init l h ≡ done tt (initial h l.head l.tail n m)
  unfolding list_init initial
  list_init-done =
      let h1 : Store = write h l.head (elem_of null n.next) in
      let h2 : Store = write h1 l.head (elem_of null l.tail) in
      let e1 : h1 l.head ≡ some (elem_of null n.next) = write_self h l.head (elem_of null n.next) in
      let e2 : h2 l.tail ≡ some m =
        write_ne h1 l.head l.tail (elem_of null l.tail) (λ t. ht (sym t))
        ∙ write_ne h l.head l.tail (elem_of null n.next) (λ t. ht (sym t))
        ∙ et in
      rw
        (
          set_prev-done h l.head n null nh eh,
          set_next-done h1 l.head (elem_of null n.next) l.tail nh e1,
          set_prev-done h2 l.tail m l.head nt e2,
          set_next-done (write h2 l.tail (elem_of l.head m.next)) l.tail (elem_of l.head m.next)
              null nt (write_self h2 l.tail (elem_of l.head m.next)),
        )
        refl

  read-head : initial h l.head l.tail n m l.head ≡ some (elem_of null l.tail)
  unfolding initial write
  read-head = ground arith

  read-tail : initial h l.head l.tail n m l.tail ≡ some (elem_of l.head null)
  unfolding initial write
  read-tail = ground arith

  read_other : (a : Ptr) → a ≢ l.head → a ≢ l.tail → initial h l.head l.tail n m a ≡ h a
  unfolding initial write
  read_other a ah at = ground arith

  -- `list_init` makes a list with no elements of two headers with any links, and changes nothing
  -- else.
  pub list_init-Edited : (g : Store) × (list_init l h ≡ done tt g) × Edited h g l [] []
  list_init-Edited = (
    initial h l.head l.tail n m,
    list_init-done,
    record {
      holds = record {
        linked = (nh, read-head, (nt, read-tail, tt));
        distinct = (ground arith, (refl, tt));
      };
      outside = λ a o. read_other a (λ t. ground (arith, t, o)) (λ t. ground (arith, t, o));
    },
  )
