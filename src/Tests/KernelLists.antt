-- ===== src/Tests/KernelLists.antt =====
-- The functions of pintos lib/kernel/list.c on the list 3, 4 between the headers 1 and 2, with the
-- elements 5 and 6 outside of it.
use jungle_data_structures.Prelude.{
  Bool, ◌/◌, ◌≡◌, refl, none, some, [], ◌∷◌, ◌++◌, List, arith, ltb,
}
use jungle_data_structures.Prelude.Run.{done, Ends}
use jungle_data_structures.KernelList.Store.{Ptr, Store, elem_of, write}
use jungle_data_structures.KernelList.Defs.{
  list_unique, KernelList, list_insert_ordered, list_max, list_reverse,
}
use jungle_data_structures.KernelList.Links.{IsKernelList}
use jungle_data_structures.KernelList.Edit.{Edited}
use jungle_data_structures.KernelList.Turned.{list_reverse-rev_onto}
use jungle_data_structures.KernelList.Order.{IsStrictWeak, IsGreatest, list_max-Greatest}
use jungle_data_structures.KernelList.Ordered.{Belongs, IsSorted, list_insert_ordered-Sorted}
use jungle_data_structures.KernelList.Sort.{list_sort}
use jungle_data_structures.KernelList.Merge.{Moved}
use jungle_data_structures.KernelList.Sorting.{list_sort-Sorted}
use jungle_data_structures.KernelList.UniqueLoop.{Both, NoRepeats, list_unique-Both}
use jungle_data_structures.KernelList.Deque.{
  Op, push_front, push_back, pop_front, pop_back, session, session-results,
}

abbrev headers : KernelList
headers = record { head = 1; tail = 2 }

abbrev memory : Store
memory =
    write
      (write
        (write (write (write (write (λ _. none) 6 (elem_of 0 0)) 5 (elem_of 0 0)) 1 (elem_of 0 3)) 3
          (elem_of 1 4))
        4 (elem_of 3 2))
      2 (elem_of 4 0)

abbrev empty_memory : Store
empty_memory = write (write (λ _. none) 1 (elem_of 0 2)) 2 (elem_of 1 0)

memory-IsKernelList : IsKernelList memory headers (3 ∷ 4 ∷ [])
unfolding write
memory-IsKernelList = record {
  linked = (omega arith, refl, (omega arith, refl, (omega arith, refl, (omega arith, refl, tt))));
  distinct = (refl, (refl, (refl, (refl, tt))));
}

empty-IsKernelList : IsKernelList empty_memory headers []
unfolding write
empty-IsKernelList = record {
  linked = (omega arith, refl, (omega arith, refl, tt));
  distinct = (refl, (refl, tt));
}

ltb-IsStrictWeak : IsStrictWeak ltb
ltb-IsStrictWeak = record {
  trans = λ a b c p q. ground arith;
  split = λ a b c p q. ground arith;
  irrefl = λ a. ground arith;
}

-- The last element is the greatest.
list_max-Greatest_example :
    (n : Ptr) × (list_max ltb 2 headers memory ≡ done n memory) × IsGreatest ltb (3 ∷ 4 ∷ []) n
list_max-Greatest_example =
    list_max-Greatest ltb ltb-IsStrictWeak memory headers 2 3 (4 ∷ []) memory-IsKernelList
      (omega arith)

list_insert_ordered-Sorted_example :
    (ps : List Ptr) × (ss : List Ptr) × (g : Store) × (◌≡◌ {A = List Ptr} (3 ∷ 4 ∷ []) (ps ++ ss))
    × (list_insert_ordered ltb 3 headers 5 memory ≡ done tt g)
    × Edited memory g headers (ps ++ 5 ∷ ss) (ps ++ 5 ∷ ss)
    × Belongs ltb 5 ps ss
    × IsSorted ltb (ps ++ 5 ∷ ss)
unfolding write
list_insert_ordered-Sorted_example =
    list_insert_ordered-Sorted ltb memory headers 5 ltb-IsStrictWeak 3 (3 ∷ 4 ∷ []) (elem_of 0 0)
      memory-IsKernelList (refl, (tt, tt)) (omega arith) refl (omega arith) refl

abbrev ops : List Op
ops = push_back 5 ∷ push_front 6 ∷ pop_back ∷ pop_front ∷ []

session-results_example :
    (g : Store) × (session headers ops memory ≡ done (none ∷ none ∷ some 5 ∷ some 6 ∷ []) g)
    × IsKernelList g headers (3 ∷ 4 ∷ [])
unfolding write
session-results_example = session-results headers ops (3 ∷ 4 ∷ []) memory memory-IsKernelList (
  (omega arith, refl, (elem_of 0 0, refl)),
  ((omega arith, refl, (elem_of 0 0, refl)), ((λ e. cc), ((λ e. cc), tt))),
)

-- A second list, with the headers 7 and 8, for duplicates.
abbrev spare : KernelList
spare = record { head = 7; tail = 8 }

abbrev wide_memory : Store
wide_memory = write (write memory 7 (elem_of 0 8)) 8 (elem_of 7 0)

-- Elements compare by a third of their address.
abbrev thirds : Ptr → Ptr → Bool
thirds a b = ltb (a / 3) (b / 3)

wide-Both : Both thirds headers (some spare) wide_memory (3 ∷ 4 ∷ []) []
unfolding write
wide-Both = (
  record {
    linked = (omega arith, refl, (omega arith, refl, (omega arith, refl, (omega arith, refl, tt))));
    distinct = (refl, (refl, (refl, (refl, tt))));
  },
  (
    record { linked = (omega arith, refl, (omega arith, refl, tt)); distinct = (refl, (refl, tt)) },
    λ a i. ground arith,
  ),
)

list_unique-Both_example :
    (g : Store) × (list_unique thirds 3 headers (some spare) wide_memory ≡ done tt g)
    × Both thirds headers (some spare) g (3 ∷ []) (4 ∷ [])
    × NoRepeats thirds (3 ∷ [])
list_unique-Both_example =
    list_unique-Both thirds headers (some spare) 2 wide_memory (3 ∷ 4 ∷ []) [] wide-Both
      (omega arith)

list_reverse-rev_onto_example :
    Ends (λ _. λ g. IsKernelList g headers (4 ∷ 3 ∷ [])) (list_reverse 3 headers memory)
list_reverse-rev_onto_example =
    list_reverse-rev_onto 3 headers (3 ∷ 4 ∷ []) memory memory-IsKernelList (omega arith)

-- The higher address first.
abbrev downward : Ptr → Ptr → Bool
downward a b = ltb b a

downward-IsStrictWeak : IsStrictWeak downward
downward-IsStrictWeak = record {
  trans = λ a b c p q. ground arith;
  split = λ a b c p q. ground arith;
  irrefl = λ a. ground arith;
}

list_sort-Sorted_example :
    (g : Store) × (zs : List Ptr) × (list_sort downward 1 3 headers memory ≡ done tt g)
    × Moved memory g headers (3 ∷ 4 ∷ []) zs
    × IsSorted downward zs
list_sort-Sorted_example =
    list_sort-Sorted downward downward-IsStrictWeak headers 0 3 memory (3 ∷ 4 ∷ [])
      memory-IsKernelList (omega arith) (omega arith)
