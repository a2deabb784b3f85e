-- ===== src/Tests/Lists.antt =====
-- The functions of Linked_List/Q1_A_LL.c on the list 5, 7 at the addresses 1 and 2.
use jungle_data_structures.Prelude.{◌≡◌, refl, Option, none, some, [], ◌∷◌, arith, List}
use jungle_data_structures.Prelude.Int.{ℤ, pos, negsuc, minus_one}
use jungle_data_structures.Prelude.Run.{Outcome, done, ◌>>=◌}
use jungle_data_structures.LinkedList.Store.{
  Store, Block, list_node, write, null, load, set_next, set_item, free, malloc,
}
use jungle_data_structures.LinkedList.Chain.{Cells}
use jungle_data_structures.LinkedList.Defs.{
  LinkedList, linked_list, find_loop, find_node, new_node, insert_after, insert_node, remove_front,
  remove_node, remove_all_items, print_loop,
}
use jungle_data_structures.LinkedList.Find.{IsList}
use jungle_data_structures.LinkedList.Insert.{IsFresh, Inserted, insert_node-Inserted}
use jungle_data_structures.LinkedList.Session.{
  Op, insert, remove, session, Rest, SameOthers, session-statuses,
}
use jungle_data_structures.LinkedList.Remove.{
  Removed, Without, remove_node-Removed, remove_all_items-Without,
}

abbrev two : Store
two = write (write (λ _. none) 1 (some (list_node (pos 5) 2))) 2 (some (list_node (pos 7) 0))

abbrev cells : Cells
cells = (1, pos 5) ∷ (2, pos 7) ∷ []

abbrev front : LinkedList
front = linked_list 2 1

abbrev block : Block
block = record { addr = 9; junk = list_node (negsuc 3) 77 }

abbrev Printed : Outcome Store (List ℤ) → List ℤ → Type 0
Printed (done a h) xs = a ≡ xs
Printed r xs = ⊥

two-IsList : IsList two front cells
unfolding write
two-IsList = record {
  chain = (omega arith, refl, refl, (omega arith, refl, refl, tt));
  head = refl;
  size = refl;
}

block-IsFresh : IsFresh two block
unfolding write
block-IsFresh = record { ne_null = omega arith; unused = refl }

-- The items after an insertion in the middle and a removal in front.
two_calls : Store → Outcome Store (List ℤ)
two_calls = do
  (l, s) ← insert_node block (some front) (pos 1) (pos 6)
  (l', t) ← remove_node l (pos 0)
  print_loop 5 9

two_calls_print : Printed (two_calls two) (pos 6 ∷ pos 7 ∷ [])
unfolding two_calls insert_node insert_after find_node find_loop new_node remove_node remove_front
    print_loop load set_next set_item free malloc write
two_calls_print = refl

insert_node-Inserted_example :
    (r : Option LinkedList × ℤ) × (g : Store) × (insert_node block (some front) (pos 1) (pos 6) two
      ≡ done r g)
    × Inserted two 9 (pos 6) 1 cells r g
insert_node-Inserted_example =
    insert_node-Inserted two block block-IsFresh front (pos 6) 1 cells two-IsList (omega arith)

remove_node-Removed_example :
    (r : Option LinkedList × ℤ) × (g : Store) × (remove_node (some front) (pos 1) two ≡ done r g)
    × Removed two 1 cells r g
remove_node-Removed_example = remove_node-Removed two front 1 cells two-IsList (omega arith)

remove_all_items-Without_example :
    (g : Store) × (remove_all_items 3 front two ≡ done (linked_list 0 null) g)
    × IsList g (linked_list 0 null) []
    × Without cells two g
remove_all_items-Without_example =
    remove_all_items-Without 3 two front cells two-IsList (omega arith)

-- Both calls with an index that is out of range leave the list as it is, and the address 1 is handed
-- out again when its node has been freed.
abbrev calls : List Op
calls =
    insert block (pos 1) (pos 6)
    ∷ insert (record { addr = 8; junk = list_node (pos 0) 0 }) (pos 9) (pos 8)
    ∷ remove (pos 0)
    ∷ remove (negsuc 1)
    ∷ insert (record { addr = 1; junk = list_node (pos 0) 0 }) (pos 2) (pos 4)
    ∷ []

two-Rest : Rest (λ a. Unit) two cells
unfolding write
two-Rest a own o = ground arith

session-statuses_example :
    (l : LinkedList) × (g : Store) × (session (some front) calls two
      ≡ done (some l, pos 0 ∷ minus_one ∷ pos 0 ∷ minus_one ∷ pos 0 ∷ []) g)
    × IsList g l ((9, pos 6) ∷ (2, pos 7) ∷ (1, pos 4) ∷ [])
    × Rest (λ a. Unit) g ((9, pos 6) ∷ (2, pos 7) ∷ (1, pos 4) ∷ [])
    × SameOthers (λ a. Unit) cells two g
session-statuses_example =
    session-statuses (λ a. Unit) calls cells two front two-IsList two-Rest
      (
        (omega arith, tt, refl),
        ((omega arith, tt, refl), (tt, (tt, ((omega arith, tt, refl), tt)))),
      )
