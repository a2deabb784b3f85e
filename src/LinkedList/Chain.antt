-- ===== src/LinkedList/Chain.antt =====
-- What a list in memory stands for: the address and the item of each node, in order.
use jungle_data_structures.Prelude.{
  ℕ, zero, suc, ◌<◌, ◌≡◌, ◌≢◌, refl, Bool, true, false, ◌||◌, Option, none, some, List, [], ◌∷◌,
  arith, ◌==◌, length,
}
use jungle_data_structures.Prelude.Int.{ℤ}
use jungle_data_structures.Prelude.Run.{done}
use jungle_data_structures.LinkedList.Store.{
  Ptr, null, list_node, Store, write, load, set_next, set_item, free, ListNode,
}

abbrev pub Cells : Type 0
Cells = List (Ptr × ℤ)

abbrev pub has : Ptr → Cells → Bool
has a [] = false
has a ((p, v) ∷ xs) = (a == p) || has a xs

-- The address of the first node, or `stop` if there is none.
abbrev pub first : Ptr → Cells → Ptr
first stop [] = stop
first stop ((p, v) ∷ xs) = p

-- The nodes of `xs` are distinct and allocated, and each `next` leads to the one behind it, the
-- last one's to `stop`.
abbrev pub IsSeg : Store → Ptr → Cells → Type 0
IsSeg h stop [] = Unit
IsSeg h stop ((p, v) ∷ xs) =
    (p ≢ null) × (h p ≡ some (list_node v (first stop xs))) × (has p xs ≡ false) × IsSeg h stop xs

abbrev pub Agree : (Ptr → Type 0) → Store → Store → Type 0
Agree P h g = (a : Ptr) → P a → g a ≡ h a

-- `g` and `h` differ at most at the addresses of `xs`.
abbrev pub SameOutside : Cells → Store → Store → Type 0
SameOutside xs h g = (a : Ptr) → has a xs ≡ false → g a ≡ h a

abbrev pub items : Cells → List ℤ
items [] = []
items ((p, v) ∷ xs) = v ∷ items xs

abbrev pub addr_at : ℕ → Cells → Ptr
addr_at i [] = null
addr_at zero ((p, v) ∷ xs) = p
addr_at (suc i) (x ∷ xs) = addr_at i xs

pub load-done : (h : Store) (p : Ptr) (n : ListNode) → p ≢ null → h p ≡ some n → load p h ≡ done n h
unfolding load
load-done h p n ne e = ground arith

pub set_next-done :
    (h : Store) (p q r : Ptr) (v : ℤ)
    → p ≢ null
    → h p ≡ some (list_node v q)
    → set_next p r h ≡ done tt (write h p (some (list_node v r)))
unfolding set_next
set_next-done h p q r v ne e = ground arith

pub set_item-done :
    (h : Store) (p q : Ptr) (v w : ℤ)
    → p ≢ null
    → h p ≡ some (list_node v q)
    → set_item p w h ≡ done tt (write h p (some (list_node w q)))
unfolding set_item
set_item-done h p q v w ne e = ground arith

pub free-done :
    (h : Store) (p : Ptr) (n : ListNode)
    → p ≢ null
    → h p ≡ some n
    → free p h ≡ done tt (write h p none)
unfolding free
free-done h p n ne e = ground arith

pub write_self : (h : Store) (p : Ptr) (c : Option ListNode) → write h p c p ≡ c
unfolding write
write_self h p c = ground arith

pub write_ne :
    (h : Store) (p a : Ptr) (c : Option ListNode) → (a == p) ≡ false → write h p c a ≡ h a
unfolding write
write_ne h p a c ne = ground arith

-- A segment survives every change outside its own nodes.
pub IsSeg-frame :
    (h g : Store) (stop : Ptr) (xs : Cells)
    → IsSeg h stop xs
    → ((a : Ptr) → has a xs ≡ true → g a ≡ h a)
    → IsSeg g stop xs
IsSeg-frame h g stop [] s same = tt
IsSeg-frame h g stop ((p, v) ∷ xs) (ne, e, out, s) same =
    (ne, ground (arith, same p), out, IsSeg-frame h g stop xs s (λ a i. same a (ground arith)))

pub IsSeg-write :
    (h : Store) (stop p : Ptr) (c : Option ListNode) (xs : Cells)
    → IsSeg h stop xs
    → has p xs ≡ false
    → IsSeg (write h p c) stop xs
unfolding write
IsSeg-write h stop p c xs s out = IsSeg-frame h (write h p c) stop xs s (λ a i. ground arith)

pub not_has_of_none :
    (h : Store) (stop a : Ptr) (xs : Cells) → IsSeg h stop xs → h a ≡ none → has a xs ≡ false
not_has_of_none h stop a [] s unused = refl
not_has_of_none h stop a ((p, v) ∷ xs) (ne, e, out, s) unused =
    ground (arith, not_has_of_none h stop a xs s unused)

pub first-ne-null :
    (h : Store) (p : Ptr) (v : ℤ) (xs : Cells) → IsSeg h null ((p, v) ∷ xs) → (p == null) ≡ false
first-ne-null h p v xs s = ground arith

-- What lies at the head of a list that has items is not `NULL`.
pub first-null : (h : Store) (xs : Cells) → IsSeg h null xs → first null xs ≡ null → xs ≡ []
first-null h [] s e = refl
first-null h ((p, v) ∷ xs) s e = absurd (s.0 e)

-- The node at an index that is in range.
pub node_at :
    (h : Store) (stop : Ptr) (i : ℕ) (xs : Cells)
    → IsSeg h stop xs
    → i < length xs
    → (n : ListNode) × (addr_at i xs ≢ null) × (h (addr_at i xs) ≡ some n)
node_at h stop i [] s lt = elim lt [ ]
node_at h stop zero ((p, v) ∷ xs) s lt = (list_node v (first stop xs), s.0, s.1)
node_at h stop (suc i) (x ∷ xs) s lt = node_at h stop i xs s.3 (omega arith)
