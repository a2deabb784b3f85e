-- ===== src/BinaryTree/Store.antt =====
-- The memory behind the nodes (`BTNode`, `BSTNode`) of Data-Structures/tests/binary_tree.c and
-- binary_search_tree.c.
use jungle_data_structures.Prelude.{
  ℕ, ◌≡◌, ◌≢◌, Option, none, some, refl, ◌==◌, if◌then◌else◌, arith,
}
use jungle_data_structures.Prelude.Int.{ℤ}
use jungle_data_structures.Prelude.Run.{Outcome, done, fault, ◌>>=◌}

-- An address; `NULL` is 0.
abbrev pub Ptr : Type 0
Ptr = ℕ

abbrev pub null : Ptr
null = 0

pub record BtNode : Type 0 where
  pub item : ℤ
  pub left : Ptr
  pub right : Ptr

abbrev pub bt_node : ℤ → (left right : Ptr) → BtNode
bt_node v l r = record { item = v; left = l; right = r }

-- `none` is an address at which no node is allocated.
abbrev pub Store : Type 0
Store = Ptr → Option BtNode

abbrev pub Act : Type 0 → Type 0
Act A = Store → Outcome Store A

unfoldable pub write : Store → Ptr → Option BtNode → Store
write h p c a = if a == p then c else h a

unfoldable pub load : Ptr → Act BtNode
load p h = if p == null then fault else elim (h p) [ none ↦ fault | some n ↦ done n h ]

unfoldable pub set_left : Ptr → Ptr → Act (Unit {0})
set_left p q = load p >>= λ n. λ h. done tt (write h p (some (record n { left = q })))

unfoldable pub set_right : Ptr → Ptr → Act (Unit {0})
set_right p q = load p >>= λ n. λ h. done tt (write h p (some (record n { right = q })))

unfoldable pub set_item : Ptr → ℤ → Act (Unit {0})
set_item p v = load p >>= λ n. λ h. done tt (write h p (some (record n { item = v })))

-- A pointer that was not handed out, or that was freed before, is a fault.
unfoldable pub free : Ptr → Act (Unit {0})
free p h = elim (h p) [ none ↦ fault | some n ↦ done tt (write h p none) ]

pub load-done : (h : Store) (p : Ptr) (n : BtNode) → p ≢ null → h p ≡ some n → load p h ≡ done n h
unfolding load
load-done h p n ne e = ground arith

pub free-done :
    (h : Store) (p : Ptr) (n : BtNode) → h p ≡ some n → free p h ≡ done tt (write h p none)
unfolding free
free-done h p n e = ground arith

module _ (h : Store) (p : Ptr) (n : BtNode) (ne : p ≢ null) (e : h p ≡ some n) where
  pub set_left-done :
      (q : Ptr) → set_left p q h ≡ done tt (write h p (some (bt_node n.item q n.right)))
  unfolding set_left
  set_left-done q = rw (load-done h p n ne e) refl

  pub set_right-done :
      (q : Ptr) → set_right p q h ≡ done tt (write h p (some (bt_node n.item n.left q)))
  unfolding set_right
  set_right-done q = rw (load-done h p n ne e) refl

  pub set_item-done :
      (v : ℤ) → set_item p v h ≡ done tt (write h p (some (bt_node v n.left n.right)))
  unfolding set_item
  set_item-done v = rw (load-done h p n ne e) refl

pub write_self : (h : Store) (p : Ptr) (c : Option BtNode) → write h p c p ≡ c
unfolding write
write_self h p c = ground arith

pub write_ne : (h : Store) (p a : Ptr) (c : Option BtNode) → a ≢ p → write h p c a ≡ h a
unfolding write
write_ne h p a c ne = ground arith
