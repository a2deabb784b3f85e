-- ===== src/RbTree/Store.antt =====
-- The memory behind the nodes (`node_t`) of rbtree-lab/src/rbtree.c.
use jungle_data_structures.Prelude.{ℕ, ◌≡◌, ◌≢◌, Option, none, some, ◌==◌, if◌then◌else◌, arith}
use jungle_data_structures.Prelude.Int.{ℤ}
use jungle_data_structures.Prelude.Run.{Outcome, done, fault}

-- An address; `NULL` is 0.
abbrev pub Ptr : Type 0
Ptr = ℕ

abbrev pub null : Ptr
null = 0

pub data Color : Type 0 where
  red : Color
  black : Color

pub record RbNode : Type 0 where
  pub color : Color
  pub key : ℤ
  pub parent : Ptr
  pub left : Ptr
  pub right : Ptr

abbrev pub rb_node : Color → ℤ → (parent left right : Ptr) → RbNode
rb_node c k p l r = record { color = c; key = k; parent = p; left = l; right = r }

-- `none` is an address at which no node is allocated.
abbrev pub Store : Type 0
Store = Ptr → Option RbNode

abbrev pub Act : Type 0 → Type 0
Act A = Store → Outcome Store A

unfoldable pub load : Ptr → Act RbNode
load p h = if p == null then fault else elim (h p) [ none ↦ fault | some n ↦ done n h ]

unfoldable pub write : Store → Ptr → Option RbNode → Store
write h p c a = if a == p then c else h a

-- A pointer that was not handed out, or that was freed before, is a fault.
unfoldable pub free : Ptr → Act (Unit {0})
free p h = elim (h p) [ none ↦ fault | some n ↦ done tt (write h p none) ]

pub free-done :
    (h : Store) (p : Ptr) (n : RbNode) → h p ≡ some n → free p h ≡ done tt (write h p none)
unfolding free
free-done h p n e = ground arith

pub load-done : (h : Store) (p : Ptr) (n : RbNode) → p ≢ null → h p ≡ some n → load p h ≡ done n h
unfolding load
load-done h p n ne e = ground arith
