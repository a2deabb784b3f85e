-- ===== src/RbTree.antt =====
-- The red-black trees of rbtree-lab/src/rbtree.c.
pub mod Store
pub mod Defs
pub mod Trees
pub mod Change
pub mod Steps
pub mod Zipper
pub mod Parts
pub mod Rotate
pub mod Focus
pub mod RedBlack
pub mod Round
pub mod Ready
pub mod Fixup
pub mod FixupLoop
pub mod Way
pub mod Ascending
pub mod Bounds
pub mod Erase
pub mod Transplant
pub mod Settled
pub mod Erased
pub mod Attach
pub mod Insert
pub mod Find
pub mod Extremes
pub mod Traversal
pub mod Delete
