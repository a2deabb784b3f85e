-- ===== src/SearchTree.antt =====
-- The binary search trees of Data-Structures/tests/binary_search_tree.c.
pub mod Defs
pub mod Inorder
pub mod Postorder
pub mod TwoStacks
pub mod Queue
pub mod LevelOrder
pub mod Sorted
pub mod Insert
pub mod Remove
pub mod Attach
pub mod RemoveRun
