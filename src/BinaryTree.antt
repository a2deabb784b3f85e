-- ===== src/BinaryTree.antt =====
-- The binary trees of Data-Structures/tests/binary_tree.c.
pub mod Store
pub mod Trees
pub mod Defs
pub mod Measure
pub mod Smallest
pub mod Printing
pub mod Same
pub mod Mirror
pub mod Remove
