-- ===== src/Tests.antt =====
-- The theorems at concrete inputs, and runs of the definitions.
pub mod Lists
pub mod Strings
pub mod Bitmaps
pub mod KernelLists
pub mod RbTrees
pub mod Rotations
pub mod Erase
pub mod BinaryTrees
pub mod Mallocs
pub mod SmallBlocks
pub mod Pages
pub mod Randoms
pub mod Tokens
