-- ===== src/KernelList.antt =====
-- The doubly linked lists of pintos lib/kernel/list.c.
pub mod Store
pub mod Defs
pub mod Sort
pub mod Links
pub mod Update
pub mod Edit
pub mod Walk
pub mod Order
pub mod Deque
pub mod Init
pub mod Unique
pub mod UniqueLoop
pub mod Ordered
pub mod Splice
pub mod Merge
pub mod Merging
pub mod Sorting
pub mod Reverse
pub mod TurnEnds
pub mod Turned
