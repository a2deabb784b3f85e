-- ===== src/LinkedList.antt =====
-- The singly linked lists of Data-Structures/Linked_List.
pub mod Store
pub mod Chain
pub mod Defs
pub mod Find
pub mod Insert
pub mod Remove
pub mod Session
