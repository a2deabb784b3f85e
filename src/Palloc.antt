-- ===== src/Palloc.antt =====
-- The page allocator of pintos threads/palloc.c, over the bitmaps and the memory of lib.
pub mod Defs
pub mod Fill
pub mod Pages
pub mod Give
pub mod Back
