-- ===== src/Bitmap.antt =====
-- The bitmaps of pintos lib/kernel/bitmap.c.
pub mod Defs
pub mod View
pub mod Single
pub mod Range
pub mod Scan
