-- ===== src/Str.antt =====
-- The memory and string routines of pintos lib/string.c.
pub mod Bytes
pub mod Defs
pub mod Copy
pub mod Text
pub mod Lcpy
pub mod Last
pub mod Search
pub mod Tokens
pub mod NextToken
