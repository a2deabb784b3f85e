-- ===== src/Malloc.antt =====
-- The allocator of malloc-lab/mm.c over the memory of malloc-lab/memlib.c.
pub mod Store
pub mod Defs
pub mod Alloc
pub mod Words
pub mod Links
pub mod LinkWords
pub mod SkipFront
pub mod SkipBack
pub mod FreeList
pub mod AddFree
pub mod Blocks
pub mod Ends
pub mod Gap
pub mod Fill
pub mod Open
pub mod Reads
pub mod Around
pub mod Close
pub mod JoinOne
pub mod JoinBoth
pub mod Coalesce
pub mod Focus
pub mod Best
pub mod Place
pub mod Extend
pub mod Sizes
pub mod Allocate
pub mod Init
pub mod Realloc
