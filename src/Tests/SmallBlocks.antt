-- ===== src/Tests/SmallBlocks.antt =====
-- A block of 16 bytes of malloc-lab/mm.c: it has no room for the two links of a free block.
use jungle_data_structures.Prelude.{ℕ, ◌≡◌, refl, Option, none, some}
use jungle_data_structures.Prelude.Run.{Outcome, done, fault, panic, out_of_fuel, ◌>>=◌, ◌>>◌}
use jungle_data_structures.Malloc.Store.{
  Arena, Act, inside, write, get, put, get_ptr, put_ptr, mem_sbrk,
}
use jungle_data_structures.Malloc.Defs.{
  get_size, get_alloc, hdrp, ftrp, next_blkp, prev_blkp, remove_from_free_list, add_to_free_list,
  put_both, coalesce_next, coalesce_prev, coalesce_both, coalesce, extend_heap, mm_init,
}
use jungle_data_structures.Malloc.Alloc.{
  best_fit, best_fit_loop, is_better, place, adjusted, extension, mm_malloc, mm_free,
}

-- What a run returns.
abbrev result : {A : Type 0} → Outcome Arena A → Option A
result (done a s) = some a
result fault = none
result panic = none
result out_of_fuel = none

-- An empty heap from 8 on.
abbrev no_blocks : Arena
no_blocks = record {
  word = λ a. 0;
  mem_start_brk = 8;
  mem_brk = 8;
  mem_max_addr = 4096;
  heap_listp = 0;
  free_listp = 0;
}

-- The word before the second of two blocks, when the first was asked for with 8 bytes and is freed.
abbrev header_behind_small : Act ℕ
header_behind_small = do r ← mm_init; p ← mm_malloc 4 8; q ← mm_malloc 4 24; mm_free p; get (hdrp q)

small_block_run : result (header_behind_small no_blocks) ≡ some 0
unfolding mm_init mm_malloc mm_free get put mem_sbrk inside extend_heap put_both ftrp get_size write
    next_blkp coalesce prev_blkp get_alloc add_to_free_list put_ptr best_fit best_fit_loop adjusted
    extension is_better place coalesce_both coalesce_next coalesce_prev remove_from_free_list
    get_ptr
small_block_run = refl
