-- ===== src/Malloc/Alloc.antt =====
-- The search for a block, `mm_malloc`, `mm_free` and `mm_realloc` of malloc-lab/mm.c. `fuel` bounds the
-- rounds along the free list. `next_fit` is never called and is left out; `memcpy` is a parameter.
use jungle_data_structures.Prelude.{
  ℕ, zero, suc, ◌+◌, ◌-◌, ◌/◌, ◌%◌, Bool, ◌&&◌, not, ◌==◌, true, leb, ltb, if◌then◌else◌,
}
use jungle_data_structures.Prelude.Run.{done, give_up, ◌>>=◌, ◌>>◌}
use jungle_data_structures.Malloc.Store.{Ptr, null, Act, get_free_listp}
use jungle_data_structures.Malloc.Defs.{
  pack, hdrp, get_size, get_alloc, next_blkp, prev_blkp, next_free, remove_from_free_list,
  add_to_free_list, put_both, coalesce, extend_heap,
}

unfoldable pub first_fit_loop : ℕ → (asize : ℕ) → (cur : Ptr) → Act Ptr
first_fit_loop zero asize cur = give_up
first_fit_loop (suc fuel) asize cur = if cur == null then done null else do
  size ← get_size (hdrp cur)
  if leb asize size then done cur else (do next ← next_free cur; first_fit_loop fuel asize next)

unfoldable pub first_fit : ℕ → (asize : ℕ) → Act Ptr
first_fit fuel asize = do l ← get_free_listp; first_fit_loop fuel asize l

-- `best == NULL || bsize < GET_SIZE(HDRP(best))`
unfoldable pub is_better : (bsize : ℕ) → (best : Ptr) → Act Bool
is_better bsize best =
    if best == null then done true else (do size ← get_size (hdrp best); done (ltb bsize size))

unfoldable pub best_fit_loop : ℕ → (asize : ℕ) → (bp best : Ptr) → Act Ptr
best_fit_loop zero asize bp best = give_up
best_fit_loop (suc fuel) asize bp best = if bp == null then done best else do
  bsize ← get_size (hdrp bp)
  best ←
      (if leb asize bsize
        then (do b ← is_better bsize best; done (if b then bp else best))
        else done best)
  if bsize == asize then done best else (do next ← next_free bp; best_fit_loop fuel asize next best)

unfoldable pub best_fit : ℕ → (asize : ℕ) → Act Ptr
best_fit fuel asize = do l ← get_free_listp; best_fit_loop fuel asize l null

unfoldable pub place : (bp : Ptr) → (asize : ℕ) → Act (Unit {0})
place bp asize = do
  csize ← get_size (hdrp bp)
  remove_from_free_list bp
  if leb 24 ((csize + (18446744073709551616 - asize)) % 18446744073709551616)
      then (do
        put_both bp (pack asize 1)
        next ← next_blkp bp
        put_both next (pack (csize - asize) 0)
        add_to_free_list next)
      else put_both bp (pack csize 1)

-- `ALIGN(size + DSIZE)` in 64 bits.
abbrev pub aligned : ℕ → ℕ
aligned size = let n = (size + 15) % 18446744073709551616 in n - n % 8

unfoldable pub adjusted : (size : ℕ) → ℕ
adjusted size = if size == 448 then 520 else (if size == 112 then 136 else aligned size)

unfoldable pub extension : (asize : ℕ) → ℕ
extension asize =
    if ltb asize 1024
    then 1024
    else (if ltb asize 4096 then asize + 256 else (asize + asize / 24) % 18446744073709551616)

unfoldable pub mm_malloc : ℕ → (size : ℕ) → Act Ptr
mm_malloc fuel size = if size == 0 then done null else do
  let asize = adjusted size
  bp ← best_fit fuel asize
  if not (bp == null) then (do place bp asize; done bp) else (do
    bp ← extend_heap (extension asize / 2)
    if bp == null then done null else (do place bp asize; done bp))

unfoldable pub mm_free : Ptr → Act (Unit {0})
mm_free ptr = do size ← get_size (hdrp ptr); put_both ptr (pack size 0); b ← coalesce ptr; done tt

-- `oldsize - DSIZE` in 64 bits.
abbrev copied : ℕ → ℕ
copied oldsize = (oldsize + 18446744073709551608) % 18446744073709551616

-- `mm_realloc`, the bytes of which `memcpy` moves.
module _ (memcpy : (dst src : Ptr) → (n : ℕ) → Act (Unit {0})) where
  unfoldable pub move_block : ℕ → (ptr : Ptr) → (size oldsize : ℕ) → Act Ptr
  move_block fuel ptr size oldsize = do
    newptr ← mm_malloc fuel size
    if newptr == null then done null else do
      memcpy newptr ptr (if ltb size (copied oldsize) then size else copied oldsize)
      mm_free ptr
      done newptr

  unfoldable pub extend_backward : ℕ → (ptr : Ptr) → (size oldsize asize : ℕ) → Act Ptr
  extend_backward fuel ptr size oldsize asize = do
    prev ← prev_blkp ptr
    prev_alloc ← get_alloc (hdrp prev)
    prev_size ← get_size (hdrp prev)
    if (prev_alloc == 0) && (not (prev_size == 0) && leb asize (prev_size + oldsize))
        then (do
          remove_from_free_list prev
          put_both prev (pack (prev_size + oldsize) 1)
          memcpy prev ptr (copied oldsize)
          done prev)
        else move_block fuel ptr size oldsize

  unfoldable pub extend_forward : ℕ → (ptr : Ptr) → (size oldsize asize : ℕ) → Act Ptr
  extend_forward fuel ptr size oldsize asize = do
    next ← next_blkp ptr
    next_alloc ← get_alloc (hdrp next)
    next_size ← get_size (hdrp next)
    if (next_alloc == 0) && (not (next_size == 0) && leb asize (oldsize + next_size))
        then (do remove_from_free_list next; put_both ptr (pack (oldsize + next_size) 1); done ptr)
        else extend_backward fuel ptr size oldsize asize

  unfoldable pub mm_realloc : ℕ → (ptr : Ptr) → (size : ℕ) → Act Ptr
  mm_realloc fuel ptr size =
      if ptr == null
      then mm_malloc fuel size
      else (if size == 0 then (do mm_free ptr; done null) else (do
        oldsize ← get_size (hdrp ptr)
        if leb (aligned size) oldsize
            then done ptr
            else extend_forward fuel ptr size oldsize (aligned size)))
