-- ===== src/Malloc/Defs.antt =====
-- The macros, the free list, `coalesce`, `extend_heap` and `mm_init` of malloc-lab/mm.c.
use jungle_data_structures.Prelude.{ℕ, ◌+◌, ◌-◌, ◌*◌, ◌%◌, none, some, ◌==◌, if◌then◌else◌}
use Prim.Native.Nat.{bit_or}
use jungle_data_structures.Prelude.Run.{done, ◌>>=◌, ◌>>◌}
use jungle_data_structures.Malloc.Store.{
  Ptr, null, Act, get, put, get_ptr, put_ptr, get_free_listp, set_free_listp, mem_sbrk,
}

-- `PACK`
abbrev pub pack : (size alloc : ℕ) → ℕ
pack size alloc = bit_or size alloc

-- `GET_SIZE` and `GET_ALLOC`: without the lowest three bits, and the lowest one.
unfoldable pub get_size : Ptr → Act ℕ
get_size p = do v ← get p; done (v - v % 8)

unfoldable pub get_alloc : Ptr → Act ℕ
get_alloc p = do v ← get p; done (v % 2)

abbrev pub hdrp : Ptr → Ptr
hdrp bp = bp - 4

unfoldable pub ftrp : Ptr → Act Ptr
ftrp bp = do size ← get_size (hdrp bp); done (bp + size - 8)

unfoldable pub next_blkp : Ptr → Act Ptr
next_blkp bp = do size ← get_size (bp - 4); done (bp + size)

unfoldable pub prev_blkp : Ptr → Act Ptr
prev_blkp bp = do size ← get_size (bp - 8); done (bp - size)

-- `NEXT_FREE` and `PREV_FREE`, read and written.
abbrev pub next_free : Ptr → Act Ptr
next_free bp = get_ptr bp

abbrev pub prev_free : Ptr → Act Ptr
prev_free bp = get_ptr (bp + 8)

abbrev pub set_next_free : Ptr → Ptr → Act (Unit {0})
set_next_free bp q = put_ptr bp q

abbrev pub set_prev_free : Ptr → Ptr → Act (Unit {0})
set_prev_free bp q = put_ptr (bp + 8) q

unfoldable pub remove_from_free_list : Ptr → Act (Unit {0})
remove_from_free_list bp = do
  p ← prev_free bp
  (if p == null
      then (do n ← next_free bp; set_free_listp n)
      else (do n ← next_free bp; set_next_free p n))
  n ← next_free bp
  if n == null then done tt else do p ← prev_free bp; set_prev_free n p

unfoldable pub add_to_free_list : Ptr → Act (Unit {0})
add_to_free_list bp = do
  l ← get_free_listp
  set_next_free bp l
  set_prev_free bp null
  l ← get_free_listp
  (if l == null then done tt else set_prev_free l bp)
  set_free_listp bp

-- `PUT(HDRP(bp), v); PUT(FTRP(bp), v);`
unfoldable pub put_both : (bp : Ptr) → (v : ℕ) → Act (Unit {0})
put_both bp v = do put (hdrp bp) v; f ← ftrp bp; put f v

-- The cases 2, 3 and 4 of `coalesce`.
unfoldable pub coalesce_next : (bp : Ptr) → (size : ℕ) → Act Ptr
coalesce_next bp size = do
  next ← next_blkp bp
  remove_from_free_list next
  next ← next_blkp bp
  more ← get_size (hdrp next)
  put_both bp (pack (size + more) 0)
  add_to_free_list bp
  done bp

unfoldable pub coalesce_prev : (bp : Ptr) → (size : ℕ) → Act Ptr
coalesce_prev bp size = do
  prev ← prev_blkp bp
  remove_from_free_list prev
  prev ← prev_blkp bp
  more ← get_size (hdrp prev)
  prev ← prev_blkp bp
  put (hdrp prev) (pack (size + more) 0)
  prev ← prev_blkp bp
  f ← ftrp prev
  put f (pack (size + more) 0)
  prev ← prev_blkp bp
  add_to_free_list prev
  done prev

unfoldable pub coalesce_both : (bp : Ptr) → (size : ℕ) → Act Ptr
coalesce_both bp size = do
  next ← next_blkp bp
  remove_from_free_list next
  prev ← prev_blkp bp
  remove_from_free_list prev
  prev ← prev_blkp bp
  before ← get_size (hdrp prev)
  next ← next_blkp bp
  f ← ftrp next
  behind ← get_size f
  prev ← prev_blkp bp
  put (hdrp prev) (pack (size + (before + behind)) 0)
  next ← next_blkp bp
  f ← ftrp next
  put f (pack (size + (before + behind)) 0)
  prev ← prev_blkp bp
  add_to_free_list prev
  done prev

unfoldable pub coalesce : Ptr → Act Ptr
coalesce bp = do
  prev ← prev_blkp bp
  f ← ftrp prev
  prev_alloc ← get_alloc f
  next ← next_blkp bp
  next_alloc ← get_alloc (hdrp next)
  size ← get_size (hdrp bp)
  if prev_alloc == 0
      then (if next_alloc == 0 then coalesce_both bp size else coalesce_prev bp size)
      else (if next_alloc == 0 then coalesce_next bp size else (do add_to_free_list bp; done bp))

-- The result is the address of the free block, or `NULL`.
unfoldable pub extend_heap : (words : ℕ) → Act Ptr
extend_heap words = do
  let size =
      if words % 2 == 0
      then words * 4 % 18446744073709551616
      else (words + 1) * 4 % 18446744073709551616
  r ← mem_sbrk size
  elim r [
    | none ↦ done null
    | some bp ↦ (do
      put_both bp (pack size 0)
      next ← next_blkp bp
      put (hdrp next) (pack 0 1)
      coalesce bp)
  ]

abbrev pub set_heap_listp : Ptr → Act (Unit {0})
set_heap_listp p s = done tt (record s { heap_listp = p })

-- The result is 0, or 1 for -1.
unfoldable pub mm_init : Act ℕ
mm_init = do
  r ← mem_sbrk 16
  elim r [
    | none ↦ (do set_heap_listp 18446744073709551615; done 1)
    | some p ↦ (do
      set_heap_listp p
      put p 0
      put (p + 4) (pack 8 1)
      put (p + 8) (pack 8 1)
      put (p + 12) (pack 0 1)
      set_heap_listp (p + 8)
      set_free_listp null
      b ← extend_heap 16
      done (if b == null then 1 else 0))
  ]
