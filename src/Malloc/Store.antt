-- ===== src/Malloc/Store.antt =====
-- The simulated memory of malloc-lab/memlib.c, and the accesses of malloc-lab/mm.c to it. The heap is
-- a store of words of four bytes; an access outside of the heap or across two words is a fault.
use jungle_data_structures.Prelude.{
  ℕ, ◌+◌, ◌*◌, ◌/◌, ◌%◌, Bool, ◌&&◌, ◌||◌, Option, none, some, ◌==◌, leb, ltb, if◌then◌else◌,
}
use jungle_data_structures.Prelude.Run.{Outcome, done, fault, ◌>>=◌, ◌>>◌}

-- An address of a byte; `NULL` is 0.
abbrev pub Ptr : Type 0
Ptr = ℕ

abbrev pub null : Ptr
null = 0

-- The static variables of both files. `word` is what stands at the address of a word.
pub record Arena : Type 0 where
  pub word : Ptr → ℕ
  pub mem_start_brk : Ptr
  pub mem_brk : Ptr
  pub mem_max_addr : Ptr
  pub heap_listp : Ptr
  pub free_listp : Ptr

abbrev pub Act : Type 0 → Type 0
Act A = Arena → Outcome Arena A

-- The word at `p` lies in the heap.
unfoldable pub inside : (start brk p : Ptr) → Bool
inside start brk p = leb start p && (leb (p + 4) brk && (p % 4 == 0))

unfoldable pub write : (Ptr → ℕ) → Ptr → ℕ → Ptr → ℕ
write m p v a = if a == p then v else m a

abbrev pub with_word : Arena → (Ptr → ℕ) → Arena
with_word s m = record s { word = m }

-- `GET` and `PUT`, which stores 32 bits.
unfoldable pub get : Ptr → Act ℕ
get p s = if inside s.mem_start_brk s.mem_brk p then done (s.word p) s else fault

unfoldable pub put : Ptr → ℕ → Act (Unit {0})
put p v s =
    if inside s.mem_start_brk s.mem_brk p
    then done tt (with_word s (write s.word p (v % 4294967296)))
    else fault

-- A pointer of eight bytes, the lower half first.
unfoldable pub get_ptr : Ptr → Act Ptr
get_ptr p = do low ← get p; high ← get (p + 4); done (low + 4294967296 * high)

unfoldable pub put_ptr : Ptr → Ptr → Act (Unit {0})
put_ptr p v = do put p v; put (p + 4) (v / 4294967296)

abbrev pub get_free_listp : Act Ptr
get_free_listp s = done s.free_listp s

abbrev pub set_free_listp : Ptr → Act (Unit {0})
set_free_listp p s = done tt (record s { free_listp = p })

-- `none` is (void *) -1. The argument is an int, of which the upper half of the values is negative.
unfoldable pub mem_sbrk : ℕ → Act (Option Ptr)
mem_sbrk incr s =
    let n = incr % 4294967296 in
    if leb 2147483648 n || ltb s.mem_max_addr (s.mem_brk + n)
    then done none s
    else done (some s.mem_brk) (record s { mem_brk = s.mem_brk + n })

-- `mem_init` with what `malloc` gave it, a region of `size` bytes.
unfoldable pub mem_init : (region : Ptr) → (size : ℕ) → Act (Unit {0})
mem_init region size s =
    done tt (record s { mem_start_brk = region; mem_brk = region; mem_max_addr = region + size })

unfoldable pub mem_reset_brk : Act (Unit {0})
mem_reset_brk s = done tt (record s { mem_brk = s.mem_start_brk })
