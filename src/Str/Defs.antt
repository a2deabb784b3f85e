-- ===== src/Str/Defs.antt =====
-- The functions of pintos lib/string.c. `fuel` bounds the rounds of a loop that ends at a null
-- byte; a loop over `size` bytes recurs on `size`.
use jungle_data_structures.Prelude.{
  ℕ, zero, suc, ◌+◌, ◌-◌, ◌%◌, not, ◌||◌, ◌&&◌, ltb, ◌==◌, if◌then◌else◌,
}
use jungle_data_structures.Prelude.Int.{ℤ, pos, minus_one}
use jungle_data_structures.Prelude.Run.{done, give_up, assert, ◌>>=◌, ◌>>◌}
use jungle_data_structures.Str.Bytes.{Act, load, store}

-- `ASSERT (p != NULL || size == 0)`
abbrev pub assert_block : ℕ → ℕ → Act (Unit {0})
assert_block p size = assert (not (p == 0) || size == 0)

-- `ASSERT (p != NULL)`
abbrev pub assert_ptr : ℕ → Act (Unit {0})
assert_ptr p = assert (not (p == 0))

-- `while (size-- > 0) *dst++ = *src++;`
unfoldable pub copy_up : ℕ → (dst src : ℕ) → Act ℕ
copy_up zero dst src = done dst
copy_up (suc size) dst src = do b ← load src; store dst b; copy_up size (dst + 1) (src + 1)

-- `while (size-- > 0) *--dst = *--src;`. Both loops return the final `dst`.
unfoldable pub copy_down : ℕ → (dst src : ℕ) → Act ℕ
copy_down zero dst src = done dst
copy_down (suc size) dst src = do
  b ← load (src - 1)
  store (dst - 1) b
  copy_down size (dst - 1) (src - 1)

unfoldable pub memcpy : (dst src size : ℕ) → Act ℕ
memcpy dst src size = do
  assert_block dst size
  assert_block src size
  last ← copy_up size dst src
  done dst

-- The value returned is the local `dst` after the loop, as in the source.
unfoldable pub memmove : (dst src size : ℕ) → Act ℕ
memmove dst src size = do
  assert_block dst size
  assert_block src size
  if ltb dst src then copy_up size dst src else copy_down size (dst + size) (src + size)

unfoldable pub memcmp_loop : ℕ → (a b : ℕ) → Act ℤ
memcmp_loop zero a b = done (pos 0)
memcmp_loop (suc size) a b = do
  x ← load a
  y ← load b
  if x == y then memcmp_loop size (a + 1) (b + 1) else done (if ltb y x then pos 1 else minus_one)

unfoldable pub memcmp : (a b size : ℕ) → Act ℤ
memcmp a b size = do assert_block a size; assert_block b size; memcmp_loop size a b

unfoldable pub strcmp_loop : ℕ → (a b : ℕ) → Act ℤ
strcmp_loop zero a b = give_up
strcmp_loop (suc fuel) a b = do
  x ← load a
  y ← load b
  if not (x == 0) && (x == y)
      then strcmp_loop fuel (a + 1) (b + 1)
      else done (if ltb x y then minus_one else (if ltb y x then pos 1 else pos 0))

unfoldable pub strcmp : ℕ → (a b : ℕ) → Act ℤ
strcmp fuel a b = do assert_ptr a; assert_ptr b; strcmp_loop fuel a b

unfoldable pub memchr_loop : ℕ → ℕ → ℕ → Act ℕ
memchr_loop zero block ch = done 0
memchr_loop (suc size) block ch = do
  b ← load block
  if b == ch then done block else memchr_loop size (block + 1) ch

unfoldable pub memchr : (block ch size : ℕ) → Act ℕ
memchr block ch size = do assert_block block size; memchr_loop size block (ch % 256)

unfoldable pub strchr_loop : ℕ → (string c : ℕ) → Act ℕ
strchr_loop zero string c = give_up
strchr_loop (suc fuel) string c = do
  b ← load string
  if b == c then done string else (if b == 0 then done 0 else strchr_loop fuel (string + 1) c)

unfoldable pub strchr : ℕ → (string c : ℕ) → Act ℕ
strchr fuel string c = do assert_ptr string; strchr_loop fuel string (c % 256)

unfoldable pub strrchr_loop : ℕ → (string c p : ℕ) → Act ℕ
strrchr_loop zero string c p = give_up
strrchr_loop (suc fuel) string c p = do
  b ← load string
  if b == 0 then done p else strrchr_loop fuel (string + 1) c (if b == c then string else p)

unfoldable pub strrchr : ℕ → (string c : ℕ) → Act ℕ
strrchr fuel string c = strrchr_loop fuel string (c % 256) 0

unfoldable pub strcspn_loop : ℕ → (string stop length : ℕ) → Act ℕ
strcspn_loop zero string stop length = give_up
strcspn_loop (suc fuel) string stop length = do
  b ← load (string + length)
  if b == 0 then done length else do
    r ← strchr (suc fuel) stop b
    if not (r == 0) then done length else strcspn_loop fuel string stop (length + 1)

unfoldable pub strspn_loop : ℕ → (string skip length : ℕ) → Act ℕ
strspn_loop zero string skip length = give_up
strspn_loop (suc fuel) string skip length = do
  b ← load (string + length)
  if b == 0 then done length else do
    r ← strchr (suc fuel) skip b
    if r == 0 then done length else strspn_loop fuel string skip (length + 1)

unfoldable pub memset_loop : ℕ → (dst value : ℕ) → Act (Unit {0})
memset_loop zero dst value = done tt
memset_loop (suc size) dst value = do store dst value; memset_loop size (dst + 1) value

unfoldable pub memset : (dst value size : ℕ) → Act ℕ
memset dst value size = do assert_block dst size; memset_loop size dst (value % 256); done dst

unfoldable pub strlen_loop : ℕ → ℕ → Act ℕ
strlen_loop zero p = give_up
strlen_loop (suc fuel) p = do b ← load p; if b == 0 then done p else strlen_loop fuel (p + 1)

unfoldable pub strlen : ℕ → ℕ → Act ℕ
strlen fuel string = do assert_ptr string; p ← strlen_loop fuel string; done (p - string)

-- `string[length]` is read before `length < maxlen` is tested, as in the source.
unfoldable pub strnlen_loop : ℕ → (string maxlen length : ℕ) → Act ℕ
strnlen_loop zero string maxlen length = give_up
strnlen_loop (suc fuel) string maxlen length = do
  b ← load (string + length)
  if not (b == 0) && ltb length maxlen
      then strnlen_loop fuel string maxlen (length + 1)
      else done length

unfoldable pub strlcpy : ℕ → (dst src size : ℕ) → Act ℕ
strlcpy fuel dst src size = do
  assert_ptr dst
  assert_ptr src
  src_len ← strlen fuel src
  if ltb 0 size
      then (do
        let dst_len = if ltb src_len (size - 1) then src_len else size - 1
        p ← memcpy dst src dst_len
        store (dst + dst_len) 0
        done src_len)
      else done src_len

unfoldable pub strlcat : ℕ → (dst src size : ℕ) → Act ℕ
strlcat fuel dst src size = do
  assert_ptr dst
  assert_ptr src
  src_len ← strlen fuel src
  dst_len ← strlen fuel dst
  if ltb 0 size && ltb dst_len size
      then (do
        let room = size - dst_len - 1
        let copy_cnt = if ltb src_len room then src_len else room
        p ← memcpy (dst + dst_len) src copy_cnt
        store (dst + dst_len + copy_cnt) 0
        done (src_len + dst_len))
      else done (src_len + dst_len)
