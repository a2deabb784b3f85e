-- ===== src/Palloc/Defs.antt =====
-- The functions of pintos threads/palloc.c on pools that are set up. The lock of a pool guards one call
-- of `bitmap_scan_and_flip`; a call is one step here.
use Prim.Native.Nat.{bit_and}
use jungle_data_structures.Prelude.{
  ℕ, ◌+◌, ◌-◌, ◌*◌, ◌/◌, ◌%◌, ◌^◌, Bool, true, false, not, ◌&&◌, ◌||◌, ◌==◌, leb, ltb,
  if◌then◌else◌,
}
use jungle_data_structures.Prelude.Run.{
  Outcome, done, fault, panic, out_of_fuel, assert, ◌>>=◌, ◌>>◌,
}
use jungle_data_structures.Bitmap.Defs.{
  Bitmap, bitmap_error, bitmap_scan_and_flip, bitmap_all, bitmap_set_multiple,
}
use jungle_data_structures.Str.Bytes.{Mem}
use jungle_data_structures.Str.Defs.{memset}

-- `struct pool`
pub record Pool : Type 0 where
  pub used_map : Bitmap
  pub base : ℕ

-- The two pools, and the memory of the kernel.
pub record Kernel : Type 0 where
  pub kernel_pool : Pool
  pub user_pool : Pool
  pub memory : Mem

abbrev pub Act : Type 0 → Type 0
Act A = Kernel → Outcome Kernel A

-- `true` stands for the user pool.
abbrev pub pool : Bool → Kernel → Pool
pool true g = g.user_pool
pool false g = g.kernel_pool

abbrev pub set_map : Bool → Bitmap → Kernel → Kernel
set_map true b g = record g { user_pool = record g.user_pool { used_map = b } }
set_map false b g = record g { kernel_pool = record g.kernel_pool { used_map = b } }

abbrev pub set_memory : Mem → Kernel → Kernel
set_memory m g = record g { memory = m }

-- A call of lib/kernel/bitmap.c on the map of a pool, and one of lib/string.c.
abbrev pub into : {S A : Type 0} → (S → Kernel) → Outcome S A → Outcome Kernel A
into f (done a s) = done a (f s)
into f fault = fault
into f panic = panic
into f out_of_fuel = out_of_fuel

abbrev pub on_map : {A : Type 0} → Bool → (Bitmap → Outcome Bitmap A) → Act A
on_map u act g = into (λ b. set_map u b g) (act (pool u g).used_map)

abbrev pub on_memory : {A : Type 0} → (Mem → Outcome Mem A) → Act A
on_memory act g = into (λ m. set_memory m g) (act g.memory)

-- The flags of `palloc_flags`.
abbrev pub has_flag : (flags flag : ℕ) → Bool
has_flag flags flag = not (bit_and flags flag == 0)

-- What is done with the pages that were found, or not.
unfoldable pub hand_out : (zero asserted : Bool) → (pages page_cnt : ℕ) → Act ℕ
hand_out zero asserted pages page_cnt =
    if not (pages == 0)
    then (if zero then (on_memory (memset pages 0 (4096 * page_cnt)) >> done pages) else done pages)
    else (if asserted then (λ g. panic) else done 0)

unfoldable pub get_from : (user : Bool) → (zero asserted : Bool) → (page_cnt : ℕ) → Act ℕ
get_from user zero asserted page_cnt = do
  page_idx ← on_map user (bitmap_scan_and_flip 0 page_cnt false)
  λ g.
      hand_out zero asserted
        (if page_idx == bitmap_error then 0 else ((pool user g).base + 4096 * page_idx) % 2 ^ 64)
        page_cnt g

unfoldable pub palloc_get_multiple : (flags page_cnt : ℕ) → Act ℕ
palloc_get_multiple flags page_cnt =
    get_from (has_flag flags 4) (has_flag flags 2) (has_flag flags 1) page_cnt

unfoldable pub palloc_get_page : (flags : ℕ) → Act ℕ
palloc_get_page flags = palloc_get_multiple flags 1

abbrev pub page_from_pool : Pool → (page : ℕ) → Bool
page_from_pool p page =
    leb (p.base / 4096) (page / 4096) && ltb (page / 4096) (p.base / 4096 + p.used_map.bit_cnt)

unfoldable pub free_in : (user : Bool) → (pages page_cnt : ℕ) → Act (Unit {0})
free_in user pages page_cnt g =
    let page_idx = pages / 4096 - (pool user g).base / 4096 in
    (do
      on_memory (memset pages 204 (4096 * page_cnt))
      all ← on_map user (bitmap_all page_idx page_cnt)
      assert all
      on_map user (bitmap_set_multiple page_idx page_cnt false))
      g

unfoldable pub palloc_free_multiple : (pages page_cnt : ℕ) → Act (Unit {0})
palloc_free_multiple pages page_cnt = do
  assert (pages % 4096 == 0)
  λ g.
      (if (pages == 0) || (page_cnt == 0)
          then done tt
          else (if page_from_pool g.kernel_pool pages
              then free_in false pages page_cnt
              else (if page_from_pool g.user_pool pages
                  then free_in true pages page_cnt
                  else (λ g. panic))))
        g

unfoldable pub palloc_free_page : (page : ℕ) → Act (Unit {0})
palloc_free_page page = palloc_free_multiple page 1
