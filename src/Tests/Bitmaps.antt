-- ===== src/Tests/Bitmaps.antt =====
-- The functions of pintos lib/kernel/bitmap.c on a bitmap of 70 bits, of which bit 65 is set.
use jungle_data_structures.Prelude.{ℕ, ◌≡◌, refl, true, false, [], ◌∷◌, arith}
use jungle_data_structures.Prelude.Run.{done, panic}
use jungle_data_structures.Bitmap.Defs.{
  Bitmap, update, masked, bitmap_mark, bitmap_set, bitmap_test, set_loop, bitmap_set_multiple,
  contains_loop, bitmap_contains, bitmap_count, scan_loop, bitmap_scan, bitmap_scan_and_flip,
}
use jungle_data_structures.Bitmap.View.{IsBitmap}
use jungle_data_structures.Bitmap.Single.{bitmap_set-panic}
use jungle_data_structures.Bitmap.Range.{range-panic}
use jungle_data_structures.Bitmap.Scan.{Flipped, bitmap_scan_and_flip-Flipped}

abbrev sample : Bitmap
sample = record { bit_cnt = 70; bits = 0 ∷ 2 ∷ [] }

sample-IsBitmap : IsBitmap sample
sample-IsBitmap = record { sized = refl; small = omega arith }

-- Two clear bits at or after 64 are found behind the bit that is set.
scan_run :
    bitmap_scan_and_flip 64 2 false sample ≡ done 66 (record { bit_cnt = 70; bits = 0 ∷ 14 ∷ [] })
unfolding bitmap_scan_and_flip bitmap_scan scan_loop bitmap_contains contains_loop bitmap_test
    masked bitmap_set_multiple set_loop bitmap_set bitmap_mark update
scan_run = refl

bitmap_set-panic_example : bitmap_set 70 true sample ≡ panic
bitmap_set-panic_example = bitmap_set-panic sample 70 true (omega arith)

range-panic_example :
    (bitmap_set_multiple 60 11 true sample ≡ panic)
    × (bitmap_contains 60 11 true sample ≡ panic)
    × (bitmap_count 60 11 true sample ≡ panic)
range-panic_example = range-panic sample 60 11 sample-IsBitmap true (omega arith) (omega arith)

bitmap_scan_and_flip-Flipped_example :
    (r : ℕ) × (b' : Bitmap) × (bitmap_scan_and_flip 64 2 false sample ≡ done r b')
    × Flipped sample 2 false 64 r b'
bitmap_scan_and_flip-Flipped_example =
    bitmap_scan_and_flip-Flipped sample 2 false sample-IsBitmap 64 (omega arith)
