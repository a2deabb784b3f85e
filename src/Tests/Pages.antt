-- ===== src/Tests/Pages.antt =====
-- The page allocator of pintos threads/palloc.c on two pools of 70 pages, of which page 65 is used.
use jungle_data_structures.Prelude.{inl, refl, true, some, [], ◌∷◌, arith}
use jungle_data_structures.Prelude.Run.{Ends, ◌>>=◌}
use jungle_data_structures.Bitmap.Defs.{Bitmap}
use jungle_data_structures.Bitmap.View.{IsBitmap}
use jungle_data_structures.Palloc.Defs.{Kernel, palloc_get_multiple, palloc_free_multiple}
use jungle_data_structures.Palloc.Pages.{IsKernel}
use jungle_data_structures.Palloc.Give.{Got, palloc_get_multiple-Got}
use jungle_data_structures.Palloc.Back.{Restored, palloc_get_multiple-Restored}

abbrev pages_used : Bitmap
pages_used = record { bit_cnt = 70; bits = 0 ∷ 2 ∷ [] }

pages_used-IsBitmap : IsBitmap pages_used
pages_used-IsBitmap = record { sized = refl; small = omega arith }

abbrev two_pools : Kernel
two_pools = record {
  kernel_pool = record { used_map = pages_used; base = 4096 };
  user_pool = record { used_map = pages_used; base = 409600 };
  memory = λ a. some 1;
}

two_pools-IsKernel : IsKernel two_pools
two_pools-IsKernel = record {
  kernel = record {
    map = pages_used-IsBitmap;
    aligned = refl;
    positive = omega arith;
    narrow = omega arith;
    owned = λ i l. (1, refl);
  };
  user = record {
    map = pages_used-IsBitmap;
    aligned = refl;
    positive = omega arith;
    narrow = omega arith;
    owned = λ i l. (1, refl);
  };
  apart = inl (omega arith);
}

palloc_get_multiple-Got_example :
    Ends (Got true true 3 two_pools two_pools-IsKernel) (palloc_get_multiple 6 3 two_pools)
palloc_get_multiple-Got_example = palloc_get_multiple-Got 3 two_pools two_pools-IsKernel 6 refl

palloc_get_multiple-Restored_example :
    Ends
      (Restored two_pools)
      ((palloc_get_multiple 6 3 >>= λ p. palloc_free_multiple p 3) two_pools)
palloc_get_multiple-Restored_example =
    palloc_get_multiple-Restored 3 (omega arith) two_pools two_pools-IsKernel 6 refl
