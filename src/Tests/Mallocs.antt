-- ===== src/Tests/Mallocs.antt =====
-- The allocator of malloc-lab/mm.c on small heaps.
use jungle_data_structures.Prelude.{
  ℕ, ◌+◌, ◌-◌, ◌*◌, ◌≡◌, ◌≤◌, refl, ◌==◌, if◌then◌else◌, [], ◌∷◌, arith,
}
use jungle_data_structures.Prelude.Run.{Ends, done}
use jungle_data_structures.Malloc.Store.{Ptr, null, Arena}
use jungle_data_structures.Malloc.Defs.{mm_init}
use jungle_data_structures.Malloc.Alloc.{mm_malloc, mm_free, mm_realloc, best_fit}
use jungle_data_structures.Malloc.Links.{first}
use jungle_data_structures.Malloc.LinkWords.{arena}
use jungle_data_structures.Malloc.Blocks.{used, free, place}
use jungle_data_structures.Malloc.Gap.{Limits, Gap, list_Space, listed_in}
use jungle_data_structures.Malloc.Around.{past_free}
use jungle_data_structures.Malloc.Coalesce.{Coalesced, mm_free-Coalesced}
use jungle_data_structures.Malloc.Allocate.{Allocated, mm_malloc-Allocated}
use jungle_data_structures.Malloc.Init.{empty, Ready, mm_init-Ready}
use jungle_data_structures.Malloc.Realloc.{Regrown, mm_realloc-Whole}
use jungle_data_structures.Malloc.Best.{IsBest, best_fit-IsBest}
use jungle_data_structures.Malloc.Words.{InHeap}
use jungle_data_structures.Malloc.Links.{occurs}

-- A block in use between two free ones, in a heap from 8 to 96.
abbrev three_words : Ptr → ℕ
three_words a =
    if a == 12
    then 9
    else if a == 16
    then 9
    else if a == 20
    then 24
    else if a == 40
    then 24
    else if a == 44
    then 25
    else if a == 64
    then 25
    else if a == 68
    then 24
    else if a == 88
    then 24
    else if a == 92
    then 1
    else if a == 24
    then 72
    else if a == 80
    then 24
    else 0

abbrev three_blocks : Arena
three_blocks = record {
  word = three_words;
  mem_start_brk = 8;
  mem_brk = 96;
  mem_max_addr = 4096;
  heap_listp = 16;
  free_listp = 24;
}

three_top : Limits 8 4096
three_top = record {
  even = refl;
  positive = omega arith;
  small = omega arith;
  narrow = omega arith;
}

three_limits : Limits 8 96
three_limits = record {
  even = refl;
  positive = omega arith;
  small = omega arith;
  narrow = omega arith;
}

abbrev zeros : ℕ → ℕ
zeros i = 0

three_payload : (i : ℕ) → i + 3 ≤ 6 → three_words (48 + 4 * i) ≡ zeros i
three_payload i l = ground (arith, l)

three_Gap : Gap 8 96 three_words (free 3 ∷ []) 0 (used 3 zeros ∷ free 3 ∷ []) (24 ∷ 72 ∷ [])
three_Gap = record {
  behind = (omega arith, refl, refl, tt, (refl, refl));
  ahead = (omega arith, refl, refl, three_payload, (omega arith, refl, refl, tt, (refl, refl)));
  linked = ((refl, refl), (refl, refl), ((refl, refl), (refl, refl), tt));
  listed = λ q. omega arith;
}

three_Heap : Gap 8 96 three_words [] 0 (free 3 ∷ used 3 zeros ∷ free 3 ∷ []) (24 ∷ 72 ∷ [])
three_Heap = record {
  behind = (refl, refl);
  ahead = (
    omega arith,
    refl,
    refl,
    tt,
    (omega arith, refl, refl, three_payload, (omega arith, refl, refl, tt, (refl, refl))),
  );
  linked = ((refl, refl), (refl, refl), ((refl, refl), (refl, refl), tt));
  listed = λ q. omega arith;
}

mm_free-Coalesced_example :
    Ends
      (λ _ g.
        Coalesced three_blocks three_limits
          (free 3 ∷ [])
          3
          (free 3 ∷ [])
          (place 8 (past_free (free 3 ∷ [])))
          g)
      (mm_free (place 8 (free 3 ∷ [])) (arena three_blocks three_words (first (24 ∷ 72 ∷ []) null)))
mm_free-Coalesced_example =
    mm_free-Coalesced three_blocks three_limits three_words 3 zeros (24 ∷ 72 ∷ []) (free 3 ∷ [])
      (free 3 ∷ []) three_Gap

mm_malloc-Allocated_example :
    Ends
      (Allocated three_blocks three_top
        (omega arith)
        16
        (omega arith)
        (omega arith)
        three_words
        (free 3 ∷ used 3 zeros ∷ free 3 ∷ [])
        (24 ∷ 72 ∷ []))
      (mm_malloc 3 16 (arena three_blocks three_words (first (24 ∷ 72 ∷ []) null)))
mm_malloc-Allocated_example =
    mm_malloc-Allocated three_blocks three_top (omega arith) 16 (omega arith) (omega arith)
      three_words (free 3 ∷ used 3 zeros ∷ free 3 ∷ []) (24 ∷ 72 ∷ []) three_Heap 3 (omega arith)

mm_init-Ready_example : Ends (Ready three_blocks three_top) (mm_init (empty three_blocks three_top))
mm_init-Ready_example = mm_init-Ready three_blocks three_top

mm_realloc-Whole_example :
    Ends
      (Regrown
        (λ dst src n. done tt)
        three_blocks
        three_limits
        three_words
        (free 3 ∷ [])
        3
        3
        []
        (24 ∷ 72 ∷ [])
        40
        zeros)
      (mm_realloc
        (λ dst src n. done tt)
        3
        (place 8 (free 3 ∷ []))
        32
        (arena three_blocks three_words (first (24 ∷ 72 ∷ []) null)))
mm_realloc-Whole_example =
    mm_realloc-Whole (λ dst src n. done tt) three_blocks three_limits three_words (free 3 ∷ []) 3 3
      [] (24 ∷ 72 ∷ []) 3 32 zeros (omega arith) three_Gap (omega arith)

three_headers : (q : Ptr) → 1 ≤ occurs q (24 ∷ 72 ∷ []) → InHeap 8 96 (q - 4)
three_headers q i =
    let (x, y, z) = listed_in three_limits three_Heap q i in
    record { low = omega (arith, x); high = omega (arith, x, y); even = omega (arith, x, z) }

best_fit-IsBest_example :
    Ends
      (λ q g. IsBest three_words 24 (24 ∷ 72 ∷ []) [] q × (g ≡ arena three_blocks three_words 24))
      (best_fit 3 24 (arena three_blocks three_words 24))
best_fit-IsBest_example =
    best_fit-IsBest three_blocks three_words 24 24 (24 ∷ 72 ∷ [])
      (list_Space three_limits three_Heap) three_headers 3 (omega arith) refl three_Heap.linked
