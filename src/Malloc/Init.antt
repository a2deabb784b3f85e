-- ===== src/Malloc/Init.antt =====
-- `mm_init` of malloc-lab/mm.c on an empty heap.
use jungle_data_structures.Prelude.{
  le_or_lt, ℕ, ◌+◌, ◌-◌, ◌*◌, ◌%◌, ◌≡◌, ◌≤◌, ◌<◌, ◌⊎◌, inl, inr, refl, subst, ◌∙◌, ◌==◌, ne→==,
  if◌then◌else◌, List, [], ◌∷◌, arith,
}
use jungle_data_structures.Prelude.Run.{
  done, Ends, Ends-done, Ends-continue, exact_then, ◌>>=◌, ◌>>◌,
}
use jungle_data_structures.Malloc.Store.{
  Ptr, null, Arena, Act, with_word, write, put, set_free_listp,
}
use jungle_data_structures.Malloc.Defs.{pack, set_heap_listp, extend_heap, mm_init}
use jungle_data_structures.Malloc.Words.{InHeap, put-done, write_here, write_ne}
use jungle_data_structures.Malloc.LinkWords.{arena}
use jungle_data_structures.Malloc.Links.{first}
use jungle_data_structures.Malloc.Blocks.{free}
use jungle_data_structures.Malloc.Gap.{Limits, Gap}
use jungle_data_structures.Malloc.Extend.{longer, sbrk_full, sbrk_room, extend_heap-Extended}

-- The words of the two markers.
abbrev marked : (Ptr → ℕ) → Ptr → Ptr → ℕ
marked m p = write (write (write (write m p 0) (p + 4) 9) (p + 8) 9) (p + 12) 1

-- What follows the first call of `mem_sbrk`.
abbrev after_sbrk : Ptr → Act ℕ
after_sbrk p = do
  set_heap_listp p
  put p 0
  put (p + 4) (pack 8 1)
  put (p + 8) (pack 8 1)
  put (p + 12) (pack 0 1)
  set_heap_listp (p + 8)
  set_free_listp null
  b ← extend_heap 16
  done (if b == null then 1 else 0)

module _ (s : Arena) (top : Limits s.mem_start_brk s.mem_max_addr) where
  -- The memory before, with nothing in the heap, and with the markers only.
  abbrev pub empty : Arena
  empty = record s { mem_brk = s.mem_start_brk }

  abbrev pub started : Ptr → Arena
  started h = record s { mem_brk = s.mem_start_brk + 16; heap_listp = h }

  abbrev pub Ready : ℕ → Arena → Type 0
  Ready r g =
      ((s.mem_max_addr < s.mem_start_brk + 80) × (r ≡ 1))
      ⊎ ((s.mem_start_brk + 80 ≤ s.mem_max_addr)
          × (r ≡ 0)
          × (m : Ptr → ℕ) × (fl : List Ptr) × (g
              ≡ arena (longer (started (s.mem_start_brk + 8)) 8) m (first fl null))
          × Gap s.mem_start_brk (s.mem_start_brk + 16 + 64) m [] 0 (free 8 ∷ []) fl)

  marked-Gap :
      (m : Ptr → ℕ)
      → Gap s.mem_start_brk (s.mem_start_brk + 16) (marked m s.mem_start_brk) [] 0 [] []
  marked-Gap m =
      let p = s.mem_start_brk in
      record {
        behind = (
          write_ne _ (p + 12) (p + 4) 1 (λ t. omega (arith, t))
              ∙ write_ne _ (p + 8) (p + 4) 9 (λ t. omega (arith, t))
              ∙ write_here _ (p + 4) 9,
          write_ne _ (p + 12) (p + 8) 1 (λ t. omega (arith, t)) ∙ write_here _ (p + 8) 9,
        );
        ahead = (omega arith, subst (λ a. marked m p a ≡ 1) at_end (write_here _ (p + 12) 1));
        linked = tt;
        listed = λ q. omega arith;
      }
    where
      at_end : s.mem_start_brk + 12 ≡ s.mem_start_brk + 16 + 8 * 0 - 4
      at_end = omega arith

  word_at :
      (k : ℕ)
      → k % 4 ≡ 0
      → k ≤ 12
      → InHeap s.mem_start_brk (s.mem_start_brk + 16) (s.mem_start_brk + k)
  word_at k z l = record {
    low = omega arith;
    high = omega (arith, l);
    even = omega (arith, top.even, z);
  }

  after_sbrk-Ready :
      (m : Ptr → ℕ) (h : Ptr)
      → s.mem_start_brk + 16 ≤ s.mem_max_addr
      → Ends Ready (after_sbrk s.mem_start_brk (with_word (started h) m))
  after_sbrk-Ready m h room =
      let p = s.mem_start_brk in
      let t = started p in
      let m1 = write m p 0 in
      let m2 = write m1 (p + 4) 9 in
      let m3 = write m2 (p + 8) 9 in
      exact_then _
        (put-done t m p 0 (subst (InHeap p (p + 16)) plus_zero (word_at 0 refl (omega arith)))
          (omega arith))
        (exact_then _ (put-done t m1 (p + 4) 9 (word_at 4 refl (omega arith)) (omega arith)) (
          exact_then _ (put-done t m2 (p + 8) 9 (word_at 8 refl (omega arith)) (omega arith)) (
            exact_then _ (put-done t m3 (p + 12) 1 (word_at 12 refl (omega arith)) (omega arith)) (
              Ends-continue
                (extend_heap-Extended (started (p + 8)) top 8 (omega arith) (omega arith)
                  (marked m p) [] [] (marked-Gap m) 16 refl)
                (λ q g x. elim x [
                  | inl (f, z, r) ↦ rw z (Ends-done (inl (omega (arith, f), refl)))
                  | inr (f, (z, m4, fl, r, u)) ↦
                      rw (ne→== q null (λ e. omega (arith, e, z)))
                        (Ends-done (inr (omega (arith, f), refl, m4, q ∷ fl, r, u)))
                ])))))
    where
      plus_zero : s.mem_start_brk + 0 ≡ s.mem_start_brk
      plus_zero = omega arith

  -- On an empty heap at a multiple of eight `mm_init` returns 0 and leaves one free block of 64 bytes,
  -- which is in the free list, or returns -1 (here 1) if the heap cannot have 80 bytes.
  pub mm_init-Ready : Ends Ready (mm_init empty)
  unfolding mm_init
  mm_init-Ready = elim (le_or_lt (s.mem_start_brk + 16) s.mem_max_addr) [
    | inl h ↦
        exact_then _ (sbrk_room empty 2 (omega arith) s.word s.free_listp h)
          (after_sbrk-Ready s.word s.heap_listp h)
    | inr h ↦
        exact_then _ (sbrk_full empty 2 (omega arith) s.word s.free_listp h)
          (Ends-done (inl (omega (arith, h), refl)))
  ]
