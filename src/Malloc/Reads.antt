-- ===== src/Malloc/Reads.antt =====
-- The macros of malloc-lab/mm.c at words that are known.
use jungle_data_structures.Prelude.{ℕ, ◌+◌, ◌-◌, ◌*◌, ◌%◌, ◌≡◌, ◌<◌, refl, ap, ◌∙◌, arith}
use jungle_data_structures.Prelude.Bits.{or_zero, or_even_one}
use jungle_data_structures.Prelude.Run.{done}
use jungle_data_structures.Malloc.Store.{Ptr, Arena, write}
use jungle_data_structures.Malloc.Defs.{
  pack, get_size, get_alloc, ftrp, next_blkp, prev_blkp, put_both,
}
use jungle_data_structures.Malloc.Words.{InHeap, get-done, put-done, write_here}
use jungle_data_structures.Malloc.LinkWords.{arena}
use jungle_data_structures.Malloc.Fill.{write_ends}

pub pack_free : (n : ℕ) → pack (8 * n) 0 ≡ 8 * n
pack_free n = or_zero (8 * n)

pub pack_sum : (n k : ℕ) → pack (8 * n + 8 * k) 0 ≡ 8 * (n + k)
pack_sum n k = or_zero (8 * n + 8 * k) ∙ omega arith

pub pack_three : (n k j : ℕ) → pack (8 * n + (8 * k + 8 * j)) 0 ≡ 8 * (k + (n + j))
pack_three n k j = or_zero (8 * n + (8 * k + 8 * j)) ∙ omega arith

pub pack_used : (n : ℕ) → pack (8 * n) 1 ≡ 8 * n + 1
pack_used n = or_even_one (8 * n) (omega arith)

module _ (s : Arena) (m : Ptr → ℕ) (f : Ptr) where
  module _ (p : Ptr) (u a : ℕ) (i : InHeap s.mem_start_brk s.mem_brk p) (e : m p ≡ 8 * u + a)
      (l : a < 8) where
    pub get_size-done : get_size p (arena s m f) ≡ done (8 * u) (arena s m f)
    unfolding get_size
    get_size-done =
        rw (get-done (record s { free_listp = f }) m p i)
          (ap (λ v. done v (arena s m f)) (whole (m p) e))
      where
        whole : (v : ℕ) → v ≡ 8 * u + a → v - v % 8 ≡ 8 * u
        whole v e = omega (arith, e, l)

  pub get_alloc-done :
      (p : Ptr) (v a : ℕ)
      → InHeap s.mem_start_brk s.mem_brk p
      → m p ≡ v
      → v % 2 ≡ a
      → get_alloc p (arena s m f) ≡ done a (arena s m f)
  unfolding get_alloc
  get_alloc-done p v a i e z =
      rw (get-done (record s { free_listp = f }) m p i)
        (ap (λ v. done (v % 2) (arena s m f)) e ∙ ap (λ a. done a (arena s m f)) z)

  module _ (p : Ptr) (u a : ℕ) (i : InHeap s.mem_start_brk s.mem_brk (p - 4))
      (e : m (p - 4) ≡ 8 * u + a) (l : a < 8) where
    pub next_blkp-done : next_blkp p (arena s m f) ≡ done (p + 8 * u) (arena s m f)
    unfolding next_blkp
    next_blkp-done = rw (get_size-done (p - 4) u a i e l) refl

    pub ftrp-done : ftrp p (arena s m f) ≡ done (p + 8 * u - 8) (arena s m f)
    unfolding ftrp
    ftrp-done = rw (get_size-done (p - 4) u a i e l) refl

  pub prev_blkp-done :
      (p u a q : ℕ)
      → InHeap s.mem_start_brk s.mem_brk (p - 8)
      → m (p - 8) ≡ 8 * u + a
      → a < 8
      → p ≡ q + 8 * u
      → prev_blkp p (arena s m f) ≡ done q (arena s m f)
  unfolding prev_blkp
  prev_blkp-done p u a q i e l z =
      rw (get_size-done (p - 8) u a i e l) (ap (λ v. done v (arena s m f)) (back z))
    where
      back : p ≡ q + 8 * u → p - 8 * u ≡ q
      back z = omega (arith, z)

module _ (s : Arena) (m : Ptr → ℕ) (f p : Ptr) (u a x : ℕ) where
  pub put_both-done :
      InHeap s.mem_start_brk s.mem_brk (p - 4)
      → InHeap s.mem_start_brk s.mem_brk (p + 8 * u - 8)
      → a < 8
      → x ≡ 8 * u + a
      → x < 4294967296
      → put_both p x (arena s m f) ≡ done tt (arena s (write_ends m p u x) f)
  unfolding put_both
  put_both-done i j l e small =
      rw
        (
          put-done (record s { free_listp = f }) m (p - 4) x i small,
          ftrp-done s (write m (p - 4) x) f p u a i (write_here m (p - 4) x ∙ e) l,
          put-done (record s { free_listp = f }) (write m (p - 4) x) (p + 8 * u - 8) x j small,
        )
        refl
