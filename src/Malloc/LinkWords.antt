-- ===== src/Malloc/LinkWords.antt =====
-- The words of the links of free blocks of malloc-lab/mm.c.
use jungle_data_structures.Prelude.{ℕ, ◌+◌, ◌≢◌, ◌≤◌, ◌<◌, inl, inr, List, arith}
use jungle_data_structures.Malloc.Store.{Ptr, Arena}
use jungle_data_structures.Malloc.Words.{Apart, write_ptr, write_ptr-ne, InHeap}
use jungle_data_structures.Malloc.Links.{occurs, Out, SameBut, Space}

abbrev pub arena : Arena → (Ptr → ℕ) → Ptr → Arena
arena s m f = record s { word = m; free_listp = f }

-- The words of the links of a block.
module _ (a b : Ptr) (xs : List Ptr) (w : Space a b xs) (q : Ptr) (i : 1 ≤ occurs q xs) where
  pub word0 : InHeap a b q
  word0 = record { low = w.low q i; high = omega (arith, w.high q i); even = w.even q i }

  pub word4 : InHeap a b (q + 4)
  word4 = record {
    low = omega (arith, w.low q i);
    high = omega (arith, w.high q i);
    even = omega (arith, w.even q i);
  }

  pub word8 : InHeap a b (q + 8)
  word8 = record {
    low = omega (arith, w.low q i);
    high = omega (arith, w.high q i);
    even = omega (arith, w.even q i);
  }

  pub word12 : InHeap a b (q + 8 + 4)
  word12 = record {
    low = omega (arith, w.low q i);
    high = omega (arith, w.high q i);
    even = omega (arith, w.even q i);
  }

  pub small_ptr : q < 18446744073709551616
  small_ptr = omega (arith, w.high q i, w.narrow)

pub write_ptr-SameBut :
    (m : Ptr → ℕ) (p u v : Ptr) (xs : List Ptr)
    → 1 ≤ occurs p xs
    → p ≤ u
    → u ≤ p + 8
    → SameBut xs m (write_ptr m u v)
write_ptr-SameBut m p u v xs i l h a out = write_ptr-ne m u v a (ne a (out p i)) (ne4 a (out p i))
  where
    ne : (a : Ptr) → Out a p → a ≢ u
    ne a (inl o) e = omega (arith, o, e, l)
    ne a (inr o) e = omega (arith, o, e, h)

    ne4 : (a : Ptr) → Out a p → a ≢ u + 4
    ne4 a (inl o) e = omega (arith, o, e, l)
    ne4 a (inr o) e = omega (arith, o, e, h)

pub Apart-half : (p a : Ptr) → Apart p 16 a 16 → Apart p 8 a 16
Apart-half p a (inl l) = inl (omega (arith, l))
Apart-half p a (inr l) = inr l

pub Apart-upper : (p a : Ptr) → Apart p 16 a 16 → Apart (p + 8) 8 a 16
Apart-upper p a (inl l) = inl (omega (arith, l))
Apart-upper p a (inr l) = inr (omega (arith, l))
