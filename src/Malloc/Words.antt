-- ===== src/Malloc/Words.antt =====
-- Words and pointers in the memory of malloc-lab/mm.c, and single accesses to them.
use jungle_data_structures.Prelude.{
  ℕ, ◌+◌, ◌*◌, ◌/◌, ◌%◌, ◌≡◌, ◌≢◌, ◌≤◌, ◌<◌, ◌⊎◌, inl, inr, refl, sym, subst, ap, ◌∙◌, true, arith,
}
use jungle_data_structures.Prelude.Run.{Outcome, done, continue, Ends, Ends-done, exact_then}
use jungle_data_structures.Malloc.Store.{
  Ptr, Arena, inside, write, with_word, get, put, get_ptr, put_ptr,
}

-- Two ranges of addresses of which one ends where the other begins, or before.
abbrev pub Apart : (p k q l : ℕ) → Type 0
Apart p k q l = (p + k ≤ q) ⊎ (q + l ≤ p)

pub write_here : (m : Ptr → ℕ) (p : Ptr) (v : ℕ) → write m p v p ≡ v
unfolding write
write_here m p v = ground arith

pub write_ne : (m : Ptr → ℕ) (p a : Ptr) (v : ℕ) → a ≢ p → write m p v a ≡ m a
unfolding write
write_ne m p a v ne = ground arith

-- A pointer of eight bytes stands at an address.
abbrev pub IsPtr : (Ptr → ℕ) → Ptr → Ptr → Type 0
IsPtr m p v = (m p ≡ v % 4294967296) × (m (p + 4) ≡ v / 4294967296)

abbrev pub write_ptr : (Ptr → ℕ) → Ptr → Ptr → Ptr → ℕ
write_ptr m p v = write (write m p (v % 4294967296)) (p + 4) (v / 4294967296)

pub write_ptr-ne : (m : Ptr → ℕ) (p v a : Ptr) → a ≢ p → a ≢ p + 4 → write_ptr m p v a ≡ m a
write_ptr-ne m p v a p0 p4 = write_ne _ (p + 4) a _ p4 ∙ write_ne m p a _ p0

ne_four : (p : Ptr) → p ≢ p + 4
ne_four p e = omega (arith, e)

pub write_ptr-IsPtr : (m : Ptr → ℕ) (p v : Ptr) → IsPtr (write_ptr m p v) p v
write_ptr-IsPtr m p v =
    (write_ne _ (p + 4) p _ (ne_four p) ∙ write_here m p _, write_here _ (p + 4) _)

pub IsPtr-write :
    (m : Ptr → ℕ) (w : Ptr) (x : ℕ) (a u : Ptr)
    → Apart w 4 a 8
    → IsPtr m a u
    → IsPtr (write m w x) a u
IsPtr-write m w x a u d (e, f) =
    (write_ne m w a x (λ t. near a d t) ∙ e, write_ne m w (a + 4) x (λ t. far a d t) ∙ f)
  where
    near : (a : Ptr) → Apart w 4 a 8 → a ≢ w
    near a (inl l) t = omega (arith, l, t)
    near a (inr l) t = omega (arith, l, t)

    far : (a : Ptr) → Apart w 4 a 8 → a + 4 ≢ w
    far a (inl l) t = omega (arith, l, t)
    far a (inr l) t = omega (arith, l, t)

pub IsPtr-write_ptr :
    (m : Ptr → ℕ) (w v a u : Ptr) → Apart w 8 a 8 → IsPtr m a u → IsPtr (write_ptr m w v) a u
IsPtr-write_ptr m w v a u d i =
    IsPtr-write _ (w + 4) _ a u (later d) (IsPtr-write m w _ a u (sooner d) i)
  where
    later : Apart w 8 a 8 → Apart (w + 4) 4 a 8
    later (inl l) = inl (omega (arith, l))
    later (inr l) = inr (omega (arith, l))

    sooner : Apart w 8 a 8 → Apart w 4 a 8
    sooner (inl l) = inl (omega (arith, l))
    sooner (inr l) = inr (omega (arith, l))

-- A word of the heap, at a multiple of four.
pub record InHeap (start brk p : Ptr) : Type 0 where
  pub low : start ≤ p
  pub high : p + 4 ≤ brk
  pub even : p % 4 ≡ 0

inside-true : (a b p : ℕ) → a ≤ p → p + 4 ≤ b → p % 4 ≡ 0 → inside a b p ≡ true
unfolding inside
inside-true a b p x y z = ground (arith, x, y, z)

module _ (s : Arena) (m : Ptr → ℕ) (p : Ptr) where
  pub get-done :
      InHeap s.mem_start_brk s.mem_brk p → get p (with_word s m) ≡ done (m p) (with_word s m)
  unfolding get
  get-done i = rw (inside-true s.mem_start_brk s.mem_brk p i.low i.high i.even) refl

  pub put-done :
      (v : ℕ)
      → InHeap s.mem_start_brk s.mem_brk p
      → v < 4294967296
      → put p v (with_word s m) ≡ done tt (with_word s (write m p v))
  unfolding put
  put-done v i l =
      rw (inside-true s.mem_start_brk s.mem_brk p i.low i.high i.even)
        (ap (λ x. done tt (with_word s (write m p x))) (small v l))
    where
      small : (v : ℕ) → v < 4294967296 → v % 4294967296 ≡ v
      small v l = omega (arith, l)

module _ (s : Arena) (m : Ptr → ℕ) (p : Ptr) (i : InHeap s.mem_start_brk s.mem_brk p)
    (j : InHeap s.mem_start_brk s.mem_brk (p + 4)) where
  get_ptr-done : (v : Ptr) → IsPtr m p v → get_ptr p (with_word s m) ≡ done v (with_word s m)
  unfolding get_ptr
  get_ptr-done v (e, f) =
      rw (get-done s m p i, get-done s m (p + 4) j)
        (ap (λ x. done x (with_word s m)) (whole (m p) (m (p + 4)) e f))
    where
      whole : (a b : ℕ) → a ≡ v % 4294967296 → b ≡ v / 4294967296 → a + 4294967296 * b ≡ v
      whole a b e f = omega (arith, e, f)

  put_ptr-done :
      (v : Ptr)
      → v < 18446744073709551616
      → put_ptr p v (with_word s m) ≡ done tt (with_word s (write_ptr m p v))
  unfolding put_ptr put
  put_ptr-done v l =
      rw
        (
          inside-true s.mem_start_brk s.mem_brk p i.low i.high i.even,
          inside-true s.mem_start_brk s.mem_brk (p + 4) j.low j.high j.even,
        )
        (ap (λ x. done tt (with_word s (write (write m p (v % 4294967296)) (p + 4) x))) (small v l))
    where
      small : (v : ℕ) → v < 18446744073709551616 → v / 4294967296 % 4294967296 ≡ v / 4294967296
      small v l = omega (arith, l)

  module _ {B : Type 0} {Q : B → Arena → Type 0} where
    pub get_ptr_then :
        (k : Ptr → Arena → Outcome Arena B) (v : Ptr)
        → IsPtr m p v
        → Ends Q (k v (with_word s m))
        → Ends Q (continue (get_ptr p (with_word s m)) k)
    get_ptr_then k v e w = exact_then k (get_ptr-done v e) w

    pub put_ptr_then :
        (k : Unit {0} → Arena → Outcome Arena B) (v : Ptr)
        → v < 18446744073709551616
        → Ends Q (k tt (with_word s (write_ptr m p v)))
        → Ends Q (continue (put_ptr p v (with_word s m)) k)
    put_ptr_then k v l w = exact_then k (put_ptr-done v l) w

  pub put_ptr_last :
      {Q : Unit {0} → Arena → Type 0} (v : Ptr)
      → v < 18446744073709551616
      → Q tt (with_word s (write_ptr m p v))
      → Ends Q (put_ptr p v (with_word s m))
  put_ptr_last {Q} v l w = subst (Ends Q) (sym (put_ptr-done v l)) (Ends-done w)
