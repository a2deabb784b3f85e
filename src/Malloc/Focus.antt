-- ===== src/Malloc/Focus.antt =====
-- The heap of malloc-lab/mm.c seen from one of its blocks.
use jungle_data_structures.Prelude.{
  ℕ, ◌+◌, ◌-◌, ◌*◌, ◌≡◌, ◌≤◌, inl, inr, refl, subst, ap, List, [], ◌∷◌, arith,
}
use jungle_data_structures.Malloc.Store.{Ptr}
use jungle_data_structures.Malloc.Links.{occurs}
use jungle_data_structures.Malloc.Blocks.{
  Block, used, free, Holds, units, tag, Ahead, place, free_here, free_here-eq, frees, frees_behind,
  one_of,
}
use jungle_data_structures.Malloc.Fill.{IsTagged}
use jungle_data_structures.Malloc.Gap.{Gap}

module _ {start brk : Ptr} {m : Ptr → ℕ} {rs : List Block} {bs : List Block} {fl : List Ptr} where
  -- A block in use takes the first part of a gap.
  pub take_used :
      (a c : ℕ) (d : ℕ → ℕ)
      → 3 ≤ a
      → IsTagged m (place start rs) a (8 * a + 1)
      → Holds m (place start rs) (used a d)
      → Gap start brk m rs (a + c) bs fl
      → Gap start brk m (used a d ∷ rs) c bs fl
  take_used a c d l (e, f) h w = record {
    behind = (l, e, f, h, w.behind);
    ahead = subst (λ p. Ahead m p bs brk) joined w.ahead;
    linked = w.linked;
    listed = λ q.
        subst (λ p. occurs q fl ≡ 0 + frees_behind start q rs + frees q p bs) joined
          (more (occurs q fl) (frees_behind start q rs) (frees q (place start rs + 8 * (a + c)) bs)
            (w.listed q));
  }
    where
      joined : place start rs + 8 * (a + c) ≡ place start rs + 8 * a + 8 * c
      joined = omega arith

      more : (x y z : ℕ) → x ≡ y + z → x ≡ 0 + y + z
      more x y z e = omega (arith, e)

  pub step_back : (b : Block) → Gap start brk m (b ∷ rs) 0 bs fl → Gap start brk m rs 0 (b ∷ bs) fl
  step_back b w =
      let (l, e, f, h, v) = w.behind in
      record {
        behind = v;
        ahead = (
          l,
          subst (λ p. m (p - 4) ≡ tag b) zero_more e,
          subst (λ p. m (p + 8 * units b - 8) ≡ tag b) zero_more f,
          subst (λ p. Holds m p b) zero_more h,
          subst (λ p. Ahead m p bs brk) joined w.ahead,
        );
        linked = w.linked;
        listed = λ q.
            moved (occurs q fl) _ _ _ _ _ (w.listed q) (ap (λ p. free_here q p b) zero_more)
              (ap (λ p. frees q p bs) joined);
      }
    where
      zero_more : place start rs ≡ place start rs + 8 * 0
      zero_more = omega arith

      joined : place start rs + 8 * units b + 8 * 0 ≡ place start rs + 8 * 0 + 8 * units b
      joined = omega arith

      moved : (x a r c a1 c1 : ℕ) → x ≡ a + r + c → a ≡ a1 → c ≡ c1 → x ≡ r + (a1 + c1)
      moved x a r c a1 c1 e f g = omega (arith, e, f, g)

  pub step_on : (b : Block) → Gap start brk m rs 0 (b ∷ bs) fl → Gap start brk m (b ∷ rs) 0 bs fl
  step_on b w =
      let (l, e, f, h, v) = w.ahead in
      record {
        behind = (
          l,
          subst (λ p. m (p - 4) ≡ tag b) zero_more e,
          subst (λ p. m (p + 8 * units b - 8) ≡ tag b) zero_more f,
          subst (λ p. Holds m p b) zero_more h,
          w.behind,
        );
        ahead = subst (λ p. Ahead m p bs brk) joined v;
        linked = w.linked;
        listed = λ q.
            moved (occurs q fl) _ _ _ _ _ (w.listed q) (ap (λ p. free_here q p b) zero_more)
              (ap (λ p. frees q p bs) joined);
      }
    where
      zero_more : place start rs + 8 * 0 ≡ place start rs
      zero_more = omega arith

      joined : place start rs + 8 * 0 + 8 * units b ≡ place start rs + 8 * units b + 8 * 0
      joined = omega arith

      moved : (x a r c a1 c1 : ℕ) → x ≡ r + (a + c) → a ≡ a1 → c ≡ c1 → x ≡ a1 + r + c1
      moved x a r c a1 c1 e f g = omega (arith, e, f, g)

-- The blocks of the heap in the order of their addresses.
abbrev pub heap_blocks : (rs bs : List Block) → List Block
heap_blocks [] bs = bs
heap_blocks (b ∷ rs) bs = heap_blocks rs (b ∷ bs)

pub rewind :
    {start brk : Ptr} {m : Ptr → ℕ} {fl : List Ptr} (rs bs : List Block)
    → Gap start brk m rs 0 bs fl
    → Gap start brk m [] 0 (heap_blocks rs bs) fl
rewind [] bs w = w
rewind (b ∷ rs) bs w = rewind rs (b ∷ bs) (step_back b w)

-- A free block of the heap, found by its address.
abbrev pub Found : (start brk : Ptr) → (Ptr → ℕ) → List Ptr → Ptr → List Block → Type 0
Found start brk m fl q hs =
    (rs : List Block) × (k : ℕ) × (bs : List Block) × (q ≡ place start rs)
    × (heap_blocks rs (free k ∷ bs) ≡ hs)
    × Gap start brk m rs 0 (free k ∷ bs) fl

module _ {start brk : Ptr} {m : Ptr → ℕ} {fl : List Ptr} (q : Ptr) where
  pub find_ahead :
      (rs bs : List Block)
      → Gap start brk m rs 0 bs fl
      → 1 ≤ frees q (place start rs) bs
      → Found start brk m fl q (heap_blocks rs bs)
  find_ahead rs [] w i = absurd (omega (arith, i))
  find_ahead rs (used k c ∷ bs) w i =
      find_ahead (used k c ∷ rs) bs (step_on (used k c) w) (omega (arith, i))
  find_ahead rs (free k ∷ bs) w i =
      elim (one_of (free_here q (place start rs) (free k)) (frees q (place start rs + 8 * k) bs)
        i) [
          | inl j ↦ (rs, k, bs, free_here-eq q (place start rs) (free k) j, refl, w)
          | inr j ↦ find_ahead (free k ∷ rs) bs (step_on (free k) w) j
        ]

  -- Every block of the free list is a free block of the heap.
  pub find_listed :
      (bs : List Block) → Gap start brk m [] 0 bs fl → 1 ≤ occurs q fl → Found start brk m fl q bs
  find_listed bs w i =
      find_ahead [] bs w (subst (λ p. 1 ≤ frees q p bs) zero_more (omega (arith, i, w.listed q)))
    where
      zero_more : start + 16 + 8 * 0 ≡ start + 16
      zero_more = omega arith

-- The heap seen from its end.
pub unwind :
    {start brk : Ptr} {m : Ptr → ℕ} {fl : List Ptr} (rs bs : List Block)
    → Gap start brk m rs 0 bs fl
    → (ts : List Block) × (heap_blocks ts [] ≡ heap_blocks rs bs) × Gap start brk m ts 0 [] fl
unwind rs [] w = (rs, refl, w)
unwind rs (b ∷ bs) w = unwind (b ∷ rs) bs (step_on b w)
