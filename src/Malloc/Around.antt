-- ===== src/Malloc/Around.antt =====
-- What malloc-lab/mm.c reads around a gap of the heap, and what joins with it.
use jungle_data_structures.Prelude.{
  ℕ, ◌+◌, ◌-◌, ◌*◌, ◌%◌, ◌≡◌, ◌≤◌, ◌<◌, ◌⊎◌, inl, inr, refl, subst, ◌∙◌, List, [], ◌∷◌, arith,
}
use jungle_data_structures.Malloc.Store.{Ptr}
use jungle_data_structures.Malloc.Words.{InHeap}
use jungle_data_structures.Malloc.Links.{Out, SameBut}
use jungle_data_structures.Malloc.Blocks.{
  Block, used, free, units, tag, span, Ahead, Behind, Ahead-brk, place, place-le, place-even,
}
use jungle_data_structures.Malloc.Gap.{Limits, Gap, gap_out}

-- The size of a free block at the near end, and the blocks past it.
abbrev pub free_units : List Block → ℕ
free_units [] = 0
free_units (used k c ∷ bs) = 0
free_units (free k ∷ bs) = k

abbrev pub past_free : List Block → List Block
past_free [] = []
past_free (used k c ∷ bs) = used k c ∷ bs
past_free (free k ∷ bs) = bs

abbrev pub bit_of : List Block → ℕ
bit_of [] = 1
bit_of (used k c ∷ bs) = 1
bit_of (free k ∷ bs) = 0

-- The near end is free, or nothing joins.
abbrev pub Side : List Block → Type 0
Side bs =
    ((k : ℕ) × (cs : List Block) × (bs ≡ free k ∷ cs))
    ⊎ ((bit_of bs ≡ 1) × (free_units bs ≡ 0) × (past_free bs ≡ bs))

pub side : (bs : List Block) → Side bs
side [] = inr (refl, refl, refl)
side (used k c ∷ bs) = inr (refl, refl, refl)
side (free k ∷ bs) = inl (k, bs, refl)

-- The block behind, which is the start marker if there is none.
abbrev pub prev_at : (start : Ptr) → List Block → Ptr
prev_at start [] = start + 8
prev_at start (b ∷ rs) = place start rs

abbrev pub prev_units : List Block → ℕ
prev_units [] = 1
prev_units (b ∷ rs) = units b

abbrev pub next_units : List Block → ℕ
next_units [] = 0
next_units (b ∷ bs) = units b

tag-bit : (b : Block) (bs : List Block) → tag b ≡ 8 * units b + bit_of (b ∷ bs)
tag-bit (used k c) bs = refl
tag-bit (free k) bs = omega arith

pub bit_of-lt : (bs : List Block) → bit_of bs < 8
bit_of-lt [] = omega arith
bit_of-lt (used k c ∷ bs) = omega arith
bit_of-lt (free k ∷ bs) = omega arith

pub bit_of-parity : (u : ℕ) (bs : List Block) → (8 * u + bit_of bs) % 2 ≡ bit_of bs
bit_of-parity u [] = omega arith
bit_of-parity u (used k c ∷ bs) = omega arith
bit_of-parity u (free k ∷ bs) = omega arith

module _ {start brk : Ptr} {m : Ptr → ℕ} {rs : List Block} {n : ℕ} {bs : List Block} {fl : List Ptr}
    (lim : Limits start brk) (w : Gap start brk m rs n bs fl) where
  pub gap_brk : place start rs + 8 * n + 8 * span bs ≡ brk
  gap_brk = Ahead-brk m (place start rs + 8 * n) bs brk w.ahead

  pub gap_word :
      (a : Ptr)
      → place start rs ≤ a + 8
      → a + 4 ≤ place start rs + 8 * n
      → a % 4 ≡ 0
      → InHeap start brk a
  gap_word a l h z = record {
    low = omega (arith, l, place-le start rs);
    high = omega (arith, h, gap_brk);
    even = z;
  }

  -- Words at both sides of a boundary within the gap.
  pub gap_word4 : (j a : ℕ) → j ≤ n → a + 4 ≡ place start rs + 8 * j → InHeap start brk a
  gap_word4 j a l e =
      gap_word a (omega (arith, e)) (omega (arith, e, l))
        (omega (arith, e, place-even start rs lim.even))

  pub gap_word8 : (j a : ℕ) → j ≤ n → a + 8 ≡ place start rs + 8 * j → InHeap start brk a
  gap_word8 j a l e =
      gap_word a (omega (arith, e)) (omega (arith, e, l))
        (omega (arith, e, place-even start rs lim.even))

  pub gap_small : 8 * n + 1 < 4294967296
  gap_small = omega (arith, gap_brk, lim.small, place-le start rs)

  -- The links of listed blocks do not touch the gap.
  pub gap_same :
      (g : Ptr → ℕ) (a : Ptr)
      → SameBut fl m g
      → place start rs ≤ a + 8
      → a + 4 ≤ place start rs + 8 * n
      → g a ≡ m a
  gap_same g a same l h = same a (λ q i. turn q (gap_out lim w a l h q i))
    where
      turn : (q : Ptr) → (q + 16 ≤ a) ⊎ (a + 4 ≤ q) → Out a q
      turn q (inl x) = inr x
      turn q (inr x) = inl (omega (arith, x))

module _ (start : Ptr) (m : Ptr → ℕ) where
  pub prev_footer :
      (rs : List Block) → Behind start m rs → m (place start rs - 8) ≡ 8 * prev_units rs + bit_of rs
  prev_footer [] (e, f) = subst (λ a. m a ≡ 9) at f
    where
      at : start + 8 ≡ start + 16 - 8
      at = omega arith
  prev_footer (b ∷ rs) (_, _, f, _, _) = f ∙ tag-bit b rs

  pub prev_header :
      (rs : List Block)
      → Behind start m rs
      → m (prev_at start rs - 4) ≡ 8 * prev_units rs + bit_of rs
  prev_header [] (e, f) = subst (λ a. m a ≡ 9) at e
    where
      at : start + 4 ≡ start + 8 - 4
      at = omega arith
  prev_header (b ∷ rs) (_, f, _, _, _) = f ∙ tag-bit b rs

pub next_header :
    (m : Ptr → ℕ) (p : Ptr) (bs : List Block) (brk : Ptr)
    → Ahead m p bs brk
    → m (p - 4) ≡ 8 * next_units bs + bit_of bs
next_header m p [] brk (e, f) = f
next_header m p (b ∷ bs) brk (_, f, _, _, _) = f ∙ tag-bit b bs

pub prev-place :
    (start : Ptr) (rs : List Block) → place start rs ≡ prev_at start rs + 8 * prev_units rs
prev-place start [] = omega arith
prev-place start (b ∷ rs) = refl

pub prev_at-le : (start : Ptr) (rs : List Block) → start + 8 ≤ prev_at start rs
prev_at-le start [] = omega arith
prev_at-le start (b ∷ rs) = omega (arith, place-le start rs)

pub prev_at-even : (start : Ptr) (rs : List Block) → start % 8 ≡ 0 → prev_at start rs % 8 ≡ 0
prev_at-even start [] z = omega (arith, z)
prev_at-even start (b ∷ rs) z = place-even start rs z
