-- ===== src/Malloc/Blocks.antt =====
-- The blocks into which malloc-lab/mm.c divides the heap, by the words at their ends.
use jungle_data_structures.Prelude.{
  ℕ, ◌+◌, ◌-◌, ◌*◌, ◌%◌, ◌≡◌, ◌≢◌, ◌≤◌, ◌⊎◌, inl, inr, sym, subst, ◌∙◌, List, [], ◌∷◌, arith,
}
use jungle_data_structures.Malloc.Store.{Ptr}
use jungle_data_structures.Malloc.Words.{Apart}
use jungle_data_structures.Malloc.Links.{here}

-- A block of so many times eight bytes; one in use with the words of its payload.
pub data Block : Type 0 where
  used : ℕ → (ℕ → ℕ) → Block
  free : ℕ → Block

abbrev pub units : Block → ℕ
units (used n c) = n
units (free n) = n

-- The word at both ends.
abbrev pub tag : Block → ℕ
tag (used n c) = 8 * n + 1
tag (free n) = 8 * n

abbrev pub span : List Block → ℕ
span [] = 0
span (b ∷ bs) = units b + span bs

-- The payload of a block in use stands in memory.
abbrev pub Holds : (Ptr → ℕ) → (p : Ptr) → Block → Type 0
Holds m p (used n c) = (i : ℕ) → i + 3 ≤ 2 * n → m (p + 4 * i) ≡ c i
Holds m p (free n) = Unit {0}

-- The blocks from `p` on, behind whose last the end marker stands; `brk` is the end of the heap.
abbrev pub Ahead : (Ptr → ℕ) → (p : Ptr) → List Block → (brk : Ptr) → Type 0
Ahead m p [] brk = (p ≡ brk) × (m (p - 4) ≡ 1)
Ahead m p (b ∷ bs) brk =
    (3 ≤ units b)
    × (m (p - 4) ≡ tag b)
    × (m (p + 8 * units b - 8) ≡ tag b)
    × Holds m p b
    × Ahead m (p + 8 * units b) bs brk

-- The address behind the blocks `rs`, the nearest first, of a heap from `start` on.
abbrev pub place : (start : Ptr) → List Block → Ptr
place start [] = start + 16
place start (b ∷ rs) = place start rs + 8 * units b

-- These blocks, down to the start marker.
abbrev pub Behind : (start : Ptr) → (Ptr → ℕ) → List Block → Type 0
Behind start m [] = (m (start + 4) ≡ 9) × (m (start + 8) ≡ 9)
Behind start m (b ∷ rs) =
    (3 ≤ units b)
    × (m (place start rs - 4) ≡ tag b)
    × (m (place start rs + 8 * units b - 8) ≡ tag b)
    × Holds m (place start rs) b
    × Behind start m rs

-- How often an address is that of a free block.
abbrev pub free_here : Ptr → Ptr → Block → ℕ
free_here q p (used n c) = 0
free_here q p (free n) = here p q

abbrev pub frees : Ptr → Ptr → List Block → ℕ
frees q p [] = 0
frees q p (b ∷ bs) = free_here q p b + frees q (p + 8 * units b) bs

abbrev pub frees_behind : (start q : Ptr) → List Block → ℕ
frees_behind start q [] = 0
frees_behind start q (b ∷ rs) = free_here q (place start rs) b + frees_behind start q rs

pub free_here-eq : (q p : Ptr) (b : Block) → 1 ≤ free_here q p b → q ≡ p
free_here-eq q p (used n c) i = absurd (omega (arith, i))
free_here-eq q p (free n) i = ground (arith, i)

pub free_here-le : (q p : Ptr) (b : Block) → free_here q p b ≤ 1
free_here-le q p (used n c) = omega arith
free_here-le q p (free n) = ground arith

pub one_of : (a b : ℕ) → 1 ≤ a + b → (1 ≤ a) ⊎ (1 ≤ b)
one_of a b l = omega (arith, l)

pub Ahead-brk :
    (m : Ptr → ℕ) (p : Ptr) (bs : List Block) (brk : Ptr) → Ahead m p bs brk → p + 8 * span bs ≡ brk
Ahead-brk m p [] brk (e, _) = omega (arith, e)
Ahead-brk m p (b ∷ bs) brk (_, _, _, _, w) = omega (arith, Ahead-brk m (p + 8 * units b) bs brk w)

-- Where free blocks are.
pub frees-bounds :
    (m : Ptr → ℕ) (q p : Ptr) (bs : List Block) (brk : Ptr)
    → Ahead m p bs brk
    → 1 ≤ frees q p bs
    → (p ≤ q) × (q + 24 ≤ brk)
frees-bounds m q p [] brk w i = absurd (omega (arith, i))
frees-bounds m q p (b ∷ bs) brk (l, _, _, _, w) i =
    elim (one_of (free_here q p b) (frees q (p + 8 * units b) bs) i) [
      | inl j ↦
          let e = free_here-eq q p b j in
          (omega (arith, e), omega (arith, e, l, Ahead-brk m (p + 8 * units b) bs brk w))
      | inr j ↦ let (x, y) = frees-bounds m q (p + 8 * units b) bs brk w j in (omega (arith, x), y)
    ]

pub place-le : (start : Ptr) (rs : List Block) → start + 16 ≤ place start rs
place-le start [] = omega arith
place-le start (b ∷ rs) = omega (arith, place-le start rs)

pub frees_behind-bounds :
    (m : Ptr → ℕ) (start q : Ptr) (rs : List Block)
    → Behind start m rs
    → 1 ≤ frees_behind start q rs
    → (start + 16 ≤ q) × (q + 24 ≤ place start rs)
frees_behind-bounds m start q [] w i = absurd (omega (arith, i))
frees_behind-bounds m start q (b ∷ rs) (l, _, _, _, w) i =
    elim (one_of (free_here q (place start rs) b) (frees_behind start q rs) i) [
      | inl j ↦
          let e = free_here-eq q (place start rs) b j in
          (omega (arith, e, place-le start rs), omega (arith, e, l))
      | inr j ↦ let (x, y) = frees_behind-bounds m start q rs w j in (x, omega (arith, y))
    ]

-- Free blocks do not overlap, and stand at multiples of eight.
pub frees-Apart :
    (m : Ptr → ℕ) (q r p : Ptr) (bs : List Block) (brk : Ptr)
    → Ahead m p bs brk
    → 1 ≤ frees q p bs
    → 1 ≤ frees r p bs
    → q ≢ r
    → Apart q 24 r 24
frees-Apart m q r p [] brk w i j ne = absurd (omega (arith, i))
frees-Apart m q r p (b ∷ bs) brk (l, _, _, _, w) i j ne =
    elim (one_of (free_here q p b) (frees q (p + 8 * units b) bs) i) [
      | inl i1 ↦ elim (one_of (free_here r p b) (frees r (p + 8 * units b) bs) j) [
        | inl j1 ↦ absurd (ne (free_here-eq q p b i1 ∙ sym (free_here-eq r p b j1)))
        | inr j2 ↦
            let (x, _) = frees-bounds m r (p + 8 * units b) bs brk w j2 in
            inl (omega (arith, free_here-eq q p b i1, x, l))
      ]
      | inr i2 ↦ elim (one_of (free_here r p b) (frees r (p + 8 * units b) bs) j) [
        | inl j1 ↦
            let (x, _) = frees-bounds m q (p + 8 * units b) bs brk w i2 in
            inr (omega (arith, free_here-eq r p b j1, x, l))
        | inr j2 ↦ frees-Apart m q r (p + 8 * units b) bs brk w i2 j2 ne
      ]
    ]

pub frees-once :
    (m : Ptr → ℕ) (q p : Ptr) (bs : List Block) (brk : Ptr) → Ahead m p bs brk → frees q p bs ≤ 1
frees-once m q p [] brk w = omega arith
frees-once m q p (b ∷ bs) brk (l, _, _, _, w) = elim (some_free (frees q (p + 8 * units b) bs)) [
  | inl z ↦ omega (arith, z, free_here-le q p b)
  | inr i ↦ elim (some_free (free_here q p b)) [
    | inl z ↦ omega (arith, z, frees-once m q (p + 8 * units b) bs brk w)
    | inr j ↦
        let (x, _) = frees-bounds m q (p + 8 * units b) bs brk w i in
        absurd (omega (arith, x, free_here-eq q p b j, l))
  ]
]
  where
    some_free : (a : ℕ) → (a ≡ 0) ⊎ (1 ≤ a)
    some_free a = omega arith

pub frees-even : (q p : Ptr) (bs : List Block) → p % 8 ≡ 0 → 1 ≤ frees q p bs → q % 8 ≡ 0
frees-even q p [] z i = absurd (omega (arith, i))
frees-even q p (b ∷ bs) z i = elim (one_of (free_here q p b) (frees q (p + 8 * units b) bs) i) [
  | inl j ↦ subst (λ q. q % 8 ≡ 0) (sym (free_here-eq q p b j)) z
  | inr j ↦ frees-even q (p + 8 * units b) bs (omega (arith, z)) j
]

pub place-even : (start : Ptr) (rs : List Block) → start % 8 ≡ 0 → place start rs % 8 ≡ 0
place-even start [] z = omega (arith, z)
place-even start (b ∷ rs) z = omega (arith, place-even start rs z)
