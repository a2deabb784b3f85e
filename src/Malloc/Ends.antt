-- ===== src/Malloc/Ends.antt =====
-- The words at the ends of blocks and in their payload (malloc-lab/mm.c), which the links of free blocks
-- leave alone.
use jungle_data_structures.Prelude.{
  ◌≢◌, ◌+◌, ◌-◌, ◌*◌, ◌%◌, ◌≡◌, ◌≤◌, ◌⊎◌, inl, inr, refl, sym, subst, ◌∙◌, List, [], ◌∷◌, ℕ, arith,
}
use jungle_data_structures.Malloc.Store.{Ptr}
use jungle_data_structures.Malloc.Links.{Out}
use jungle_data_structures.Malloc.Words.{Apart}
use jungle_data_structures.Malloc.Blocks.{
  Block, used, free, Holds, units, Ahead, Behind, place, place-le, place-even, free_here,
  free_here-eq, free_here-le, frees, frees_behind, one_of, frees-bounds, frees_behind-bounds,
}

-- A word of the payload of a block in use.
abbrev pub InPayload : (a p : Ptr) → Block → Type 0
InPayload a p (used n c) = (i : ℕ) × (i + 3 ≤ 2 * n) × (a ≡ p + 4 * i)
InPayload a p (free n) = ⊥

pub InPayload-bounds :
    (a p : Ptr) (b : Block) → InPayload a p b → (p ≤ a) × (a + 12 ≤ p + 8 * units b)
InPayload-bounds a p (used n c) (i, l, e) = (omega (arith, e), omega (arith, e, l))
InPayload-bounds a p (free n) e = elim e [ ]

Holds-same :
    (m g : Ptr → ℕ) (p : Ptr) (b : Block)
    → ((a : Ptr) → InPayload a p b → g a ≡ m a)
    → Holds m p b
    → Holds g p b
Holds-same m g p (used n c) same h = λ i l. same (p + 4 * i) (i, l, refl) ∙ h i l
Holds-same m g p (free n) same h = tt

-- The words that blocks rest on: their ends, and the payload of those in use.
abbrev pub EndAhead : Ptr → Ptr → List Block → Type 0
EndAhead a p [] = a ≡ p - 4
EndAhead a p (b ∷ bs) =
    (a ≡ p - 4) ⊎ ((a ≡ p + 8 * units b - 8) ⊎ (InPayload a p b ⊎ EndAhead a (p + 8 * units b) bs))

abbrev pub EndBehind : Ptr → Ptr → List Block → Type 0
EndBehind start a [] = (a ≡ start + 4) ⊎ (a ≡ start + 8)
EndBehind start a (b ∷ rs) =
    (a ≡ place start rs - 4)
    ⊎ ((a ≡ place start rs + 8 * units b - 8)
        ⊎ (InPayload a (place start rs) b ⊎ EndBehind start a rs))

module _ (m g : Ptr → ℕ) where
  pub Ahead-same :
      (p : Ptr) (bs : List Block) (brk : Ptr)
      → ((a : Ptr) → EndAhead a p bs → g a ≡ m a)
      → Ahead m p bs brk
      → Ahead g p bs brk
  Ahead-same p [] brk same (e, f) = (e, same (p - 4) refl ∙ f)
  Ahead-same p (b ∷ bs) brk same (l, e, f, c, w) = (
    l,
    same (p - 4) (inl refl) ∙ e,
    same (p + 8 * units b - 8) (inr (inl refl)) ∙ f,
    Holds-same m g p b (λ a i. same a (inr (inr (inl i)))) c,
    Ahead-same (p + 8 * units b) bs brk (λ a i. same a (inr (inr (inr i)))) w,
  )

  pub Behind-same :
      (start : Ptr) (rs : List Block)
      → ((a : Ptr) → EndBehind start a rs → g a ≡ m a)
      → Behind start m rs
      → Behind start g rs
  Behind-same start [] same (e, f) =
      (same (start + 4) (inl refl) ∙ e, same (start + 8) (inr refl) ∙ f)
  Behind-same start (b ∷ rs) same (l, e, f, c, w) = (
    l,
    same (place start rs - 4) (inl refl) ∙ e,
    same (place start rs + 8 * units b - 8) (inr (inl refl)) ∙ f,
    Holds-same m g (place start rs) b (λ a i. same a (inr (inr (inl i)))) c,
    Behind-same start rs (λ a i. same a (inr (inr (inr i)))) w,
  )

-- Where the ends are.
pub EndAhead-le :
    (m : Ptr → ℕ) (a p : Ptr) (bs : List Block) (brk : Ptr)
    → 8 ≤ p
    → Ahead m p bs brk
    → EndAhead a p bs
    → p ≤ a + 4
EndAhead-le m a p [] brk h w e = omega (arith, e)
EndAhead-le m a p (b ∷ bs) brk h w (inl e) = omega (arith, e)
EndAhead-le m a p (b ∷ bs) brk h (l, _, _, _, w) (inr (inl e)) = omega (arith, e, l)
EndAhead-le m a p (b ∷ bs) brk h (l, _, _, _, w) (inr (inr (inl i))) =
    let (x, _) = InPayload-bounds a p b i in omega (arith, x)
EndAhead-le m a p (b ∷ bs) brk h (l, _, _, _, w) (inr (inr (inr i))) =
    omega (arith, EndAhead-le m a (p + 8 * units b) bs brk (omega (arith, h)) w i)

pub EndBehind-le :
    (m : Ptr → ℕ) (start a : Ptr) (rs : List Block)
    → Behind start m rs
    → EndBehind start a rs
    → a + 8 ≤ place start rs
EndBehind-le m start a [] w (inl e) = omega (arith, e)
EndBehind-le m start a [] w (inr e) = omega (arith, e)
EndBehind-le m start a (b ∷ rs) (l, _, _, _, w) (inl e) = omega (arith, e, l, place-le start rs)
EndBehind-le m start a (b ∷ rs) (l, _, _, _, w) (inr (inl e)) =
    omega (arith, e, l, place-le start rs)
EndBehind-le m start a (b ∷ rs) (l, _, _, _, w) (inr (inr (inl i))) =
    let (_, y) = InPayload-bounds a (place start rs) b i in omega (arith, y)
EndBehind-le m start a (b ∷ rs) (l, _, _, _, w) (inr (inr (inr i))) =
    omega (arith, EndBehind-le m start a rs w i)

pub EndBehind-ge : (start a : Ptr) (rs : List Block) → EndBehind start a rs → start + 4 ≤ a
EndBehind-ge start a [] (inl e) = omega (arith, e)
EndBehind-ge start a [] (inr e) = omega (arith, e)
EndBehind-ge start a (b ∷ rs) (inl e) = omega (arith, e, place-le start rs)
EndBehind-ge start a (b ∷ rs) (inr (inl e)) = omega (arith, e, place-le start rs)
EndBehind-ge start a (b ∷ rs) (inr (inr (inl i))) =
    let (x, _) = InPayload-bounds a (place start rs) b i in omega (arith, x, place-le start rs)
EndBehind-ge start a (b ∷ rs) (inr (inr (inr i))) = EndBehind-ge start a rs i

-- A block with a payload is not free.
InPayload-free_here : (a q p : Ptr) (b : Block) → InPayload a p b → 1 ≤ free_here q p b → ⊥
InPayload-free_here a q p (used n c) e j = omega (arith, j)
InPayload-free_here a q p (free n) e j = elim e [ ]

-- No end lies in the links of a free block.
pub EndAhead-Out :
    (m : Ptr → ℕ) (a q p : Ptr) (bs : List Block) (brk : Ptr)
    → 8 ≤ p
    → Ahead m p bs brk
    → EndAhead a p bs
    → 1 ≤ frees q p bs
    → Out a q
EndAhead-Out m a q p [] brk h w e i = absurd (omega (arith, i))
EndAhead-Out m a q p (b ∷ bs) brk h (l, _, _, _, w) e i =
    elim (one_of (free_here q p b) (frees q (p + 8 * units b) bs) i) [
      | inl j ↦ head_free e j (free_here-eq q p b j)
      | inr j ↦ tail_free (EndAhead-Out m a q (p + 8 * units b) bs brk (omega (arith, h)) w) e j
    ]
  where
    head_free : EndAhead a p (b ∷ bs) → 1 ≤ free_here q p b → q ≡ p → Out a q
    head_free (inl e) j t = inl (omega (arith, e, t, h))
    head_free (inr (inl e)) j t = inr (omega (arith, e, t, l))
    head_free (inr (inr (inl e))) j t = absurd (InPayload-free_here a q p b e j)
    head_free (inr (inr (inr e))) j t =
        inr (omega (arith, t, l, EndAhead-le m a (p + 8 * units b) bs brk (omega (arith, h)) w e))

    tail_free :
        (EndAhead a (p + 8 * units b) bs → 1 ≤ frees q (p + 8 * units b) bs → Out a q)
        → EndAhead a p (b ∷ bs)
        → 1 ≤ frees q (p + 8 * units b) bs
        → Out a q
    tail_free ih (inl e) j =
        let (x, _) = frees-bounds m q (p + 8 * units b) bs brk w j in inl (omega (arith, e, x, h))
    tail_free ih (inr (inl e)) j =
        let (x, _) = frees-bounds m q (p + 8 * units b) bs brk w j in inl (omega (arith, e, x, l))
    tail_free ih (inr (inr (inl e))) j =
        let (x, _) = frees-bounds m q (p + 8 * units b) bs brk w j in
        let (_, y) = InPayload-bounds a p b e in inl (omega (arith, x, y))
    tail_free ih (inr (inr (inr e))) j = ih e j

pub EndBehind-Out :
    (m : Ptr → ℕ) (start a q : Ptr) (rs : List Block)
    → Behind start m rs
    → EndBehind start a rs
    → 1 ≤ frees_behind start q rs
    → Out a q
EndBehind-Out m start a q [] w e i = absurd (omega (arith, i))
EndBehind-Out m start a q (b ∷ rs) (l, _, _, _, w) e i =
    elim (one_of (free_here q (place start rs) b) (frees_behind start q rs) i) [
      | inl j ↦ head_free e j (free_here-eq q (place start rs) b j)
      | inr j ↦ tail_free (EndBehind-Out m start a q rs w) e j
    ]
  where
    head_free :
        EndBehind start a (b ∷ rs)
        → 1 ≤ free_here q (place start rs) b
        → q ≡ place start rs
        → Out a q
    head_free (inl e) j t = inl (omega (arith, e, t, place-le start rs))
    head_free (inr (inl e)) j t = inr (omega (arith, e, t, l))
    head_free (inr (inr (inl e))) j t = absurd (InPayload-free_here a q (place start rs) b e j)
    head_free (inr (inr (inr e))) j t = inl (omega (arith, t, EndBehind-le m start a rs w e))

    tail_free :
        (EndBehind start a rs → 1 ≤ frees_behind start q rs → Out a q)
        → EndBehind start a (b ∷ rs)
        → 1 ≤ frees_behind start q rs
        → Out a q
    tail_free ih (inl e) j =
        let (_, y) = frees_behind-bounds m start q rs w j in inr (omega (arith, e, y))
    tail_free ih (inr (inl e)) j =
        let (_, y) = frees_behind-bounds m start q rs w j in inr (omega (arith, e, y, l))
    tail_free ih (inr (inr (inl e))) j =
        let (_, y) = frees_behind-bounds m start q rs w j in
        let (x, _) = InPayload-bounds a (place start rs) b e in inr (omega (arith, x, y))
    tail_free ih (inr (inr (inr e))) j = ih e j

pub frees_behind-even :
    (start q : Ptr) (rs : List Block) → start % 8 ≡ 0 → 1 ≤ frees_behind start q rs → q % 8 ≡ 0
frees_behind-even start q [] z i = absurd (omega (arith, i))
frees_behind-even start q (b ∷ rs) z i =
    elim (one_of (free_here q (place start rs) b) (frees_behind start q rs) i) [
      | inl j ↦
          subst (λ q. q % 8 ≡ 0) (sym (free_here-eq q (place start rs) b j)) (place-even start rs z)
      | inr j ↦ frees_behind-even start q rs z j
    ]

-- Free blocks behind do not overlap.
pub frees_behind-Apart :
    (m : Ptr → ℕ) (start q r : Ptr) (rs : List Block)
    → Behind start m rs
    → 1 ≤ frees_behind start q rs
    → 1 ≤ frees_behind start r rs
    → q ≢ r
    → Apart q 24 r 24
frees_behind-Apart m start q r [] w i j ne = absurd (omega (arith, i))
frees_behind-Apart m start q r (b ∷ rs) (l, _, _, _, w) i j ne =
    elim (one_of (free_here q (place start rs) b) (frees_behind start q rs) i) [
      | inl i1 ↦ elim (one_of (free_here r (place start rs) b) (frees_behind start r rs) j) [
        | inl j1 ↦
            absurd (
              ne
                (free_here-eq q (place start rs) b i1 ∙ sym (free_here-eq r (place start rs) b j1)))
        | inr j2 ↦
            let (_, y) = frees_behind-bounds m start r rs w j2 in
            inr (omega (arith, free_here-eq q (place start rs) b i1, y))
      ]
      | inr i2 ↦ elim (one_of (free_here r (place start rs) b) (frees_behind start r rs) j) [
        | inl j1 ↦
            let (_, y) = frees_behind-bounds m start q rs w i2 in
            inl (omega (arith, free_here-eq r (place start rs) b j1, y))
        | inr j2 ↦ frees_behind-Apart m start q r rs w i2 j2 ne
      ]
    ]

pub frees_behind-once :
    (m : Ptr → ℕ) (start q : Ptr) (rs : List Block)
    → Behind start m rs
    → frees_behind start q rs ≤ 1
frees_behind-once m start q [] w = omega arith
frees_behind-once m start q (b ∷ rs) (l, _, _, _, w) = elim (some_free (frees_behind start q rs)) [
  | inl z ↦ omega (arith, z, free_here-le q (place start rs) b)
  | inr i ↦ elim (some_free (free_here q (place start rs) b)) [
    | inl z ↦ omega (arith, z, frees_behind-once m start q rs w)
    | inr j ↦
        let (_, y) = frees_behind-bounds m start q rs w i in
        absurd (omega (arith, y, free_here-eq q (place start rs) b j, l))
  ]
]
  where
    some_free : (a : ℕ) → (a ≡ 0) ⊎ (1 ≤ a)
    some_free a = omega arith
