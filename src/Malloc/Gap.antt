-- ===== src/Malloc/Gap.antt =====
-- The heap of malloc-lab/mm.c with a gap: blocks behind it and ahead of it, all whose free ones are in
-- the free list, and a stretch between them that has no block.
use jungle_data_structures.Prelude.{
  ℕ, ◌+◌, ◌*◌, ◌%◌, ◌≡◌, ◌≢◌, ◌≤◌, ◌<◌, ◌⊎◌, inl, inr, sym, subst, ◌∙◌, List, ◌∷◌, arith,
}
use native.Mathlib.Decide.{ℕ_discrete}
use jungle_data_structures.Malloc.Store.{Ptr, null}
use jungle_data_structures.Malloc.Words.{Apart}
use jungle_data_structures.Malloc.Links.{here, here_self, here_ne, occurs, Linked, Space, Out}
use jungle_data_structures.Malloc.Blocks.{
  Block, Ahead, Behind, place, place-le, place-even, span, frees, frees_behind, frees-bounds,
  frees_behind-bounds, frees-once, frees-Apart, frees-even, one_of, Ahead-brk,
}
use jungle_data_structures.Malloc.Ends.{
  EndAhead, EndBehind, EndAhead-le, EndBehind-le, EndAhead-Out, EndBehind-Out, frees_behind-even,
  frees_behind-Apart, frees_behind-once,
}

-- The heap starts at a multiple of eight and is smaller than 2 GiB.
pub record Limits (start brk : Ptr) : Type 0 where
  pub even : start % 8 ≡ 0
  pub positive : 0 < start
  pub small : brk ≤ start + 2147483648
  pub narrow : brk < 18446744073709551616

pub record Gap (start brk : Ptr) (m : Ptr → ℕ) (rs : List Block) (n : ℕ) (bs : List Block)
    (fl : List Ptr) : Type 0 where
  pub behind : Behind start m rs
  pub ahead : Ahead m (place start rs + 8 * n) bs brk
  pub linked : Linked m null fl null
  pub listed :
      (q : Ptr) → occurs q fl ≡ frees_behind start q rs + frees q (place start rs + 8 * n) bs

module _ {start brk : Ptr} {m : Ptr → ℕ} {rs : List Block} {n : ℕ} {bs : List Block} {fl : List Ptr}
    (lim : Limits start brk) (w : Gap start brk m rs n bs fl) where
  -- A listed block is behind the gap or ahead of it.
  pub listed_side :
      (q : Ptr)
      → 1 ≤ occurs q fl
      → ((1 ≤ frees_behind start q rs) × (start + 16 ≤ q) × (q + 24 ≤ place start rs))
        ⊎ ((1 ≤ frees q (place start rs + 8 * n) bs)
            × (place start rs + 8 * n ≤ q)
            × (q + 24 ≤ brk))
  listed_side q i =
      elim (one_of (frees_behind start q rs) (frees q (place start rs + 8 * n) bs)
        (omega (arith, i, w.listed q))) [
          | inl j ↦ let (x, y) = frees_behind-bounds m start q rs w.behind j in inl (j, x, y)
          | inr j ↦
              let (x, y) = frees-bounds m q (place start rs + 8 * n) bs brk w.ahead j in
              inr (j, x, y)
        ]

  gap_brk : place start rs + 8 * n + 8 * span bs ≡ brk
  gap_brk = Ahead-brk m (place start rs + 8 * n) bs brk w.ahead

  place_in : 3 ≤ n → (start + 16 ≤ place start rs) × (place start rs + 24 ≤ brk)
  place_in l = (place-le start rs, omega (arith, gap_brk, l))

  pub member :
      (q : Ptr)
      → 1 ≤ here (place start rs) q + occurs q fl
      → (q ≡ place start rs) ⊎ (1 ≤ occurs q fl)
  member q i = elim (ℕ_discrete q (place start rs)) [
    | yes e ↦ inl e
    | no ne ↦ inr (omega (arith, i, here_ne (place start rs) q ne))
  ]

  pub listed_in : (q : Ptr) → 1 ≤ occurs q fl → (start + 16 ≤ q) × (q + 24 ≤ brk) × (q % 8 ≡ 0)
  listed_in q i = elim (listed_side q i) [
    | inl (j, x, y) ↦ (x, omega (arith, y, gap_brk), frees_behind-even start q rs lim.even j)
    | inr (j, x, y) ↦ (
      omega (arith, x, place-le start rs),
      y,
      frees-even q (place start rs + 8 * n) bs (omega (arith, place-even start rs lim.even)) j,
    )
  ]

  block_in :
      3 ≤ n
      → (q : Ptr) → 1 ≤ here (place start rs) q + occurs q fl
      → (start + 16 ≤ q) × (q + 24 ≤ brk) × (q % 8 ≡ 0)
  block_in l q i = elim (member q i) [
    | inl e ↦
        subst (λ q. (start + 16 ≤ q) × (q + 24 ≤ brk) × (q % 8 ≡ 0)) (sym e)
          ((place_in l).0, (place_in l).1, place-even start rs lim.even)
    | inr j ↦ listed_in q j
  ]

  place-Apart : 3 ≤ n → (r : Ptr) → 1 ≤ occurs r fl → Apart (place start rs) 16 r 16
  place-Apart l r i = elim (listed_side r i) [
    | inl (j, x, y) ↦ inr (omega (arith, y))
    | inr (j, x, y) ↦ inl (omega (arith, x, l))
  ]

  Apart-swap : (p q : Ptr) → Apart p 16 q 16 → Apart q 16 p 16
  Apart-swap p q (inl l) = inr l
  Apart-swap p q (inr l) = inl l

  Apart-less : (p q : Ptr) → Apart p 24 q 24 → Apart p 16 q 16
  Apart-less p q (inl l) = inl (omega (arith, l))
  Apart-less p q (inr l) = inr (omega (arith, l))

  listed-Apart : (q r : Ptr) → 1 ≤ occurs q fl → 1 ≤ occurs r fl → q ≢ r → Apart q 16 r 16
  listed-Apart q r i j ne = elim (listed_side q i) [
    | inl (i1, a, b) ↦ elim (listed_side r j) [
      | inl (j1, c, d) ↦ Apart-less q r (frees_behind-Apart m start q r rs w.behind i1 j1 ne)
      | inr (j1, c, d) ↦ inl (omega (arith, b, c))
    ]
    | inr (i1, a, b) ↦ elim (listed_side r j) [
      | inl (j1, c, d) ↦ inr (omega (arith, a, d))
      | inr (j1, c, d) ↦
          Apart-less q r (frees-Apart m q r (place start rs + 8 * n) bs brk w.ahead i1 j1 ne)
    ]
  ]

  listed_once : (q : Ptr) → occurs q fl ≤ 1
  listed_once q = elim (ℕ_discrete (frees q (place start rs + 8 * n) bs) 0) [
    | yes z ↦ omega (arith, z, w.listed q, frees_behind-once m start q rs w.behind)
    | no nz ↦ elim (ℕ_discrete (frees_behind start q rs) 0) [
      | yes z ↦ omega (arith, z, w.listed q, frees-once m q (place start rs + 8 * n) bs brk w.ahead)
      | no mz ↦
          let (_, y) = frees_behind-bounds m start q rs w.behind (at_least _ mz) in
          let (x, _) = frees-bounds m q (place start rs + 8 * n) bs brk w.ahead (at_least _ nz) in
          absurd (omega (arith, x, y))
    ]
  ]
    where
      at_least : (a : ℕ) → a ≢ 0 → 1 ≤ a
      at_least a ne = omega (arith, ne)

  place_unlisted : 3 ≤ n → occurs (place start rs) fl ≡ 0
  place_unlisted l = elim (ℕ_discrete (occurs (place start rs) fl) 0) [
    | yes z ↦ z
    | no nz ↦ elim (listed_side (place start rs) (at_least _ nz)) [
      | inl (j, x, y) ↦ absurd (omega (arith, y))
      | inr (j, x, y) ↦ absurd (omega (arith, x, l))
    ]
  ]
    where
      at_least : (a : ℕ) → a ≢ 0 → 1 ≤ a
      at_least a ne = omega (arith, ne)

  pub gap_Space : 3 ≤ n → Space start brk (place start rs ∷ fl)
  gap_Space l = record {
    positive = λ q i. let (a, b, c) = block_in l q i in omega (arith, a);
    low = λ q i. let (a, b, c) = block_in l q i in omega (arith, a);
    high = λ q i. let (a, b, c) = block_in l q i in omega (arith, b);
    even = λ q i. let (a, b, c) = block_in l q i in omega (arith, c);
    apart = λ q r i j ne. elim (member q i) [
      | inl e ↦ elim (member r j) [
        | inl f ↦ absurd (ne (e ∙ sym f))
        | inr k ↦ subst (λ q. Apart q 16 r 16) (sym e) (place-Apart l r k)
      ]
      | inr k ↦ elim (member r j) [
        | inl f ↦
            subst (λ r. Apart q 16 r 16) (sym f) (Apart-swap (place start rs) q (place-Apart l q k))
        | inr h ↦ listed-Apart q r k h ne
      ]
    ];
    once = λ q. elim (ℕ_discrete q (place start rs)) [
      | yes e ↦
          subst (λ q. here (place start rs) q + occurs q fl ≤ 1) (sym e)
            (omega (arith, here_self (place start rs), place_unlisted l))
      | no ne ↦ omega (arith, here_ne (place start rs) q ne, listed_once q)
    ];
    narrow = lim.narrow;
  }

  pub list_Space : Space start brk fl
  list_Space = record {
    positive = λ q i. let (a, b, c) = listed_in q i in omega (arith, a);
    low = λ q i. let (a, b, c) = listed_in q i in omega (arith, a);
    high = λ q i. let (a, b, c) = listed_in q i in omega (arith, b);
    even = λ q i. let (a, b, c) = listed_in q i in omega (arith, c);
    apart = listed-Apart;
    once = listed_once;
    narrow = lim.narrow;
  }

  -- The ends of the other blocks lie in no links, those of a block in the gap included.
  pub behind-Out : (a : Ptr) → EndBehind start a rs → (q : Ptr) → 1 ≤ occurs q fl → Out a q
  behind-Out a e q i = elim (listed_side q i) [
    | inl (j, x, y) ↦ EndBehind-Out m start a q rs w.behind e j
    | inr (j, x, y) ↦ inl (omega (arith, x, EndBehind-le m start a rs w.behind e))
  ]

  pub ahead-Out :
      (a : Ptr) → EndAhead a (place start rs + 8 * n) bs → (q : Ptr) → 1 ≤ occurs q fl → Out a q
  ahead-Out a e q i =
      let h : 8 ≤ place start rs + 8 * n = omega (arith, place-le start rs) in
      elim (listed_side q i) [
        | inl (j, x, y) ↦
            inr (omega (arith, y, EndAhead-le m a (place start rs + 8 * n) bs brk h w.ahead e))
        | inr (j, x, y) ↦ EndAhead-Out m a q (place start rs + 8 * n) bs brk h w.ahead e j
      ]

  -- A word around the place, or in the gap, lies in no links of a listed block.
  pub gap_out :
      (a : Ptr)
      → place start rs ≤ a + 8
      → a + 4 ≤ place start rs + 8 * n
      → (q : Ptr) → 1 ≤ occurs q fl
      → (q + 16 ≤ a) ⊎ (a + 4 ≤ q)
  gap_out a l h q i = elim (listed_side q i) [
    | inl (j, x, y) ↦ inl (omega (arith, y, l))
    | inr (j, x, y) ↦ inr (omega (arith, x, h))
  ]
