-- ===== src/Bitmap/Scan.antt =====
-- `bitmap_scan` and `bitmap_scan_and_flip` of pintos lib/kernel/bitmap.c.
use jungle_data_structures.Prelude.{
  ℕ, zero, suc, ◌+◌, ◌-◌, ◌<◌, ◌≤◌, ◌≡◌, ◌⊎◌, inl, inr, refl, sym, ap, ◌∙◌, Bool, true, false, not,
  ◌==◌, ltb, leb, if◌then◌else◌, arith, Bool-cases, ltb→lt, ltb→le, le→leb, ne→==, eq→==, subst,
}
use jungle_data_structures.Prelude.Run.{done}
use jungle_data_structures.Bitmap.Defs.{
  Bitmap, bitmap_error, bitmap_contains, scan_loop, bitmap_scan, bitmap_scan_and_flip,
}
use jungle_data_structures.Bitmap.View.{view, IsBitmap}
use jungle_data_structures.Bitmap.Range.{
  Clear, Spoiled, in_range, bitmap_contains-lem, bitmap_set_multiple-WritesRange,
}

eq_of : (a b : ℕ) → (a == b) ≡ true → a ≡ b
eq_of a b h = ground arith

not_error : (r : ℕ) → r < bitmap_error → (r == bitmap_error) ≡ false
not_error r h = ne→== r bitmap_error (λ e. absurd (omega arith))

double_negation : (t : Bool) → not (not t) ≡ t
double_negation t = ground arith

-- The first group of `cnt` bits with the value at or after `start` is at `i`; there is none.
abbrev pub FirstGroup : Bitmap → (start cnt : ℕ) → Bool → ℕ → Type 0
FirstGroup b start cnt value i =
    (start ≤ i)
    × (i + cnt ≤ b.bit_cnt)
    × Clear b value i cnt
    × ((k : ℕ) → start ≤ k → k < i → Spoiled b value k cnt)

abbrev pub NoGroup : Bitmap → (start cnt : ℕ) → Bool → Type 0
NoGroup b start cnt value = (k : ℕ) → start ≤ k → k + cnt ≤ b.bit_cnt → Spoiled b value k cnt

abbrev pub Scanned : Bitmap → (start cnt : ℕ) → Bool → ℕ → Type 0
Scanned b start cnt value r =
    FirstGroup b start cnt value r ⊎ (r ≡ bitmap_error) × NoGroup b start cnt value

-- The outcome of `bitmap_scan_and_flip`: the group that was found has the other value afterwards,
-- and nothing else changes; if there was none, nothing changes.
abbrev pub Flipped : Bitmap → ℕ → Bool → (start r : ℕ) → Bitmap → Type 0
Flipped b cnt value start r b' =
    FirstGroup b start cnt value r
      × IsBitmap b'
      × (b'.bit_cnt ≡ b.bit_cnt)
      × ((j : ℕ) → view b' j ≡ (if in_range r cnt j then not value else view b j))
    ⊎ (r ≡ bitmap_error) × NoGroup b start cnt value × (b' ≡ b)

module _ (b : Bitmap) (cnt : ℕ) (value : Bool) (v : IsBitmap b) where
  group_at :
      (i : ℕ)
      → i + cnt ≤ b.bit_cnt
      → (bitmap_contains i cnt (not value) b ≡ done true b) × Spoiled b value i cnt
        ⊎ (bitmap_contains i cnt (not value) b ≡ done false b) × Clear b value i cnt
  group_at i le =
      subst
        (λ u.
          (bitmap_contains i cnt (not value) b ≡ done true b) × Spoiled b u i cnt
          ⊎ (bitmap_contains i cnt (not value) b ≡ done false b) × Clear b u i cnt)
        (double_negation value) (bitmap_contains-lem b i cnt v (not value) le)

  scan_loop-Scanned :
      (n start i : ℕ)
      → n ≡ b.bit_cnt - cnt + 1 - i
      → cnt ≤ b.bit_cnt
      → start ≤ i
      → ((k : ℕ) → start ≤ k → k < i → Spoiled b value k cnt)
      → (r : ℕ) × (scan_loop n i cnt value b ≡ done r b) × Scanned b start cnt value r
  unfolding scan_loop
  scan_loop-Scanned zero start i en le si before =
      (bitmap_error, refl, inr (refl, λ k sk kc. before k sk (omega arith)))
  scan_loop-Scanned (suc n) start i en le si before = elim (group_at i (omega arith)) [
    | inl (run, bad) ↦
        let next : (k : ℕ) → start ≤ k → k < i + 1 → Spoiled b value k cnt = λ k sk ki.
          elim (Bool-cases (k == i)) [
            | inl here ↦ subst (λ x. Spoiled b value x cnt) (sym (eq_of k i here)) bad
            | inr there ↦ before k sk (ground arith)
          ] in
        let (r, rest, found) =
          scan_loop-Scanned n start (i + 1) (omega arith) le (omega arith) next in
        (r, rw run rest, found)
    | inr (run, good) ↦ (i, rw run, inl (si, omega arith, good, before))
  ]

  -- `bitmap_scan` from a position of the bitmap returns the first place at or after it with `cnt`
  -- bits that all have the value, or `BITMAP_ERROR` if there is none, and changes nothing.
  pub bitmap_scan-Scanned :
      (start : ℕ)
      → start ≤ b.bit_cnt
      → (r : ℕ) × (bitmap_scan start cnt value b ≡ done r b) × Scanned b start cnt value r
  unfolding bitmap_scan
  bitmap_scan-Scanned start le = elim (Bool-cases (leb cnt b.bit_cnt)) [
    | inl t ↦
        rw (le→leb start b.bit_cnt le, t)
          (scan_loop-Scanned (b.bit_cnt - cnt + 1 - start) start start refl (ground arith)
            (omega arith) (λ k p q. absurd (omega arith)))
    | inr t ↦ (
      bitmap_error,
      rw (le→leb start b.bit_cnt le, t),
      inr (refl, λ k p q. absurd (ground arith)),
    )
  ]

  -- `bitmap_scan_and_flip` from a position of the bitmap returns the first place with `cnt` bits
  -- that have the value, and turns exactly those bits to the other value. If there is no such
  -- place, it returns `BITMAP_ERROR` and changes nothing.
  pub bitmap_scan_and_flip-Flipped :
      (start : ℕ)
      → start ≤ b.bit_cnt
      → (r : ℕ) × (b' : Bitmap) × (bitmap_scan_and_flip start cnt value b ≡ done r b')
        × Flipped b cnt value start r b'
  unfolding bitmap_scan_and_flip
  bitmap_scan_and_flip-Flipped start le =
      let (r, run, found) = bitmap_scan-Scanned start le in
      elim found [
        | inl group ↦
            let (b', run', v', cnt', bits) =
              bitmap_set_multiple-WritesRange b r cnt v (not value) group.1 in
            let ne : (r == bitmap_error) ≡ false = not_error r (omega (arith, group.1, v.small)) in
            (r, b', rw (run, ne, run'), inl (group, v', cnt', bits))
        | inr (e, absent) ↦ (r, b, rw (run, eq→== r bitmap_error e), inr (e, absent, refl))
      ]

-- With no bits to find, only `start` itself is a first group.
first_empty :
    (b b' : Bitmap) (start r : ℕ) (value : Bool)
    → start ≤ b.bit_cnt
    → Flipped b 0 value start r b'
    → r ≡ start
first_empty b b' start r value le (inl (group, v, cnt, bits)) = elim (Bool-cases (ltb start r)) [
  | inl t ↦
      let (k, p, q, bad) = group.3 start (omega arith) (ltb→lt start r t) in absurd (omega arith)
  | inr t ↦ omega (arith, group.0, ltb→le start r t)
]
first_empty b b' start r value le (inr (e, absent, same)) =
    let (k, p, q, bad) = absent start (omega arith) (omega arith) in absurd (omega arith)

-- A group of no bits is found at once: `bitmap_scan_and_flip` with `cnt` 0 returns `start`.
pub bitmap_scan_and_flip-zero :
    (b : Bitmap) (start : ℕ) (value : Bool)
    → IsBitmap b
    → start ≤ b.bit_cnt
    → (b' : Bitmap) × (bitmap_scan_and_flip start 0 value b ≡ done start b')
bitmap_scan_and_flip-zero b start value v le =
    let (r, b', run, found) = bitmap_scan_and_flip-Flipped b 0 value v start le in
    (b', run ∙ ap (λ k. done k b') (first_empty b b' start r value le found))
