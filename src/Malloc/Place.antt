-- ===== src/Malloc/Place.antt =====
-- `place` of malloc-lab/mm.c.
use jungle_data_structures.Prelude.{
  le→leb, lt→leb, ℕ, ◌+◌, ◌-◌, ◌*◌, ◌%◌, ◌≡◌, ◌≤◌, ◌<◌, ◌⊎◌, inl, inr, refl, sym, subst, true,
  false, leb, if◌then◌else◌, List, ◌∷◌, arith,
}
use jungle_data_structures.Prelude.Run.{
  Ends, Ends-done, Ends-map, Ends-continue, exact_then, ◌>>=◌, ◌>>◌,
}
use jungle_data_structures.Malloc.Store.{Ptr, null, Arena, Act}
use jungle_data_structures.Malloc.Defs.{
  pack, next_blkp, put_both, remove_from_free_list, add_to_free_list,
}
use jungle_data_structures.Malloc.Alloc.{place}
use jungle_data_structures.Malloc.Links.{first}
use jungle_data_structures.Malloc.LinkWords.{arena}
use jungle_data_structures.Malloc.Blocks.{Block, used, free, Holds, units, place-le, Ahead, Behind}
use jungle_data_structures.Malloc.Blocks
use jungle_data_structures.Malloc.Gap.{Limits, Gap}
use jungle_data_structures.Malloc.Fill.{
  Holds-write_ends, write_ends, write_ends-IsTagged, Gap-write, Gap-write_ends, close_used,
}
use jungle_data_structures.Malloc.Reads.{
  pack_free, pack_used, get_size-done, next_blkp-done, put_both-done,
}
use jungle_data_structures.Malloc.Around.{gap_word4, gap_word8, gap_small}
use jungle_data_structures.Malloc.Close.{Opened, remove_next, just_add}
use jungle_data_structures.Malloc.JoinOne.{plain}
use jungle_data_structures.Malloc.Focus.{take_used, step_back}

-- What follows the removal.
abbrev after_remove : (bp : Ptr) → (csize asize : ℕ) → Act (Unit {0})
after_remove bp csize asize =
    if leb 24 ((csize + (18446744073709551616 - asize)) % 18446744073709551616)
    then (do
      put_both bp (pack asize 1)
      next ← next_blkp bp
      put_both next (pack (csize - asize) 0)
      add_to_free_list next)
    else put_both bp (pack csize 1)

-- A free block of size `k` of which `a` units are taken, with `c` in the payload.
abbrev pub cut : (k a : ℕ) → (c : ℕ → ℕ) → List Block → List Block
cut k a c bs = if leb 3 (k - a) then used a c ∷ free (k - a) ∷ bs else used k c ∷ bs

module _ (s : Arena) (lim : Limits s.mem_start_brk s.mem_brk) where
  -- A heap without a gap.
  abbrev pub Whole : List Block → List Block → Arena → Type 0
  Whole rs bs g =
      (m1 : Ptr → ℕ) × (fl1 : List Ptr) × (g ≡ arena s m1 (first fl1 null))
      × Gap s.mem_start_brk s.mem_brk m1 rs 0 bs fl1

  -- A heap in which a free block was taken.
  abbrev pub Cut : List Block → (k a : ℕ) → List Block → Arena → Type 0
  Cut rs k a bs g = (c : ℕ → ℕ) × Whole rs (cut k a c bs) g

  module _ (m : Ptr → ℕ) (rs : List Block) (bs : List Block) (fl : List Ptr) where
    place_split :
        (a c : ℕ) (d : ℕ → ℕ)
        → 3 ≤ a
        → 3 ≤ c
        → Gap s.mem_start_brk s.mem_brk m rs (a + c) bs fl
        → Holds m (Blocks.place s.mem_start_brk rs) (used a d)
        → Ends
            (λ _ g. Whole rs (used a d ∷ free c ∷ bs) g)
            ((do
              put_both (Blocks.place s.mem_start_brk rs) (8 * a + 1)
              next ← next_blkp (Blocks.place s.mem_start_brk rs)
              put_both next (8 * c)
              add_to_free_list next)
              (arena s m (first fl null)))
    place_split a c d a3 c3 w hd =
        let p = Blocks.place s.mem_start_brk rs in
        let f = first fl null in
        let ge = place-le s.mem_start_brk rs in
        let i = gap_word4 lim w 0 (p - 4) (omega arith) (omega (arith, ge)) in
        let m1 = write_ends m p a (8 * a + 1) in
        let t = write_ends-IsTagged m p a (8 * a + 1) (omega (arith, a3)) (omega (arith, ge)) in
        let w1 : Gap s.mem_start_brk s.mem_brk m1 rs (a + c) bs fl =
          Gap-write lim
            (Gap-write lim w (p - 4) (8 * a + 1) (omega (arith, ge)) (omega (arith, a3, ge)))
            (p + 8 * a - 8) (8 * a + 1) (omega (arith, ge, a3)) (omega (arith, ge, a3)) in
        let w2 =
          take_used a c d a3 t
            (Holds-write_ends m p a a (8 * a + 1) d (omega arith) (omega (arith, ge)) hd) w1 in
        exact_then _
          (put_both-done s m f p a 1 (8 * a + 1) i
            (gap_word8 lim w a (p + 8 * a - 8) (omega arith) (omega (arith, ge, a3))) (omega arith)
            refl (omega (arith, gap_small lim w)))
          (exact_then _ (next_blkp-done s m1 f p a 1 i t.0 (omega arith)) (
            exact_then _
              (put_both-done s m1 f (p + 8 * a) c 0 (8 * c)
                (gap_word4 lim w2 0 (p + 8 * a - 4) (omega arith) (omega (arith, ge)))
                (gap_word8 lim w2 c (p + 8 * a + 8 * c - 8) (omega arith) (omega (arith, ge)))
                (omega arith) (omega arith) (omega (arith, gap_small lim w2)))
              (Ends-map
                (just_add s lim (Gap-write_ends lim w2 (8 * c) (omega (arith, c3))) c3 (
                  write_ends-IsTagged m1 (p + 8 * a) c (8 * c) (omega (arith, c3))
                    (omega (arith, ge))))
                (λ _ g (_, m2, fl2, r, v). (m2, (p + 8 * a) ∷ fl2, r, step_back (used a d) v)))))

    pub put_both-Whole :
        (k : ℕ) (d : ℕ → ℕ)
        → 3 ≤ k
        → Gap s.mem_start_brk s.mem_brk m rs k bs fl
        → Holds m (Blocks.place s.mem_start_brk rs) (used k d)
        → Ends
            (λ _ g. Whole rs (used k d ∷ bs) g)
            (put_both (Blocks.place s.mem_start_brk rs) (8 * k + 1) (arena s m (first fl null)))
    put_both-Whole k d k3 w hd =
        let p = Blocks.place s.mem_start_brk rs in
        let ge = place-le s.mem_start_brk rs in
        subst (Ends (λ _ g. Whole rs (used k d ∷ bs) g))
          (sym (
            put_both-done s m (first fl null) p k 1 (8 * k + 1)
              (gap_word4 lim w 0 (p - 4) (omega arith) (omega (arith, ge)))
              (gap_word8 lim w k (p + 8 * k - 8) (omega arith) (omega (arith, ge, k3)))
              (omega arith) refl (omega (arith, gap_small lim w))))
          (Ends-done (
            write_ends m p k (8 * k + 1),
            fl,
            refl,
            close_used lim (Gap-write_ends lim w (8 * k + 1) (omega (arith, k3))) d k3
                (write_ends-IsTagged m p k (8 * k + 1) (omega (arith, k3)) (omega (arith, ge)))
                (Holds-write_ends m p k k (8 * k + 1) d (omega arith) (omega (arith, ge)) hd),
          ))

    after_remove-Whole :
        (k a : ℕ)
        → 3 ≤ a
        → a ≤ k
        → Gap s.mem_start_brk s.mem_brk m rs k bs fl
        → Ends
            (λ _ g. Cut rs k a bs g)
            (after_remove
              (Blocks.place s.mem_start_brk rs)
              (8 * k)
              (8 * a)
              (arena s m (first fl null)))
    after_remove-Whole k a a3 le w = elim (three_more k a le) [
      | inl l ↦
          rw (test_true k a le (gap_small lim w) l, le→leb 3 (k - a) l, pack_used a, pack_rest k a)
            (Ends-map
              (place_split a (k - a) here a3 l
                (subst (λ k. Gap s.mem_start_brk s.mem_brk m rs k bs fl) (whole k a le) w)
                (λ i l. refl))
              (λ _ g v. (here, v)))
      | inr l ↦
          rw (test_false k a le (gap_small lim w) l, lt→leb 3 (k - a) l, pack_used k)
            (Ends-map (put_both-Whole k here (omega (arith, a3, le)) w (λ i l. refl))
              (λ _ g v. (here, v)))
    ]
      where
        here : ℕ → ℕ
        here i = m (Blocks.place s.mem_start_brk rs + 4 * i)

        three_more : (k a : ℕ) → a ≤ k → (3 ≤ k - a) ⊎ (k - a < 3)
        three_more k a le = omega arith

        whole : (k a : ℕ) → a ≤ k → k ≡ a + (k - a)
        whole k a le = omega (arith, le)

        pack_rest : (k a : ℕ) → pack (8 * k - 8 * a) 0 ≡ 8 * (k - a)
        pack_rest k a = subst (λ x. pack x 0 ≡ 8 * (k - a)) apart (pack_free (k - a))
          where
            apart : 8 * (k - a) ≡ 8 * k - 8 * a
            apart = omega arith

        test_true :
            (k a : ℕ)
            → a ≤ k
            → 8 * k + 1 < 4294967296
            → 3 ≤ k - a
            → leb 24 ((8 * k + (18446744073709551616 - 8 * a)) % 18446744073709551616) ≡ true
        test_true k a le u l = le→leb 24 _ (omega (arith, le, u, l))

        test_false :
            (k a : ℕ)
            → a ≤ k
            → 8 * k + 1 < 4294967296
            → k - a < 3
            → leb 24 ((8 * k + (18446744073709551616 - 8 * a)) % 18446744073709551616) ≡ false
        test_false k a le u l = lt→leb 24 _ (omega (arith, le, u, l))

  module _ (m : Ptr → ℕ) (rs : List Block) (bs : List Block) (fl : List Ptr) where
    -- A free block that is large enough is taken, and cut if enough is left for a free block.
    pub place-Whole :
        (k a : ℕ)
        → 3 ≤ a
        → a ≤ k
        → Gap s.mem_start_brk s.mem_brk m rs 0 (free k ∷ bs) fl
        → Ends
            (λ _ g. Cut rs k a bs g)
            (place (Blocks.place s.mem_start_brk rs) (8 * a) (arena s m (first fl null)))
    unfolding place
    place-Whole k a a3 le w =
        let p = Blocks.place s.mem_start_brk rs in
        let f = first fl null in
        let ge = place-le s.mem_start_brk rs in
        let (_, e, _, _, _) = w.ahead in
        exact_then _
          (get_size-done s m f (p - 4) k 0
            (gap_word4 lim w 0 (p - 4) (omega arith) (omega (arith, ge)))
            (plain _ k (subst (λ a. m (a - 4) ≡ 8 * k) zero_more e)) (omega arith))
          (Ends-continue
            (subst
              (λ q.
                Ends (λ _ g. Opened s lim m fl rs (0 + k) bs g)
                  (remove_from_free_list q (arena s m f)))
              zero_more (remove_next s lim k w))
            (λ _ g (m1, fl1, r, same, w1).
              subst (λ g. Ends (λ _ g. Cut rs k a bs g) (after_remove p (8 * k) (8 * a) g)) (sym r)
                (after_remove-Whole m1 rs bs fl1 k a a3 le
                  (subst (λ k. Gap s.mem_start_brk s.mem_brk m1 rs k bs fl1) zero_plus w1))))
      where
        zero_plus : 0 + k ≡ k
        zero_plus = omega arith

        zero_more : Blocks.place s.mem_start_brk rs + 8 * 0 ≡ Blocks.place s.mem_start_brk rs
        zero_more = omega arith
