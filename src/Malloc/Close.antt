-- ===== src/Malloc/Close.antt =====
-- Single steps of `coalesce` of malloc-lab/mm.c on a heap with a gap: a free neighbour is taken out of
-- the free list, and the gap becomes a free block.
use jungle_data_structures.Prelude.{
  ℕ, ◌+◌, ◌*◌, ◌≡◌, ◌≤◌, refl, sym, subst, ap, List, ◌∷◌, ◌++◌, arith,
}
use jungle_data_structures.Prelude.Run.{done, Ends, Ends-done, Ends-map, Ends-continue, ◌>>◌}
use jungle_data_structures.Malloc.Store.{Ptr, null, Arena}
use jungle_data_structures.Malloc.Defs.{remove_from_free_list, add_to_free_list}
use jungle_data_structures.Malloc.Links.{here_self, occurs, first, Linked, SameBut, Space}
use jungle_data_structures.Malloc.LinkWords.{arena}
use jungle_data_structures.Malloc.FreeList.{remove_from_free_list-Linked}
use jungle_data_structures.Malloc.AddFree.{add_to_free_list-Linked}
use jungle_data_structures.Malloc.Blocks.{Block, free, place}
use jungle_data_structures.Malloc.Gap.{Limits, Gap, gap_Space, list_Space}
use jungle_data_structures.Malloc.Fill.{IsTagged, close_free}
use jungle_data_structures.Malloc.Open.{split_at, drop_next, drop_prev}

module _ (s : Arena) (lim : Limits s.mem_start_brk s.mem_brk) where
  -- A heap with a gap, as a memory.
  abbrev pub Opened : (m : Ptr → ℕ) → List Ptr → List Block → ℕ → List Block → Arena → Type 0
  Opened m fl rs n bs g =
      (m1 : Ptr → ℕ) × (fl1 : List Ptr) × (g ≡ arena s m1 (first fl1 null))
      × SameBut fl m m1
      × Gap s.mem_start_brk s.mem_brk m1 rs n bs fl1

  -- A heap whose gap is a free block, the first of the free list.
  abbrev pub Closed : List Block → ℕ → List Block → Ptr → Arena → Type 0
  Closed rs n bs p g =
      (p ≡ place s.mem_start_brk rs)
      × (m1 : Ptr → ℕ) × (fl1 : List Ptr) × (g ≡ arena s m1 p)
      × Gap s.mem_start_brk s.mem_brk m1 rs 0 (free n ∷ bs) (p ∷ fl1)

  module _ {m : Ptr → ℕ} {rs : List Block} {n : ℕ} {bs : List Block} {fl : List Ptr} where
    remove_listed :
        (q : Ptr)
        → Gap s.mem_start_brk s.mem_brk m rs n bs fl
        → 1 ≤ occurs q fl
        → Ends
            (λ _ g.
              (xs : List Ptr) × (ys : List Ptr) × (fl ≡ xs ++ q ∷ ys)
              × (m1 : Ptr → ℕ) × (g ≡ arena s m1 (first (xs ++ ys) null))
              × Linked m1 null (xs ++ ys) null
              × SameBut fl m m1)
            (remove_from_free_list q (arena s m (first fl null)))
    remove_listed q w i =
        let (xs, ys, e) = split_at q fl i in
        Ends-map
          (remove_from_free_list-Linked s m q xs ys
            (subst (Space s.mem_start_brk s.mem_brk) e (list_Space lim w)) (first fl null)
            (ap (λ l. first l null) e) (subst (λ l. Linked m null l null) e w.linked))
          (λ _ g (m1, r, l, same). (xs, ys, e, m1, r, l, subst (λ l. SameBut l m m1) (sym e) same))

  module _ {m : Ptr → ℕ} {rs : List Block} {n : ℕ} {bs : List Block} {fl : List Ptr} (k : ℕ) where
    pub remove_next :
        Gap s.mem_start_brk s.mem_brk m rs n (free k ∷ bs) fl
        → Ends
            (λ _ g. Opened m fl rs (n + k) bs g)
            (remove_from_free_list (place s.mem_start_brk rs + 8 * n) (arena s m (first fl null)))
    remove_next w =
        let q = place s.mem_start_brk rs + 8 * n in
        Ends-map (remove_listed q w (omega (arith, w.listed q, here_self q)))
          (λ _ g (xs, ys, e, m1, r, l, same).
            (m1, xs ++ ys, r, same, drop_next lim m1 xs ys l same k e w))

    pub remove_prev :
        Gap s.mem_start_brk s.mem_brk m (free k ∷ rs) n bs fl
        → Ends
            (λ _ g. Opened m fl rs (k + n) bs g)
            (remove_from_free_list (place s.mem_start_brk rs) (arena s m (first fl null)))
    remove_prev w =
        let q = place s.mem_start_brk rs in
        Ends-map (remove_listed q w (omega (arith, w.listed q, here_self q)))
          (λ _ g (xs, ys, e, m1, r, l, same).
            (m1, xs ++ ys, r, same, drop_prev lim m1 xs ys l same k e w))

  module _ {m : Ptr → ℕ} {rs : List Block} {n : ℕ} {bs : List Block} {fl : List Ptr}
      (w : Gap s.mem_start_brk s.mem_brk m rs n bs fl) (l : 3 ≤ n)
      (t : IsTagged m (place s.mem_start_brk rs) n (8 * n)) where
    pub just_add :
        Ends
          (λ _ g. Closed rs n bs (place s.mem_start_brk rs) g)
          (add_to_free_list (place s.mem_start_brk rs) (arena s m (first fl null)))
    just_add =
        Ends-map
          (add_to_free_list-Linked s m (place s.mem_start_brk rs) fl (gap_Space lim w l) w.linked)
          (λ _ g (m1, r, k, same). (refl, m1, fl, r, close_free lim w m1 l t same k))

    pub close_add : Ends (Closed rs n bs) (
        (add_to_free_list (place s.mem_start_brk rs) >> done (place s.mem_start_brk rs))
          (arena s m (first fl null)))
    close_add = Ends-continue just_add (λ _ g c. Ends-done c)
