-- ===== src/Malloc/Open.antt =====
-- Gaps of the heap of malloc-lab/mm.c that grow by a neighbour.
use jungle_data_structures.Prelude.{
  ℕ, ◌+◌, ◌*◌, ◌≡◌, ◌≤◌, sym, subst, ap, List, [], ◌∷◌, ◌++◌, arith,
}
use native.Mathlib.Decide.{ℕ_discrete}
use jungle_data_structures.Malloc.Store.{Ptr, null}
use jungle_data_structures.Malloc.Links.{here_ne, occurs, occurs-append, Linked, SameBut}
use jungle_data_structures.Malloc.Blocks.{Block, used, free, Ahead, place, frees, frees_behind}
use jungle_data_structures.Malloc.Gap.{Limits, Gap}
use jungle_data_structures.Malloc.Fill.{Behind-SameBut, Ahead-SameBut}

pub split_at :
    (q : Ptr) (fl : List Ptr)
    → 1 ≤ occurs q fl
    → (xs : List Ptr) × (ys : List Ptr) × (fl ≡ xs ++ q ∷ ys)
split_at q [] i = absurd (omega (arith, i))
split_at q (x ∷ fl) i = elim (ℕ_discrete q x) [
  | yes e ↦ ([], fl, ap (λ x. x ∷ fl) (sym e))
  | no ne ↦
      let (xs, ys, e) = split_at q fl (omega (arith, i, here_ne x q ne)) in
      (x ∷ xs, ys, ap (λ l. x ∷ l) e)
]

module _ {start brk : Ptr} {m : Ptr → ℕ} {rs : List Block} {n : ℕ} {bs : List Block} {fl : List Ptr}
    (lim : Limits start brk) where
  -- A block in use vanishes.
  pub open_used :
      (k : ℕ) (c : ℕ → ℕ)
      → Gap start brk m rs n (used k c ∷ bs) fl
      → Gap start brk m rs (n + k) bs fl
  open_used k c w =
      let (_, _, _, _, a) = w.ahead in
      record {
        behind = w.behind;
        ahead = subst (λ p. Ahead m p bs brk) joined a;
        linked = w.linked;
        listed = λ q.
            subst (λ p. occurs q fl ≡ frees_behind start q rs + frees q p bs) joined
              (less q (w.listed q));
      }
    where
      joined : place start rs + 8 * n + 8 * k ≡ place start rs + 8 * (n + k)
      joined = omega arith

      less :
          (q : Ptr)
          → occurs q fl
            ≡ frees_behind start q rs + (0 + frees q (place start rs + 8 * n + 8 * k) bs)
          → occurs q fl ≡ frees_behind start q rs + frees q (place start rs + 8 * n + 8 * k) bs
      less q e = omega (arith, e)

  module _ (g : Ptr → ℕ) (xs ys : List Ptr) (lk : Linked g null (xs ++ ys) null)
      (same : SameBut fl m g) where
    -- The free block ahead was taken from the list.
    pub drop_next :
        (k : ℕ)
        → fl ≡ xs ++ (place start rs + 8 * n) ∷ ys
        → Gap start brk m rs n (free k ∷ bs) fl
        → Gap start brk g rs (n + k) bs (xs ++ ys)
    drop_next k e w =
        let (_, _, _, _, a) = Ahead-SameBut lim w g same in
        record {
          behind = Behind-SameBut lim w g same;
          ahead = subst (λ p. Ahead g p bs brk) joined a;
          linked = lk;
          listed = λ q.
              subst (λ p. occurs q (xs ++ ys) ≡ frees_behind start q rs + frees q p bs) joined
                (omega (
                  arith,
                  w.listed q,
                  ap (occurs q) e,
                  occurs-append q xs ys,
                  occurs-append q xs ((place start rs + 8 * n) ∷ ys),
                ));
        }
      where
        joined : place start rs + 8 * n + 8 * k ≡ place start rs + 8 * (n + k)
        joined = omega arith

    -- The free block behind was taken from the list.
    pub drop_prev :
        (k : ℕ)
        → fl ≡ xs ++ place start rs ∷ ys
        → Gap start brk m (free k ∷ rs) n bs fl
        → Gap start brk g rs (k + n) bs (xs ++ ys)
    drop_prev k e w =
        let (_, _, _, _, b) = Behind-SameBut lim w g same in
        record {
          behind = b;
          ahead = subst (λ p. Ahead g p bs brk) joined (Ahead-SameBut lim w g same);
          linked = lk;
          listed = λ q.
              subst (λ p. occurs q (xs ++ ys) ≡ frees_behind start q rs + frees q p bs) joined
                (omega (
                  arith,
                  w.listed q,
                  ap (occurs q) e,
                  occurs-append q xs ys,
                  occurs-append q xs (place start rs ∷ ys),
                ));
        }
      where
        joined : place start rs + 8 * k + 8 * n ≡ place start rs + 8 * (k + n)
        joined = omega arith
