-- ===== src/Malloc/Fill.antt =====
-- Blocks that appear in a gap of the heap of malloc-lab/mm.c, and that vanish into one.
use jungle_data_structures.Prelude.{
  ℕ, ◌+◌, ◌-◌, ◌*◌, ◌≡◌, ◌≤◌, ◌⊎◌, inl, inr, sym, subst, ◌∙◌, List, ◌∷◌, arith,
}
use jungle_data_structures.Malloc.Store.{Ptr, null, write}
use jungle_data_structures.Malloc.Words.{Apart, write_here, write_ne}
use jungle_data_structures.Malloc.Links.{here, occurs, Linked, Linked-write, Out, SameBut}
use jungle_data_structures.Malloc.Blocks.{
  Block, used, free, Holds, Ahead, Behind, place, place-le, frees, frees_behind,
}
use jungle_data_structures.Malloc.Ends.{Ahead-same, Behind-same, EndAhead-le, EndBehind-le}
use jungle_data_structures.Malloc.Gap.{Limits, Gap, behind-Out, ahead-Out, gap_out, member}

-- The same word at both ends of the gap.
abbrev pub write_ends : (Ptr → ℕ) → (p : Ptr) → (n v : ℕ) → Ptr → ℕ
write_ends m p n v = write (write m (p - 4) v) (p + 8 * n - 8) v

-- The gap has its ends written.
abbrev pub IsTagged : (Ptr → ℕ) → (p : Ptr) → (n v : ℕ) → Type 0
IsTagged m p n v = (m (p - 4) ≡ v) × (m (p + 8 * n - 8) ≡ v)

pub write_ends-IsTagged :
    (m : Ptr → ℕ) (p : Ptr) (n v : ℕ) → 1 ≤ n → 8 ≤ p → IsTagged (write_ends m p n v) p n v
write_ends-IsTagged m p n v l h = (
  write_ne _ (p + 8 * n - 8) (p - 4) v (λ e. ne e) ∙ write_here m (p - 4) v,
  write_here _ (p + 8 * n - 8) v,
)
  where
    ne : p - 4 ≡ p + 8 * n - 8 → ⊥
    ne e = omega (arith, e, l, h)

-- The ends of a block are no part of its payload.
pub Holds-write_ends :
    (m : Ptr → ℕ) (p : Ptr) (n k v : ℕ) (c : ℕ → ℕ)
    → n ≤ k
    → 8 ≤ p
    → Holds m p (used n c)
    → Holds (write_ends m p k v) p (used n c)
Holds-write_ends m p n k v c l h w i b =
    write_ne _ (p + 8 * k - 8) (p + 4 * i) v (λ e. foot i b e)
    ∙ write_ne m (p - 4) (p + 4 * i) v (λ e. head i e)
    ∙ w i b
  where
    foot : (i : ℕ) → i + 3 ≤ 2 * n → p + 4 * i ≡ p + 8 * k - 8 → ⊥
    foot i b e = omega (arith, b, e, l)

    head : (i : ℕ) → p + 4 * i ≡ p - 4 → ⊥
    head i e = omega (arith, e, h)

module _ {start brk : Ptr} {m : Ptr → ℕ} {rs : List Block} {n : ℕ} {bs : List Block} {fl : List Ptr}
    (lim : Limits start brk) (w : Gap start brk m rs n bs fl) where
  -- A word of the gap's ends is written.
  pub Gap-write :
      (a v : ℕ)
      → place start rs ≤ a + 4
      → a + 8 ≤ place start rs + 8 * n
      → Gap start brk (write m a v) rs n bs fl
  Gap-write a v l h = record {
    behind =
        Behind-same m (write m a v) start rs
          (λ b e. write_ne m a b v (λ t. behind_ne b t (EndBehind-le m start b rs w.behind e)))
          w.behind;
    ahead =
        Ahead-same m (write m a v) (place start rs + 8 * n) bs brk
          (λ b e. write_ne m a b v (λ t. ahead_ne b t (
            EndAhead-le m b (place start rs + 8 * n) bs brk (omega (arith, place-le start rs))
              w.ahead e)))
          w.ahead;
    linked =
        Linked-write m a v null fl null
          (λ q i. turn q (gap_out lim w a (omega (arith, l)) (omega (arith, h)) q i)) w.linked;
    listed = w.listed;
  }
    where
      behind_ne : (b : Ptr) → b ≡ a → b + 8 ≤ place start rs → ⊥
      behind_ne b t e = omega (arith, t, e, l)

      ahead_ne : (b : Ptr) → b ≡ a → place start rs + 8 * n ≤ b + 4 → ⊥
      ahead_ne b t e = omega (arith, t, e, h)

      turn : (q : Ptr) → (q + 16 ≤ a) ⊎ (a + 4 ≤ q) → Apart a 4 q 16
      turn q (inl x) = inr x
      turn q (inr x) = inl x

  -- Only links of listed blocks change.
  pub Behind-SameBut : (g : Ptr → ℕ) → SameBut fl m g → Behind start g rs
  Behind-SameBut g same = Behind-same m g start rs (λ a e. same a (behind-Out lim w a e)) w.behind

  pub Ahead-SameBut : (g : Ptr → ℕ) → SameBut fl m g → Ahead g (place start rs + 8 * n) bs brk
  Ahead-SameBut g same =
      Ahead-same m g (place start rs + 8 * n) bs brk (λ a e. same a (ahead-Out lim w a e)) w.ahead

module _ {start brk : Ptr} {m : Ptr → ℕ} {rs : List Block} {n : ℕ} {bs : List Block} {fl : List Ptr}
    (lim : Limits start brk) (w : Gap start brk m rs n bs fl) where
  pub Gap-write_ends :
      (v : ℕ) → 1 ≤ n → Gap start brk (write_ends m (place start rs) n v) rs n bs fl
  Gap-write_ends v l =
      Gap-write lim
        (Gap-write lim w (place start rs - 4) v (omega (arith, place-le start rs))
          (omega (arith, l)))
        (place start rs + 8 * n - 8) v (omega (arith, place-le start rs, l))
        (omega (arith, l, place-le start rs))

  -- A block in use fills the gap, with what stands there.
  pub close_used :
      (c : ℕ → ℕ)
      → 3 ≤ n
      → IsTagged m (place start rs) n (8 * n + 1)
      → Holds m (place start rs) (used n c)
      → Gap start brk m rs 0 (used n c ∷ bs) fl
  close_used c l (e, f) h = record {
    behind = w.behind;
    ahead = (
      l,
      subst (λ a. m (a - 4) ≡ 8 * n + 1) zero_more e,
      subst (λ a. m (a + 8 * n - 8) ≡ 8 * n + 1) zero_more f,
      subst (λ a. Holds m a (used n c)) zero_more h,
      subst (λ a. Ahead m (a + 8 * n) bs brk) zero_more w.ahead,
    );
    linked = w.linked;
    listed = λ q.
        subst (λ a. occurs q fl ≡ frees_behind start q rs + (0 + frees q (a + 8 * n) bs)) zero_more
          (zero_plus q (frees_behind start q rs) (frees q (place start rs + 8 * n) bs)
            (w.listed q));
  }
    where
      zero_more : place start rs ≡ place start rs + 8 * 0
      zero_more = omega arith

      zero_plus : (q : Ptr) (a b : ℕ) → occurs q fl ≡ a + b → occurs q fl ≡ a + (0 + b)
      zero_plus q a b e = omega (arith, e)

  -- A free block fills the gap and comes to the front of the free list.
  pub close_free :
      (g : Ptr → ℕ)
      → 3 ≤ n
      → IsTagged m (place start rs) n (8 * n)
      → SameBut (place start rs ∷ fl) m g
      → Linked g null (place start rs ∷ fl) null
      → Gap start brk g rs 0 (free n ∷ bs) (place start rs ∷ fl)
  close_free g l (e, f) same lk = record {
    behind =
        Behind-same m g start rs
          (λ a i. same a (
            with_place a (inl (omega (arith, EndBehind-le m start a rs w.behind i)))
              (behind-Out lim w a i)))
          w.behind;
    ahead = (
      l,
      subst (λ a. g (a - 4) ≡ 8 * n) zero_more
          (same (place start rs - 4) (
              with_place (place start rs - 4) (inl (omega (arith, place-le start rs))) (λ q i.
                turn_out (place start rs - 4) q (
                  gap_out lim w (place start rs - 4) (omega arith)
                    (omega (arith, place-le start rs, l)) q i)))
            ∙ e),
      subst (λ a. g (a + 8 * n - 8) ≡ 8 * n) zero_more
          (same (place start rs + 8 * n - 8) (
              with_place (place start rs + 8 * n - 8) (inr (omega (arith, l))) (λ q i.
                turn_out (place start rs + 8 * n - 8) q (
                  gap_out lim w (place start rs + 8 * n - 8) (omega (arith, l)) (omega (arith, l)) q
                    i)))
            ∙ f),
      tt,
      subst (λ a. Ahead g (a + 8 * n) bs brk) zero_more
          (Ahead-same m g (place start rs + 8 * n) bs brk
            (λ a i. same a (
              with_place a
                (past_out a (
                  EndAhead-le m a (place start rs + 8 * n) bs brk (omega (arith, place-le start rs))
                    w.ahead i))
                (ahead-Out lim w a i)))
            w.ahead),
    );
    linked = lk;
    listed = λ q.
        subst
          (λ a.
            here (place start rs) q + occurs q fl
            ≡ frees_behind start q rs + (here a q + frees q (a + 8 * n) bs))
          zero_more
          (with_one (here (place start rs) q) (frees_behind start q rs)
            (frees q (place start rs + 8 * n) bs) (occurs q fl) (w.listed q));
  }
    where
      zero_more : place start rs ≡ place start rs + 8 * 0
      zero_more = omega arith

      with_place :
          (a : Ptr)
          → Out a (place start rs)
          → ((q : Ptr) → 1 ≤ occurs q fl → Out a q)
          → (q : Ptr) → 1 ≤ here (place start rs) q + occurs q fl
          → Out a q
      with_place a o f q i = elim (member lim w q i) [
        | inl e ↦ subst (λ q. Out a q) (sym e) o
        | inr j ↦ f q j
      ]

      turn_out : (a q : Ptr) → (q + 16 ≤ a) ⊎ (a + 4 ≤ q) → Out a q
      turn_out a q (inl x) = inr x
      turn_out a q (inr x) = inl (omega (arith, x))

      past_out : (a : Ptr) → place start rs + 8 * n ≤ a + 4 → Out a (place start rs)
      past_out a h = inr (omega (arith, h, l))

      with_one : (a b c d : ℕ) → d ≡ b + c → a + d ≡ b + (a + c)
      with_one a b c d e = omega (arith, e)
