-- ===== src/KernelList/UniqueLoop.antt =====
-- The loop of `list_unique` of pintos lib/kernel/list.c.
use jungle_data_structures.Prelude.{
  ℕ, zero, suc, ◌<◌, ◌≡◌, refl, sym, subst, Bool, false, not, ◌&&◌, Option, List, [], ◌∷◌, ◌++◌,
  if◌then◌else◌, eq→==, Bool-cases, inl, inr, length, arith,
}
use mathlib.Core.List.{append_assoc, append-nil}
use jungle_data_structures.Prelude.Run.{done}
use jungle_data_structures.KernelList.Store.{Ptr, Store}
use jungle_data_structures.KernelList.Defs.{KernelList, unique_loop, list_unique}
use jungle_data_structures.KernelList.Links.{IsKernelList}
use jungle_data_structures.KernelList.Edit.{list_begin-first, list_empty-is_nil}
use jungle_data_structures.KernelList.Walk.{Rest, Rest-all, Rest-next, Rest-ne, Rest-tail}
use jungle_data_structures.KernelList.Unique.{Aside, set_aside-Aside}

module _ (less : Ptr → Ptr → Bool) where
  -- Neither is less than the other.
  abbrev pub equal : Ptr → Ptr → Bool
  equal a b = not (less a b) && not (less b a)

  -- What stays of `xs` behind the element `e`: the first of each run of equal elements.
  abbrev pub kept : Ptr → List Ptr → List Ptr
  kept e [] = []
  kept e (x ∷ xs) = if equal e x then kept e xs else x ∷ kept x xs

  -- The others.
  abbrev pub dropped : Ptr → List Ptr → List Ptr
  dropped e [] = []
  dropped e (x ∷ xs) = if equal e x then x ∷ dropped e xs else dropped x xs

  abbrev pub kept_all : List Ptr → List Ptr
  kept_all [] = []
  kept_all (x ∷ xs) = x ∷ kept x xs

  abbrev pub dropped_all : List Ptr → List Ptr
  dropped_all [] = []
  dropped_all (x ∷ xs) = dropped x xs

  -- No two adjacent elements are equal.
  abbrev pub NoRepeats : List Ptr → Type 0
  NoRepeats [] = Unit
  NoRepeats (a ∷ []) = Unit
  NoRepeats (a ∷ b ∷ xs) = (equal a b ≡ false) × NoRepeats (b ∷ xs)

  NoRepeats-kept : (e : Ptr) (xs : List Ptr) → NoRepeats (e ∷ kept e xs)
  NoRepeats-kept e [] = tt
  NoRepeats-kept e (x ∷ xs) = elim (Bool-cases (equal e x)) [
    | inl t ↦ rw t (NoRepeats-kept e xs)
    | inr f ↦ rw f (f, NoRepeats-kept x xs)
  ]

  NoRepeats-kept_all : (xs : List Ptr) → NoRepeats (kept_all xs)
  NoRepeats-kept_all [] = tt
  NoRepeats-kept_all (x ∷ xs) = NoRepeats-kept x xs

  module _ (l : KernelList) (dup : Option KernelList) where
    -- The list holds `zs`, and the duplicates, if they are asked for, `ys`.
    abbrev pub Both : Store → List Ptr → List Ptr → Type 0
    Both h zs ys = IsKernelList h l zs × Aside h l zs dup ys

    Rest-from :
        (h : Store) (e : Ptr) (xs cs : List Ptr) (p : Ptr)
        → Rest h l p (cs ++ e ∷ xs)
        → (q : Ptr) × Rest h l q (e ∷ xs)
    Rest-from h e xs [] p r = (p, r)
    Rest-from h e xs (c ∷ cs) p r = Rest-from h e xs cs c (Rest-tail h l p c (cs ++ e ∷ xs) r)

    unique_loop-Both :
        (fuel : ℕ) (h : Store) (cs : List Ptr) (e : Ptr) (xs ys : List Ptr)
        → Both h (cs ++ e ∷ xs) ys
        → length xs < fuel
        → (g : Store) × (unique_loop less fuel l dup e h ≡ done tt g)
          × Both g (cs ++ e ∷ kept e xs) (ys ++ dropped e xs)
    unfolding unique_loop
    unique_loop-Both zero h cs e xs ys w lt = ground arith
    unique_loop-Both (suc fuel) h cs e [] ys w lt =
        let (q, r) = Rest-from h e [] cs l.head (Rest-all h l (cs ++ e ∷ []) w.0) in
        (
          h,
          rw (Rest-next h l q e [] r, eq→== l.tail l.tail refl) refl,
          subst (Both h (cs ++ e ∷ [])) (sym (append-nil ys)) w,
        )
    unique_loop-Both (suc fuel) h cs e (x ∷ xs) ys w lt =
        let (q, r) = Rest-from h e (x ∷ xs) cs l.head (Rest-all h l (cs ++ e ∷ x ∷ xs) w.0) in
        let ne = Rest-ne h l e x xs (Rest-tail h l q e (x ∷ xs) r) in
        let (k, s) = subst (λ z. Both h z ys) (sym (append_assoc cs (e ∷ []) (x ∷ xs))) w in
        elim (Bool-cases (equal e x)) [
          | inl t ↦
              let (g, run, vl, va) = set_aside-Aside l (cs ++ e ∷ []) xs x h dup ys k s in
              let v2 =
                subst (λ z. Both g z (ys ++ x ∷ [])) (append_assoc cs (e ∷ []) xs) (vl, va) in
              let (m, rest, u) = unique_loop-Both fuel g cs e xs (ys ++ x ∷ []) v2 (omega arith) in
              (
                m,
                rw (Rest-next h l q e (x ∷ xs) r, ne, t, run) rest,
                rw t (
                    subst (Both m (cs ++ e ∷ kept e xs)) (append_assoc ys (x ∷ []) (dropped e xs))
                      u),
              )
          | inr f ↦
              let (m, rest, u) =
                unique_loop-Both fuel h (cs ++ e ∷ []) x xs ys (k, s) (omega arith) in
              (
                m,
                rw (Rest-next h l q e (x ∷ xs) r, ne, f) rest,
                rw f (
                    subst (λ z. Both m z (ys ++ dropped x xs))
                      (append_assoc cs (e ∷ []) (x ∷ kept x xs)) u),
              )
        ]

    -- `list_unique` keeps the first of each run of adjacent equal elements and, if a list for
    -- duplicates is given that shares no element with the first, appends the others to it in order;
    -- no two adjacent elements are equal then, and one round more than there are elements is enough.
    pub list_unique-Both :
        (fuel : ℕ) (h : Store) (xs ys : List Ptr)
        → Both h xs ys
        → length xs < suc fuel
        → (g : Store) × (list_unique less (suc fuel) l dup h ≡ done tt g)
          × Both g (kept_all xs) (ys ++ dropped_all xs)
          × NoRepeats (kept_all xs)
    unfolding list_unique
    list_unique-Both fuel h [] ys w lt =
        (h, rw (list_empty-is_nil h l [] w.0) refl, subst (Both h []) (sym (append-nil ys)) w, tt)
    list_unique-Both fuel h (x ∷ xs) ys w lt =
        let (g, run, v) = unique_loop-Both (suc fuel) h [] x xs ys w (omega arith) in
        (
          g,
          rw (list_empty-is_nil h l (x ∷ xs) w.0, list_begin-first h l (x ∷ xs) w.0) run,
          v,
          NoRepeats-kept_all (x ∷ xs),
        )
