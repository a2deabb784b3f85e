-- ===== src/KernelList/Deque.antt =====
-- The lists of pintos lib/kernel/list.c as double-ended queues of elements: a session of pushes and
-- pops in memory, and the same session on a list of addresses.
use jungle_data_structures.Prelude.{
  ◌≡◌, ◌≢◌, refl, sym, ap, ◌∙◌, subst, true, false, Option, none, some, List, [], ◌∷◌, ◌++◌, ◌==◌,
  Bool-cases, inl, inr, arith,
}
use jungle_data_structures.Prelude.Run.{done, ◌>>=◌, ◌>>◌}
use jungle_data_structures.KernelList.Store.{Ptr, null, ListElem, elem_of, Store, Act}
use jungle_data_structures.KernelList.Defs.{
  KernelList, list_push_front, list_push_back, list_pop_front, list_pop_back,
}
use jungle_data_structures.KernelList.Links.{has, first, last, Run, ring, IsKernelList}
use jungle_data_structures.KernelList.Edit.{
  Edited, list_push_front-Edited, list_push_back-Edited, list_pop_front-Edited,
  list_pop_back-Edited,
}

pub data Op : Type 0 where
  push_front : Ptr → Op
  push_back : Ptr → Op
  pop_front : Op
  pop_back : Op

-- One operation in memory, and the element that it returns.
unfoldable pub exec : KernelList → Op → Act (Option Ptr)
exec l (push_front e) = list_push_front l e >> done none
exec l (push_back e) = list_push_back l e >> done none
exec l pop_front = list_pop_front l >>= λ e. done (some e)
exec l pop_back = list_pop_back l >>= λ e. done (some e)

unfoldable pub session : KernelList → List Op → Act (List (Option Ptr))
session l [] = done []
session l (op ∷ ops) = do r ← exec l op; rs ← session l ops; done (r ∷ rs)

abbrev pub drop_last : List Ptr → List Ptr
drop_last [] = []
drop_last (x ∷ []) = []
drop_last (x ∷ y ∷ xs) = x ∷ drop_last (y ∷ xs)

-- The elements after an operation, and what it returns.
abbrev pub after : Op → List Ptr → List Ptr
after (push_front e) xs = e ∷ xs
after (push_back e) xs = xs ++ e ∷ []
after pop_front [] = []
after pop_front (x ∷ xs) = xs
after pop_back xs = drop_last xs

abbrev pub result : Op → List Ptr → Option Ptr
result (push_front e) xs = none
result (push_back e) xs = none
result pop_front xs = some (first xs null)
result pop_back xs = some (last xs null)

abbrev pub final : List Op → List Ptr → List Ptr
final [] xs = xs
final (op ∷ ops) xs = final ops (after op xs)

abbrev pub results : List Op → List Ptr → List (Option Ptr)
results [] xs = []
results (op ∷ ops) xs = result op xs ∷ results ops (after op xs)

abbrev pub Allocated : Store → Ptr → Type 0
Allocated h e = (n : ListElem) × (h e ≡ some n)

-- `e` may be pushed: it is allocated and neither an element nor a header of the list.
abbrev pub MayPush : Store → KernelList → Ptr → List Ptr → Type 0
MayPush h l e xs = (e ≢ null) × (has e (ring l xs) ≡ false) × Allocated h e

-- Only such elements are pushed, and only from a list that has elements something is popped.
abbrev pub Allowed : Store → KernelList → Op → List Ptr → Type 0
Allowed h l (push_front e) xs = MayPush h l e xs
Allowed h l (push_back e) xs = MayPush h l e xs
Allowed h l pop_front xs = xs ≢ []
Allowed h l pop_back xs = xs ≢ []

abbrev pub AllAllowed : Store → KernelList → List Op → List Ptr → Type 0
AllAllowed h l [] xs = Unit
AllAllowed h l (op ∷ ops) xs = Allowed h l op xs × AllAllowed h l ops (after op xs)

-- All elements of a run are allocated, so an edit leaves what was allocated so.
Run-Allocated :
    (g : Store) (a p : Ptr) (xs : List Ptr) (q : Ptr)
    → Run g p xs q
    → has a xs ≡ true
    → Allocated g a
Run-Allocated g a p [] q r i = ground arith
Run-Allocated g a p (x ∷ xs) q (nx, ex, r) i = elim (Bool-cases (a == x)) [
  | inl t ↦ (elem_of p (first xs q), ground arith)
  | inr f ↦ Run-Allocated g a x xs q r (ground arith)
]

module _ (h g : Store) (l : KernelList) where
  Edited-Allocated :
      (xs : List Ptr) → Edited h g l xs xs → (a : Ptr) → Allocated h a → Allocated g a
  Edited-Allocated xs v a (n, e) = elim (Bool-cases (has a (ring l xs))) [
    | inl t ↦ Run-Allocated g a null (ring l xs) null v.holds.linked t
    | inr f ↦ (n, v.outside a f ∙ e)
  ]

  AllAllowed-later :
      (ops : List Op) (xs : List Ptr)
      → ((a : Ptr) → Allocated h a → Allocated g a)
      → AllAllowed h l ops xs
      → AllAllowed g l ops xs
  AllAllowed-later [] xs k w = tt
  AllAllowed-later (push_front e ∷ ops) xs k ((ne, out, al), w) =
      ((ne, out, k e al), AllAllowed-later ops (e ∷ xs) k w)
  AllAllowed-later (push_back e ∷ ops) xs k ((ne, out, al), w) =
      ((ne, out, k e al), AllAllowed-later ops (xs ++ e ∷ []) k w)
  AllAllowed-later (pop_front ∷ ops) xs k (ne, w) =
      (ne, AllAllowed-later ops (after pop_front xs) k w)
  AllAllowed-later (pop_back ∷ ops) xs k (ne, w) = (ne, AllAllowed-later ops (drop_last xs) k w)

drop_last-last : (x : Ptr) (xs : List Ptr) → drop_last (x ∷ xs) ++ last xs x ∷ [] ≡ x ∷ xs
drop_last-last x [] = refl
drop_last-last x (y ∷ xs) = ap (λ (r : List Ptr). x ∷ r) (drop_last-last y xs)

exec-Edited :
    (l : KernelList) (op : Op) (xs : List Ptr) (h : Store)
    → IsKernelList h l xs
    → Allowed h l op xs
    → (g : Store) × (exec l op h ≡ done (result op xs) g) × Edited h g l (after op xs) (after op xs)
unfolding exec
exec-Edited l (push_front e) xs h w (ne, out, (n, al)) =
    let (g, run, v) = list_push_front-Edited h l e n xs w out ne al in (g, rw run refl, v)
exec-Edited l (push_back e) xs h w (ne, out, (n, al)) =
    let (g, run, v) = list_push_back-Edited h l e n xs w out ne al in (g, rw run refl, v)
exec-Edited l pop_front [] h w ne = absurd (ne refl)
exec-Edited l pop_front (x ∷ xs) h w ne =
    let (g, run, v) = list_pop_front-Edited h l x xs w in (g, rw run refl, v)
exec-Edited l pop_back [] h w ne = absurd (ne refl)
exec-Edited l pop_back (x ∷ xs) h w ne =
    let (g, run, v) =
      list_pop_back-Edited h l (last xs x) (drop_last (x ∷ xs))
        (subst (IsKernelList h l) (sym (drop_last-last x xs)) w) in
    (g, rw run refl, v)

-- A session in which only allocated elements outside of the list are pushed, and nothing is popped
-- from an empty list, returns in memory what it returns on the list of addresses, and leaves in
-- memory the list of that session.
pub session-results :
    (l : KernelList) (ops : List Op) (xs : List Ptr) (h : Store)
    → IsKernelList h l xs
    → AllAllowed h l ops xs
    → (g : Store) × (session l ops h ≡ done (results ops xs) g) × IsKernelList g l (final ops xs)
unfolding session
session-results l [] xs h w a = (h, refl, w)
session-results l (op ∷ ops) xs h w (ok, a) =
    let (g, run, v) = exec-Edited l op xs h w ok in
    let (k, rest, u) =
      session-results l ops (after op xs) g v.holds
        (AllAllowed-later h g l ops (after op xs) (Edited-Allocated h g l (after op xs) v) a) in
    (k, rw (run, rest) refl, u)
