-- ===== src/LinkedList/Session.antt =====
-- Sessions of `insertNode` and `removeNode` of Linked_List/Q1_A_LL.c with any indices, in memory and
-- on the list of cells.
use jungle_data_structures.Prelude.{
  ℕ, zero, suc, ◌≡◌, ◌≢◌, refl, subst, sym, ◌∙◌, Bool-cases, true, false, Option, none, some, List,
  ap, [], ◌∷◌, arith, length, leb, ltb, insert_idx, erase_idx, max, inl, inr, le_or_lt, le→leb,
  lt→leb, ne→==, lt→ltb, le→ltb, if◌then◌else◌,
}
use jungle_data_structures.Prelude.Int.{ℤ, pos, negsuc, minus_one}
use jungle_data_structures.Prelude.Run.{done, ◌>>=◌}
use jungle_data_structures.LinkedList.Store.{Ptr, null, Store, Block, Action}
use jungle_data_structures.LinkedList.Defs.{LinkedList, insert_node, remove_node}
use jungle_data_structures.LinkedList.Chain.{Cells, has, addr_at}
use jungle_data_structures.LinkedList.Find.{IsList}
use jungle_data_structures.LinkedList.Insert.{
  insert_node-Inserted, insert_node-rejects, has-insert_idx,
}
use jungle_data_structures.LinkedList.Remove.{
  has-erase_idx, remove_node-Removed, remove_node-rejects,
}

-- An insertion comes with what `malloc` hands out for it.
pub data Op : Type 0 where
  insert : Block → (index value : ℤ) → Op
  remove : (index : ℤ) → Op

unfoldable pub exec : Option LinkedList → Op → Action (Option LinkedList × ℤ)
exec l (insert b index value) = insert_node b l index value
exec l (remove index) = remove_node l index

-- The calls one after the other, and what each of them returns.
unfoldable pub session : Option LinkedList → List Op → Action (Option LinkedList × List ℤ)
session l [] = done (l, [])
session l (op ∷ ops) = do (l', s) ← exec l op; (l'', ss) ← session l' ops; done (l'', s ∷ ss)

-- The cells after a call, and what it returns. An empty list takes an insertion at the index 1 too.
abbrev pub after : Op → Cells → Cells
after (insert b (negsuc k) v) xs = xs
after (insert b (pos i) v) xs =
    if leb i (max 1 (length xs)) then insert_idx i (b.addr, v) xs else xs
after (remove (negsuc k)) xs = xs
after (remove (pos i)) xs = if ltb i (length xs) then erase_idx i xs else xs

abbrev pub status : Op → Cells → ℤ
status (insert b (negsuc k) v) xs = minus_one
status (insert b (pos i) v) xs = if leb i (max 1 (length xs)) then pos 0 else minus_one
status (remove (negsuc k)) xs = minus_one
status (remove (pos i)) xs = if ltb i (length xs) then pos 0 else minus_one

abbrev pub final : List Op → Cells → Cells
final [] xs = xs
final (op ∷ ops) xs = final ops (after op xs)

abbrev pub statuses : List Op → Cells → List ℤ
statuses [] xs = []
statuses (op ∷ ops) xs = status op xs ∷ statuses ops (after op xs)

erased_at :
    (a : Ptr) (i : ℕ) (xs : Cells)
    → has a xs ≡ true
    → has a (erase_idx i xs) ≡ false
    → a ≡ addr_at i xs
erased_at a i [] e o = cc
erased_at a zero ((p, v) ∷ xs) e o = ground arith
erased_at a (suc i) ((p, v) ∷ xs) e o = ground (arith, erased_at a i xs)

-- `Own` holds of the addresses that `malloc` may hand out for nodes of the list.
module _ (Own : Ptr → Type 0) where
  -- Of them only the nodes of the list are in use.
  abbrev pub Rest : Store → Cells → Type 0
  Rest h xs = (a : Ptr) → Own a → has a xs ≡ false → h a ≡ none

  -- All other memory outside of the list is the same.
  abbrev pub SameOthers : Cells → Store → Store → Type 0
  SameOthers xs h g = (a : Ptr) → (Own a → ⊥) → has a xs ≡ false → g a ≡ h a

  -- The address of a freed node may be handed out again.
  abbrev pub Allowed : Op → Cells → Type 0
  Allowed (insert b index v) xs = (b.addr ≢ null) × Own b.addr × (has b.addr xs ≡ false)
  Allowed (remove index) xs = Unit

  abbrev pub AllAllowed : List Op → Cells → Type 0
  AllAllowed [] xs = Unit
  AllAllowed (op ∷ ops) xs = Allowed op xs × AllAllowed ops (after op xs)

  abbrev After : Op → Cells → Store → LinkedList → Type 0
  After op xs h ll =
      (l : LinkedList) × (g : Store) × (exec (some ll) op h ≡ done (some l, status op xs) g)
      × IsList g l (after op xs)
      × Rest g (after op xs)
      × SameOthers xs h g

  insert-After :
      (b : Block) (i : ℕ) (v : ℤ) (xs : Cells) (h : Store) (ll : LinkedList)
      → IsList h ll xs
      → Rest h xs
      → Allowed (insert b (pos i) v) xs
      → After (insert b (pos i) v) xs h ll
  unfolding exec
  insert-After b i v xs h ll is rest (ne, own, out) = elim (le_or_lt i (max 1 (length xs))) [
    | inl le ↦
        let (r, g, run, (l, e, w, same)) =
          insert_node-Inserted h b (record { ne_null = ne; unused = rest b.addr own out }) ll v i xs
            is le in
        rw (le→leb i (max 1 (length xs)) le) (
          l,
          g,
          run ∙ ap (λ r. done r g) e,
          w,
          λ a o n. kept a o n g same,
          λ a other o. same a (ne_outside a other o),
        )
    | inr lt ↦
        rw (lt→leb i (max 1 (length xs)) lt) (
          ll,
          h,
          (insert_node-rejects h b ll xs (pos 0) v 0 i is lt).2,
          is,
          rest,
          λ a other o. refl,
        )
  ]
    where
      ne_outside : (a : Ptr) → (Own a → ⊥) → has a xs ≡ false → has a ((b.addr, v) ∷ xs) ≡ false
      ne_outside a other o =
          let ne = ne→== a b.addr (λ e. other (subst Own (sym e) own)) in ground arith

      kept :
          (a : Ptr)
          → Own a
          → has a (insert_idx i (b.addr, v) xs) ≡ false
          → (g : Store) → ((a : Ptr) → has a ((b.addr, v) ∷ xs) ≡ false → g a ≡ h a)
          → g a ≡ none
      kept a o n g same =
          let apart = sym (has-insert_idx a b.addr v i xs) ∙ n in
          same a apart ∙ rest a o (ground (arith, apart))

  remove-After :
      (i : ℕ) (xs : Cells) (h : Store) (ll : LinkedList)
      → IsList h ll xs
      → Rest h xs
      → After (remove (pos i)) xs h ll
  unfolding exec
  remove-After i xs h ll is rest = elim (le_or_lt (length xs) i) [
    | inl le ↦
        rw (le→ltb i (length xs) le)
          (ll, h, (remove_node-rejects h ll xs (pos 0) 0 i is le).2, is, rest, λ a other o. refl)
    | inr lt ↦
        let (r, g, run, (l, e, w, gone, same)) = remove_node-Removed h ll i xs is lt in
        rw (lt→ltb i (length xs) lt) (
          l,
          g,
          run ∙ ap (λ r. done r g) e,
          w,
          λ a o n. elim (Bool-cases (has a xs)) [
            | inl t ↦ subst (λ p. g p ≡ none) (sym (erased_at a i xs t n)) gone
            | inr f ↦ same a f ∙ rest a o f
          ],
          λ a other o. same a o,
        )
  ]

  exec-After :
      (op : Op) (xs : Cells) (h : Store) (ll : LinkedList)
      → IsList h ll xs
      → Rest h xs
      → Allowed op xs
      → After op xs h ll
  unfolding exec insert_node remove_node
  exec-After (insert b (negsuc k) v) xs h ll is rest ok = (ll, h, refl, is, rest, λ a other o. refl)
  exec-After (insert b (pos i) v) xs h ll is rest ok = insert-After b i v xs h ll is rest ok
  exec-After (remove (negsuc k)) xs h ll is rest ok = (ll, h, refl, is, rest, λ a other o. refl)
  exec-After (remove (pos i)) xs h ll is rest ok = remove-After i xs h ll is rest

  after_outside :
      (a : Ptr) (op : Op) (xs : Cells)
      → Allowed op xs
      → (Own a → ⊥)
      → has a xs ≡ false
      → has a (after op xs) ≡ false
  after_outside a (insert b (negsuc k) v) xs ok other o = o
  after_outside a (insert b (pos i) v) xs (ne, own, out) other o =
      let apart = ne→== a b.addr (λ e. other (subst Own (sym e) own)) in
      ground (arith, has-insert_idx a b.addr v i xs)
  after_outside a (remove (negsuc k)) xs ok other o = o
  after_outside a (remove (pos i)) xs ok other o = ground (arith, has-erase_idx a i xs o)

  -- A session of `insertNode` and `removeNode` with any indices, in which `malloc` hands out
  -- addresses that are not in use, ends. Each call returns 0 if its index is in range, and -1 if it
  -- is not, as on the list of cells, and the structure and the memory are left with the list of that
  -- session; a call with an index out of range leaves the list as it is. An insertion is in range
  -- from 0 to the length, or to 1 in an empty list. No memory is changed but that of the nodes and of
  -- what `malloc` may hand out, and of the latter only nodes of the list are in use at the end.
  pub session-statuses :
      (ops : List Op) (xs : Cells) (h : Store) (ll : LinkedList)
      → IsList h ll xs
      → Rest h xs
      → AllAllowed ops xs
      → (l : LinkedList) × (g : Store) × (session (some ll) ops h
          ≡ done (some l, statuses ops xs) g)
        × IsList g l (final ops xs)
        × Rest g (final ops xs)
        × SameOthers xs h g
  unfolding session
  session-statuses [] xs h ll is rest ok = (ll, h, refl, is, rest, λ a other o. refl)
  session-statuses (op ∷ ops) xs h ll is rest (ok, later) =
      let (l, g, run, w, r, s) = exec-After op xs h ll is rest ok in
      let (k, f, runs, u, z, t) = session-statuses ops (after op xs) g l w r later in
      (
        k,
        f,
        rw (run, runs) refl,
        u,
        z,
        λ a other o. t a other (after_outside a op xs ok other o) ∙ s a other o,
      )
