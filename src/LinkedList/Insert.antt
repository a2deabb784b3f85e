-- ===== src/LinkedList/Insert.antt =====
-- `insertNode` of Linked_List/Q1_A_LL.c is insertion into the list of cells.
use jungle_data_structures.Prelude.{
  ℕ, zero, suc, ◌+◌, ◌<◌, ◌≤◌, ◌≡◌, ◌≢◌, refl, Bool, true, false, ◌||◌, Option, none, some, [], ◌∷◌,
  arith, length, ltb, ◌==◌, insert_idx, length-insert_idx, ne→==, eq→==, lt→ltb, Bool-cases, inl,
  inr, suc_sub, max, le→ltb, sym, ◌∙◌,
}
use jungle_data_structures.Prelude.Int.{ℤ, pos, negsuc, minus_one}
use jungle_data_structures.LinkedList.Defs.{
  LinkedList, linked_list, new_node, insert_front, insert_after, insert_node,
}
use jungle_data_structures.Prelude.Run.{done}
use jungle_data_structures.LinkedList.Store.{
  Ptr, null, Store, ListNode, list_node, Block, write, malloc, set_next, Action,
}
use jungle_data_structures.LinkedList.Chain.{
  Cells, IsSeg, SameOutside, first, has, addr_at, load-done, set_next-done, set_item-done,
  IsSeg-frame, not_has_of_none, first-ne-null, write_self, write_ne, node_at,
}
use jungle_data_structures.LinkedList.Find.{IsList, find_node-found, has-addr_at, addr_at_end}

-- `malloc` succeeds: it hands out an address that is in use nowhere.
pub record IsFresh (h : Store) (b : Block) : Type 0 where
  pub ne_null : b.addr ≢ null
  pub unused : h b.addr ≡ none

or_false_left : (a b : Bool) → (a || b) ≡ false → a ≡ false
or_false_left a b h = ground arith

or_false_right : (a b : Bool) → (a || b) ≡ false → b ≡ false
or_false_right a b h = ground arith

or_true : (a : Bool) → (a || true) ≡ true
or_true a = ground arith

suc_not_zero : (j : ℕ) → (false || suc j == 0) ≡ false
suc_not_zero j = ground arith

ne_of_has : (a b : Ptr) (xs : Cells) → has a xs ≡ true → has b xs ≡ false → a ≢ b
ne_of_has a b xs i o e = cc

outside :
    (a p pre : Ptr) (xs : Cells) {T : Type 0}
    → has pre xs ≡ true
    → ((a == p) || has a xs) ≡ false
    → ((a == p) ≡ false → (a == pre) ≡ false → T)
    → T
outside a p pre xs i o k =
    k (or_false_left (a == p) (has a xs) o)
      (ne→== a pre (λ e. ne_of_has pre a xs i (or_false_right (a == p) (has a xs) o) (sym e)))

pub has-insert_idx :
    (a new : Ptr) (v : ℤ) (i : ℕ) (xs : Cells)
    → has a (insert_idx i (new, v) xs) ≡ ((a == new) || has a xs)
has-insert_idx a new v zero xs = refl
has-insert_idx a new v (suc i) [] = refl
has-insert_idx a new v (suc i) ((p, w) ∷ xs) = ground (arith, has-insert_idx a new v i xs)

-- The store `g` that the writes of `insertNode` leave, read at the new node and at the one before.
module _ (h g : Store) (stop new : Ptr) (v : ℤ) where
  IsSeg-insert_idx :
      (j : ℕ) (xs : Cells) (w : ℤ) (q : Ptr)
      → IsSeg h stop xs
      → j < length xs
      → has new xs ≡ false
      → new ≢ null
      → h (addr_at j xs) ≡ some (list_node w q)
      → g new ≡ some (list_node v q)
      → g (addr_at j xs) ≡ some (list_node w new)
      → ((a : Ptr) → (a == new) ≡ false → (a == addr_at j xs) ≡ false → g a ≡ h a)
      → IsSeg g stop (insert_idx (suc j) (new, v) xs)
  IsSeg-insert_idx j [] w q s lt out ne hp gn gp same = elim lt [ ]
  IsSeg-insert_idx zero ((p, u) ∷ xs) w q (pn, e, po, s) lt out ne hp gn gp same = (
    pn,
    ground arith,
    ground arith,
    (
      ne,
      ground arith,
      ground arith,
      IsSeg-frame h g stop xs s (λ a i. same a (ground arith) (ground arith)),
    ),
  )
  IsSeg-insert_idx (suc j) ((p, u) ∷ []) w q s lt out ne hp gn gp same = absurd (omega arith)
  IsSeg-insert_idx (suc j) ((p, u) ∷ (p', u') ∷ xs) w q (pn, e, po, s) lt out ne hp gn gp same =
      let inside = has-addr_at j ((p', u') ∷ xs) (omega arith) in
      (
        pn,
        ground (arith, same p),
        ground (arith, has-insert_idx p new v (suc j) ((p', u') ∷ xs)),
        IsSeg-insert_idx j ((p', u') ∷ xs) w q s (omega arith) (ground arith) ne hp gn gp same,
      )

-- The outcome of an insertion of `v` at index `i`: status 0, one node more, and every address that
-- is neither the new node's nor a list node's is as it was.
abbrev pub Inserted : Store → Ptr → ℤ → ℕ → Cells → (Option LinkedList × ℤ) → Store → Type 0
Inserted h new v i xs r g =
    (ll : LinkedList) × (r ≡ (some ll, pos 0))
    × IsList g ll (insert_idx i (new, v) xs)
    × SameOutside ((new, v) ∷ xs) h g

-- The store after the three calls of `new_node`.
abbrev filled : Store → Ptr → Ptr → ℤ → Ptr → Store
filled h p q v cur = write (write h p (some (list_node v q))) p (some (list_node v cur))

new_node-done :
    (h k : Store) (b : Block) (attach : Ptr → Action (Unit {0})) (v : ℤ) (cur : Ptr)
    → b.addr ≢ null
    → attach b.addr (write h b.addr (some b.junk)) ≡ done tt k
    → k b.addr ≡ some b.junk
    → new_node b attach v cur h ≡ done b.addr (filled k b.addr b.junk.next v cur)
unfolding new_node malloc
new_node-done h k b attach v cur ne at e =
    let n = b.junk in
    let again = write_self k b.addr (some (list_node v n.next)) in
    rw (
      ne→== b.addr 0 ne,
      at,
      set_item-done k b.addr n.next n.item v ne e,
      set_next-done (write k b.addr (some (list_node v n.next))) b.addr n.next cur v ne again,
    )

first-insert_idx :
    (stop : Ptr) (j : ℕ) (c : Ptr × ℤ) (xs : Cells)
    → j < length xs
    → first stop (insert_idx (suc j) c xs) ≡ first stop xs
first-insert_idx stop j c [] lt = elim lt [ ]
first-insert_idx stop j c (x ∷ xs) lt = refl

-- The branch behind the node `n` at `pre`, and what its last store holds.
module _ (h : Store) (b : Block) (pre : Ptr) (n : ListNode) (v : ℤ) where
  abbrev linked : Store
  linked = write (write h b.addr (some b.junk)) pre (some (list_node n.item b.addr))

  abbrev behind : Store
  behind = filled linked b.addr b.junk.next v n.next

  behind_pre : (pre == b.addr) ≡ false → behind pre ≡ some (list_node n.item b.addr)
  unfolding write
  behind_pre apart = ground arith

  behind_other : (a : Ptr) → (a == b.addr) ≡ false → (a == pre) ≡ false → behind a ≡ h a
  unfolding write
  behind_other a p q = ground arith

  linked_new : (pre == b.addr) ≡ false → linked b.addr ≡ some b.junk
  unfolding write
  linked_new apart = ground arith

  insert_after-done :
      (ll : LinkedList)
      → b.addr ≢ null
      → pre ≢ null
      → h pre ≡ some n
      → (pre == b.addr) ≡ false
      → insert_after b ll pre v h ≡ done (some (linked_list (ll.size + 1) ll.head), pos 0) behind
  unfolding insert_after
  insert_after-done ll ne pn e apart =
      let h1 = write h b.addr (some b.junk) in
      let at = set_next-done h1 pre n.next b.addr n.item pn (write_ne h b.addr pre _ apart ∙ e) in
      rw (
        ne→== pre 0 pn,
        load-done h pre n pn e,
        new_node-done h linked b (set_next pre) v n.next ne at (linked_new apart),
      )

module _ (h : Store) (b : Block) (fresh : IsFresh h b) where
  insert_front-Inserted :
      (ll : LinkedList) (v : ℤ) (xs : Cells)
      → IsList h ll xs
      → (r : Option LinkedList × ℤ) × (g : Store) × (insert_front b ll v h ≡ done r g)
        × Inserted h b.addr v 0 xs r g
  unfolding insert_front write
  insert_front-Inserted ll v xs is =
      let p = b.addr in
      let k = write h p (some b.junk) in
      let g = filled k p b.junk.next v ll.head in
      let out = not_has_of_none h null p xs is.chain fresh.unused in
      let kept = IsSeg-frame h g null xs is.chain (λ a i. ground arith) in
      (
        (some (linked_list (ll.size + 1) p), pos 0),
        g,
        rw (new_node-done h k b (λ p. done tt) v ll.head fresh.ne_null refl (write_self h p _)),
        (
          linked_list (ll.size + 1) p,
          refl,
          record {
            chain = (
              fresh.ne_null,
              rw (← is.head) (write_self (write k p (some (list_node v b.junk.next))) p _),
              out,
              kept,
            );
            head = refl;
            size = omega (arith, is.size);
          },
          λ a o. ground arith,
        ),
      )

  insert_after-Inserted :
      (ll : LinkedList) (v : ℤ) (j : ℕ) (xs : Cells)
      → IsList h ll xs
      → j < length xs
      → (r : Option LinkedList × ℤ) × (g : Store) × (insert_after b ll (addr_at j xs) v h
          ≡ done r g)
        × Inserted h b.addr v (suc j) xs r g
  insert_after-Inserted ll v j xs is lt =
      let p = b.addr in
      let pre = addr_at j xs in
      let out = not_has_of_none h null p xs is.chain fresh.unused in
      let (n, ne, e) = node_at h null j xs is.chain lt in
      let apart = ne→== pre p (ne_of_has pre p xs (has-addr_at j xs lt) out) in
      let other = behind_other h b pre n v in
      (
        (some (linked_list (ll.size + 1) ll.head), pos 0),
        behind h b pre n v,
        insert_after-done h b pre n v ll fresh.ne_null ne e apart,
        (
          linked_list (ll.size + 1) ll.head,
          refl,
          record {
            chain =
                IsSeg-insert_idx h (behind h b pre n v) null p v j xs n.item n.next is.chain lt out
                  fresh.ne_null e (write_self (write (linked h b pre n v) p _) p _)
                  (behind_pre h b pre n v apart) other;
            head = is.head ∙ sym (first-insert_idx null j (p, v) xs lt);
            size = omega (arith, is.size, length-insert_idx (suc j) (p, v) xs);
          },
          λ a o. outside a p pre xs (has-addr_at j xs lt) o (other a),
        ),
      )

  -- `insertNode` with a working `malloc`: an index from 0 to the length, or index 1 of an empty
  -- list, puts the value there. It returns 0, the structure stands for the list with the new cell, and no other memory changes.
  pub insert_node-Inserted :
      (ll : LinkedList) (v : ℤ) (i : ℕ) (xs : Cells)
      → IsList h ll xs
      → i ≤ max 1 (length xs)
      → (r : Option LinkedList × ℤ) × (g : Store) × (insert_node b (some ll) (pos i) v h ≡ done r g)
        × Inserted h b.addr v i xs r g
  unfolding insert_node
  insert_node-Inserted ll v zero xs is lt =
      rw (le→ltb (ll.size + 1) 0 (omega arith), or_true (ll.head == null))
        (insert_front-Inserted ll v xs is)
  insert_node-Inserted ll v (suc j) [] is lt =
      rw (le→ltb (ll.size + 1) (suc j) (omega arith), eq→== ll.head 0 is.head)
        (insert_front-Inserted ll v [] is)
  insert_node-Inserted ll v (suc j) ((p, w) ∷ xs) is lt =
      let e : ltb (ll.size + 1) (suc j) ≡ false = le→ltb _ _ (omega (arith, is.size)) in
      let f : (ll.head == null) ≡ false = rw is.head (first-ne-null h p w xs is.chain) in
      rw (e, f, suc_not_zero j, suc_sub j, find_node-found h ll ((p, w) ∷ xs) (pos j) is)
        (insert_after-Inserted ll v j ((p, w) ∷ xs) is (omega arith))

module _ (h : Store) (b : Block) where
  past :
      (ll : LinkedList) (xs : Cells) (v : ℤ) (i : ℕ)
      → IsList h ll xs
      → max 1 (length xs) < i
      → insert_node b (some ll) (pos i) v h ≡ done (some ll, minus_one) h
  unfolding insert_node insert_after
  past ll xs v zero is lt = elim lt [ ]
  past ll [] v (suc j) is lt = rw (lt→ltb (ll.size + 1) (suc j) (omega (arith, is.size)))
  past ll ((p, w) ∷ xs) v (suc j) is lt =
      let f : (ll.head == null) ≡ false = rw is.head (first-ne-null h p w xs is.chain) in
      let gone = addr_at_end j ((p, w) ∷ xs) (omega arith) in
      elim (Bool-cases (ltb (ll.size + 1) (suc j))) [
        | inl t ↦ rw t
        | inr t ↦
            rw
              (t, f, suc_not_zero j, suc_sub j, find_node-found h ll ((p, w) ∷ xs) (pos j) is, gone)
      ]

  -- `insertNode` with `NULL`, with a negative index, or with one past both 1 and the length returns
  -- -1 and changes nothing. The guard lets the index just past the length through, and `findNode`
  -- stops it there.
  pub insert_node-rejects :
      (ll : LinkedList) (xs : Cells) (index v : ℤ) (k i : ℕ)
      → IsList h ll xs
      → max 1 (length xs) < i
      → (insert_node b none index v h ≡ done (none, minus_one) h)
        × (insert_node b (some ll) (negsuc k) v h ≡ done (some ll, minus_one) h)
        × (insert_node b (some ll) (pos i) v h ≡ done (some ll, minus_one) h)
  unfolding insert_node
  insert_node-rejects ll xs index v k i is lt = (refl, refl, past ll xs v i is lt)
