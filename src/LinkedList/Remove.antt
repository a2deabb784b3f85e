-- ===== src/LinkedList/Remove.antt =====
-- `removeNode` and `removeAllItems` of Linked_List/Q1_A_LL.c.
use jungle_data_structures.Prelude.{
  ℕ, zero, suc, ◌-◌, ◌<◌, ◌≤◌, ◌≡◌, ◌≢◌, refl, sym, ◌∙◌, false, Option, none, some, [], ◌∷◌, arith,
  length, leb, ◌==◌, if◌then◌else◌, erase_idx, length-erase_idx, ne→==, lt→leb, le→leb, ap, suc_sub,
}
use jungle_data_structures.Prelude.Int.{ℤ, pos, negsuc, minus_one}
use jungle_data_structures.LinkedList.Defs.{
  LinkedList, linked_list, remove_front, remove_after, remove_node, free_loop, remove_all_items,
}
use jungle_data_structures.Prelude.Run.{done}
use jungle_data_structures.LinkedList.Store.{Ptr, null, Store, ListNode, list_node, write}
use jungle_data_structures.LinkedList.Chain.{
  Cells, IsSeg, SameOutside, first, has, addr_at, load-done, set_next-done, free-done, IsSeg-frame,
  IsSeg-write, first-ne-null, write_self, write_ne, node_at,
}
use jungle_data_structures.LinkedList.Find.{IsList, find_node-found, has-addr_at}

pub has-erase_idx :
    (a : Ptr) (i : ℕ) (xs : Cells) → has a xs ≡ false → has a (erase_idx i xs) ≡ false
has-erase_idx a i [] o = refl
has-erase_idx a zero ((p, v) ∷ xs) o = ground arith
has-erase_idx a (suc i) ((p, v) ∷ xs) o = ground (arith, has-erase_idx a i xs)

-- The store `g` after the node at `suc j` is unlinked and freed.
module _ (h g : Store) (stop : Ptr) where
  IsSeg-erase_idx :
      (j : ℕ) (xs : Cells) (w u : ℤ) (r : Ptr)
      → IsSeg h stop xs
      → suc j < length xs
      → h (addr_at j xs) ≡ some (list_node w (addr_at (suc j) xs))
      → h (addr_at (suc j) xs) ≡ some (list_node u r)
      → g (addr_at j xs) ≡ some (list_node w r)
      → ((a : Ptr) → (a == addr_at j xs) ≡ false → (a == addr_at (suc j) xs) ≡ false → g a ≡ h a)
      → IsSeg g stop (erase_idx (suc j) xs)
  IsSeg-erase_idx j [] w u r s lt hp hq gp same = elim lt [ ]
  IsSeg-erase_idx zero ((p, v) ∷ []) w u r s lt hp hq gp same = absurd (omega arith)
  IsSeg-erase_idx zero ((p, v) ∷ (q, v') ∷ xs) w u r (pn, e, po, s) lt hp hq gp same = (
    pn,
    ground (arith, s),
    ground (arith, s),
    IsSeg-frame h g stop xs s.3 (λ a i. same a (ground (arith, s.2)) (ground (arith, s.2))),
  )
  IsSeg-erase_idx (suc j) ((p, v) ∷ []) w u r s lt hp hq gp same = absurd (omega arith)
  IsSeg-erase_idx (suc j) ((p, v) ∷ (p', v') ∷ xs) w u r (pn, e, po, s) lt hp hq gp same =
      let ys = (p', v') ∷ xs in
      let i1 = has-addr_at j ys (omega arith) in
      let i2 = has-addr_at (suc j) ys (omega arith) in
      (
        pn,
        same p (ne→== p _ (λ k. cc (k, i1, po))) (ne→== p _ (λ k. cc (k, i2, po))) ∙ e,
        has-erase_idx p (suc j) ys po,
        IsSeg-erase_idx j ys w u r s (omega arith) hp hq gp same,
      )

-- Behind the node at `j` stands the one at `suc j`.
pub next_at :
    (h : Store) (stop : Ptr) (j : ℕ) (xs : Cells) (n : ListNode)
    → IsSeg h stop xs
    → suc j < length xs
    → h (addr_at j xs) ≡ some n
    → n.next ≡ addr_at (suc j) xs
next_at h stop j [] n s lt e = elim lt [ ]
next_at h stop zero (x ∷ []) n s lt e = absurd (omega arith)
next_at h stop zero (x ∷ y ∷ xs) n s lt e = ground (arith, s.1)
next_at h stop (suc j) (x ∷ xs) n s lt e = next_at h stop j xs n s.3 (omega arith) e

-- The outcome of a removal at index `i`: status 0, one node less, that node freed, and every
-- address outside the list as it was.
abbrev pub Removed : Store → ℕ → Cells → (Option LinkedList × ℤ) → Store → Type 0
Removed h i xs r g =
    (ll : LinkedList) × (r ≡ (some ll, pos 0))
    × IsList g ll (erase_idx i xs)
    × (g (addr_at i xs) ≡ none)
    × SameOutside xs h g

remove_front-Removed :
    (h : Store) (ll : LinkedList) (p : Ptr) (v : ℤ) (xs : Cells)
    → IsList h ll ((p, v) ∷ xs)
    → (r : Option LinkedList × ℤ) × (g : Store) × (remove_front ll h ≡ done r g)
      × Removed h 0 ((p, v) ∷ xs) r g
unfolding remove_front
remove_front-Removed h ll p v xs is =
    let s = is.chain in
    let l' = linked_list (ll.size - 1) (first null xs) in
    (
      (some l', pos 0),
      write h p none,
      rw (is.head, load-done h p _ s.0 s.1, free-done h p _ s.0 s.1),
      (
        l',
        refl,
        record {
          chain = IsSeg-write h null p none xs s.3 s.2;
          head = refl;
          size = omega (arith, is.size);
        },
        write_self h p none,
        λ a o. write_ne h p a none (ground arith),
      ),
    )

module _ (h : Store) (pre q : Ptr) (w u : ℤ) (r : Ptr) where
  abbrev unlinked : Store
  unlinked = write (write h pre (some (list_node w r))) q none

  unlinked_pre : (pre == q) ≡ false → unlinked pre ≡ some (list_node w r)
  unfolding write
  unlinked_pre ne = ground arith

  unlinked_other : (a : Ptr) → (a == pre) ≡ false → (a == q) ≡ false → unlinked a ≡ h a
  unfolding write
  unlinked_other a p o = ground arith

  remove_after-done :
      (ll : LinkedList)
      → pre ≢ null
      → q ≢ null
      → (pre == q) ≡ false
      → h pre ≡ some (list_node w q)
      → h q ≡ some (list_node u r)
      → remove_after ll pre h ≡ done (some (linked_list (ll.size - 1) ll.head), pos 0) unlinked
  unfolding remove_after
  remove_after-done ll pn qn ne ep eq =
      let qp : (q == pre) ≡ false = ground arith in
      rw (
        ne→== pre 0 pn,
        load-done h pre _ pn ep,
        ne→== q 0 qn,
        load-done h q _ qn eq,
        set_next-done h pre q r w pn ep,
        free-done _ q _ qn (write_ne h pre q _ qp ∙ eq),
      )

-- Two indices of a list name two nodes.
addr_at_apart :
    (h : Store) (stop : Ptr) (j : ℕ) (xs : Cells)
    → IsSeg h stop xs
    → suc j < length xs
    → (addr_at j xs == addr_at (suc j) xs) ≡ false
addr_at_apart h stop j [] s lt = elim lt [ ]
addr_at_apart h stop zero (x ∷ []) s lt = absurd (omega arith)
addr_at_apart h stop zero (x ∷ y ∷ xs) s lt = ground (arith, s.2)
addr_at_apart h stop (suc j) (x ∷ xs) s lt = addr_at_apart h stop j xs s.3 (omega arith)

first-erase_idx :
    (stop : Ptr) (j : ℕ) (xs : Cells) → first stop (erase_idx (suc j) xs) ≡ first stop xs
first-erase_idx stop j [] = refl
first-erase_idx stop j (x ∷ xs) = refl

module _ (h : Store) where
  remove_after-Removed :
      (ll : LinkedList) (j : ℕ) (xs : Cells)
      → IsList h ll xs
      → suc j < length xs
      → (r : Option LinkedList × ℤ) × (g : Store) × (remove_after ll (addr_at j xs) h ≡ done r g)
        × Removed h (suc j) xs r g
  remove_after-Removed ll j xs is lt =
      let s = is.chain in
      let pre = addr_at j xs in
      let q = addr_at (suc j) xs in
      let (n, pn, e) = node_at h null j xs s (omega arith) in
      let (m, qn, eq) = node_at h null (suc j) xs s lt in
      let ep = e ∙ ap (λ r. some (list_node n.item r)) (next_at h null j xs n s lt e) in
      let apart = addr_at_apart h null j xs s lt in
      let g = unlinked h pre q n.item m.item m.next in
      let other = unlinked_other h pre q n.item m.item m.next in
      let i1 = has-addr_at j xs (omega arith) in
      let i2 = has-addr_at (suc j) xs lt in
      let at = unlinked_pre h pre q n.item m.item m.next apart in
      let l' = linked_list (ll.size - 1) ll.head in
      (
        (some l', pos 0),
        g,
        remove_after-done h pre q n.item m.item m.next ll pn qn apart ep eq,
        (
          l',
          refl,
          record {
            chain = IsSeg-erase_idx h g null j xs n.item m.item m.next s lt ep eq at other;
            head = is.head ∙ sym (first-erase_idx null j xs);
            size = omega (arith, is.size, length-erase_idx (suc j) xs lt);
          },
          write_self (write h pre (some (list_node n.item m.next))) q none,
          λ a o. other a (ne→== a pre (λ k. cc (k, i1, o))) (ne→== a q (λ k. cc (k, i2, o))),
        ),
      )

  -- `removeNode` at an index within the list unlinks and frees that node and returns 0. The
  -- structure then stands for the list without it, and no memory outside the list changes.
  pub remove_node-Removed :
      (ll : LinkedList) (i : ℕ) (xs : Cells)
      → IsList h ll xs
      → i < length xs
      → (r : Option LinkedList × ℤ) × (g : Store) × (remove_node (some ll) (pos i) h ≡ done r g)
        × Removed h i xs r g
  unfolding remove_node
  remove_node-Removed ll i [] is lt = elim lt [ ]
  remove_node-Removed ll zero ((p, v) ∷ xs) is lt =
      rw (lt→leb ll.size 0 (omega (arith, is.size))) (remove_front-Removed h ll p v xs is)
  remove_node-Removed ll (suc j) ((p, v) ∷ xs) is lt =
      let e : leb ll.size (suc j) ≡ false = lt→leb ll.size (suc j) (omega (arith, is.size)) in
      rw
        (
          e,
          ne→== (suc j) 0 (λ k. absurd (omega arith)),
          suc_sub j,
          find_node-found h ll ((p, v) ∷ xs) (pos j) is,
        )
        (remove_after-Removed ll j ((p, v) ∷ xs) is lt)

  -- `removeNode` with `NULL`, with a negative index, or with one past the end returns -1 and
  -- changes nothing.
  pub remove_node-rejects :
      (ll : LinkedList) (xs : Cells) (index : ℤ) (k i : ℕ)
      → IsList h ll xs
      → length xs ≤ i
      → (remove_node none index h ≡ done (none, minus_one) h)
        × (remove_node (some ll) (negsuc k) h ≡ done (some ll, minus_one) h)
        × (remove_node (some ll) (pos i) h ≡ done (some ll, minus_one) h)
  unfolding remove_node
  remove_node-rejects ll xs index k i is le =
      (refl, refl, rw (le→leb ll.size i (omega (arith, is.size))) refl)

-- `g` is `h` less the nodes of `xs`.
abbrev pub Without : Cells → Store → Store → Type 0
Without xs h g = (a : Ptr) → g a ≡ (if has a xs then none else h a)

free_loop-Without :
    (fuel : ℕ) (h : Store) (xs : Cells)
    → IsSeg h null xs
    → length xs < fuel
    → (g : Store) × (free_loop fuel (first null xs) h ≡ done tt g) × Without xs h g
unfolding free_loop
free_loop-Without zero h xs s lt = elim lt [ ]
free_loop-Without (suc fuel) h [] s lt = (h, refl, λ a. refl)
free_loop-Without (suc fuel) h ((p, v) ∷ xs) s lt =
    let k = write h p none in
    let (g, run, gone) =
      free_loop-Without fuel k xs (IsSeg-write h null p none xs s.3 s.2) (omega arith) in
    let kept = λ (a : Ptr) (ne : (a == p) ≡ false). write_ne h p a none ne in
    (
      g,
      rw (first-ne-null h p v xs s, load-done h p _ s.0 s.1, free-done h p _ s.0 s.1) run,
      λ a. ground (arith, gone a, kept a, write_self h p none, s.2),
    )

-- `removeAllItems` frees exactly the nodes of the list, each once, and leaves an empty structure.
-- As many rounds as there are nodes, and one for the test that fails, are enough.
pub remove_all_items-Without :
    (fuel : ℕ) (h : Store) (ll : LinkedList) (xs : Cells)
    → IsList h ll xs
    → length xs < fuel
    → (g : Store) × (remove_all_items fuel ll h ≡ done (linked_list 0 null) g)
      × IsList g (linked_list 0 null) []
      × Without xs h g
unfolding remove_all_items
remove_all_items-Without fuel h ll xs is lt =
    let (g, run, gone) = free_loop-Without fuel h xs is.chain lt in
    (g, rw (is.head, run), record { chain = tt; head = refl; size = refl }, gone)
