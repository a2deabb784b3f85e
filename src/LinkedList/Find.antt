-- ===== src/LinkedList/Find.antt =====
-- `findNode` of Linked_List/Q1_A_LL.c against the cells that a list stands for.
use jungle_data_structures.Prelude.{
  ℕ, zero, suc, ◌<◌, ◌≤◌, ◌≡◌, refl, true, some, [], ◌∷◌, arith, length, leb,
}
use jungle_data_structures.Prelude.Int.{ℤ, pos, negsuc}
use jungle_data_structures.LinkedList.Defs.{LinkedList, find_loop, find_node}
use jungle_data_structures.Prelude.Run.{done}
use jungle_data_structures.LinkedList.Store.{null, Store}
use jungle_data_structures.LinkedList.Chain.{
  Cells, IsSeg, first, has, addr_at, load-done, first-ne-null,
}

-- A list in memory: its head leads through `xs` to `NULL`, and `size` counts the nodes.
pub record IsList (h : Store) (ll : LinkedList) (xs : Cells) : Type 0 where
  pub chain : IsSeg h null xs
  pub head : ll.head ≡ first null xs
  pub size : ll.size ≡ length xs

pub find_loop-addr_at :
    (h : Store) (i : ℕ) (p : ℕ) (v : ℤ) (xs : Cells)
    → IsSeg h null ((p, v) ∷ xs)
    → find_loop i p h ≡ done (addr_at i ((p, v) ∷ xs)) h
unfolding find_loop
find_loop-addr_at h zero p v xs s = refl
find_loop-addr_at h (suc i) p v [] s = rw (load-done h p _ s.0 s.1)
find_loop-addr_at h (suc i) p v ((q, w) ∷ xs) s =
    rw (load-done h p _ s.0 s.1, first-ne-null h q w xs s.3) (find_loop-addr_at h i q w xs s.3)

pub addr_at_end : (i : ℕ) (xs : Cells) → length xs ≤ i → addr_at i xs ≡ null
addr_at_end i [] h = refl
addr_at_end zero (x ∷ xs) h = absurd (omega arith)
addr_at_end (suc i) (x ∷ xs) h = addr_at_end i xs (omega arith)

-- What `findNode` returns: the address of the node at `index`, `NULL` if there is none.
abbrev pub found : ℤ → Cells → ℕ
found (pos i) xs = addr_at i xs
found (negsuc k) xs = null

-- On a list in memory `findNode` follows no bad pointer, changes nothing, and returns the node of
-- that index, or `NULL` for a negative index and for one past the end.
pub find_node-found :
    (h : Store) (ll : LinkedList) (xs : Cells) (index : ℤ)
    → IsList h ll xs
    → find_node (some ll) index h ≡ done (found index xs) h
unfolding find_node
find_node-found h ll xs (negsuc k) is = refl
find_node-found h ll [] (pos i) is = ground (arith, is.head)
find_node-found h ll ((p, v) ∷ xs) (pos i) is =
    let e : leb (length ((p, v) ∷ xs)) i ≡ true → addr_at i ((p, v) ∷ xs) ≡ null =
      λ t. addr_at_end i ((p, v) ∷ xs) (ground arith) in
    rw (is.size, is.head, first-ne-null h p v xs is.chain)
      (ground (arith, e, find_loop-addr_at h i p v xs is.chain))

pub has-addr_at : (i : ℕ) (xs : Cells) → i < length xs → has (addr_at i xs) xs ≡ true
has-addr_at i [] h = elim h [ ]
has-addr_at zero (x ∷ xs) h = ground arith
has-addr_at (suc i) (x ∷ xs) h = ground (arith, has-addr_at i xs)
