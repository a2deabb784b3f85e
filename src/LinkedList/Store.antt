-- ===== src/LinkedList/Store.antt =====
-- The memory behind the list nodes of Data-Structures/Linked_List (`ListNode`), and the reads and
-- writes that the C code makes in it.
use jungle_data_structures.Prelude.{ℕ, Option, none, some, ◌==◌, if◌then◌else◌}
use jungle_data_structures.Prelude.Int.{ℤ}
use jungle_data_structures.Prelude.Run.{Outcome, done, fault, ◌>>=◌, ◌>>◌}

-- An address; `NULL` is 0.
abbrev pub Ptr : Type 0
Ptr = ℕ

abbrev pub null : Ptr
null = 0

pub record ListNode : Type 0 where
  pub item : ℤ
  pub next : Ptr

abbrev pub list_node : ℤ → Ptr → ListNode
list_node v q = record { item = v; next = q }

-- `none` is an address at which no node is allocated.
abbrev pub Store : Type 0
Store = Ptr → Option ListNode

unfoldable pub write : Store → Ptr → Option ListNode → Store
write h p c a = if a == p then c else h a

abbrev pub Action : Type 0 → Type 0
Action A = Store → Outcome Store A

-- The node at `p`.
unfoldable pub load : Ptr → Action ListNode
load p h = if p == null then fault else elim (h p) [ none ↦ fault | some n ↦ done n h ]

unfoldable pub store : Ptr → ListNode → Action (Unit {0})
store p n h = done tt (write h p (some n))

-- `p->next = q`
unfoldable pub set_next : Ptr → Ptr → Action (Unit {0})
unfolding load store
set_next p q = do n ← load p; store p (record n { next = q })

-- `p->item = v`
unfoldable pub set_item : Ptr → ℤ → Action (Unit {0})
unfolding load store
set_item p v = do n ← load p; store p (record n { item = v })

unfoldable pub free : Ptr → Action (Unit {0})
unfolding load
free p = do load p; λ h. done tt (write h p none)

-- What a call of `malloc` hands out: an address, null if memory is exhausted, and the bytes that
-- happen to stand there.
pub record Block : Type 0 where
  pub addr : Ptr
  pub junk : ListNode

unfoldable pub malloc : Block → Action Ptr
malloc b h = if b.addr == null then done null h else done b.addr (write h b.addr (some b.junk))
