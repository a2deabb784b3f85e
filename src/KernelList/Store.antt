-- ===== src/KernelList/Store.antt =====
-- The memory of list elements (`struct list_elem`) behind pintos lib/kernel/list.c.
use jungle_data_structures.Prelude.{ℕ, ◌≡◌, ◌≢◌, Option, none, some, ◌==◌, if◌then◌else◌, arith}
use jungle_data_structures.Prelude.Run.{Outcome, done, fault, ◌>>=◌}

-- The address of an element; `NULL` is 0.
abbrev pub Ptr : Type 0
Ptr = ℕ

abbrev pub null : Ptr
null = 0

pub record ListElem : Type 0 where
  pub prev : Ptr
  pub next : Ptr

abbrev pub elem_of : Ptr → Ptr → ListElem
elem_of p q = record { prev = p; next = q }

abbrev pub Store : Type 0
Store = Ptr → Option ListElem

abbrev pub Act : Type 0 → Type 0
Act A = Store → Outcome Store A

unfoldable pub write : Store → Ptr → ListElem → Store
write h p n a = if a == p then some n else h a

unfoldable pub load : Ptr → Act ListElem
load p h = if p == null then fault else elim (h p) [ none ↦ fault | some n ↦ done n h ]

-- `p->prev = q`
unfoldable pub set_prev : Ptr → Ptr → Act (Unit {0})
set_prev p q = load p >>= λ n. λ h. done tt (write h p (record n { prev = q }))

-- `p->next = q`
unfoldable pub set_next : Ptr → Ptr → Act (Unit {0})
set_next p q = load p >>= λ n. λ h. done tt (write h p (record n { next = q }))

pub load-done : (h : Store) (p : Ptr) (n : ListElem) → p ≢ null → h p ≡ some n → load p h ≡ done n h
unfolding load
load-done h p n ne e = ground arith

module _ (h : Store) (p : Ptr) (n : ListElem) (q : Ptr) (ne : p ≢ null) (e : h p ≡ some n) where
  pub set_prev-done : set_prev p q h ≡ done tt (write h p (elem_of q n.next))
  unfolding set_prev
  set_prev-done = rw (load-done h p n ne e)

  pub set_next-done : set_next p q h ≡ done tt (write h p (elem_of n.prev q))
  unfolding set_next
  set_next-done = rw (load-done h p n ne e)

pub write_self : (h : Store) (p : Ptr) (n : ListElem) → write h p n p ≡ some n
unfolding write
write_self h p n = ground arith

pub write_ne : (h : Store) (p a : Ptr) (n : ListElem) → a ≢ p → write h p n a ≡ h a
unfolding write
write_ne h p a n ne = ground arith
