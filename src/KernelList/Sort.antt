-- ===== src/KernelList/Sort.antt =====
-- `list_splice` and `list_sort` of pintos lib/kernel/list.c, with the functions that only the sort
-- uses. `fuel` bounds the rounds of the inner loops, `passes` those of the loop over passes.
use jungle_data_structures.Prelude.{
  ℕ, zero, suc, ◌+◌, Bool, true, false, not, ◌&&◌, ◌||◌, ◌==◌, ltb, if◌then◌else◌,
}
use jungle_data_structures.Prelude.Run.{done, give_up, assert, ◌>>=◌, ◌>>◌}
use jungle_data_structures.KernelList.Store.{Ptr, null, Act, load, set_prev, set_next}
use jungle_data_structures.KernelList.Defs.{
  KernelList, is_interior, is_tail, list_begin, list_next, list_end, list_prev,
}

-- The two writes by which `list_splice` takes `first` to `last` out of their list.
unfoldable pub unlink : (first last : Ptr) → Act (Unit {0})
unlink first last = do
  a ← load first
  b ← load last
  set_next a.prev b.next
  c ← load last
  d ← load first
  set_prev c.next d.prev

-- The four writes by which it puts them before `before`.
unfoldable pub splice_in : (before first last : Ptr) → Act (Unit {0})
splice_in before first last = do
  a ← load before
  set_prev first a.prev
  set_next last before
  b ← load before
  set_next b.prev first
  set_prev before last

unfoldable pub list_splice : (before first last : Ptr) → Act (Unit {0})
list_splice before first last = do
  a ← is_interior before
  b ← is_tail before
  assert (a || b)
  if first == last then done tt else (do
    last ← list_prev last
    c ← is_interior first
    assert c
    d ← is_interior last
    assert d
    unlink first last
    splice_in before first last)

module _ (less : Ptr → Ptr → Bool) where
  unfoldable pub sorted_loop : ℕ → (a b : Ptr) → Act Bool
  sorted_loop zero a b = give_up
  sorted_loop (suc fuel) a b = do
    a ← list_next a
    if a == b
        then done true
        else (do p ← list_prev a; if less a p then done false else sorted_loop fuel a b)

  unfoldable pub is_sorted : ℕ → (a b : Ptr) → Act Bool
  is_sorted fuel a b = if not (a == b) then sorted_loop fuel a b else done true

  unfoldable pub end_loop : ℕ → (a b : Ptr) → Act Ptr
  end_loop zero a b = give_up
  end_loop (suc fuel) a b = do
    a ← list_next a
    if not (a == b)
        then (do p ← list_prev a; if not (less a p) then end_loop fuel a b else done a)
        else done a

  unfoldable pub find_end_of_run : ℕ → (a b : Ptr) → Act Ptr
  find_end_of_run fuel a b = do
    assert (not (a == null))
    assert (not (b == null))
    assert (not (a == b))
    end_loop fuel a b

  unfoldable pub merge_loop : ℕ → (a0 a1b0 b1 : Ptr) → Act (Unit {0})
  merge_loop zero a0 a1b0 b1 = give_up
  merge_loop (suc fuel) a0 a1b0 b1 =
      if not (a0 == a1b0) && not (a1b0 == b1)
      then (if not (less a1b0 a0) then (do a ← list_next a0; merge_loop fuel a a1b0 b1) else (do
        n ← list_next a1b0
        p ← list_prev n
        list_splice a0 p n
        merge_loop fuel a0 n b1))
      else done tt

  unfoldable pub inplace_merge : ℕ → (a0 a1b0 b1 : Ptr) → Act (Unit {0})
  inplace_merge fuel a0 a1b0 b1 = do
    assert (not (a0 == null))
    assert (not (a1b0 == null))
    assert (not (b1 == null))
    s ← is_sorted fuel a0 a1b0
    assert s
    t ← is_sorted fuel a1b0 b1
    assert t
    merge_loop fuel a0 a1b0 b1

  -- The `for` of `list_sort`, one pass over the list.
  unfoldable pub pass_loop : ℕ → KernelList → (a0 : Ptr) → (output_run_cnt : ℕ) → Act ℕ
  pass_loop zero list a0 output_run_cnt = give_up
  pass_loop (suc fuel) list a0 output_run_cnt =
      if not (a0 == list_end list)
      then (do
        a1b0 ← find_end_of_run (suc fuel) a0 (list_end list)
        if a1b0 == list_end list then done (output_run_cnt + 1) else (do
          b1 ← find_end_of_run (suc fuel) a1b0 (list_end list)
          inplace_merge (suc fuel) a0 a1b0 b1
          pass_loop fuel list b1 (output_run_cnt + 1)))
      else done output_run_cnt

  -- Its `do`, one round of which is a pass.
  unfoldable pub sort_loop : (passes fuel : ℕ) → KernelList → Act (Unit {0})
  sort_loop zero fuel list = give_up
  sort_loop (suc passes) fuel list = do
    a0 ← list_begin list
    output_run_cnt ← pass_loop fuel list a0 0
    if ltb 1 output_run_cnt then sort_loop passes fuel list else done tt

  unfoldable pub list_sort : (passes fuel : ℕ) → KernelList → Act (Unit {0})
  list_sort passes fuel list = do
    sort_loop passes fuel list
    b ← list_begin list
    s ← is_sorted fuel b (list_end list)
    assert s
