-- ===== src/Lib.antt =====
-- The verification library of the data structures and systems laboratories of this repository: the
-- exercises of Data-Structures, the kernel library of pintos_22.04_lab_docker/pintos, and the
-- allocator and tree laboratories beside them. The parts are separate programs; within pintos the
-- bitmaps are used by the page allocator and the file system, and the string functions everywhere.
--
-- Files:
-- Prelude and its children: shared names, tests, lists, lists without repetition (Distinct),
-- integers, binary digits (Bits), and how a run of C code ends (Run: a value and the new memory,
-- undefined behaviour, a failed `ASSERT`, or a loop that was given too few rounds).
-- LinkedList: Data-Structures/Linked_List/Q1_A_LL.c. Store is the memory of nodes, Defs the
-- functions (`find_node` for findNode, `insert_node` for insertNode, `remove_node` for removeNode,
-- `remove_all_items` for removeAllItems, `print_loop` for printList), Chain and Find what a list in
-- memory stands for, Insert, Remove and Session the proofs. A `LinkedList *` is the structure behind it, or
-- `none` for NULL; a function that changes the structure returns it. What malloc hands out is an
-- argument, an address that is null or in use nowhere, with arbitrary bytes.
-- Str: pintos_22.04_lab_docker/pintos/lib/string.c over byte-addressed memory in which some
-- addresses belong to the caller and the others fault. The functions keep their names. Defs has
-- most of them with Bytes, Copy, Text, Lcpy and Last, Search has strpbrk and strstr, Tokens and
-- NextToken strtok_r, which is given the saved position and returns the new one beside the token.
-- Bitmap: pintos_22.04_lab_docker/pintos/lib/kernel/bitmap.c over arrays of 64-bit words. The
-- functions keep their names; View is the truth value at each index.
-- KernelList: pintos_22.04_lab_docker/pintos/lib/kernel/list.c over a memory of links. Store is
-- that memory, Defs the functions under their own names, Links what a list in memory stands for,
-- Update and Edit insertion and removal, Walk and Order the walks, Ordered insertion into a sorted
-- list, Deque sessions of pushes and pops, Unique and UniqueLoop the removal of duplicates,
-- Reverse, TurnEnds and Turned the opposite order; Sort has list_splice and list_sort, Splice the
-- move of an element, Merge runs and merging apart from memory, Merging and Sorting the sort. The
-- caller's `less` is a parameter, a Boolean function of two elements; where order matters it is a
-- strict weak order.
-- RbTree: rbtree-lab/src/rbtree.c in the build with SENTINEL. Store is the memory of nodes, Defs
-- the functions that look into a tree or free it, under their own names, Trees what a tree in
-- memory stands for, Find, Extremes, Traversal and Delete the proofs. The array that
-- rbtree_to_array fills is a list outside of which a write is a fault. Change has the functions
-- that build a tree; what the source writes twice, with left and right exchanged, takes a side:
-- left_rotate and right_rotate are `rotate` with a side, and the branches of rbtree_fixup are
-- `fixup_round`. Erase has the functions that take a node out, with Transplant, Settled and Erased;
-- Steps, Zipper, Parts, Rotate and Focus lead to the rotation, where a place in a tree is the part
-- below and the path above; RedBlack is the balance, Round, Ready, Fixup and FixupLoop are
-- rbtree_fixup, Way, Ascending, Bounds, Attach and Insert are rbtree_insert. A new node is an
-- address at which nothing is allocated.
-- BinaryTree: Data-Structures/tests/binary_tree.c. Store is the memory of nodes, Trees what a tree
-- in memory stands for, Defs the functions (`max_height` for maxHeight, and so on), Measure,
-- Smallest, Printing, Same, Mirror and Remove the proofs.
-- SearchTree: Data-Structures/tests/binary_search_tree.c over the same memory. Defs has the
-- functions (`in_order_iterative` for inOrderIterative, and so on), Inorder, Postorder and
-- TwoStacks the traversals, Sorted increasing lists, Attach, Insert, Remove and RemoveRun the
-- changes, Queue and LevelOrder the level order. A stack or a queue is the list of the nodes that
-- it holds.
-- Malloc: malloc-lab/mm.c and malloc-lab/memlib.c. Store is the simulated heap, words of four bytes
-- at multiples of four between mem_start_brk and mem_brk, outside of which an access is a fault;
-- Defs has the macros (`get_size` for GET_SIZE, and so on), the free list, coalesce, extend_heap
-- and mm_init, Alloc the search, place, mm_malloc, mm_free and mm_realloc, for which `memcpy` is a
-- parameter. Words, Links, LinkWords, SkipFront, SkipBack, FreeList and AddFree are the free list
-- in memory; Blocks and Ends the blocks with the words at both ends, Gap a heap with a stretch that
-- is no block at the moment, Fill, Open, Around, Reads and Close what happens to it; JoinOne,
-- JoinBoth and Coalesce are coalesce and mm_free, Focus a heap seen from one block, Best, Place,
-- Extend, Sizes and Allocate mm_malloc, Init and Realloc the other two. A heap is a list of blocks,
-- in use (with the words of their payload) or free, with sizes in units of eight bytes; a proof
-- looks at it from one place, with the blocks behind and the blocks ahead. Every block has 24 bytes
-- or more there, so requests of at most 8 bytes, which get less, are not among those proved.
-- Palloc: pintos_22.04_lab_docker/pintos/threads/palloc.c over Bitmap and Str: Defs has the
-- functions under their own names, on two pools and the memory of the kernel, Fill memset, Pages
-- what a pool is and freeing, Give handing out, Back both in turn. A lock is held during one call
-- of the bitmap and leaves no trace here.
-- Random: pintos_22.04_lab_docker/pintos/lib/random.c, the functions under their own names, and the
-- invariant of the table of bytes.
-- Tests: runs at concrete inputs, and the theorems at inputs that meet their hypotheses.
--
-- An `int` is an integer of any size; a `size_t` sum wraps at 2 ^ 64 where bitmap.c adds two of
-- them. A loop over a count recurs on the rounds left. A loop that ends at a null pointer or a null
-- byte takes fuel, and its theorem says how much is enough: one round more than there are nodes or
-- characters. The search of the free list takes one round more than there are free blocks. Sizes in
-- mm.c are 64 bits wide and wrap, words of the heap and the argument of mem_sbrk 32 bits.
--
-- Not modelled: how the pools of pages are set up, input and output, the menus of the exercises,
-- device drivers, assembly, the file system, threads, and the web proxy. next_fit of mm.c, which
-- nothing calls, is left out. Of mm_realloc the cases that move a block are defined only.
-- rbtree_erase is defined in full, and run on examples where a black node leaves a black place
-- behind.
pub mod Prelude
pub mod LinkedList
pub mod Str
pub mod Bitmap
pub mod Tests
pub mod KernelList
pub mod Random
pub mod RbTree
pub mod BinaryTree
pub mod SearchTree
pub mod Malloc
pub mod Palloc
