-- ===== src/Lib.antt =====
-- Verified models of the data structures and algorithms of this repository of C examples.
--
-- The programs under src/ are independent of one another; each container is a pair of a .c file and
-- a header, used by the example programs beside it. What is modelled here are the containers:
--
-- * Set.antt and Set/: src/set/set.c. A set is a chain of nodes, the newest first, with a cached
--   count. Set.antt has the operations on one object (set_insert, set_contains, multiset_insert,
--   ...; the leading underscore of _set_insert_no_check, _multiset_insert_no_check is dropped, and
--   _multiset_insert is multiset_insert_many), Set/Algebra.antt those that walk a chain (set_concat,
--   set_remove, set_free, set_union, set_intersection, set_difference, set_is_subset, set_is_equal).
-- * Heap.antt and Heap/: src/heap/heap.c. Heap.antt has the loops over the array and heap_sort_t,
--   Heap/Queue.antt the struct with heap_init, heap_insert, heap_extract, heap_peek, heap_destroy,
--   Heap/Queue/Sort.antt heap_sort_ex, Heap/Swap.antt swap_e, which the loops take as the exchange of
--   two entries. Heap/Sift.antt proves both ways of sifting down at once, under any test of which
--   object belongs nearer the root.
-- * HashTable.antt and HashTable/: src/hashtable/hashtable.c. HashTable.antt has the operations on
--   one key (hash, hash_lookup, hash_insert, hash_set, hash_remove) and on one bucket,
--   HashTable/Table.antt those on the whole table (hash_init, hash_cleanup, hash_print, hash_count,
--   hash_flat_list, hash_set_value, hash_merge, hash_clone_merge), HashTable/Sort.antt sort_node.
--   A bucket is the list of its nodes, with a list of their addresses and prev pointers beside it:
--   insert_node sets prev of the old first node, hash_remove unlinks through prev, and a prev that
--   leads to none of the nodes passed is a fault. HashTable/Unlink.antt says what it is that the
--   prev pointers lead back, and that the unlinking is then the removal from a list. A copy of more
--   bytes than the object has is a fault in hash_merge, which leaves no table. The callback of
--   hash_set_value is an argument. The hash is computed as in the source, on 64-bit words.
-- * OpenTable.antt and OpenTable/: src/hashtable/open_address/oa_hashtable.c, which has the
--   functions of hashtable.c over one array of slots. OpenTable.antt has the slots, hash_find_slot,
--   hash_reinsert_owned and hash_resize, OpenTable/Change.antt hash_insert, hash_set and
--   hash_remove, OpenTable/Table.antt the rest. A pointer to a slot is its index. Where a node
--   finds no place in hash_resize, the nodes that have moved leave occupied slots with a null key,
--   which a search would read; the slot is then `moved`, and no key compares equal to it.
-- * History.antt and History/: both hash tables as maps, under any sequence of hash_set and hash_remove.
-- * Nodes.antt and Nodes/: the doubly linked nodes of src/deque/deque.c and src/stack/stack.c, which
--   have the same create_node, links and release in their text, on a store of nodes at addresses; a
--   read, write or free at an address without a node is a fault, and so is a copy of more bytes
--   than the object has. Nodes/Seg.antt says what a chain
--   linked both ways is, Nodes/Chain.antt that it holds items.
-- * Deque.antt and Deque/: src/deque/deque.c. Deque/Requests.antt has histories of calls and the
--   plain list that they refine.
-- * Stack.antt and Stack/: src/stack/stack.c. The top of the stack is the last node.
-- * MergeSort.antt and MergeSort/: src/mergesort/mergesort.c. Both memcpy of a block and the writes to
--   the buffer are faults out of range. The first index is natural, the last may be -1.
--   MergeSort/Stable.antt says what it is to keep the order of equal entries.
-- * QuickSort.antt and QuickSort/: src/quicksort/quicksort.c, under the same notions. QuickSort.antt
--   has insertion_sort, QuickSort/Partition.antt partition and quick_sort, with the results of rand
--   as a parameter; the theorems are on insertion_sort and partition. quick_sort has fuel for the
--   rounds and the depth of its recursion, which have no bound for every rand.
-- * BinarySearch.antt and BinarySearch/: bin_search of src/binary_search/bsearch.c. A size or a sum
--   of indices that is no int is a fault.
--
-- Shared by them: Base.antt (library names, Boolean tests, size_t arithmetic, comparison results),
-- Memory.antt (the allocator), Run.antt (how a computation over arrays ends), Array.antt (arrays as
-- lists), Strings.antt (C strings and strcmp).
--
-- Conventions. A pointer argument that may be null is an Option, or a Bool where only the test
-- matters. An operation that changes a struct returns it. malloc and realloc may fail at any
-- request, which the memory's `grant` decides; the memory also counts the live blocks and lists
-- the objects that were handed to a destroy callback, and to which cleanup callback those of a
-- hash table. A copy of more bytes than the object has is counted where it is no fault. A size_t
-- counter wraps at 2^64. A comparison function is any function into the integers, and what it has
-- to satisfy is a hypothesis (IsEquality, IsOrder). Loops over arrays run on fuel and stop at a
-- read out of range; the theorems show that neither happens. The fuel is the number of entries
-- plus one, since each round moves the index to another level of the tree; that of sort_node is
-- the number of nodes, since each pass settles one; that of bin_search the size plus one, since
-- each round narrows the bounds; that of the walks along the nodes of a deque or a stack is the
-- number of items plus one; that of a merge the entries of both runs plus two; that of
-- merge_sort_ex the last index plus one, since each half has fewer entries; that of partition the
-- entries plus one, since each round ends with a smaller `k`. The loops of insertion_sort and
-- those over probes make the rounds of the source and need no fuel.
--
-- Not modelled: the printing of messages, the example programs, the network and system call
-- demonstrations, graphics, and the vendored loaders; the linked lists, the
-- search tree, the other sorts, the compression and the graph programs.
pub mod Base
pub mod Memory
pub mod Strings
pub mod Run
pub mod Array
pub mod Nodes
pub mod Set
pub mod Heap
pub mod BinarySearch
pub mod HashTable
pub mod OpenTable
pub mod History
pub mod Deque
pub mod Stack
pub mod MergeSort
pub mod QuickSort
