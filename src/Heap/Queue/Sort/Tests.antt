-- ===== src/Heap/Queue/Sort/Tests.antt =====
-- `heap_sort_ex` of src/heap/heap.c at a concrete array.
use c2x_examples.Base.{ℕ, ◌≡◌, refl, true, some, List, [], ◌∷◌, Bytes, arith}
use c2x_examples.Strings.{strcmp}
use c2x_examples.Run.{ok}
use c2x_examples.Array.{load, exchange}
use c2x_examples.HashTable.Samples.{plenty}
use c2x_examples.Heap.{place, up_loop, heap_parent, take_top, down_loop, larger}
use c2x_examples.Heap.Order.{strcmp-IsOrder}
use c2x_examples.Heap.Queue.{
  heap_init, heap_destroy, heap_insert, heap_extract, insert_with, make_room, extract_with,
}
use c2x_examples.Heap.Queue.Sort.{
  heap_sort_ex, through_heap, insert_all, drain, finish, extract_all,
}
use c2x_examples.Heap.Queue.Sort.Laws.{HeapSorted, heap_sort_ex-HeapSorted}

abbrev key : ℕ → Bytes
key n = n ∷ []

abbrev keys : List Bytes
keys = key 3 ∷ key 9 ∷ key 1 ∷ []

heap_sort_ex-HeapSorted_example :
    HeapSorted strcmp [] strcmp-IsOrder keys plenty
      (heap_sort_ex (some keys) 1 (some strcmp) plenty)
heap_sort_ex-HeapSorted_example =
    heap_sort_ex-HeapSorted strcmp [] strcmp-IsOrder keys plenty 1 (omega arith) (omega arith)
      (omega arith)

drained_out :
    heap_sort_ex (some keys) 1 (some strcmp) plenty
    ≡ (ok (true, some (key 9 ∷ key 3 ∷ key 1 ∷ [])), record plenty { calls = 2 })
unfolding heap_sort_ex through_heap heap_init insert_all drain finish extract_all heap_destroy
    heap_insert insert_with make_room place up_loop heap_parent heap_extract extract_with take_top
    down_loop larger load exchange strcmp
drained_out = refl
