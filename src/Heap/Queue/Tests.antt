-- ===== src/Heap/Queue/Tests.antt =====
-- src/heap/heap.c at concrete arrays and heaps.
use mathlib.Core.List.{Perm}
use c2x_examples.Base.{
  ℕ, zero, suc, ◌<◌, ◌≡◌, refl, true, false, some, List, [], ◌∷◌, Bytes, is_pos, arith,
}
use c2x_examples.Memory.{Memory}
use c2x_examples.Strings.{strcmp}
use c2x_examples.Run.{ok, Returns}
use c2x_examples.Array.{get_or, load, exchange}
use c2x_examples.Heap.{
  heap_sort_t, heapify_loop, drain_loop, shift_down, smaller, place, up_loop, heap_parent, take_top,
  down_loop, larger,
}
use c2x_examples.Heap.Order.{strcmp-IsOrder}
use c2x_examples.Heap.Sort.{Descends, heap_sort_t-sorts}
use c2x_examples.Heap.Queue.{
  Heap, heap_insert, heap_extract, heap_peek, insert_with, make_room, extract_with,
}
use c2x_examples.Heap.Queue.Laws.{
  IsHeap, IsValid, Inserted, heap_insert-Inserted, heap_extract-largest, heap_peek-largest,
}

abbrev key : ℕ → Bytes
key n = n ∷ []

abbrev plenty : Memory
plenty = record {
  grant = λ _. true;
  calls = 0;
  live = 1;
  destroyed = [];
  cleaned = [];
  over_reads = 0;
}

abbrev keys : List Bytes
keys = key 3 ∷ key 9 ∷ key 1 ∷ key 7 ∷ key 9 ∷ []

abbrev full : Heap
full = record {
  tree = key 9 ∷ key 4 ∷ key 7 ∷ [];
  allocated = true;
  capacity = 3;
  compare = some strcmp;
  destroy = true;
}

sorted :
    heap_sort_t (some keys) 1 (some strcmp)
    ≡ ok (true, some (key 9 ∷ key 9 ∷ key 7 ∷ key 3 ∷ key 1 ∷ []))
unfolding heap_sort_t heapify_loop drain_loop shift_down smaller load exchange strcmp
sorted = refl

inserted :
    (heap_insert (some full) (some (key 8)) plenty).0
    ≡ ok (true, some (record full { tree = key 9 ∷ key 8 ∷ key 7 ∷ key 4 ∷ []; capacity = 6 }))
unfolding heap_insert insert_with make_room place up_loop heap_parent load exchange strcmp
inserted = refl

extracted :
    heap_extract (some full) true
    ≡ ok (true, some (record full { tree = key 7 ∷ key 4 ∷ [] }), some (key 9))
unfolding heap_extract extract_with take_top down_loop larger load exchange strcmp
extracted = refl

full-IsHeap : IsHeap strcmp strcmp-IsOrder [] full.tree
unfolding get_or strcmp
full-IsHeap zero p q r = absurd (omega arith)
full-IsHeap (suc zero) p q r = refl
full-IsHeap (suc (suc zero)) p q r = refl
full-IsHeap (suc (suc (suc c))) p q r = absurd (omega arith)

full-IsValid : IsValid strcmp [] full
unfolding get_or strcmp
full-IsValid = record {
  compares = refl;
  order = strcmp-IsOrder;
  heap = full-IsHeap;
  within = omega arith;
  allocated = refl;
}

heap_sort_t-sorts_example :
    Returns
      (λ (done, out).
        (b : List Bytes) × (done ≡ true)
        × (out ≡ some b)
        × Descends [] strcmp strcmp-IsOrder b
        × Perm b keys)
      (heap_sort_t (some keys) 1 (some strcmp))
heap_sort_t-sorts_example = heap_sort_t-sorts [] strcmp strcmp-IsOrder keys 1 (omega arith)

heap_insert-Inserted_example :
    Inserted strcmp [] full (key 8) plenty (heap_insert (some full) (some (key 8)) plenty)
heap_insert-Inserted_example = heap_insert-Inserted strcmp [] full full-IsValid (key 8) plenty

heap_extract-largest_example :
    Returns
      (λ (done, rest, out).
        (top : Bytes) × (h' : Heap) × (done ≡ true)
        × (rest ≡ some h')
        × (out ≡ some top)
        × IsValid strcmp [] h'
        × Perm (top ∷ h'.tree) full.tree
        × ((i : ℕ) → i < 3 → is_pos (strcmp (get_or full.tree i []) top) ≡ false))
      (heap_extract (some full) true)
heap_extract-largest_example = heap_extract-largest strcmp [] full full-IsValid (omega arith)

heap_peek-largest_example :
    Returns
      (λ (done, out).
        (top : Bytes) × (done ≡ true)
        × (out ≡ some top)
        × ((i : ℕ) → i < 3 → is_pos (strcmp (get_or full.tree i []) top) ≡ false))
      (heap_peek (some full) true)
heap_peek-largest_example = heap_peek-largest strcmp [] full full-IsValid (omega arith)
