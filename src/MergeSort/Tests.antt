-- ===== src/MergeSort/Tests.antt =====
-- src/mergesort/mergesort.c at a concrete array.
use c2x_examples.Base.{ℕ, ◌≡◌, refl, true, some, List, [], ◌∷◌, Bytes, pos, arith}
use c2x_examples.Strings.{strcmp}
use c2x_examples.Run.{ok, Returns}
use c2x_examples.Array.{load}
use c2x_examples.Heap.Order.{strcmp-IsOrder}
use c2x_examples.HashTable.Samples.{plenty}
use c2x_examples.MergeSort.{
  merge_sort_ex, sort_between, merge, merge_into, merge_loop, fill_rest, fill, read_block,
  write_block,
}
use c2x_examples.MergeSort.Sort.{Sorts, merge_sort_ex-Sorts}

abbrev key : ℕ → Bytes
key n = n ∷ []

abbrev keys : List Bytes
keys = key 3 ∷ key 9 ∷ key 1 ∷ []

sorted :
    (merge_sort_ex (some (key 8 ∷ keys)) 1 1 (pos 3) (some strcmp) plenty)
    ≡ ok ((true, some (key 8 ∷ key 1 ∷ key 3 ∷ key 9 ∷ [])), record plenty { calls = 2 })
unfolding merge_sort_ex sort_between merge merge_into merge_loop fill_rest fill read_block
    write_block load strcmp
sorted = refl

merge_sort_ex-Sorts_example :
    Returns (Sorts strcmp strcmp-IsOrder (key 8 ∷ []) keys (key 0 ∷ []) plenty) (
      merge_sort_ex
        (some (key 8 ∷ key 3 ∷ key 9 ∷ key 1 ∷ key 0 ∷ []))
        1
        1
        (pos 3)
        (some strcmp)
        plenty)
merge_sort_ex-Sorts_example =
    merge_sort_ex-Sorts strcmp strcmp-IsOrder (key 8 ∷ []) keys (key 0 ∷ []) 1 plenty (omega arith)
