-- ===== src/QuickSort/Insertion/Tests.antt =====
-- `insertion_sort` of src/quicksort/quicksort.c at a concrete array.
use c2x_examples.Base.{ℕ, ◌≡◌, refl, true, false, List, [], ◌∷◌, Bytes}
use c2x_examples.Strings.{strcmp}
use c2x_examples.Run.{ok, Returns}
use c2x_examples.Array.{load}
use c2x_examples.Heap.Order.{strcmp-IsOrder}
use c2x_examples.HashTable.Samples.{plenty}
use c2x_examples.MergeSort.Merged.{Ascends}
use c2x_examples.MergeSort.Stable.{Rearranged}
use c2x_examples.QuickSort.{insertion_sort, insert_loop, shift_loop, store}
use c2x_examples.QuickSort.Insertion.{insertion_sort-Sorted}

abbrev key : ℕ → Bytes
key n = n ∷ []

abbrev keys : List Bytes
keys = key 3 ∷ key 9 ∷ key 1 ∷ []

sorted :
    insertion_sort strcmp keys plenty ≡ ok (key 1 ∷ key 3 ∷ key 9 ∷ [], record plenty { calls = 1 })
unfolding insertion_sort insert_loop shift_loop store load strcmp
sorted = refl

insertion_sort-Sorted_example :
    Returns
      (λ r.
        (r.1.live ≡ 0)
        × Rearranged strcmp r.0 keys
        × ((plenty.grant plenty.calls ≡ true → Ascends strcmp r.0)
            × (plenty.grant plenty.calls ≡ false → r.0 ≡ keys)))
      (insertion_sort strcmp keys plenty)
insertion_sort-Sorted_example = insertion_sort-Sorted strcmp strcmp-IsOrder keys plenty
