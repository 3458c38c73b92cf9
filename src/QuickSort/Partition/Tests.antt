-- ===== src/QuickSort/Partition/Tests.antt =====
-- `quick_sort` of src/quicksort/quicksort.c at a concrete array.
use c2x_examples.Base.{ℕ, ◌+◌, ◌==◌, ◌≡◌, refl, true, false, some, List, [], ◌∷◌, Bytes, pos}
use c2x_examples.Strings.{strcmp}
use c2x_examples.Run.{ok}
use c2x_examples.Array.{load, exchange}
use c2x_examples.HashTable.Samples.{plenty}
use c2x_examples.QuickSort.Partition.{
  World, quick_sort, quick_loop, partition, partition_with, partition_loop, up_scan, down_scan,
}

abbrev key : ℕ → Bytes
key n = n ∷ []

abbrev keys : List Bytes
keys = key 5 ∷ key 3 ∷ key 9 ∷ key 1 ∷ key 3 ∷ []

abbrev start : World
start = record { memory = plenty; draws = 0 }

quick_sorted :
    quick_sort strcmp (λ n. n + 2) 6 (some keys) 5 1 0 (pos 4) start
    ≡ ok (
      (true, some (key 1 ∷ key 3 ∷ key 3 ∷ key 5 ∷ key 9 ∷ [])),
      record { memory = record plenty { calls = 10 }; draws = 5 },
    )
unfolding quick_sort quick_loop partition partition_with partition_loop up_scan down_scan load
    exchange strcmp
quick_sorted = refl

abbrev refused : World
refused = record start { memory = record plenty { grant = λ n. n == 0 } }

no_block :
    quick_sort strcmp (λ n. n) 6 (some keys) 5 1 0 (pos 4) refused
    ≡ ok (
      (false, some keys),
      record start { memory = record plenty { grant = λ n. n == 0; calls = 2 } },
    )
unfolding quick_sort quick_loop partition
no_block = refl

-- The largest entry as the pivot, where it stands last: the range is not split.
last_again :
    partition strcmp (λ n. 1) (key 1 ∷ key 2 ∷ []) 0 1 start
    ≡ ok ((some 1, key 1 ∷ key 2 ∷ []), record { memory = record plenty { calls = 2 }; draws = 1 })
unfolding partition partition_with partition_loop up_scan down_scan load exchange strcmp
last_again = refl
