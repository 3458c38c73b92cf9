-- ===== src/QuickSort/Partition/Laws.antt =====
-- `partition` of src/quicksort/quicksort.c, with its blocks and its pivot.
use c2x_examples.Base.{ℕ, ◌≡◌, ◌≤◌, ◌⊎◌, Option, none, some, List, ℤ}
use c2x_examples.Memory.{AlwaysGrants}
use c2x_examples.Array.{get_or}
use c2x_examples.Heap.Order.{IsOrder}
use c2x_examples.QuickSort.Partition.{World}
use c2x_examples.QuickSort.Partition.Split.{Split}

module _ {A : Type 0} (cmp : A → A → ℤ) (order : IsOrder cmp) (d : A) (rand : ℕ → ℕ) where
  -- How `partition` ends: the range is split at the entry that stood at z, or a block was refused
  -- and the array is as it was. Either way no block is kept.
  abbrev pub Parted : List A → (i k : ℕ) → World → (Option ℕ × List A) × World → Type 0
  Parted arr i k w r =
      (r.1.memory.live ≡ w.memory.live)
      × (((z : ℕ) × (j : ℕ) × (i ≤ z)
            × (z ≤ k)
            × (r.0.0 ≡ some j)
            × Split cmp d (get_or arr z d) i k arr (j, r.0.1))
          ⊎ ((r.0 ≡ (none, arr)) × ¬ AlwaysGrants w.memory))
