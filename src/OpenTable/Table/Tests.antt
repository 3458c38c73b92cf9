-- ===== src/OpenTable/Table/Tests.antt =====
-- src/hashtable/open_address/oa_hashtable.c at concrete tables.
use mathlib.Core.Path.{subst}
use mathlib.Core.Option.{some-injective}
use c2x_examples.Base.{
  ◌⊎◌, false, sym, ap, ◌∙◌, ℕ, ◌<◌, ◌≡◌, refl, true, some, none, Bytes, arith, Option, length,
}
use c2x_examples.OpenTable.{hash_resize, slot_bytes, HashTable, hash_lookup, blank}
use c2x_examples.Memory.{AlwaysGrants, calloc}
use c2x_examples.HashTable.Samples.{plenty, ant, bee}
use c2x_examples.OpenTable.Change.Samples.{with_bee, bee_is_set}
use c2x_examples.OpenTable.Search.{WellFormed}
use c2x_examples.OpenTable.Resize.{Resized, hash_resize-cases, blank-WellFormed}
use c2x_examples.OpenTable.Change.{hash_set, hash_remove}
use c2x_examples.OpenTable.Change.Laws.{Maps, SetOutcome, hash_set-SetOutcome, hash_remove-Removed}
use c2x_examples.OpenTable.Table.{hash_init, hash_count, hash_print}
use c2x_examples.OpenTable.Table.Laws.{hash_init-Blank, hash_count-print}

blank-valid : (n : ℕ) → 0 < n → n < 1000 → WellFormed (blank n)
blank-valid n h small = blank-WellFormed n h (omega arith)

hash_set-SetOutcome_example :
    (i : Option ℕ) × (t : HashTable) × ((hash_set
        (some (blank 2))
        (some bee)
        (some ant)
        1
        none
        plenty).0
      ≡ (i, some t))
    × WellFormed t
    × SetOutcome
        (blank 2)
        (blank-valid 2 (omega arith) (omega arith))
        bee
        (some ant)
        1
        none
        plenty
        i
        t
hash_set-SetOutcome_example =
    hash_set-SetOutcome (blank 2) (blank-valid 2 (omega arith) (omega arith)) bee (some ant) 1 none
      plenty

-- the table with one node
bee-valid : WellFormed with_bee
bee-valid =
    let (i, t, e, valid, out) =
      hash_set-SetOutcome (blank 1) (blank-valid 1 (omega arith) (omega arith)) bee (some ant) 1
        none plenty in
    subst WellFormed (some-injective _ _ (ap (λ r. r.1) (sym e ∙ bee_is_set))) valid

hash_remove-Removed_example :
    (t : HashTable) × ((hash_remove (some with_bee) (some bee) plenty).0 ≡ some t)
    × WellFormed t
    × Maps with_bee bee none t
hash_remove-Removed_example = hash_remove-Removed with_bee bee-valid bee plenty

three_slots :
    (t : HashTable) × ((hash_init true 3 plenty).0 ≡ (true, some t))
    × WellFormed t
    × (t.bucket_size ≡ 3)
    × ((k : Bytes) → hash_lookup (some t) (some k) ≡ none)
three_slots = hash_init-Blank 3 plenty (omega arith) refl

one_printed : hash_count (some with_bee) ≡ length (hash_print (some with_bee))
one_printed = hash_count-print with_bee bee-valid

hash_resize-cases_example :
    (((hash_resize with_bee 8 plenty).0 ≡ (false, with_bee))
      × ((calloc 8 slot_bytes plenty).0 ≡ false))
    ⊎ ((t : HashTable) × ((hash_resize with_bee 8 plenty).0 ≡ (true, t))
        × Resized with_bee 8 t
        × (AlwaysGrants plenty → AlwaysGrants (hash_resize with_bee 8 plenty).1))
hash_resize-cases_example = hash_resize-cases with_bee 8 plenty bee-valid (omega arith)
