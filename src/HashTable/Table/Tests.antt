-- ===== src/HashTable/Table/Tests.antt =====
-- src/hashtable/hashtable.c at concrete tables.
use mathlib.Core.List.{Perm}
use mathlib.Core.Option
use mathlib.Core.Option.{some-injective}
use c2x_examples.Base.{
  ◌+◌, ℕ, zero, suc, ◌%◌, ◌<◌, ◌≡◌, ◌⊎◌, refl, sym, true, false, some, none, List, [], ◌∷◌, Bytes,
  arith, length, size_mod,
}
use c2x_examples.Memory.{Memory, AlwaysGrants}
use c2x_examples.Strings.{strcmp}
use c2x_examples.Run.{ok, Returns}
use c2x_examples.Array.{get_or}
use c2x_examples.HashTable.{
  Node, HashTable, hash, hash_loop, hash_lookup, hash_set, assign, hash_remove, hash_insert,
  insert_node, new_address, create_node, dup_string, find_node, update_node,
}
use c2x_examples.HashTable.Find.{All, Distinct}
use c2x_examples.HashTable.Laws.{WellFormed, hash_bound}
use c2x_examples.HashTable.Update.{Maps, assigned, hash_set-Maps, hash_remove-Maps}
use c2x_examples.HashTable.Unlink.{Linked}
use c2x_examples.HashTable.Sort.{sort_node, sort_node-sorts, sort_loop, bubble, IsSorted}
use c2x_examples.HashTable.Table.{
  hash_cleanup, closed, hash_merge, hash_clone_merge, hash_init, hash_count, hash_print,
  hash_flat_list, print_node, empty_buckets,
}
use c2x_examples.HashTable.Table.Init.{empty, empty-WellFormed, hash_init-WellFormed}
use c2x_examples.HashTable.Table.Merge.{copied, or_else, Merged}
use c2x_examples.HashTable.Table.Union.{AllReadable, hash_merge-Merged, hash_clone_merge-Union}
use c2x_examples.HashTable.Table.Cleanup.{nodes, blocks, owned_all, released, hash_cleanup-released}
use c2x_examples.HashTable.Table.Listing.{hash_count-printed, hash_flat_list-printed}

abbrev plenty : Memory
plenty = record {
  grant = λ _. true;
  calls = 0;
  live = 0;
  destroyed = [];
  cleaned = [];
  over_reads = 0;
}

abbrev refused : Memory
refused = record {
  grant = λ _. false;
  calls = 0;
  live = 0;
  destroyed = [];
  cleaned = [];
  over_reads = 0;
}

abbrev ant : Bytes
ant = 97 ∷ []

abbrev bee : Bytes
bee = 98 ∷ []

abbrev node : Bytes → Node
node text = assigned text (some text) 1 none

abbrev one : HashTable
one = record {
  buckets = (node ant ∷ []) ∷ [];
  links = (record { address = 0; prev = none } ∷ []) ∷ [];
  allocated = true;
  bucket_size = 1;
}

set_twice : (hash_set (some one) (some bee) (some bee) 1 none plenty).0 ≡ (
  true,
  some (record one {
    buckets = (node bee ∷ node ant ∷ []) ∷ [];
    links = (record { address = 1; prev = none } ∷ record { address = 0; prev = some 1 } ∷ []) ∷ [];
  }),
)
unfolding hash_set assign hash_insert insert_node create_node dup_string find_node update_node hash
    hash_loop get_or strcmp new_address
set_twice = refl

hash_set-Maps_example :
    let r = (hash_set (some (empty 1)) (some bee) (some ant) 1 none plenty).0 in
    ((r ≡ (false, some (empty 1))) × ¬ AlwaysGrants plenty)
    ⊎ ((t : HashTable) × (r ≡ (true, some t))
        × WellFormed t
        × Maps (empty 1) bee (some (assigned bee (some ant) 1 none)) t)
hash_set-Maps_example =
    hash_set-Maps (empty 1) (empty-WellFormed 1 (omega arith) (omega arith)) bee (some ant) 1 none
      plenty

abbrev unsorted : List Node
unsorted = node bee ∷ node ant ∷ node bee ∷ []

sort_node-sorts_example : Returns (λ l. IsSorted l × Perm l unsorted) (sort_node unsorted)
sort_node-sorts_example = sort_node-sorts unsorted

sorted : sort_node unsorted ≡ ok (node ant ∷ node bee ∷ node bee ∷ [])
unfolding sort_node sort_loop bubble strcmp
sorted = refl

hash_init-WellFormed_example :
    (t : HashTable) × ((hash_init true 3 plenty).0 ≡ (true, some t))
    × WellFormed t
    × (t.bucket_size ≡ 3)
    × ((k : Bytes) → hash_lookup (some t) (some k) ≡ none)
hash_init-WellFormed_example = hash_init-WellFormed 3 (omega arith) plenty refl

one_counted : hash_count one ≡ length (hash_print (some one)) % size_mod
one_counted = hash_count-printed one refl

hash_flat_list-printed_example :
    Perm (print_node (hash_flat_list (some one) plenty).0) (hash_print (some one))
hash_flat_list-printed_example = hash_flat_list-printed one plenty refl (λ _. refl)

one_Distinct : (i : ℕ) → i < 1 → Distinct (get_or one.buckets i [])
unfolding find_node get_or
one_Distinct zero h = (refl, tt)
one_Distinct (suc i) h = absurd (omega arith)

one_placed : (i : ℕ) → i < 1 → All (λ n. hash (some n.text) 1 ≡ i) (get_or one.buckets i [])
unfolding get_or
one_placed zero h = (omega (arith, hash_bound (some ant) 1 (omega arith)), tt)
one_placed (suc i) h = absurd (omega arith)

one_linked : (i : ℕ) → i < 1 → Linked none (get_or one.buckets i []) (get_or one.links i [])
unfolding Linked get_or
one_linked zero h = (refl, tt)
one_linked (suc i) h = absurd (omega arith)

one-WellFormed : WellFormed one
one-WellFormed = record {
  allocated = refl;
  sized = omega arith;
  full = refl;
  distinct = one_Distinct;
  placed = one_placed;
  full_links = refl;
  fits = omega arith;
  linked = one_linked;
}

hash_remove-Maps_example :
    (t : HashTable) × ((hash_remove (some one) (some ant) plenty).0 ≡ ok (some t))
    × WellFormed t
    × Maps one ant none t
hash_remove-Maps_example = hash_remove-Maps one one-WellFormed ant plenty

one_readable : AllReadable one.buckets
one_readable = (((λ object e. rw (sym (some-injective _ _ e)) (omega arith)), tt), tt)

hash_merge-Merged_example :
    Merged one
      (λ k. Option.map copied (hash_lookup (some one) (some k)))
      (hash_merge (some one) (some one) plenty)
hash_merge-Merged_example =
    hash_merge-Merged one one plenty one-WellFormed one-WellFormed one_readable (λ _. refl)

hash_clone_merge-Union_example :
    (t : HashTable) × ((hash_clone_merge (some one) (some (empty 2)) plenty).0 ≡ (true, some t))
    × WellFormed t
    × ((k : Bytes)
        → hash_lookup (some t) (some k)
          ≡ or_else
              (Option.map copied (hash_lookup (some one) (some k)))
              (Option.map copied (hash_lookup (some (empty 2)) (some k))))
unfolding empty_buckets
hash_clone_merge-Union_example =
    hash_clone_merge-Union one (empty 2) plenty one-WellFormed
      (empty-WellFormed 2 (omega arith) (omega arith)) one_readable (tt, (tt, tt)) (λ _. refl)

abbrev owning : HashTable
owning = record {
  buckets = (assigned ant (some bee) 1 (some 0) ∷ node bee ∷ []) ∷ [];
  links = (record { address = 1; prev = none } ∷ record { address = 0; prev = some 1 } ∷ []) ∷ [];
  allocated = true;
  bucket_size = 1;
}

abbrev six_blocks : Memory
six_blocks = record plenty { live = 6 }

hash_cleanup-released_example : hash_cleanup (some owning) six_blocks ≡ (
  some closed,
  released (blocks (nodes owning.buckets) + 1) (owned_all (nodes owning.buckets)) six_blocks,
)
hash_cleanup-released_example = hash_cleanup-released owning six_blocks refl

cleaned :
    released (blocks (nodes owning.buckets) + 1) (owned_all (nodes owning.buckets)) six_blocks
    ≡ record plenty { cleaned = (0, bee) ∷ [] }
cleaned = refl
