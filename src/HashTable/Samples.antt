-- ===== src/HashTable/Samples.antt =====
-- Calls on a small table of src/hashtable/hashtable.c, run.
use c2x_examples.Base.{◌≡◌, refl, true, some, none, [], ◌∷◌, Bytes}
use c2x_examples.Strings.{strcmp}
use c2x_examples.Array.{get_or}
use c2x_examples.Run.{ok}
use c2x_examples.Memory.{Memory}
use c2x_examples.HashTable.{
  HashTable, hash, hash_loop, hash_set, assign, hash_insert, insert_node, create_node, dup_string,
  find_node, update_node, hash_remove, clean_found, clean, unlink_loop, new_address,
}
use c2x_examples.HashTable.Update.{assigned}

abbrev pub plenty : Memory
plenty = record {
  grant = λ _. true;
  calls = 0;
  live = 0;
  destroyed = [];
  cleaned = [];
  over_reads = 0;
}

abbrev pub ant : Bytes
ant = 97 ∷ []

abbrev pub bee : Bytes
bee = 98 ∷ []

abbrev pub one_bucket : HashTable
one_bucket = record { buckets = [] ∷ []; links = [] ∷ []; allocated = true; bucket_size = 1 }

abbrev pub with_bee : HashTable
with_bee = record one_bucket {
  buckets = (assigned bee (some ant) 1 none ∷ []) ∷ [];
  links = (record { address = 0; prev = none } ∷ []) ∷ [];
}

pub bee_is_set :
    (hash_set (some one_bucket) (some bee) (some ant) 1 none plenty).0 ≡ (true, some with_bee)
unfolding hash_set assign hash_insert insert_node create_node dup_string find_node update_node hash
    hash_loop get_or strcmp clean_found clean new_address
bee_is_set = refl

pub bee_is_removed : (hash_remove (some with_bee) (some bee) plenty).0 ≡ ok (some one_bucket)
unfolding hash_remove find_node unlink_loop hash hash_loop get_or strcmp
bee_is_removed = refl
