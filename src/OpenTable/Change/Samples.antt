-- ===== src/OpenTable/Change/Samples.antt =====
-- Calls on a small table of src/hashtable/open_address/oa_hashtable.c, run.
use c2x_examples.Base.{◌≡◌, refl, true, some, none, [], ◌∷◌}
use c2x_examples.Strings.{strcmp}
use c2x_examples.Array.{get_or}
use c2x_examples.HashTable.{hash, hash_loop, dup_string}
use c2x_examples.HashTable.Samples.{plenty, ant, bee}
use c2x_examples.HashTable.Update.{assigned}
use c2x_examples.OpenTable.{
  HashTable, deleted, occupied, blank, blank_slots, visit, find_loop, hash_find_slot,
  hash_should_grow,
}
use c2x_examples.OpenTable.Change.{
  halt, insert_loop, occupy, grow, insert_new, insert_at, hash_insert, assign, hash_set, remove_at,
  hash_remove,
}

abbrev pub with_bee : HashTable
with_bee = record {
  slots = occupied (assigned bee (some ant) 1 none) ∷ [];
  allocated = true;
  bucket_size = 1;
  count = 1;
  deleted = 0;
}

abbrev pub after_bee : HashTable
after_bee = record with_bee { slots = deleted ∷ []; count = 0; deleted = 1 }

pub bee_is_set :
    (hash_set (some (blank 1)) (some bee) (some ant) 1 none plenty).0 ≡ (some 0, some with_bee)
unfolding hash_set assign hash_insert insert_at insert_new grow occupy insert_loop halt
    hash_should_grow hash_find_slot find_loop visit blank_slots dup_string hash hash_loop get_or
bee_is_set = refl

pub bee_is_removed : (hash_remove (some with_bee) (some bee) plenty).0 ≡ some after_bee
unfolding hash_remove remove_at hash_find_slot find_loop visit hash hash_loop get_or strcmp
bee_is_removed = refl
