-- ===== src/OpenTable/Table.antt =====
-- src/hashtable/open_address/oa_hashtable.c, continued: the operations on a whole table, and
-- `hash_set_value`.
pub mod Laws
mod Tests
use c2x_examples.Base.{
  ℕ, Bool, true, false, Option, none, some, List, [], ◌∷◌, Bytes, ◌==◌, ◌&&◌, not, set,
  if◌then◌else◌, map,
}
use c2x_examples.Memory.{M, pure, ◌>>=◌, ◌>>◌, calloc, free}
use c2x_examples.HashTable.{Node}
use c2x_examples.HashTable.Table.{SetValue, HashValueReturn, value_error, value_new, value_update}
use c2x_examples.OpenTable.{
  Slot, empty, deleted, moved, occupied, HashTable, slot_bytes, usable, at, node_of, blank,
  release_slots, hash_find_slot,
}
use c2x_examples.OpenTable.Change.{put_node, hash_insert}

-- The table that `memset` leaves.
abbrev pub zeroed : HashTable
zeroed = record { slots = []; allocated = false; bucket_size = 0; count = 0; deleted = 0 }

-- `table` says whether the pointer is not null.
pub hash_init : (table : Bool) → ℕ → M (Bool × Option HashTable)
hash_init false bucket_size = pure (false, none)
hash_init true bucket_size = if bucket_size == 0 then pure (false, none) else do
  got ← calloc bucket_size slot_bytes
  pure (got, some (if got then blank bucket_size else zeroed))

pub hash_cleanup : Option HashTable → M (Option HashTable)
hash_cleanup none = pure none
hash_cleanup (some t) =
    if usable t then (do release_slots t.slots; free; pure (some zeroed)) else pure (some t)

-- The keys in the order of the output.
pub print_slots : List Slot → List Bytes
print_slots [] = []
print_slots (occupied n ∷ rest) = n.text ∷ print_slots rest
print_slots (empty ∷ rest) = print_slots rest
print_slots (deleted ∷ rest) = print_slots rest
print_slots (moved ∷ rest) = [] ∷ print_slots rest

pub hash_print : Option HashTable → List Bytes
hash_print none = []
hash_print (some t) = if usable t then print_slots t.slots else []

pub hash_count : Option HashTable → ℕ
hash_count none = 0
hash_count (some t) = t.count

-- The call of the callback on the node in a slot, and `result` where it succeeds.
pub apply_setvalue :
    HashTable → ℕ → SetValue → Option ℕ → HashValueReturn → M (HashValueReturn × Option HashTable)
apply_setvalue t i f cleanup result = elim (node_of (at t.slots i)) [
  | none ↦ pure (value_error, some t)
  | some n ↦ do
    r ← f (record n { cleanup = cleanup })
    pure (if r.0 then result else value_error, some (put_node t i r.1))
]

pub set_inserted :
    SetValue → Option ℕ → Option ℕ × Option HashTable → M (HashValueReturn × Option HashTable)
set_inserted f cleanup (some i, some t) = apply_setvalue t i f cleanup value_new
set_inserted f cleanup (none, t) = pure (value_error, t)
set_inserted f cleanup (some i, none) = pure (value_error, none)

pub hash_set_value :
    Option HashTable
    → Option Bytes
    → Option SetValue
    → Option ℕ
    → M (HashValueReturn × Option HashTable)
hash_set_value none key f cleanup = pure (value_error, none)
hash_set_value (some t) none f cleanup = pure (value_error, some t)
hash_set_value (some t) (some key) none cleanup = pure (value_error, some t)
hash_set_value (some t) (some key) (some f) cleanup = elim (hash_find_slot t key) [
  | some i ↦ apply_setvalue t i f cleanup value_update
  | none ↦ hash_insert (some t) (some key) >>= set_inserted f cleanup
]
