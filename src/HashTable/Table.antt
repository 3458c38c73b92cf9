-- ===== src/HashTable/Table.antt =====
-- src/hashtable/hashtable.c, continued: the operations on a whole table. The second table of a
-- merge is only read; where it is the first one itself, every key is found and nothing changes.
mod Tests
pub mod Init
pub mod Listing
pub mod Merge
pub mod Union
pub mod Cleanup
use c2x_examples.Base.{
  take, ℕ, zero, suc, ◌+◌, ◌-◌, ◌*◌, ◌%◌, ◌^◌, Bool, true, false, Option, none, some, List, [], ◌∷◌,
  ◌++◌, Bytes, is_pos, ◌==◌, ltb, not, ◌&&◌, ◌||◌, set, length, is_some, if◌then◌else◌, size_mod,
  map, incr,
}
use c2x_examples.Memory.{M, pure, ◌>>=◌, ◌>>◌, malloc, calloc, free}
use c2x_examples.HashTable.{
  Node, Link, Chain, pointer_size, HashTable, usable, bucket, set_bucket, hash_lookup, hash_insert,
  insert_node, update_node, release_one,
}

pub release_node : List Node → M (Unit {0})
release_node [] = pure tt
release_node (n ∷ rest) = release_one n >> release_node rest

-- What `calloc` gives.
unfoldable pub empty_buckets : ℕ → List (List Node)
empty_buckets zero = []
empty_buckets (suc n) = [] ∷ empty_buckets n

unfoldable pub empty_links : ℕ → List (List Link)
empty_links zero = []
empty_links (suc n) = [] ∷ empty_links n

-- `table` says whether the pointer is not null.
pub hash_init : (table : Bool) → ℕ → M (Bool × Option HashTable)
hash_init false bucket_size = pure (false, none)
hash_init true bucket_size = if bucket_size == 0 then pure (false, none) else do
  got ← calloc bucket_size pointer_size
  pure (
    got,
    some (record {
      buckets = if got then empty_buckets bucket_size else [];
      links = if got then empty_links bucket_size else [];
      allocated = got;
      bucket_size = if got then bucket_size else 0;
    }),
  )

pub release_buckets : List (List Node) → M (Unit {0})
release_buckets [] = pure tt
release_buckets (chain ∷ rest) = release_node chain >> release_buckets rest

abbrev pub closed : HashTable
closed = record { buckets = []; links = []; allocated = false; bucket_size = 0 }

pub hash_cleanup : Option HashTable → M (Option HashTable)
hash_cleanup none = pure none
hash_cleanup (some t) =
    if not (usable t) then pure (some t) else do release_buckets t.buckets; free; pure (some closed)

-- `print_node` and the loop of `hash_print`: the keys in the order of the output.
pub print_node : List Node → List Bytes
print_node chain = map (λ (n : Node). n.text) chain

pub print_loop : List (List Node) → List Bytes
print_loop [] = []
print_loop (chain ∷ rest) = print_node chain ++ print_loop rest

pub hash_print : Option HashTable → List Bytes
hash_print none = []
hash_print (some t) = if usable t then print_loop t.buckets else []

-- What `hash_setvalue` does to the node, and whether it succeeds: the caller's code.
abbrev pub SetValue : Type 0
SetValue = Node → M (Bool × Node)

pub data HashValueReturn : Type 0 where
  value_error value_new value_update : HashValueReturn

-- The call of the callback on the node with the key, and `result` where it succeeds.
pub apply_setvalue :
    HashTable
    → Bytes
    → SetValue
    → Option ℕ
    → HashValueReturn
    → M (HashValueReturn × Option HashTable)
apply_setvalue t key f cleanup result = elim (hash_lookup (some t) (some key)) [
  | none ↦ pure (value_error, some t)
  | some n ↦ do
    r ← f (record n { cleanup = cleanup })
    pure (
      if r.0 then result else value_error,
      some (set_bucket t key (update_node (bucket t key) key λ _. r.1)),
    )
]

pub hash_set_value :
    Option HashTable
    → Option Bytes
    → Option SetValue
    → Option ℕ
    → M (HashValueReturn × Option HashTable)
hash_set_value none key f cleanup = pure (value_error, none)
hash_set_value (some t) none f cleanup = pure (value_error, some t)
hash_set_value (some t) (some key) none cleanup = pure (value_error, some t)
hash_set_value (some t) (some key) (some f) cleanup =
    if not (usable t)
    then pure (value_error, some t)
    else if is_some (hash_lookup (some t) (some key))
    then apply_setvalue t key f cleanup value_update
    else (do
      r ← hash_insert (some t) (some key)
      elim r.1 [
        | none ↦ pure (value_error, none)
        | some t' ↦
            if r.0 then apply_setvalue t' key f cleanup value_new else pure (value_error, some t')
      ])

-- One bucket of `hash_flat_list`; none where an insertion fails, with what had been built.
pub flat_chain : Chain → List Node → M (Bool × Chain)
flat_chain flat [] = pure (true, flat)
flat_chain flat (n ∷ rest) = do
  r ← insert_node flat (some n.text)
  elim r [ none ↦ pure (false, flat) | some grown ↦ flat_chain grown rest ]

pub flat_loop : Chain → List (List Node) → M (Option Chain)
flat_loop flat [] = pure (some flat)
flat_loop flat (chain ∷ rest) = do
  r ← flat_chain flat chain
  if r.0 then flat_loop r.1 rest else release_node r.1.0 >> pure none

-- A null result and an empty list are the same pointer. The result is what `next` leads to.
pub hash_flat_list : Option HashTable → M (List Node)
hash_flat_list none = pure []
hash_flat_list (some t) =
    if not (usable t)
    then pure []
    else do r ← flat_loop ([], []) t.buckets; elim r [ none ↦ pure [] | some flat ↦ pure flat.0 ]

pub count_chain : ℕ → List Node → ℕ
count_chain count [] = count
count_chain count (n ∷ rest) = count_chain (incr count) rest

pub count_loop : ℕ → List (List Node) → ℕ
count_loop count [] = count
count_loop count (chain ∷ rest) = count_loop (count_chain count chain) rest

-- `table` is not null.
pub hash_count : HashTable → ℕ
hash_count t = count_loop 0 t.buckets

-- Goes on with a table where the steps before have succeeded, and gives up with it otherwise.
abbrev pub and_then :
    (HashTable → M (Bool × Option HashTable))
    → Bool × Option HashTable
    → M (Bool × Option HashTable)
and_then next (true, some t) = next t
and_then next (true, none) = pure (false, none)
and_then next (false, t) = pure (false, t)

-- The value of the new node of `hash_merge`: a copy, or none where the allocation fails. A read past
-- the end of the object is a fault: no table is left, which ends the merge.
pub copy_value : Node → HashTable → M (Bool × Option HashTable)
copy_value n to = elim n.value [
  | none ↦ pure (true, some to)
  | some object ↦ if n.bytes == 0 then pure (true, some to) else (do
    got ← malloc
    let k = λ (k : Node). record k {
      value = some (take n.bytes object);
      bytes = n.bytes;
      cleanup = n.cleanup;
    }
    if got
        then (if ltb (length object) n.bytes
            then pure (false, none)
            else pure (true, some (set_bucket to n.text (update_node (bucket to n.text) n.text k))))
        else pure (false, some to))
]

-- The body of the inner loop of `hash_merge`.
pub merge_node : HashTable → Node → M (Bool × Option HashTable)
merge_node to n =
    if is_some (hash_lookup (some to) (some n.text))
    then pure (true, some to)
    else hash_insert (some to) (some n.text) >>= and_then (copy_value n)

pub merge_chain : HashTable → List Node → M (Bool × Option HashTable)
merge_chain to [] = pure (true, some to)
merge_chain to (n ∷ rest) = merge_node to n >>= and_then λ to'. merge_chain to' rest

pub merge_loop : HashTable → List (List Node) → M (Bool × Option HashTable)
merge_loop to [] = pure (true, some to)
merge_loop to (chain ∷ rest) = merge_chain to chain >>= and_then λ to'. merge_loop to' rest

pub hash_merge : (to from : Option HashTable) → M (Bool × Option HashTable)
hash_merge none from = pure (false, none)
hash_merge (some to) none = pure (false, some to)
hash_merge (some to) (some from) =
    if usable to && usable from then merge_loop to from.buckets else pure (false, some to)

-- `hash_cleanup(&temp); return false;`, unless the merge has ended in a fault.
pub abandon : HashTable → Option HashTable → M (Bool × Option HashTable)
abandon global none = pure (false, none)
abandon global (some temp) = hash_cleanup (some temp) >>= λ _. pure (false, some global)

-- The result, and the global table as it is left.
pub hash_clone_merge : (global file_table : Option HashTable) → M (Bool × Option HashTable)
hash_clone_merge none file_table = pure (false, none)
hash_clone_merge (some global) none = pure (false, some global)
hash_clone_merge (some global) (some file_table) =
    if not (usable global && usable file_table) then pure (false, some global) else do
      temp ← hash_init true global.bucket_size
      if not temp.0 then pure (false, some global) else do
        first ← hash_merge temp.1 (some global)
        if not first.0 then abandon global first.1 else do
          second ← hash_merge first.1 (some file_table)
          if not second.0
              then abandon global second.1
              else do _ ← hash_cleanup (some global); pure (true, second.1)
