-- ===== src/OpenTable.antt =====
-- src/hashtable/open_address/oa_hashtable.c: a hash table with open addressing. A pointer to a slot
-- is its index; a pointer to a node that a call returns is the index of its slot. `hash`,
-- `dup_string` and the call of a cleanup callback have the text of those of src/hashtable/hashtable.c.
pub mod Search
pub mod Fill
pub mod Probe
pub mod Place
pub mod Resize
pub mod Change
pub mod Table
use c2x_examples.Base.{
  ℕ, zero, suc, ◌+◌, ◌-◌, ◌*◌, ◌%◌, ◌^◌, Bool, true, false, Option, none, some, List, [], ◌∷◌, ◌++◌,
  Bytes, ◌==◌, ltb, leb, not, ◌&&◌, ◌||◌, set, length, is_some, if◌then◌else◌, size_mod, incr, decr,
}
use c2x_examples.Strings.{str_eq}
use c2x_examples.Array.{get_or}
use c2x_examples.Memory.{M, pure, ◌>>=◌, ◌>>◌, malloc, calloc, free}
use c2x_examples.HashTable.{Node, hash, dup_string, clean, clean_found}

-- `state` with the node. `moved` is an occupied slot whose node has been reset.
pub data Slot : Type 0 where
  empty deleted moved : Slot
  occupied : Node → Slot

-- `allocated` says whether the pointer `slots` is not null.
pub record HashTable : Type 0 where
  pub slots : List Slot
  pub allocated : Bool
  pub bucket_size : ℕ
  pub count : ℕ
  pub deleted : ℕ

-- `sizeof(struct HashSlot)`
abbrev pub slot_bytes : ℕ
slot_bytes = 40

abbrev pub usable : HashTable → Bool
usable t = t.allocated && not (t.bucket_size == 0)

abbrev pub at : List Slot → ℕ → Slot
at slots i = get_or slots i empty

-- `(start + probe) % table->bucket_size`
abbrev pub probed : (size start probe : ℕ) → ℕ
probed size start probe = (start + probe) % size_mod % size

abbrev pub is_occupied : Slot → Bool
is_occupied empty = false
is_occupied deleted = false
is_occupied moved = true
is_occupied (occupied n) = true

abbrev pub node_of : Slot → Option Node
node_of (occupied n) = some n
node_of s = none

abbrev pub key_of : Slot → Option Bytes
key_of (occupied n) = some n.text
key_of s = none

-- `free(n->text)` and the callback. Of a node that has been reset nothing is freed.
pub node_release : Slot → M (Unit {0})
node_release (occupied n) = free >> clean n
node_release s = pure tt

pub release_slots : List Slot → M (Unit {0})
release_slots [] = pure tt
release_slots (s ∷ rest) = node_release s >> release_slots rest

-- One round of `hash_find_slot`. No key is compared equal to that of a node that has been reset.
pub visit : Slot → Bytes → ℕ → Option ℕ → Option ℕ
visit empty text idx rest = none
visit deleted text idx rest = rest
visit moved text idx rest = rest
visit (occupied n) text idx rest = if str_eq n.text text then some idx else rest

pub find_loop : ℕ → List Slot → (size start probe : ℕ) → Bytes → Option ℕ
find_loop zero slots size start probe text = none
find_loop (suc k) slots size start probe text =
    let idx = probed size start probe in
    visit (at slots idx) text idx (find_loop k slots size start (probe + 1) text)

pub hash_find_slot : HashTable → Bytes → Option ℕ
hash_find_slot t text =
    if usable t
    then find_loop t.bucket_size t.slots t.bucket_size (hash (some text) t.bucket_size) 0 text
    else none

abbrev pub node_at : HashTable → Option ℕ → Option Node
node_at t none = none
node_at t (some i) = node_of (at t.slots i)

pub hash_lookup : Option HashTable → Option Bytes → Option Node
hash_lookup none text = none
hash_lookup (some t) none = none
hash_lookup (some t) (some text) = node_at t (hash_find_slot t text)

-- `table` is not null.
pub hash_should_grow : HashTable → Bool
hash_should_grow t =
    if t.bucket_size == 0
    then false
    else leb (t.bucket_size * 70 % size_mod) ((t.count + t.deleted) % size_mod * 100 % size_mod)

-- The loop of `hash_reinsert_owned`: the slots with `s` in the first that is empty.
pub settle : Slot → Slot → List Slot → ℕ → Option (List Slot) → Option (List Slot)
settle empty s slots idx rest = some (set slots idx s)
settle deleted s slots idx rest = rest
settle moved s slots idx rest = rest
settle (occupied n) s slots idx rest = rest

pub reinsert_loop : ℕ → List Slot → (size start probe : ℕ) → Slot → Option (List Slot)
reinsert_loop zero slots size start probe s = none
reinsert_loop (suc k) slots size start probe s =
    let idx = probed size start probe in
    settle (at slots idx) s slots idx (reinsert_loop k slots size start (probe + 1) s)

abbrev pub refilled : HashTable → Option (List Slot) → Option HashTable
refilled t none = none
refilled t (some slots) = some (record t { slots = slots; count = incr t.count })

-- `s` is the slot that holds the node.
pub hash_reinsert_owned : HashTable → Slot → Option HashTable
hash_reinsert_owned t s =
    refilled t
      (reinsert_loop t.bucket_size t.slots t.bucket_size (hash (key_of s) t.bucket_size) 0 s)

-- The loop of `hash_resize`: whether each node has been taken over, the new table, and the old
-- slots as they are left.
abbrev pub Refill : Type 0
Refill = Bool × HashTable × List Slot

abbrev pub passed : Slot → Refill → Refill
passed s (done, t, left) = (done, t, s ∷ left)

abbrev pub refill_next :
    Option HashTable → HashTable → Slot → List Slot → (HashTable → Refill) → Refill
refill_next none t s rest next = (false, t, s ∷ rest)
refill_next (some t') t s rest next = passed moved (next t')

pub refill : HashTable → List Slot → Refill
refill t [] = (true, t, [])
refill t (s ∷ rest) =
    let skip = passed s (refill t rest) in
    let move = refill_next (hash_reinsert_owned t s) t s rest (λ t'. refill t' rest) in
    if is_occupied s then move else skip

pub tally : (Slot → Bool) → List Slot → ℕ
tally p [] = 0
tally p (s ∷ rest) = if p s then suc (tally p rest) else tally p rest

abbrev pub is_deleted : Slot → Bool
is_deleted deleted = true
is_deleted s = false

-- The end of `hash_resize`: the counts are taken again where a node has found no place.
pub resized : HashTable → Refill → M (Bool × HashTable)
resized t (true, t', left) = free >> pure (true, t')
resized t (false, t', left) = do
  release_slots t'.slots
  free
  pure (
    false,
    record t { slots = left; count = tally is_occupied left; deleted = tally is_deleted left },
  )

unfoldable pub blank_slots : ℕ → List Slot
blank_slots zero = []
blank_slots (suc n) = empty ∷ blank_slots n

abbrev pub blank : ℕ → HashTable
blank size = record {
  slots = blank_slots size;
  allocated = true;
  bucket_size = size;
  count = 0;
  deleted = 0;
}

-- `table` is not null.
pub hash_resize : HashTable → ℕ → M (Bool × HashTable)
hash_resize t new_size = if new_size == 0 then pure (false, t) else do
  got ← calloc new_size slot_bytes
  if got then resized t (refill (blank new_size) t.slots) else pure (false, t)
