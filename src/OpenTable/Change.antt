-- ===== src/OpenTable/Change.antt =====
-- src/hashtable/open_address/oa_hashtable.c, continued: the operations that change one key.
pub mod Pick
pub mod Insert
pub mod Laws
pub mod Samples
use c2x_examples.Base.{
  ℕ, zero, suc, ◌+◌, ◌-◌, ◌*◌, ◌%◌, ◌^◌, Bool, true, false, Option, none, some, List, [], ◌∷◌,
  Bytes, ◌==◌, ltb, leb, not, ◌&&◌, ◌||◌, set, length, is_some, if◌then◌else◌, size_mod, incr, decr,
}
use c2x_examples.Memory.{M, pure, ◌>>=◌, ◌>>◌}
use c2x_examples.HashTable.{Node, hash, dup_string, clean_found}
use c2x_examples.OpenTable.{
  Slot, empty, deleted, moved, occupied, HashTable, usable, at, probed, is_deleted, node_of,
  node_release, hash_find_slot, hash_should_grow, hash_resize,
}

abbrev pub next_deleted : Slot → ℕ → Option ℕ → Option ℕ
next_deleted deleted idx none = some idx
next_deleted s idx first_deleted = first_deleted

abbrev pub or_idx : Option ℕ → ℕ → ℕ
or_idx none idx = idx
or_idx (some i) idx = i

-- One round of the loop of `hash_insert`: it stops at an empty slot.
pub halt : Slot → ℕ → Option ℕ → Option ℕ → Option ℕ
halt empty idx first_deleted rest = some (or_idx first_deleted idx)
halt deleted idx first_deleted rest = rest
halt moved idx first_deleted rest = rest
halt (occupied n) idx first_deleted rest = rest

-- The slot for a new key.
pub insert_loop : ℕ → List Slot → (size start probe : ℕ) → Option ℕ → Option ℕ
insert_loop zero slots size start probe first_deleted = first_deleted
insert_loop (suc k) slots size start probe first_deleted =
    let idx = probed size start probe in
    let s = at slots idx in
    halt s idx first_deleted
      (insert_loop k slots size start (probe + 1) (next_deleted s idx first_deleted))

abbrev pub fresh : Bytes → Node
fresh text = record { text = text; value = none; bytes = 0; cleanup = none }

abbrev pub put_node : HashTable → ℕ → Node → HashTable
put_node t i n = record t { slots = set t.slots i (occupied n) }

-- A copy of the key in the slot that has been chosen; the counts follow the slot's state.
pub occupy : HashTable → Bytes → Option ℕ → M (Option ℕ × HashTable)
occupy t text none = pure (none, t)
occupy t text (some i) = do
  copy ← dup_string (some text)
  pure (elim copy [
    | none ↦ (none, t)
    | some key ↦ (
      some i,
      record (put_node t i (fresh key)) {
        count = incr t.count;
        deleted = if is_deleted (at t.slots i) then decr t.deleted else t.deleted;
      },
    )
  ])

abbrev pub grown_size : ℕ → ℕ
grown_size size = let double = size * 2 % size_mod in if ltb double 8 then 8 else double

pub grow : HashTable → M (Bool × HashTable)
grow t = if hash_should_grow t then hash_resize t (grown_size t.bucket_size) else pure (true, t)

pub insert_new : Bytes → Bool × HashTable → M (Option ℕ × HashTable)
insert_new text (false, t) = pure (none, t)
insert_new text (true, t) =
    occupy t text
      (insert_loop t.bucket_size t.slots t.bucket_size (hash (some text) t.bucket_size) 0 none)

pub insert_at : HashTable → Bytes → Option ℕ → M (Option ℕ × HashTable)
insert_at t text (some i) = pure (some i, t)
insert_at t text none = grow t >>= insert_new text

pub hash_insert : Option HashTable → Option Bytes → M (Option ℕ × Option HashTable)
hash_insert none text = pure (none, none)
hash_insert (some t) none = pure (none, some t)
hash_insert (some t) (some text) =
    if usable t
    then (do r ← insert_at t text (hash_find_slot t text); pure (r.0, some r.1))
    else pure (none, some t)

-- What `hash_set` does with the result of `hash_insert`.
pub assign :
    Option Bytes → ℕ → Option ℕ → Option ℕ × Option HashTable → M (Option ℕ × Option HashTable)
assign value bytes cleanup (some i, some t) = do
  clean_found (node_of (at t.slots i))
  pure (
    some i,
    some (elim (node_of (at t.slots i)) [
      | none ↦ t
      | some n ↦ put_node t i (record n { value = value; bytes = bytes; cleanup = cleanup })
    ]),
  )
assign value bytes cleanup (none, t) = pure (none, t)
assign value bytes cleanup (some i, none) = pure (none, none)

pub hash_set :
    Option HashTable → Option Bytes → Option Bytes → ℕ → Option ℕ → M (Option ℕ × Option HashTable)
hash_set none text value bytes cleanup = pure (none, none)
hash_set (some t) none value bytes cleanup = pure (none, some t)
hash_set (some t) (some text) value bytes cleanup =
    hash_insert (some t) (some text) >>= assign value bytes cleanup

-- A table, and the slot that holds the key.
pub remove_at : HashTable → Option ℕ → M HashTable
remove_at t none = pure t
remove_at t (some i) =
    node_release (at t.slots i)
    >> pure
        (record t { slots = set t.slots i deleted; count = decr t.count; deleted = incr t.deleted })

pub hash_remove : Option HashTable → Option Bytes → M (Option HashTable)
hash_remove none text = pure none
hash_remove (some t) none = pure (some t)
hash_remove (some t) (some text) =
    if usable t
    then (do t' ← remove_at t (hash_find_slot t text); pure (some t'))
    else pure (some t)
