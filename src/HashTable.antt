-- ===== src/HashTable.antt =====
-- src/hashtable/hashtable.c: a hash table of chains. A bucket is the list of its nodes, the newest
-- first, as the `next` pointers lead to them, and `links` has their addresses and `prev` pointers in
-- the same order. A node reached by `prev` is one of those passed, or the access is a fault. A
-- returned pointer to a node stands for the first node with the key in its bucket.
pub mod Unlink
pub mod Find
pub mod Laws
pub mod Insert
pub mod Update
pub mod Table
pub mod Sort
pub mod Samples
use Prim.Native.Nat.{bit_xor}
use c2x_examples.Base.{
  ℕ, zero, suc, ◌+◌, ◌-◌, ◌*◌, ◌%◌, ◌^◌, Bool, true, false, Option, none, some, List, [], ◌∷◌, ◌++◌,
  Bytes, is_pos, ◌==◌, ltb, not, ◌&&◌, ◌||◌, set, length, is_some, if◌then◌else◌, size_mod, map,
}
use c2x_examples.Strings.{strcmp, str_eq}
use c2x_examples.Array.{get_or}
use c2x_examples.Run.{Run, ok, fault, map_run}
use c2x_examples.Memory.{M, pure, ◌>>=◌, ◌>>◌, malloc, free, call_cleanup}

-- `value` is the object that the pointer shows, `cleanup` a number for the callback.
pub record Node : Type 0 where
  pub text : Bytes
  pub value : Option Bytes
  pub bytes : ℕ
  pub cleanup : Option ℕ

-- The address of a node, a number that no other node of its bucket has, and its field `prev`.
pub record Link : Type 0 where
  pub address : ℕ
  pub prev : Option ℕ

-- `allocated` says whether the pointer `buckets` is not null.
pub record HashTable : Type 0 where
  pub buckets : List (List Node)
  pub links : List (List Link)
  pub allocated : Bool
  pub bucket_size : ℕ

-- sizeof(struct Node *)
abbrev pub pointer_size : ℕ
pointer_size = 8

unfoldable pub hash_loop : ℕ → Bytes → ℕ
hash_loop h [] = h
hash_loop h (c ∷ key) = hash_loop (bit_xor h c * 1099511628211 % size_mod) key

unfoldable pub hash : Option Bytes → ℕ → ℕ
unfolding hash_loop
hash none bucket_size = 0
hash (some key) bucket_size =
    if bucket_size == 0 then 0 else hash_loop 1469598103934665603 key % bucket_size

unfoldable pub dup_string : Option Bytes → M (Option Bytes)
dup_string none = pure none
dup_string (some text) = do got ← malloc; if got then pure (some text) else pure none

pub create_node : Option Bytes → M (Option Node)
create_node none = pure none
create_node (some text) = do
  got ← malloc
  if got
      then (do
        copy ← dup_string (some text)
        elim copy [
          | none ↦ free >> pure none
          | some t ↦ pure (some (record { text = t; value = none; bytes = 0; cleanup = none }))
        ])
      else pure none

-- An address that no node of the chain has.
unfoldable pub new_address : List Link → ℕ
new_address [] = 0
new_address (l ∷ links) =
    let rest = new_address links in suc (if ltb l.address rest then rest else l.address)

-- `root->prev = q` where the chain has a first node.
abbrev pub set_prev : Option ℕ → List Link → List Link
set_prev q [] = []
set_prev q (l ∷ links) = record l { prev = q } ∷ links

abbrev pub link_front : List Link → List Link
link_front links =
    let n = new_address links in record { address = n; prev = none } ∷ set_prev (some n) links

-- The nodes of a chain and their links.
abbrev pub Chain : Type 0
Chain = List Node × List Link

-- The chain with the new node in front; none where nothing is inserted. `root` is not null.
pub insert_node : Chain → Option Bytes → M (Option Chain)
insert_node root none = pure none
insert_node root (some text) = do
  made ← create_node (some text)
  elim made [ none ↦ pure none | some n ↦ pure (some (n ∷ root.0, link_front root.1)) ]

unfoldable pub find_node : List Node → Bytes → Option Node
find_node [] text = none
find_node (n ∷ rest) text = if str_eq n.text text then some n else find_node rest text

-- The change of the first node with the key, through the pointer that a search has returned.
unfoldable pub update_node : List Node → Bytes → (Node → Node) → List Node
update_node [] text f = []
update_node (n ∷ rest) text f =
    if str_eq n.text text then f n ∷ rest else n ∷ update_node rest text f

abbrev pub usable : HashTable → Bool
usable t = t.allocated && not (t.bucket_size == 0)

abbrev pub bucket : HashTable → Bytes → List Node
bucket t text = get_or t.buckets (hash (some text) t.bucket_size) []

abbrev pub set_bucket : HashTable → Bytes → List Node → HashTable
set_bucket t text chain = record t {
  buckets = set t.buckets (hash (some text) t.bucket_size) chain;
}

abbrev pub links_at : HashTable → Bytes → List Link
links_at t text = get_or t.links (hash (some text) t.bucket_size) []

abbrev pub set_links : HashTable → Bytes → List Link → List (List Link)
set_links t text links = set t.links (hash (some text) t.bucket_size) links

-- The table with another chain in a bucket.
abbrev pub set_chain : HashTable → Bytes → Chain → HashTable
set_chain t text c = record (set_bucket t text c.0) { links = set_links t text c.1 }

pub hash_lookup : Option HashTable → Option Bytes → Option Node
hash_lookup none text = none
hash_lookup (some t) none = none
hash_lookup (some t) (some text) = if usable t then find_node (bucket t text) text else none

-- Whether a node is returned, and the table.
pub hash_insert : Option HashTable → Option Bytes → M (Bool × Option HashTable)
hash_insert none text = pure (false, none)
hash_insert (some t) none = pure (false, some t)
hash_insert (some t) (some text) =
    if not (usable t)
    then pure (false, some t)
    else if is_some (find_node (bucket t text) text)
    then pure (true, some t)
    else (do
      chain ← insert_node (bucket t text, links_at t text) (some text)
      elim chain [ none ↦ pure (false, some t) | some c ↦ pure (true, some (set_chain t text c)) ])

-- `if (n->cleanup != nullptr && n->value != nullptr) n->cleanup(n->value);`
pub clean : Node → M (Unit {0})
clean n = elim n.cleanup [
  | none ↦ pure tt
  | some f ↦ elim n.value [ none ↦ pure tt | some object ↦ call_cleanup f object ]
]

pub clean_found : Option Node → M (Unit {0})
clean_found none = pure tt
clean_found (some n) = clean n

-- What `hash_set` does with the result of `hash_insert`: nothing where there is no node.
pub assign :
    Bytes → Option Bytes → ℕ → Option ℕ → Bool × Option HashTable → M (Bool × Option HashTable)
assign text value bytes cleanup (inserted, none) = pure (inserted, none)
assign text value bytes cleanup (false, some t) = pure (false, some t)
assign text value bytes cleanup (true, some t) = do
  clean_found (find_node (bucket t text) text)
  pure (
    true,
    some (
        set_bucket t text (
          update_node (bucket t text) text
            λ n. record n { value = value; bytes = bytes; cleanup = cleanup })),
  )

pub hash_set :
    Option HashTable → Option Bytes → Option Bytes → ℕ → Option ℕ → M (Bool × Option HashTable)
hash_set none text value bytes cleanup = pure (false, none)
hash_set (some t) none value bytes cleanup = pure (false, some t)
hash_set (some t) (some text) value bytes cleanup =
    hash_insert (some t) (some text) >>= assign text value bytes cleanup

-- Following the pointer p back among the nodes passed, the nearest first: those that are still
-- reached once its `next` leads past the node.
unfoldable pub cut_after : ℕ → List Node → List Link → Run Chain
cut_after p (n ∷ passed) (l ∷ links) =
    let further = cut_after p passed links in
    if l.address == p then ok (n ∷ passed, l ∷ links) else further
cut_after p passed links = fault

-- `if (n->prev) n->prev->next = n->next; else table->buckets[key] = n->next;`
abbrev pub still_reached : Option ℕ → List Node → List Link → Run Chain
still_reached none passed links = ok ([], [])
still_reached (some p) passed links = cut_after p passed links

-- The nodes passed, the nearest first, before the others.
abbrev pub onto : {A : Type 0} → List A → List A → List A
onto [] rest = rest
onto (x ∷ passed) rest = onto passed (x ∷ rest)

-- The loop of `hash_remove`: the chain once the first node with the key is unlinked.
unfoldable pub unlink_loop : (passed rest : Chain) → Bytes → Run Chain
unlink_loop passed ([], links) text = ok (onto passed.0 [], onto passed.1 [])
unlink_loop passed (n ∷ rest, []) text = fault
unlink_loop passed (n ∷ rest, l ∷ links) text =
    let later = unlink_loop (n ∷ passed.0, l ∷ passed.1) (rest, links) text in
    let unlinked =
      map_run (λ (kept : Chain). (onto kept.0 rest, onto kept.1 (set_prev l.prev links)))
        (still_reached l.prev passed.0 passed.1) in
    if str_eq n.text text then unlinked else later

-- `free(n->text)`, the callback, `free(n)`
pub release_one : Node → M (Unit {0})
release_one n = do free; clean n; free

pub hash_remove : Option HashTable → Option Bytes → M (Run (Option HashTable))
hash_remove none text = pure (ok none)
hash_remove (some t) none = pure (ok (some t))
hash_remove (some t) (some text) =
    if not (usable t) then pure (ok (some t)) else elim (find_node (bucket t text) text) [
      | none ↦ pure (ok (some t))
      | some n ↦
          let chain = unlink_loop ([], []) (bucket t text, links_at t text) text in
          release_one n >> pure (map_run (λ c. some (set_chain t text c)) chain)
    ]
