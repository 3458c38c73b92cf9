-- ===== src/Set.antt =====
-- src/set/set.c: a set, or a multiset, as a singly linked chain of nodes, the newest first.
-- A pointer that may be null is an `Option`. A `data` argument is the object that it points to, and
-- `memcpy` of `bytes` bytes takes that many from its front, and more than it has is recorded in the
-- memory as an over-read. A function that changes a set
-- returns the set as it leaves it. The chain has one owner, so it is the list of its nodes.
pub mod Algebra
pub mod Chain
pub mod Outcome
pub mod Insert
pub mod Bump
use c2x_examples.Base.{
  ℕ, ◌≡◌, Bool, true, false, Option, none, some, List, [], ◌∷◌, Bytes, ℤ, is_zero, incr, decr, ◌==◌,
  ltb, not, take, if◌then◌else◌, ◌&&◌, ◌||◌, ◌+◌, ◌%◌, ◌^◌, size_mod, is_some,
}
use c2x_examples.Memory.{M, pure, ◌>>=◌, ◌>>◌, malloc, free, memcpy}

-- `SetNode`, without its `next`.
pub record SetNode : Type 0 where
  pub content : Bytes
  pub bytes : ℕ
  pub count : ℕ

abbrev pub Compare : Type 0
Compare = Bytes → Bytes → ℤ

-- `destroy` says whether the callback is there (`destroy != nullptr`).
pub record Set : Type 0 where
  pub top : List SetNode
  pub count : ℕ
  pub destroy : Bool
  pub compare : Compare

-- `set->compare(n->data, data) == 0`
abbrev pub same : Compare → Bytes → Bytes → Bool
same compare a b = is_zero (compare a b)

pub set_node_create : Bytes → ℕ → M (Option SetNode)
set_node_create content bytes = do
  node ← malloc
  if node
      then (do
        buffer ← malloc
        if buffer
            then (do
              copy ← memcpy content bytes
              pure (some (record { content = copy; bytes = bytes; count = 1 })))
            else (do free; pure none))
      else pure none

-- What the caller's `*set_value` holds afterwards.
pub data Slot : Type 0 where
  untouched : Slot
  holds : Set → Slot
  dangling : Slot

-- `out` says whether `set_value` is not null.
pub set_init : (out destroy : Bool) → Option Compare → M (Bool × Slot)
set_init false destroy compare = pure (false, untouched)
set_init true destroy none = pure (false, untouched)
set_init true destroy (some compare) = do
  got ← malloc
  if got
      then pure (true, holds (record { top = []; count = 0; destroy = destroy; compare = compare }))
      else pure (false, untouched)

unfoldable pub contains : Compare → List SetNode → Bytes → Bool
contains compare [] content = false
contains compare (n ∷ rest) content =
    if same compare n.content content then true else contains compare rest content

pub set_contains : Option Set → Option Bytes → Bool
unfolding contains
set_contains none content = false
set_contains (some s) none = false
set_contains (some s) (some content) = contains s.compare s.top content

-- `n->next = set->top; set->top = n; set->count++`
abbrev pub link : Set → SetNode → Set
link s n = record s { top = n ∷ s.top; count = incr s.count }

-- The tail that all insertions share: create a node, give it its count, link it.
-- `count` is none where the node keeps the count of `set_node_create`.
pub link_new : Set → Bytes → ℕ → Option ℕ → M (Bool × Option Set)
unfolding set_node_create
link_new s content bytes count = do
  made ← set_node_create content bytes
  elim made [
    | none ↦ pure (false, some s)
    | some n ↦
        pure (true, some (link s (elim count [ none ↦ n | some c ↦ record n { count = c } ])))
  ]

pub set_insert_no_check : Option Set → Option Bytes → ℕ → M (Bool × Option Set)
unfolding link_new
set_insert_no_check none content bytes = pure (false, none)
set_insert_no_check (some s) none bytes = pure (false, some s)
set_insert_no_check (some s) (some content) bytes =
    if bytes == 0 then pure (false, some s) else link_new s content bytes none

pub multiset_insert_no_check : Option Set → Option Bytes → ℕ → ℕ → M (Bool × Option Set)
unfolding link_new
multiset_insert_no_check none content bytes count = pure (false, none)
multiset_insert_no_check (some s) none bytes count = pure (false, some s)
multiset_insert_no_check (some s) (some content) bytes count =
    if bytes == 0 then pure (false, some s) else link_new s content bytes (some count)

pub set_insert : Option Set → Option Bytes → ℕ → M (Bool × Option Set)
unfolding link_new set_contains
set_insert none content bytes = pure (false, none)
set_insert (some s) none bytes = pure (false, some s)
set_insert (some s) (some content) bytes =
    if bytes == 0
    then pure (false, some s)
    else if set_contains (some s) (some content)
    then pure (true, some s)
    else link_new s content bytes none

-- The search loop of the multiset insertions, with the change to the node that it finds;
-- none where no node compares equal.
unfoldable pub bump : Compare → ℕ → List SetNode → Bytes → Option (List SetNode)
bump compare k [] content = none
bump compare k (n ∷ rest) content =
    if same compare n.content content
    then some (record n { count = (n.count + k) % size_mod } ∷ rest)
    else elim (bump compare k rest content) [ none ↦ none | some r ↦ some (n ∷ r) ]

pub multiset_insert : Option Set → Option Bytes → ℕ → M (Bool × Option Set)
unfolding link_new bump
multiset_insert none content bytes = pure (false, none)
multiset_insert (some s) none bytes = pure (false, some s)
multiset_insert (some s) (some content) bytes =
    if bytes == 0 then pure (false, some s) else elim (bump s.compare 1 s.top content) [
      | some chain ↦ pure (true, some (record s { top = chain }))
      | none ↦ link_new s content bytes none
    ]

-- `_multiset_insert`
pub multiset_insert_many : Option Set → Option Bytes → ℕ → ℕ → M (Bool × Option Set)
unfolding link_new bump
multiset_insert_many none content bytes count = pure (false, none)
multiset_insert_many (some s) none bytes count = pure (false, some s)
multiset_insert_many (some s) (some content) bytes count =
    if bytes == 0 then pure (false, some s) else elim (bump s.compare count s.top content) [
      | some chain ↦ pure (true, some (record s { top = chain }))
      | none ↦ link_new s content bytes (some count)
    ]

unfoldable pub count_of : Compare → List SetNode → Bytes → ℕ
count_of compare [] content = 0
count_of compare (n ∷ rest) content =
    if same compare n.content content then n.count else count_of compare rest content

pub multiset_count : Option Set → Option Bytes → ℕ
unfolding count_of
multiset_count none content = 0
multiset_count (some s) none = 0
multiset_count (some s) (some content) = count_of s.compare s.top content
