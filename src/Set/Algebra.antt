-- ===== src/Set/Algebra.antt =====
-- src/set/set.c, continued: the operations that walk a whole chain, and those on two sets.
-- A second set is only read, so where it is the first one itself (`set_concat(s, s)`) the walk is
-- over the chain as it was: an insertion of an element that is there links no node.
pub mod Concat
pub mod Copy
pub mod Combine
pub mod Free
pub mod Remove
pub mod Relate
pub mod Multiset
mod Tests
use c2x_examples.Base.{
  ℕ, Bool, true, false, Option, none, some, List, [], ◌∷◌, Bytes, decr, ◌==◌, ltb, not, ◌&&◌,
  if◌then◌else◌, map, ◌||◌,
}
use c2x_examples.Memory.{M, pure, ◌>>=◌, ◌>>◌, free, call_destroy}
use c2x_examples.Set.{
  Set, SetNode, Compare, Slot, holds, dangling, same, set_contains, set_init, set_insert,
  set_insert_no_check, multiset_insert_many,
}

-- The loop of `set_concat`, and the second one of `set_union`.
pub concat_loop : Option Set → List SetNode → M (Bool × Option Set)
concat_loop s [] = pure (true, s)
concat_loop s (n ∷ rest) = do
  r ← set_insert s (some n.content) n.bytes
  if r.0 then concat_loop r.1 rest else pure (false, r.1)

pub set_concat : Option Set → Option Set → M (Bool × Option Set)
set_concat none from = pure (false, none)
set_concat (some s) none = pure (false, some s)
set_concat (some s) (some from) =
    if from.count == 0 then pure (true, some s) else concat_loop (some s) from.top

pub multiset_concat_loop : Option Set → List SetNode → M (Bool × Option Set)
multiset_concat_loop s [] = pure (true, s)
multiset_concat_loop s (n ∷ rest) = do
  r ← multiset_insert_many s (some n.content) n.bytes n.count
  if r.0 then multiset_concat_loop r.1 rest else pure (false, r.1)

pub multiset_concat : Option Set → Option Set → M (Bool × Option Set)
multiset_concat none from = pure (false, none)
multiset_concat (some s) none = pure (false, some s)
multiset_concat (some s) (some from) =
    if from.count == 0 then pure (true, some s) else multiset_concat_loop (some s) from.top

-- The search of `set_remove`: the first node that compares equal, and the chain without it.
pub unlink : Compare → List SetNode → Bytes → Option (SetNode × List SetNode)
unlink compare [] content = none
unlink compare (n ∷ rest) content =
    if same compare n.content content then some (n, rest) else elim (unlink compare rest content) [
      | none ↦ none
      | some (found, left) ↦ some (found, n ∷ left)
    ]

-- `if (destroy != nullptr) destroy(n->data); else free(n->data); free(n);`
pub release : Bool → SetNode → M (Unit {0})
release destroy n = (if destroy then call_destroy n.content else free) >> free

pub set_remove : Option Set → Option Bytes → M (Bool × Option Set)
set_remove none content = pure (false, none)
set_remove (some s) none = pure (false, some s)
set_remove (some s) (some content) =
    if s.count == 0 then pure (false, some s) else elim (unlink s.compare s.top content) [
      | none ↦ pure (false, some s)
      | some (n, left) ↦
          release s.destroy n >> pure (true, some (record s { top = left; count = decr s.count }))
    ]

pub free_chain : Bool → List SetNode → M (Unit {0})
free_chain destroy [] = pure tt
free_chain destroy (n ∷ rest) = release destroy n >> free_chain destroy rest

pub set_free : Option Set → M (Unit {0})
set_free none = pure tt
set_free (some s) = free_chain s.destroy s.top >> free

-- The loops of the three operations on two sets that copy, without a check, the elements of the
-- first set that pass a test. `set_union` copies all of them.
pub copy_loop : (Bytes → Bool) → Option Set → List SetNode → M (Bool × Option Set)
copy_loop keep s [] = pure (true, s)
copy_loop keep s (n ∷ rest) =
    if keep n.content
    then (do
      r ← set_insert_no_check s (some n.content) n.bytes
      if r.0 then copy_loop keep r.1 rest else pure (false, r.1))
    else copy_loop keep s rest

-- `set_free(*setu); return false;` after a failed insertion leaves the pointer dangling.
pub finish : Bool × Option Set → M (Bool × Slot)
finish (true, some s) = pure (true, holds s)
finish (true, none) = pure (true, dangling)
finish (false, s) = set_free s >> pure (false, dangling)

-- What follows a successful `set_init(setu, destroy, compare)`.
abbrev pub built : Bool × Slot → (Set → M (Bool × Slot)) → M (Bool × Slot)
built (done, holds s) rest = rest s
built (done, slot) rest = pure (false, slot)

pub set_union : (out : Bool) → (a b : Option Set) → Bool → Option Compare → M (Bool × Slot)
set_union out none b destroy compare = pure (false, Slot.untouched)
set_union out (some a) none destroy compare = pure (false, Slot.untouched)
set_union out (some a) (some b) destroy compare = do
  made ← set_init out destroy compare
  built made λ s. do
    first ← copy_loop (λ _. true) (some s) a.top
    if first.0 then concat_loop first.1 b.top >>= finish else finish first

pub set_intersection : (out : Bool) → (a b : Option Set) → Bool → Option Compare → M (Bool × Slot)
set_intersection out none b destroy compare = pure (false, Slot.untouched)
set_intersection out (some a) none destroy compare = pure (false, Slot.untouched)
set_intersection out (some a) (some b) destroy compare = do
  made ← set_init out destroy compare
  built made λ s.
      if b.count == 0
      then pure (true, holds s)
      else copy_loop (λ x. set_contains (some b) (some x)) (some s) a.top >>= finish

pub set_difference : (out : Bool) → (a b : Option Set) → Bool → Option Compare → M (Bool × Slot)
set_difference out none b destroy compare = pure (false, Slot.untouched)
set_difference out (some a) none destroy compare = pure (false, Slot.untouched)
set_difference out (some a) (some b) destroy compare = do
  made ← set_init out destroy compare
  built made λ s. copy_loop (λ x. not (set_contains (some b) (some x))) (some s) a.top >>= finish

-- The loop of `set_is_subset`.
pub all_in : List SetNode → Set → Bool
all_in [] s = true
all_in (n ∷ rest) s = if not (set_contains (some s) (some n.content)) then false else all_in rest s

pub set_is_subset : (a b : Option Set) → Bool
set_is_subset none b = false
set_is_subset (some a) none = false
set_is_subset (some a) (some b) =
    if a.count == 0 then true else if ltb b.count a.count then false else all_in a.top b

abbrev is_empty : List SetNode → Bool
is_empty [] = true
is_empty (_ ∷ _) = false

pub set_is_equal : (a b : Option Set) → Bool
set_is_equal none b = false
set_is_equal (some a) none = false
set_is_equal (some a) (some b) =
    if (a.count == 0) && (b.count == 0)
    then true
    else if is_empty a.top || is_empty b.top
    then false
    else if not (a.count == b.count)
    then false
    else set_is_subset (some a) (some b)

pub set_count : Option Set → ℕ
set_count none = 0
set_count (some s) = s.count

-- The objects that `echo` is called on; `echo` says whether it is not null.
pub set_print : Option Set → (echo : Bool) → List Bytes
set_print none echo = []
set_print (some s) false = []
set_print (some s) true = map (λ (n : SetNode). n.content) s.top

pub multiset_print : Option Set → (echo : Bool) → List (Bytes × ℕ)
multiset_print none echo = []
multiset_print (some s) false = []
multiset_print (some s) true = map (λ (n : SetNode). (n.content, n.count)) s.top
