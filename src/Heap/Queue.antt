-- ===== src/Heap/Queue.antt =====
-- src/heap/heap.c, continued: the `Heap` struct and its operations, and `heap_sort_ex`.
-- An object in the heap is the list of its bytes.
pub mod Up
pub mod Laws
pub mod Sort
mod Tests
use c2x_examples.Base.{
  ℕ, zero, suc, ◌+◌, ◌-◌, ◌*◌, ◌/◌, ◌^◌, Bool, true, false, Option, none, some, List, [], ◌∷◌, ◌++◌,
  ℤ, Bytes, ◌==◌, ltb, leb, not, ◌&&◌, ◌||◌, length, take, set, if◌then◌else◌, size_mod,
}
use c2x_examples.Memory.{M, pure, malloc, realloc, free, call_destroy, ◌>>=◌, ◌>>◌}
use c2x_examples.Run.{Run, ok, map_run}
use c2x_examples.Array.{load}
use c2x_examples.Heap.{place, take_top}

abbrev pub Compare : Type 0
Compare = Bytes → Bytes → ℤ

-- `allocated` says whether the pointer `tree` is not null.
pub record Heap : Type 0 where
  pub tree : List Bytes
  pub allocated : Bool
  pub capacity : ℕ
  pub compare : Option Compare
  pub destroy : Bool

abbrev pub heap_default_size : ℕ
heap_default_size = 32

-- sizeof(void *)
abbrev pub pointer_size : ℕ
pointer_size = 8

-- `heap` says whether the pointer is not null; the result is what it points to afterwards.
pub heap_init : (heap : Bool) → Option Compare → (destroy : Bool) → M (Bool × Option Heap)
heap_init false compare destroy = pure (false, none)
heap_init true none destroy = pure (false, none)
heap_init true (some compare) destroy = do
  got ← malloc
  pure (
    got,
    some (record {
      tree = [];
      allocated = got;
      capacity = if got then heap_default_size else 0;
      compare = if got then some compare else none;
      destroy = got && destroy;
    }),
  )

pub destroy_all : List Bytes → M (Unit {0})
destroy_all [] = pure tt
destroy_all (x ∷ tree) = call_destroy x >> destroy_all tree

pub heap_destroy : Option Heap → M (Option Heap)
unfolding destroy_all
heap_destroy none = pure none
heap_destroy (some h) = do
  if h.destroy then destroy_all h.tree else pure tt
  if h.allocated then free else pure tt
  pure (
      some (record { tree = []; allocated = false; capacity = 0; compare = none; destroy = false }))

-- The objects that `print` is called on; `print` says whether it is not null.
pub heap_print : Option Heap → (print : Bool) → List Bytes
heap_print none print = []
heap_print (some h) false = []
heap_print (some h) true = h.tree

-- The reallocation in `heap_insert`; none where it returns false.
pub regrow : Heap → ℕ → M (Option Heap)
regrow h new_cap = if ltb ((size_mod - 1) / pointer_size) new_cap then pure none else do
  got ← realloc h.allocated
  if got then pure (some (record h { capacity = new_cap; allocated = true })) else pure none

pub make_room : Heap → M (Option Heap)
unfolding regrow
make_room h =
    if length h.tree == h.capacity
    then if h.capacity == 0
      then regrow h 1
      else if ltb ((size_mod - 1) / 2) h.capacity
      then pure none
      else regrow h (h.capacity * 2)
    else pure (some h)

-- What `heap_insert` does once its arguments and the comparison are there.
pub insert_with : Compare → Heap → Bytes → M (Run (Bool × Option Heap))
insert_with compare h x = do
  room ← make_room h
  elim room [
    | none ↦ pure (ok (false, some h))
    | some h' ↦
        pure (map_run (λ t. (true, some (record h' { tree = t }))) (place compare h'.tree x))
  ]

-- The result of the operation, with the heap as it leaves it.
pub heap_insert : Option Heap → Option Bytes → M (Run (Bool × Option Heap))
heap_insert none x = pure (ok (false, none))
heap_insert (some h) none = pure (ok (false, some h))
heap_insert (some h) (some x) = elim h.compare [
  | none ↦ pure (ok (false, some h))
  | some compare ↦ insert_with compare h x
]

-- What `heap_extract` and `heap_peek` return: the result, the heap, and `*data` if it is written.
abbrev pub Taken : Type 0
Taken = Bool × Option Heap × Option Bytes

-- What `heap_extract` does once its arguments and the comparison are there.
pub extract_with : Compare → Heap → Run Taken
extract_with compare h =
    if length h.tree == 0
    then ok (false, some h, none)
    else map_run (λ (top, t). (true, some (record h { tree = t }), some top))
        (take_top compare h.tree)

-- `out` says whether `data` is not null.
pub heap_extract : Option Heap → (out : Bool) → Run Taken
heap_extract none out = ok (false, none, none)
heap_extract (some h) false = ok (false, some h, none)
heap_extract (some h) true = elim h.compare [
  | none ↦ ok (false, some h, none)
  | some compare ↦ extract_with compare h
]

pub heap_peek : Option Heap → (out : Bool) → Run (Bool × Option Bytes)
heap_peek none out = ok (false, none)
heap_peek (some h) false = ok (false, none)
heap_peek (some h) true =
    if (length h.tree == 0) || not h.allocated
    then ok (false, none)
    else map_run (λ x. (true, some x)) (load h.tree 0)
