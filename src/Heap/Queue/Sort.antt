-- ===== src/Heap/Queue/Sort.antt =====
-- `heap_sort_ex` of src/heap/heap.c: a sort through the heap, the largest object first.
pub mod Ends
pub mod Laws
mod Tests
use c2x_examples.Base.{
  ℕ, zero, suc, ◌-◌, ◌/◌, Bool, true, false, Option, none, some, List, [], ◌∷◌, Bytes, ◌==◌, ltb,
  leb, length, if◌then◌else◌, size_mod,
}
use c2x_examples.Memory.{M, pure, malloc, free, ◌>>=◌, ◌>>◌}
use c2x_examples.Run.{Run, ok, fault, out_of_fuel, map_run}
use c2x_examples.Heap.Queue.{
  Heap, Compare, heap_init, heap_destroy, heap_insert, heap_extract, Taken,
}

-- What a round of the first loop does with the result of `heap_insert`.
abbrev pub after_insert :
    (Option Heap → M (Run (Bool × Option Heap)))
    → Run (Bool × Option Heap)
    → M (Run (Bool × Option Heap))
after_insert next (ok (true, h)) = next h
after_insert next (ok (false, h)) = pure (ok (false, h))
after_insert next fault = pure fault
after_insert next out_of_fuel = pure out_of_fuel

pub insert_all : List Bytes → Option Heap → M (Run (Bool × Option Heap))
insert_all [] h = pure (ok (true, h))
insert_all (e ∷ values) h = heap_insert h (some e) >>= after_insert (insert_all values)

-- What a round of the second loop does: the copy of the object to the output. A null pointer is
-- not followed.
abbrev pub after_extract :
    (Option Heap → Run (Bool × Option Heap × List Bytes))
    → Run Taken
    → Run (Bool × Option Heap × List Bytes)
after_extract next (ok (true, h, some top)) = map_run (λ r. (r.0, r.1, top ∷ r.2)) (next h)
after_extract next (ok (true, h, none)) = fault
after_extract next (ok (false, h, out)) = ok (false, h, [])
after_extract next fault = fault
after_extract next out_of_fuel = out_of_fuel

pub extract_all : ℕ → Option Heap → Run (Bool × Option Heap × List Bytes)
extract_all zero h = ok (true, h, [])
extract_all (suc n) h = after_extract (extract_all n) (heap_extract h true)

abbrev pub Sorted : Type 0
Sorted = Run (Bool × Option (List Bytes))

-- What follows the second loop; `ptr` is the array as it was.
pub finish : (ptr : List Bytes) → Run (Bool × Option Heap × List Bytes) → M Sorted
finish ptr (ok (true, h, output)) = free >> heap_destroy h >>= λ _. pure (ok (true, some output))
finish ptr (ok (false, h, output)) = heap_destroy h >>= λ _. free >> pure (ok (false, some ptr))
finish ptr fault = pure fault
finish ptr out_of_fuel = pure out_of_fuel

-- What follows the first loop.
pub drain : (ptr : List Bytes) → Run (Bool × Option Heap) → M Sorted
drain ptr (ok (true, h)) = finish ptr (extract_all (length ptr) h)
drain ptr (ok (false, h)) = heap_destroy h >>= λ _. free >> pure (ok (false, some ptr))
drain ptr fault = pure fault
drain ptr out_of_fuel = pure out_of_fuel

-- What follows `heap_init`.
pub through_heap : (ptr : List Bytes) → Bool × Option Heap → M Sorted
through_heap ptr (false, h) = pure (ok (false, some ptr))
through_heap ptr (true, h) = do
  got ← malloc
  if got
      then insert_all ptr h >>= drain ptr
      else (heap_destroy h >>= λ _. pure (ok (false, some ptr)))

pub heap_sort_ex : Option (List Bytes) → (esize : ℕ) → Option Compare → M Sorted
heap_sort_ex none esize compare = pure (ok (false, none))
heap_sort_ex (some a) esize none = pure (ok (false, some a))
heap_sort_ex (some a) esize (some compare) =
    if esize == 0
    then pure (ok (false, some a))
    else if leb (length a) 1
    then pure (ok (true, some a))
    else if ltb ((size_mod - 1) / esize) (length a)
    then pure (ok (false, some a))
    else (heap_init true (some compare) false >>= through_heap a)
