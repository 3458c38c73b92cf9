-- ===== src/Heap/Queue/Sort/Laws.antt =====
-- `heap_sort_ex` of src/heap/heap.c sorts.
use mathlib.Core.List.{Perm}
use mathlib.Core.List.Perm
use mathlib.Core.List.{append-nil, not-mem-nil}
use c2x_examples.Base.{
  ℕ, ◌+◌, ◌-◌, ◌*◌, ◌/◌, ◌^◌, ◌≤◌, ◌<◌, ◌≡◌, ◌⊎◌, inl, inr, refl, sym, ap, ◌∙◌, Bool, true, false,
  true≢false, Option, some, List, [], ◌∷◌, Bytes, ◌==◌, leb, ltb, length, if◌then◌else◌, arith,
  Bool-cases, size_mod,
}
use c2x_examples.Memory.{Memory, AlwaysGrants, pure, free}
use c2x_examples.Run.{Run, ok, returns}
use c2x_examples.Array.{length-perm}
use c2x_examples.Heap.Order.{IsOrder}
use c2x_examples.Heap.Queue.{Heap, Compare, heap_init, heap_destroy, destroy_all, heap_default_size}
use c2x_examples.Heap.Queue.Laws.{IsValid}
use c2x_examples.Heap.Queue.Sort.{
  insert_all, extract_all, finish, drain, through_heap, heap_sort_ex, Sorted,
}
use c2x_examples.Heap.Queue.Sort.Ends.{TopDown, Filled, insert_all-Filled, extract_all-TopDown}

nothing_destroyed :
    (destroy : Bool) (m : Memory) → ((if destroy then destroy_all [] else pure tt) m).1 ≡ m
unfolding destroy_all
nothing_destroyed true m = refl
nothing_destroyed false m = refl

emptied-live :
    (h : Heap) (m : Memory)
    → h.tree ≡ []
    → h.allocated ≡ true
    → (heap_destroy (some h) m).1.live ≡ m.live - 1
unfolding heap_destroy
emptied-live h m e e' =
    let first : ((if h.destroy then destroy_all h.tree else pure tt) m).1 ≡ m =
      ap (λ t. ((if h.destroy then destroy_all t else pure tt) m).1) e
      ∙ nothing_destroyed h.destroy m in
    ap
      (λ b.
        ((if b then free else pure tt)
          ((if h.destroy then destroy_all h.tree else pure tt) m).1).1.live)
      e'
    ∙ ap (λ (k : Memory). k.live - 1) first

module _ (c : Compare) (d : Bytes) (order : IsOrder c) (values : List Bytes) (m : Memory) where
  -- The array comes out in descending order, or a request was refused and it is as it was.
  abbrev pub HeapSorted : Sorted × Memory → Type 0
  HeapSorted r =
      ((b : List Bytes) × (r.0 ≡ ok (true, some b))
        × TopDown c d b
        × Perm b values
        × (r.1.live ≡ m.live))
      ⊎ ((r.0 ≡ ok (false, some values)) × ¬ AlwaysGrants m)

  abbrev fresh_heap : Heap
  fresh_heap = record {
    tree = [];
    allocated = true;
    capacity = heap_default_size;
    compare = some c;
    destroy = false;
  }

  drained :
      (h : Heap) (m' : Memory) (r : Run (Bool × Option Heap) × Memory)
      → h.tree ≡ []
      → m'.live ≡ m.live + 2
      → m'.grant ≡ m.grant
      → Filled c d values h m' r
      → HeapSorted (drain values r.0 r.1)
  unfolding drain finish
  drained h m' r empty live grant (inr (h', e, short)) =
      rw e (inr (refl, λ all. short (λ n. ap (λ g. g n) grant ∙ all n)))
  drained h m' r empty live grant (inl (h', e, v, same, live')) =
      let all : Perm h'.tree values = rw (empty, append-nil values) at same in
      rw e (elim (extract_all-TopDown c d (length values) h' v (length-perm all)) [
        | returns (done, rest, out) at (h'', e1, e2, gone, kept, down, same') ↦
            let exact : extract_all (length values) (some h') ≡ ok (true, some h'', out) = cc in
            rw exact (
              inl (
                out,
                refl,
                down,
                Perm.trans same' all,
                omega (arith, emptied-live h'' (free r.1).1 gone kept, live, live'),
              ))
      ])

  fresh-IsValid : IsValid c d fresh_heap
  fresh-IsValid = record {
    compares = refl;
    order = order;
    heap = λ i p q r. absurd (omega (arith, q));
    within = omega arith;
    allocated = refl;
  }

  few-TopDown : (l : List Bytes) → length l ≤ 1 → TopDown c d l
  few-TopDown [] h = tt
  few-TopDown (x ∷ []) h = ((λ y mem. absurd (not-mem-nil mem)), tt)
  few-TopDown (x ∷ y ∷ l) h = absurd (omega (arith, h))

  -- `heap_sort_ex` of an array of fewer than 2^58 objects that fits in memory, with a comparison that
  -- is an order, ends within its bounds and without a null pointer read: it returns true with the
  -- array in descending order, all of its blocks given back, or it returns false, leaves the array as
  -- it was, and a request was refused.
  pub heap_sort_ex-HeapSorted :
      (esize : ℕ)
      → 0 < esize
      → length values < 2 ^ 58
      → length values ≤ (size_mod - 1) / esize
      → HeapSorted (heap_sort_ex (some values) esize (some c) m)
  unfolding heap_sort_ex through_heap heap_init
  heap_sort_ex-HeapSorted esize pos small fits =
      let sized : (esize == 0) ≡ false = ground arith in
      let bound : ltb ((size_mod - 1) / esize) (length values) ≡ false = ground arith in
      elim (Bool-cases (leb (length values) 1)) [
        | inl few ↦
            rw (sized, few) (inl (values, refl, few-TopDown values (ground arith), Perm.rfl, refl))
        | inr many ↦ elim (Bool-cases (m.grant m.calls)) [
          | inr refused ↦
              rw (sized, many, bound, refused)
                (inr (refl, λ all. true≢false (sym (all m.calls) ∙ refused)))
          | inl got ↦ elim (Bool-cases (m.grant (m.calls + 1))) [
            | inr refused ↦
                rw (sized, many, bound, got, refused)
                  (inr (refl, λ all. true≢false (sym (all (m.calls + 1)) ∙ refused)))
            | inl got' ↦
                let m' : Memory = record m { calls = m.calls + 1 + 1; live = m.live + 1 + 1 } in
                rw (sized, many, bound, got, got')
                  (drained fresh_heap m' (insert_all values (some fresh_heap) m') refl (omega arith)
                    refl
                    (insert_all-Filled c d values fresh_heap m' (2 * length values + 33)
                      fresh-IsValid (omega arith) (omega arith) (omega (arith, small))))
          ]
        ]
      ]
