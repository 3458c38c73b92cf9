-- ===== src/Heap/Queue/Sort/Ends.antt =====
-- The loops of `heap_sort_ex` of src/heap/heap.c on a valid heap.
use mathlib.Core.Logic.{∥∥₁_elim, ∥∥₁_map}
use mathlib.Core.Bool.{Bool-set}
use mathlib.Core.List.{Perm, Mem, Memᴰ, perm_middle}
use mathlib.Core.List.Perm
use c2x_examples.Base.{
  ℕ, zero, suc, ◌+◌, ◌*◌, ◌^◌, ◌≤◌, ◌<◌, ◌≡◌, ◌⊎◌, inl, inr, refl, ap, ◌∙◌, Bool, true, false,
  Option, some, List, [], ◌∷◌, ◌++◌, Bytes, is_pos, length, arith,
}
use c2x_examples.Memory.{Memory, AlwaysGrants}
use c2x_examples.Run.{Run, ok, Returns, returns, value, bind}
use c2x_examples.Array.{get_or, length-perm}
use c2x_examples.Heap.Queue.{Heap, Compare, heap_insert, heap_extract}
use c2x_examples.Heap.Queue.Laws.{
  IsValid, Inserted, added, refused, heap_insert-Inserted, heap_extract-largest,
}
use c2x_examples.Heap.Queue.Sort.{after_insert, extract_all, insert_all}

module _ (c : Compare) (d : Bytes) where
  -- None of the list compares greater than any before it.
  abbrev pub TopDown : List Bytes → Type 0
  TopDown [] = Unit {0}
  TopDown (x ∷ xs) = ((y : Bytes) → Mem y xs → is_pos (c y x) ≡ false) × TopDown xs

  none_over :
      (a : List Bytes) (top x : Bytes)
      → ((i : ℕ) → i < length a → is_pos (c (get_or a i d) top) ≡ false)
      → Memᴰ x a
      → is_pos (c x top) ≡ false
  unfolding get_or
  none_over [] top x all m = elim m [ ]
  none_over (y ∷ a) top x all (Memᴰ.head e) = rw e (all 0 (omega arith))
  none_over (y ∷ a) top x all (Memᴰ.tail m) =
      none_over a top x (λ i h. all (suc i) (omega (arith, h))) m

  pub extract_all-TopDown :
      (n : ℕ) (h : Heap)
      → IsValid c d h
      → length h.tree ≡ n
      → Returns
          (λ r.
            (h' : Heap) × (r.0 ≡ true)
            × (r.1 ≡ some h')
            × (h'.tree ≡ [])
            × (h'.allocated ≡ true)
            × TopDown r.2
            × Perm r.2 h.tree)
          (extract_all n (some h))
  unfolding extract_all
  extract_all-TopDown zero h v e =
      value (h, refl, refl, empty h.tree e, v.allocated, tt, rw (empty h.tree e) Perm.rfl)
    where
      empty : (l : List Bytes) → length l ≡ 0 → l ≡ []
      empty [] e = refl
      empty (x ∷ l) e = absurd (omega (arith, e))
  extract_all-TopDown (suc n) h v e = elim (heap_extract-largest c d h v (omega (arith, e))) [
    | returns (done, rest, out) at (top, h', e1, e2, e3, v', same, largest) ↦
        let exact : heap_extract (some h) true ≡ ok (true, some h', some top) = cc in
        rw exact (
          bind (extract_all-TopDown n h' v' (omega (arith, e, length-perm same)))
            λ r (h'', f1, f2, f3, f4, down, same').
              let all = Perm.trans (Perm.cons top same') same in
              value (
                h'',
                f1,
                f2,
                f3,
                f4,
                (
                  (λ y m.
                      ∥∥₁_elim
                        ((Perm.mem_iff all).0
                          (∥∥₁_map {B = Memᴰ y (top ∷ r.2)} m (λ i. Memᴰ.tail i)))
                        (Bool-set _ _) (none_over h.tree top y largest)),
                  down,
                ),
                all,
              ))
  ]

  -- How the first loop ends: all objects are in the heap, or a request was refused.
  abbrev pub Filled : List Bytes → Heap → Memory → Run (Bool × Option Heap) × Memory → Type 0
  Filled values h m r =
      ((h' : Heap) × (r.0 ≡ ok (true, some h'))
        × IsValid c d h'
        × Perm h'.tree (values ++ h.tree)
        × (r.1.live ≡ m.live))
      ⊎ ((h' : Heap) × (r.0 ≡ ok (false, some h')) × ¬ AlwaysGrants m)

  pub insert_all-Filled :
      (values : List Bytes) (h : Heap) (m : Memory) (b : ℕ)
      → IsValid c d h
      → h.capacity ≤ b
      → 2 * (length h.tree + length values) + 1 ≤ b
      → b < 2 ^ 60
      → Filled values h m (insert_all values (some h) m)
  unfolding insert_all
  insert_all-Filled [] h m b v within room small = inl (h, refl, v, Perm.rfl, refl)
  insert_all-Filled (x ∷ values) h m b v within room small =
      let r = heap_insert (some h) (some x) m in
      next (λ h' m' v' p q. insert_all-Filled values h' m' b v' p q small) r.0 r.1
        (heap_insert-Inserted c d h v x m)
    where
      next :
          ((h' : Heap) (m' : Memory)
            → IsValid c d h'
            → h'.capacity ≤ b
            → 2 * (length h'.tree + length values) + 1 ≤ b
            → Filled values h' m' (insert_all values (some h') m'))
          → (o : Run (Bool × Option Heap)) (m' : Memory) → Inserted c d h x m (o, m')
          → Filled (x ∷ values) h m (after_insert (insert_all values) o m')
      next ih o m' (added h' e v' same live grown grant fits) =
          rw e
            (elim (ih h' m' v' (grown b within (omega arith)) (omega (arith, length-perm same))) [
              | inl (h'', e', v'', same', live') ↦ inl (
                h'',
                e',
                v'',
                Perm.trans same'
                    (Perm.trans (Perm.append_left values same) (perm_middle values h.tree)),
                live' ∙ live,
              )
              | inr (h'', e', short) ↦
                  inr (h'', e', λ all. short (λ n. ap (λ g. g n) grant ∙ all n))
            ])
      next ih o m' (refused e live short) =
          rw e (inr (h, refl, λ all. omega (arith, short all, within, small)))
