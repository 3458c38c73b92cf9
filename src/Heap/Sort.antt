-- ===== src/Heap/Sort.antt =====
-- `heap_sort_t` sorts.
use mathlib.Core.List.{Perm}
use mathlib.Core.List.Perm
use c2x_examples.Base.{
  ℕ, zero, suc, ◌+◌, ◌-◌, ◌*◌, ◌/◌, ◌≤◌, ◌<◌, ◌≡◌, ◌≢◌, refl, Bool, true, false, some, List, [],
  ◌∷◌, ℤ, is_neg, ◌==◌, ltb, leb, length, set, if◌then◌else◌, arith, ◌∙◌, sym, ap, Bool-cases, inl,
  inr,
}
use c2x_examples.Run.{ok, ◌>>=◌, Returns, value, bind, weaken}
use c2x_examples.Array.{
  exchange, get_or, swap, load-ok, exchange-ok, get_or-swap, length-swap, swap-perm, length-perm,
}
use c2x_examples.Heap.{smaller, shift_down, heapify_loop, drain_loop, heap_sort_t}
use c2x_examples.Heap.Sift.{
  IsBetter, sift, IsHeapFrom, DownInv, Sifted, sift-Sifted, parent, heap-root, pick, choose,
  pick-ok,
}
use c2x_examples.Heap.Order.{IsOrder, smaller_first, smaller_first-IsBetter}

set_comm {ℓ} :
    {A : Type ℓ} (a : List A) (i j : ℕ) (x y : A)
    → i ≢ j
    → set (set a i x) j y ≡ set (set a j y) i x
set_comm [] i j x y h = refl
set_comm (z ∷ a) zero zero x y h = absurd (h refl)
set_comm (z ∷ a) zero (suc j) x y h = refl
set_comm (z ∷ a) (suc i) zero x y h = refl
set_comm (z ∷ a) (suc i) (suc j) x y h = ap (◌∷◌ z) (set_comm a i j x y (omega arith))

module _ {A : Type 0} (d : A) where
  exchange_comm :
      (a : List A) (i j : ℕ) → i < length a → j < length a → i ≢ j → exchange a i j ≡ exchange a j i
  unfolding swap
  exchange_comm a i j hi hj ne =
      exchange-ok d a i j hi hj
      ∙ ap ok (set_comm a i j (get_or a j d) (get_or a i d) ne)
      ∙ sym (exchange-ok d a j i hj hi)

  module _ (compare : A → A → ℤ) (end : ℕ) where
    smaller-pick :
        (a : List A) (j i : ℕ)
        → end < length a
        → i < length a
        → smaller compare end a j i ≡ pick (smaller_first compare) (suc end) a j i
    unfolding smaller pick
    smaller-pick a j i le h = elim (Bool-cases (leb j end)) [
      | inl e ↦
          let e' : ltb j (suc end) ≡ true = ground arith in
          rw (e, e', load-ok d a j (ground arith), load-ok d a i h)
      | inr e ↦ let e' : ltb j (suc end) ≡ false = ground arith in rw (e, e')
    ]

  module _ (compare : A → A → ℤ) (end : ℕ) (order : IsOrder compare) where
    abbrev chosen : List A → (j i : ℕ) → ℕ
    chosen = choose (smaller_first compare) d (smaller_first-IsBetter order) (suc end) 0

    picked :
        (a : List A) (j i : ℕ)
        → end < length a
        → i < length a
        → pick (smaller_first compare) (suc end) a j i ≡ ok (chosen a j i)
    picked a j i =
        pick-ok (smaller_first compare) d (smaller_first-IsBetter order) (suc end) 0 a j i

    -- a round that has picked `m` ends alike
    same_rest :
        (k : ℕ) (a : List A) (root m : ℕ)
        → end < length a
        → root ≤ end
        → m ≤ end
        → ((b : List A)
            → length b ≡ length a
            → shift_down compare end k b m ≡ sift (smaller_first compare) (suc end) k b m)
        → (if m == root then ok a else (exchange a root m >>= λ b. shift_down compare end k b m))
          ≡ (if m == root
              then ok a
              else (exchange a m root >>= λ b. sift (smaller_first compare) (suc end) k b m))
    same_rest k a root m le h hm ih = elim (Bool-cases (m == root)) [
      | inl e ↦ rw e
      | inr e ↦
          rw
            (
              e,
              exchange_comm a root m (omega arith) (omega arith) (ground arith),
              exchange-ok d a m root (omega arith) (omega arith),
            )
            (ih (swap d a m root) (length-swap d a m root))
    ]

    -- `shift_down` is the general loop
    shift_down-sift :
        (k : ℕ) (a : List A) (root : ℕ)
        → end < length a
        → root ≤ end
        → shift_down compare end k a root ≡ sift (smaller_first compare) (suc end) k a root
    unfolding shift_down sift
    shift_down-sift zero a root le h = refl
    shift_down-sift (suc k) a root le h =
        let l = chosen a (root * 2 + 1) root in
        let next : root * 2 + 1 + 1 ≡ root * 2 + 2 = omega arith in
        rw
          (
            picked a (root * 2 + 1) root le (omega arith),
            picked a (root * 2 + 2) l le (ground arith),
          )
          (elim (Bool-cases (leb (root * 2 + 1) end)) [
            | inl e ↦
                rw
                  (
                    e,
                    smaller-pick compare end a (root * 2 + 1) root le (omega arith),
                    picked a (root * 2 + 1) root le (omega arith),
                    next,
                    smaller-pick compare end a (root * 2 + 2) l le (ground arith),
                    picked a (root * 2 + 2) l le (ground arith),
                  )
                  (same_rest k a root (chosen a (root * 2 + 2) l) le h (ground arith) λ b e'.
                    shift_down-sift k b (chosen a (root * 2 + 2) l) (omega arith) (ground arith))
            | inr e ↦
                let stay : (chosen a (root * 2 + 2) l == root) ≡ true = ground arith in rw (e, stay)
          ])

module _ {A : Type 0} (d : A) (compare : A → A → ℤ) (order : IsOrder compare) where
  abbrev better : A → A → Bool
  better = smaller_first compare

  laws : IsBetter better
  laws = smaller_first-IsBetter order

  pub shift_down-Sifted :
      (end lo : ℕ) (a : List A) (root : ℕ)
      → end < length a
      → lo ≤ root
      → root ≤ end
      → DownInv better d (suc end) lo a root
      → Returns (Sifted better d (suc end) lo a) (shift_down compare end (suc end) a root)
  shift_down-Sifted end lo a root le lo_le h v =
      rw (shift_down-sift d compare end order (suc end) a root le h) (
        sift-Sifted better d laws (suc end) lo (suc end) a root le (omega arith) lo_le (omega arith)
          v)

  next_DownInv :
      (end start : ℕ) (a : List A)
      → IsHeapFrom better d (suc end) (suc start) a
      → DownInv better d (suc end) start a start
  next_DownInv end start a heap = record {
    edges = λ c p q r s. heap c p q (omega arith);
    bridged = λ c p q r s u. absurd (omega arith);
  }

  heapify_loop-heap :
      (end start : ℕ) (a : List A)
      → end < length a
      → start ≤ end
      → IsHeapFrom better d (suc end) (suc start) a
      → Returns
          (λ b. IsHeapFrom better d (suc end) 0 b × Perm b a)
          (heapify_loop compare end start a)
  unfolding heapify_loop
  heapify_loop-heap end zero a le h heap =
      weaken (shift_down-Sifted end 0 a 0 le (omega arith) h (next_DownInv end 0 a heap))
        λ b s. (s.heap, s.same)
  heapify_loop-heap end (suc start) a le h heap =
      bind
        (shift_down-Sifted end (suc start) a (suc start) le (omega arith) h
          (next_DownInv end (suc start) a heap))
        λ b s.
          weaken
            (heapify_loop-heap end start b (omega (arith, length-perm s.same)) (omega arith) s.heap)
            λ c (heap', same). (heap', Perm.trans same s.same)

  -- past `end` the array is in its final order, with respect to all that stands before
  abbrev Settled : ℕ → List A → Type 0
  Settled end a =
      (i j : ℕ) → i < j → end < j → j < length a → better (get_or a i d) (get_or a j d) ≡ false

  drained-Settled :
      (end : ℕ) (a c : List A)
      → suc end < length a
      → IsHeapFrom better d (suc (suc end)) 0 a
      → Settled (suc end) a
      → Sifted better d (suc end) 0 (swap d a 0 (suc end)) c
      → Settled end c
  drained-Settled end a c le heap settled s i j lt past inside =
      let at = get_or-swap d a 0 (suc end) (omega arith) (omega arith) in
      let size = length-perm s.same in
      let size' = length-swap d a 0 (suc end) in
      let cj = s.kept j past in
      let root = heap-root better d laws (suc (suc end)) 0 a in
      let last_best = root (suc end) heap (omega arith) in
      elim (Bool-cases (ltb i (suc end))) [
        | inl before ↦
            let (i', h', ci) = s.drawn i (ground arith) in
            let best = root i' heap (omega arith) in
            ground (arith, ci, cj, at i', at j, settled i' j, settled (suc end) j, best, last_best)
        | inr behind ↦
            let ci = s.kept i (ground arith) in
            ground (arith, ci, cj, at i, at j, settled 0 j, settled i j)
      ]

  drain_loop-sorts :
      (end : ℕ) (a : List A)
      → end < length a
      → IsHeapFrom better d (suc end) 0 a
      → Settled end a
      → Returns (λ b. Settled 0 b × Perm b a) (drain_loop compare end a)
  unfolding drain_loop
  drain_loop-sorts zero a le heap settled = value (settled, Perm.rfl)
  drain_loop-sorts (suc end) a le heap settled =
      let b = swap d a 0 (suc end) in
      let at = get_or-swap d a 0 (suc end) (omega arith) (omega arith) in
      rw (exchange-ok d a 0 (suc end) (omega arith) le) (
        bind
          (shift_down-Sifted end 0 b 0 (rw length-swap (omega arith)) (omega arith) (omega arith)
            (record {
              edges = λ c p q r ne. ground (arith, at c, at (parent c), heap c);
              bridged = λ c p q r s u. absurd (omega arith);
            }))
          λ c s.
            weaken
              (drain_loop-sorts end c
                (omega (arith, length-perm s.same, length-swap d a 0 (suc end))) s.heap
                (drained-Settled end a c le heap settled s))
              λ e (done, same). (
                done,
                Perm.trans same (Perm.trans s.same (swap-perm d a 0 (suc end) (omega arith) le)),
              ))

  -- Each object stands behind those that compare greater than it.
  abbrev pub Descends : List A → Type 0
  Descends a =
      (i j : ℕ) → i < j → j < length a → is_neg (compare (get_or a i d) (get_or a j d)) ≡ false

  -- `heap_sort_t` of an array, given a comparison function and a size that is not 0, ends within
  -- its bounds, reports success, and leaves the same objects in descending order.
  pub heap_sort_t-sorts :
      (a : List A) (esize : ℕ)
      → 0 < esize
      → Returns
          (λ (done, out). (b : List A) × (done ≡ true) × (out ≡ some b) × Descends b × Perm b a)
          (heap_sort_t (some a) esize (some compare))
  unfolding heap_sort_t
  heap_sort_t-sorts a esize pos =
      let sized : (esize == 0) ≡ false = ground arith in
      elim (Bool-cases (leb (length a) 1)) [
        | inl e ↦ rw (sized, e) (value (a, refl, refl, λ i j p q. absurd (ground arith), Perm.rfl))
        | inr e ↦
            rw (sized, e)
              (bind
                (heapify_loop-heap (length a - 1) ((length a - 2) / 2) a (ground arith)
                  (ground arith) (λ c p q r. absurd (ground arith)))
                λ b (heap, same).
                  bind
                    (drain_loop-sorts (length a - 1) b (ground (arith, length-perm same)) heap
                      (λ i j p q r. absurd (ground (arith, length-perm same))))
                    λ c (settled, same'). value (
                      c,
                      refl,
                      refl,
                      λ i j p q.
                          sym (order.turns (get_or c j d) (get_or c i d))
                          ∙ settled i j p (omega arith) q,
                      Perm.trans same' same,
                    ))
      ]
