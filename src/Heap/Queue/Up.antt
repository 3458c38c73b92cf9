-- ===== src/Heap/Queue/Up.antt =====
-- The loop of `heap_insert`, and that of `heap_extract` as the general one.
use mathlib.Core.List.{Perm}
use mathlib.Core.List.Perm
use c2x_examples.Base.{
  ℕ, zero, suc, ◌+◌, ◌*◌, ◌<◌, ◌≡◌, ◌≢◌, refl, Bool, true, false, List, [], ◌∷◌, ◌++◌, ℤ, is_neg,
  ◌==◌, ltb, length, if◌then◌else◌, arith, ◌∙◌, Bool-cases, inl, inr, length-append,
}
use c2x_examples.Run.{ok, ◌>>=◌, Returns, value, weaken}
use c2x_examples.Array.{
  exchange, get_or, swap, load-ok, exchange-ok, get_or-swap, length-swap, swap-perm, get_or-append,
  concat-perm,
}
use c2x_examples.Heap.{heap_parent, up_loop, down_loop, larger, place}
use c2x_examples.Heap.Sift.{IsBetter, sift, pick, IsHeapFrom, parent}
use c2x_examples.Heap.Order.{IsOrder, larger_first, larger_first-IsBetter}

module _ {A : Type 0} (compare : A → A → ℤ) (size : ℕ) where
  pub down_loop-sift : (k : ℕ) → down_loop compare size k ≡ sift (larger_first compare) size k
  unfolding down_loop sift larger pick
  down_loop-sift zero = refl
  down_loop-sift (suc k) = λ ι a i. do
    l ← pick (larger_first compare) size a (i * 2 + 1) i
    m ← pick (larger_first compare) size a (i * 2 + 2) l
    let sink = exchange a m i >>= λ b. down_loop-sift k ι b m
    if m == i then ok a else sink

heap_parent_lem : (i : ℕ) → heap_parent i ≡ parent i
unfolding heap_parent
heap_parent_lem i = ground arith

module _ {A : Type 0} (compare : A → A → ℤ) (order : IsOrder compare) (d : A) where
  abbrev better : A → A → Bool
  better = larger_first compare

  laws : IsBetter better
  laws = larger_first-IsBetter order

  -- only the edge above `i` may be out of order, and past `i` the order holds
  pub record UpInv (a : List A) (i : ℕ) : Type 0 where
    pub inside : i < length a
    pub edges :
        (c : ℕ)
        → 0 < c
        → c < length a
        → c ≢ i
        → better (get_or a c d) (get_or a (parent c) d) ≡ false
    pub bridged :
        (c : ℕ)
        → 0 < c
        → c < length a
        → parent c ≡ i
        → 0 < i
        → better (get_or a c d) (get_or a (parent i) d) ≡ false

  swap-UpInv :
      (a : List A) (i : ℕ)
      → UpInv a i
      → 0 < i
      → better (get_or a i d) (get_or a (parent i) d) ≡ true
      → UpInv (swap d a (parent i) i) (parent i)
  swap-UpInv a i v pos above =
      let p = parent i in
      let at = get_or-swap d a p i (omega (arith, v.inside)) v.inside in
      let size = length-swap d a p i in
      let x = get_or a i d in
      let y = get_or a p d in
      record {
        inside = omega (arith, v.inside, size);
        edges = λ c q r s. ground (
          arith,
          size,
          at c,
          at (parent c),
          v.edges c,
          v.bridged c,
          laws.asym x y above,
          laws.trans x y (get_or a c d),
        );
        bridged = λ c q r s t. ground (
          arith,
          size,
          at c,
          at (parent p),
          v.edges c,
          v.edges p,
          laws.trans (get_or a (parent p) d) y (get_or a c d),
        );
      }

  abbrev pub Ordered : List A → List A → Type 0
  Ordered a b = IsHeapFrom better d (length b) 0 b × Perm b a

  up_loop-Ordered :
      (k : ℕ) (a : List A) (i : ℕ) → i < k → UpInv a i → Returns (Ordered a) (up_loop compare k a i)
  unfolding up_loop
  up_loop-Ordered zero a i fuel v = absurd (omega arith)
  up_loop-Ordered (suc k) a i fuel v = elim (Bool-cases (ltb 0 i)) [
    | inl e ↦
        let p = parent i in
        let pos : 0 < i = ground arith in
        let above : p < length a = omega (arith, v.inside) in
        rw (e, heap_parent_lem i, load-ok d a p above, load-ok d a i v.inside)
          (elim (Bool-cases (is_neg (compare (get_or a p d) (get_or a i d)))) [
            | inl less ↦
                let up : better (get_or a i d) (get_or a p d) ≡ true =
                  order.turns (get_or a i d) (get_or a p d) ∙ less in
                rw (less, exchange-ok d a p i above v.inside)
                  (weaken
                    (up_loop-Ordered k (swap d a p i) p (omega arith) (swap-UpInv a i v pos up))
                    λ b (heap, same). (heap, Perm.trans same (swap-perm d a p i above v.inside)))
            | inr settled ↦
                let fine : better (get_or a i d) (get_or a p d) ≡ false =
                  order.turns (get_or a i d) (get_or a p d) ∙ settled in
                rw settled (
                  value (
                    (λ c q r s. elim (Bool-cases (c == i)) [
                      | inl at ↦ let at' : c ≡ i = ground arith in rw at' fine
                      | inr off ↦ v.edges c q r (ground arith)
                    ]),
                    Perm.rfl,
                  ))
          ])
    | inr e ↦ rw e (value ((λ c q r s. v.edges c q r (ground arith)), Perm.rfl))
  ]

  pub place-Ordered :
      (a : List A) (x : A)
      → IsHeapFrom better d (length a) 0 a
      → Returns (Ordered (x ∷ a)) (place compare a x)
  unfolding place
  place-Ordered a x heap =
      let size = length-append a (x ∷ []) in
      weaken
        (up_loop-Ordered (length a + 1) (a ++ x ∷ []) (length a) (omega arith) (record {
          inside = omega (arith, size);
          edges = λ c q r s.
              rw
                (
                  get_or-append a (x ∷ []) c d (omega (arith, size)),
                  get_or-append a (x ∷ []) (parent c) d (omega (arith, size)),
                )
                (heap c q (omega (arith, size)) (omega arith));
          bridged = λ c q r s t. absurd (omega (arith, size));
        }))
        λ b (heap', same). (heap', Perm.trans same (concat-perm a x))
