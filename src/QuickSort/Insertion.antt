-- ===== src/QuickSort/Insertion.antt =====
-- `insertion_sort` of src/quicksort/quicksort.c sorts, and is stable.
mod Tests
use mathlib.Core.Path.{subst}
use mathlib.Core.List.{append-nil, append_assoc}
use c2x_examples.Base.{
  ℕ, zero, suc, ◌+◌, ◌-◌, ◌≡◌, ◌≤◌, ◌<◌, ◌⊎◌, refl, sym, ap, ◌∙◌, Bool, true, false, List, [], ◌∷◌,
  ◌++◌, ℤ, is_pos, ltb, length, length-append, set, snoc-view, if◌then◌else◌, arith, Bool-cases,
  inl, inr,
}
use c2x_examples.Memory.{Memory}
use c2x_examples.Run.{Run, ok, ◌>>=◌, Returns, value, bind, weaken}
use c2x_examples.Array.{load}
use c2x_examples.Heap.Order.{IsOrder}
use c2x_examples.MergeSort.Merged.{Ascends}
use c2x_examples.MergeSort.Blocks.{load-append}
use c2x_examples.MergeSort.Stable.{Rearranged, Rearranged-self, Rearranged-trans, Rearranged-append}
use c2x_examples.QuickSort.{store, shift_loop, insert_loop, insertion_sort}
use c2x_examples.QuickSort.Place.{UpTo, StartsOver, UpTo-last, Ascends-place, place-Rearranged}

module _ {A : Type 0} where
  set-append : (u w : List A) (g x : A) → set (u ++ g ∷ w) (length u) x ≡ u ++ x ∷ w
  set-append [] w g x = refl
  set-append (y ∷ u) w g x = ap (◌∷◌ y) (set-append u w g x)

  store-append :
      (u w : List A) (g x : A) (i : ℕ) → i ≡ length u → store (u ++ g ∷ w) i x ≡ ok (u ++ x ∷ w)
  unfolding store
  store-append u w g x i e =
      let inside : ltb (length u) (length (u ++ g ∷ w)) ≡ true =
        ground (arith, length-append u (g ∷ w)) in
      rw (e, inside, set-append u w g x) refl

module _ {A : Type 0} (cmp : A → A → ℤ) (order : IsOrder cmp) where
  -- The list s with x put in its place, before the rest w.
  abbrev Placed : (x : A) (s w : List A) → List A → Type 0
  Placed x s w b =
      (u : List A) × (v : List A) × (u ++ v ≡ s)
      × (b ≡ u ++ (x ∷ (v ++ w)))
      × UpTo cmp x u
      × StartsOver cmp x v

  shift_loop-Placed :
      (j : ℕ) (u v w s : List A) (g x : A)
      → j ≡ length u
      → u ++ v ≡ s
      → Ascends cmp s
      → StartsOver cmp x v
      → Returns (Placed x s w) (shift_loop cmp x (u ++ (g ∷ (v ++ w))) j)
  unfolding shift_loop
  shift_loop-Placed zero [] v w s g x e whole up over =
      rw (store-append [] (v ++ w) g x 0 refl) (value ([], v, whole, refl, tt, over))
  shift_loop-Placed zero (y ∷ u) v w s g x e whole up over = absurd (omega (arith, e))
  shift_loop-Placed (suc j) u v w s g x e whole up over = elim (snoc-view u) [
    | inl empty ↦ absurd (omega (arith, e, ap length empty))
    | inr (t, y, split) ↦
        let size : j ≡ length t = omega (arith, e, ap length split, length-append t (y ∷ [])) in
        let at : load (u ++ (g ∷ (v ++ w))) j ≡ ok y =
          subst (λ arr. load arr j ≡ ok y)
            (sym (append_assoc t (y ∷ []) (g ∷ (v ++ w)))
              ∙ ap (λ l. l ++ (g ∷ (v ++ w))) (sym split))
            (load-append t (g ∷ (v ++ w)) y j size) in
        elim (Bool-cases (is_pos (cmp y x))) [
          | inl more ↦
              rw (at, more, store-append u (v ++ w) g y (suc j) e)
                (subst (λ arr. Returns (Placed x s w) (shift_loop cmp x arr j))
                  (sym (append_assoc t (y ∷ []) (y ∷ (v ++ w)))
                    ∙ ap (λ l. l ++ (y ∷ (v ++ w))) (sym split))
                  (shift_loop-Placed j t (y ∷ v) w s y x size
                    (sym (append_assoc t (y ∷ []) v) ∙ ap (λ l. l ++ v) (sym split) ∙ whole) up
                    more))
          | inr stay ↦
              rw (at, stay, store-append u (v ++ w) g x (suc j) e)
                (value (
                  u,
                  v,
                  whole,
                  refl,
                  subst (UpTo cmp x) (sym split) (
                      UpTo-last cmp order x y t v stay
                        (subst (Ascends cmp) (sym whole ∙ ap (λ l. l ++ v) split) up)),
                  over,
                ))
        ]
  ]

  insert_loop-Sorted :
      (s w : List A) (i : ℕ)
      → i ≡ length s
      → Ascends cmp s
      → Returns
          (λ b. Ascends cmp b × Rearranged cmp b (s ++ w))
          (insert_loop cmp (length w) i (s ++ w))
  unfolding insert_loop
  insert_loop-Sorted s [] i e up = value (rw (append-nil s) up, Rearranged-self cmp (s ++ []))
  insert_loop-Sorted s (x ∷ w) i e up = rw (load-append s w x i e) (
      bind (shift_loop-Placed i s [] w s x x e (append-nil s) up tt)
        λ b (u, v, whole, at, below, over).
          let up' : Ascends cmp (u ++ v) = subst (Ascends cmp) (sym whole) up in
          let next = u ++ x ∷ v in
          let array : b ≡ next ++ w = at ∙ sym (append_assoc u (x ∷ v) w) in
          let placed : Rearranged cmp next (s ++ x ∷ []) =
            subst (λ l. Rearranged cmp next (l ++ x ∷ [])) whole
              (place-Rearranged cmp order x u v over up') in
          let size : i + 1 ≡ length next =
            omega (arith, e, length-append u (x ∷ v), length-append u v, ap length whole) in
          rw array (
            weaken
              (insert_loop-Sorted next w (i + 1) size
                (Ascends-place cmp order x u v below over up'))
              λ c (sorted, same). (
                sorted,
                Rearranged-trans cmp c (next ++ w) (s ++ x ∷ w) same (
                    subst (Rearranged cmp (next ++ w)) (append_assoc s (x ∷ []) w) (
                      Rearranged-append cmp next (s ++ x ∷ []) w w placed (Rearranged-self cmp w))),
              )))

  -- `insertion_sort` of any array, with a comparison that is an order, ends within its bounds. Where
  -- it gets its buffer, the array ascends and is rearranged so that equal entries keep their order,
  -- and the buffer is freed; otherwise the array is as it was.
  pub insertion_sort-Sorted :
      (base : List A) (m : Memory)
      → Returns
          (λ r.
            (r.1.live ≡ m.live)
            × Rearranged cmp r.0 base
            × ((m.grant m.calls ≡ true → Ascends cmp r.0) × (m.grant m.calls ≡ false → r.0 ≡ base)))
          (insertion_sort cmp base m)
  unfolding insertion_sort insert_loop
  insertion_sort-Sorted base m = elim (Bool-cases (m.grant m.calls)) [
    | inl got ↦
        rw got (bind (whole base) λ b (up, same). value (omega arith, same, ((λ e. up), (λ e. cc))))
    | inr refused ↦ rw refused (value (refl, Rearranged-self cmp base, ((λ e. cc), (λ e. refl))))
  ]
    where
      whole :
          (l : List A)
          → Returns (λ b. Ascends cmp b × Rearranged cmp b l) (insert_loop cmp (length l - 1) 1 l)
      whole [] = value (tt, Rearranged-self cmp [])
      whole (x ∷ l) =
          let later : suc (length l) - 1 ≡ length l = omega arith in
          rw later (insert_loop-Sorted (x ∷ []) l 1 refl (tt, tt))
