-- ===== src/MergeSort/Merged.antt =====
-- The merge of two lists, as a relation, and why it sorts.
use mathlib.Core.List.{Perm}
use mathlib.Core.List.Perm
use mathlib.Core.List.{append-nil, perm_middle}
use c2x_examples.Base.{
  ◌≡◌, sym, ◌∙◌, true, false, List, [], ◌∷◌, ◌++◌, ℤ, is_pos, Bool-cases, inl, inr,
}
use c2x_examples.Heap.Order.{IsOrder, not_both}

module _ {A : Type 0} (cmp : A → A → ℤ) where
  -- The left list gives its head where it is not larger.
  pub data Merged : List A → List A → List A → Type 0 where
    left_done : {ys : List A} → Merged [] ys ys
    right_done : {xs : List A} → Merged xs [] xs
    take_left :
        {x y : A} {xs ys zs : List A}
        → is_pos (cmp x y) ≡ false
        → Merged xs (y ∷ ys) zs
        → Merged (x ∷ xs) (y ∷ ys) (x ∷ zs)
    take_right :
        {x y : A} {xs ys zs : List A}
        → is_pos (cmp x y) ≡ true
        → Merged (x ∷ xs) ys zs
        → Merged (x ∷ xs) (y ∷ ys) (y ∷ zs)

  -- x is not larger than any of the list.
  abbrev pub Below : A → List A → Type 0
  Below x [] = Unit {0}
  Below x (y ∷ ys) = (is_pos (cmp x y) ≡ false) × Below x ys

  abbrev pub Ascends : List A → Type 0
  Ascends [] = Unit {0}
  Ascends (x ∷ xs) = Below x xs × Ascends xs

  pub Merged-perm : {xs ys zs : List A} → Merged xs ys zs → Perm zs (xs ++ ys)
  Merged-perm left_done = Perm.rfl
  Merged-perm {xs} right_done = rw (append-nil xs) Perm.rfl
  Merged-perm (take_left {x} e m) = Perm.cons x (Merged-perm m)
  Merged-perm (take_right {x} {y} {xs} {ys} e m) =
      Perm.trans (Perm.cons y (Merged-perm m)) (Perm.symm (perm_middle (x ∷ xs) ys))

  Merged-Below :
      (v : A) {xs ys zs : List A} → Merged xs ys zs → Below v xs → Below v ys → Below v zs
  Merged-Below v left_done b c = c
  Merged-Below v right_done b c = b
  Merged-Below v (take_left e m) (h, b) c = (h, Merged-Below v m b c)
  Merged-Below v (take_right e m) b (h, c) = (h, Merged-Below v m b c)

  module _ (order : IsOrder cmp) where
    pub at_most :
        (x y z : A) → is_pos (cmp x y) ≡ false → is_pos (cmp y z) ≡ false → is_pos (cmp x z) ≡ false
    at_most x y z p q =
        order.turns x z ∙ order.trans z y x (sym (order.turns y z) ∙ q) (sym (order.turns x y) ∙ p)

    pub Below-down : (x y : A) (ys : List A) → is_pos (cmp x y) ≡ false → Below y ys → Below x ys
    Below-down x y [] h b = tt
    Below-down x y (z ∷ ys) h (e, b) = (at_most x y z h e, Below-down x y ys h b)

    pub itself : (x : A) → is_pos (cmp x x) ≡ false
    itself x = elim (Bool-cases (is_pos (cmp x x))) [
      | inl e ↦ order.turns x x ∙ not_both (cmp x x) e
      | inr e ↦ e
    ]

    pub turned : (x y : A) → is_pos (cmp x y) ≡ true → is_pos (cmp y x) ≡ false
    turned x y e = order.turns y x ∙ not_both (cmp x y) e

    pub Merged-Ascends :
        {xs ys zs : List A} → Merged xs ys zs → Ascends xs → Ascends ys → Ascends zs
    Merged-Ascends left_done a b = b
    Merged-Ascends right_done a b = a
    Merged-Ascends (take_left {x} {y} {xs} {ys} e m) (h, a) (h', b) =
        (Merged-Below x m h (e, Below-down x y ys e h'), Merged-Ascends m a (h', b))
    Merged-Ascends (take_right {x} {y} {xs} {ys} e m) (h, a) (h', b) =
        let e' = turned x y e in
        (Merged-Below y m (e', Below-down y x xs e' h) h', Merged-Ascends m (h, a) b)
