-- ===== src/MergeSort/Stable.antt =====
-- A merge keeps the order of entries that compare equal.
use mathlib.Core.List.{append-nil, Perm}
use mathlib.Core.List.Perm
use c2x_examples.Base.{
  ◌≡◌, refl, sym, ap, ◌∙◌, true, false, true≢false, List, [], ◌∷◌, ◌++◌, ℤ, pos, negsuc, zero, suc,
  is_pos, is_neg, is_zero, if◌then◌else◌, Bool-cases, inl, inr,
}
use c2x_examples.Heap.Order.{IsOrder}
use c2x_examples.MergeSort.Merged.{
  Merged, left_done, right_done, take_left, take_right, Below, Ascends, at_most, itself,
  Merged-perm,
}

pub zero_not_pos : (r : ℤ) → is_zero r ≡ true → is_pos r ≡ false
zero_not_pos (pos zero) e = refl
zero_not_pos (pos (suc n)) e = cc
zero_not_pos (negsuc n) e = refl

zero_not_neg : (r : ℤ) → is_zero r ≡ true → is_neg r ≡ false
zero_not_neg (pos n) e = refl
zero_not_neg (negsuc n) e = cc

module _ {A : Type 0} (cmp : A → A → ℤ) where
  -- The entries that compare equal to v, in order.
  unfoldable pub equal_to : A → List A → List A
  equal_to v [] = []
  equal_to v (x ∷ xs) = let rest = equal_to v xs in if is_zero (cmp v x) then x ∷ rest else rest

  pub equal_to-append :
      (v : A) (xs ys : List A) → equal_to v (xs ++ ys) ≡ equal_to v xs ++ equal_to v ys
  unfolding equal_to
  equal_to-append v [] ys = refl
  equal_to-append v (x ∷ xs) ys = elim (Bool-cases (is_zero (cmp v x))) [
    | inl e ↦ rw e (ap (◌∷◌ x) (equal_to-append v xs ys))
    | inr e ↦ rw e (equal_to-append v xs ys)
  ]

  -- The same entries, and those that compare equal in the same order.
  abbrev pub Rearranged : List A → List A → Type 0
  Rearranged ys xs = Perm ys xs × ((v : A) → equal_to v ys ≡ equal_to v xs)

  pub Rearranged-self : (xs : List A) → Rearranged xs xs
  Rearranged-self xs = (Perm.rfl, λ v. refl)

  pub Rearranged-trans :
      (xs ys zs : List A) → Rearranged xs ys → Rearranged ys zs → Rearranged xs zs
  Rearranged-trans xs ys zs (p, e) (q, e') = (Perm.trans p q, λ v. e v ∙ e' v)

  pub Rearranged-append :
      (xs xs' ys ys' : List A)
      → Rearranged xs xs'
      → Rearranged ys ys'
      → Rearranged (xs ++ ys) (xs' ++ ys')
  Rearranged-append xs xs' ys ys' (p, e) (q, e') = (
    Perm.append p q,
    λ v. rw (equal_to-append v xs ys, equal_to-append v xs' ys', e v, e' v) refl,
  )

  module _ (order : IsOrder cmp) where
    pub none_equal :
        (v x y : A) (ws : List A)
        → is_pos (cmp x y) ≡ true
        → is_pos (cmp v y) ≡ false
        → Below cmp x ws
        → equal_to v ws ≡ []
    unfolding equal_to
    none_equal v x y [] more h b = refl
    none_equal v x y (w ∷ ws) more h (e, b) = elim (Bool-cases (is_zero (cmp v w))) [
      | inl same ↦
          let w_v : is_pos (cmp w v) ≡ false = order.turns w v ∙ zero_not_neg (cmp v w) same in
          let x_y = at_most cmp order x v y (at_most cmp order x w v e w_v) h in
          absurd (true≢false (sym more ∙ x_y))
      | inr other ↦ rw other (none_equal v x y ws more h b)
    ]

    equal_to-Merged :
        (v : A) {xs ys zs : List A}
        → Merged cmp xs ys zs
        → Ascends cmp xs
        → Ascends cmp ys
        → equal_to v zs ≡ equal_to v xs ++ equal_to v ys
    unfolding equal_to
    equal_to-Merged v left_done a b = refl
    equal_to-Merged v (right_done {xs}) a b = sym (append-nil (equal_to v xs))
    equal_to-Merged v (take_left {x} e m) (h, a) b = elim (Bool-cases (is_zero (cmp v x))) [
      | inl same ↦ rw same (ap (◌∷◌ x) (equal_to-Merged v m a b))
      | inr other ↦ rw other (equal_to-Merged v m a b)
    ]
    equal_to-Merged v (take_right {x} {y} {xs} {ys} {zs} e m) (h, a) (h', b) =
        let ih : equal_to v zs ≡ equal_to v (x ∷ xs) ++ equal_to v ys =
          equal_to-Merged v m (h, a) b in
        elim (Bool-cases (is_zero (cmp v y))) [
          | inl same ↦
              let empty : equal_to v (x ∷ xs) ≡ [] =
                none_equal v x y (x ∷ xs) e (zero_not_pos (cmp v y) same) (itself cmp order x, h) in
              let ih' : equal_to v zs ≡ equal_to v ys = ih ∙ ap (λ l. l ++ equal_to v ys) empty in
              rw same (ap (◌∷◌ y) ih' ∙ ap (λ l. l ++ y ∷ equal_to v ys) (sym empty))
          | inr other ↦ rw other ih
        ]

    pub Merged-Rearranged :
        {xs ys zs : List A}
        → Merged cmp xs ys zs
        → Ascends cmp xs
        → Ascends cmp ys
        → Rearranged zs (xs ++ ys)
    Merged-Rearranged {xs} {ys} m a b =
        (Merged-perm cmp m, λ v. equal_to-Merged v m a b ∙ sym (equal_to-append v xs ys))
