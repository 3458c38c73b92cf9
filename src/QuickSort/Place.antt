-- ===== src/QuickSort/Place.antt =====
-- Where an entry belongs in a list that ascends.
use mathlib.Core.List.{append-nil, Perm, perm_middle, append_assoc}
use mathlib.Core.List.Perm
use c2x_examples.Base.{
  ◌≡◌, refl, sym, ap, ◌∙◌, true, false, List, [], ◌∷◌, ◌++◌, ℤ, is_pos, is_zero, Bool-cases, inl,
  inr,
}
use c2x_examples.Heap.Order.{IsOrder}
use c2x_examples.MergeSort.Merged.{Below, Ascends, at_most, itself, turned, Below-down}
use c2x_examples.MergeSort.Stable.{equal_to, equal_to-append, Rearranged, none_equal, zero_not_pos}

module _ {A : Type 0} (cmp : A → A → ℤ) where
  -- No entry is larger than x.
  abbrev pub UpTo : A → List A → Type 0
  UpTo x [] = Unit {0}
  UpTo x (y ∷ ys) = (is_pos (cmp y x) ≡ false) × UpTo x ys

  -- The list starts with an entry larger than x, if it has one.
  abbrev pub StartsOver : A → List A → Type 0
  StartsOver x [] = Unit {0}
  StartsOver x (y ∷ ys) = is_pos (cmp y x) ≡ true

  Below-append : (y : A) (u v : List A) → Below cmp y (u ++ v) → Below cmp y u × Below cmp y v
  Below-append y [] v b = (tt, b)
  Below-append y (z ∷ u) v (e, b) = let (l, r) = Below-append y u v b in ((e, l), r)

  Below-insert :
      (y x : A) (u v : List A)
      → is_pos (cmp y x) ≡ false
      → Below cmp y (u ++ v)
      → Below cmp y (u ++ x ∷ v)
  Below-insert y x [] v h b = (h, b)
  Below-insert y x (z ∷ u) v h (e, b) = (e, Below-insert y x u v h b)

  module _ (order : IsOrder cmp) where
    -- where the last entry is not larger, none is
    pub UpTo-last :
        (x y : A) (u v : List A)
        → is_pos (cmp y x) ≡ false
        → Ascends cmp ((u ++ y ∷ []) ++ v)
        → UpTo x (u ++ y ∷ [])
    UpTo-last x y [] v h up = (h, tt)
    UpTo-last x y (z ∷ u) v h (b, up) =
        let z_y : is_pos (cmp z y) ≡ false =
          (Below-append z u (y ∷ []) (Below-append z (u ++ y ∷ []) v b).0).1.0 in
        (at_most cmp order z y x z_y h, UpTo-last x y u v h up)

    over_all : (x : A) (v : List A) → StartsOver x v → Ascends cmp v → Below cmp x v
    over_all x [] h up = tt
    over_all x (y ∷ ys) h (b, up) =
        let e = turned cmp order y x h in (e, Below-down cmp order x y ys e b)

    pub Ascends-place :
        (x : A) (u v : List A)
        → UpTo x u
        → StartsOver x v
        → Ascends cmp (u ++ v)
        → Ascends cmp (u ++ x ∷ v)
    Ascends-place x [] v below over up = (over_all x v over up, up)
    Ascends-place x (y ∷ u) v (h, below) over (b, up) =
        (Below-insert y x u v h b, Ascends-place x u v below over up)

    Ascends-right : (u v : List A) → Ascends cmp (u ++ v) → Ascends cmp v
    Ascends-right [] v up = up
    Ascends-right (x ∷ u) v (b, up) = Ascends-right u v up

    -- an entry that goes before the larger ones passes none that is equal
    equal_to-pass :
        (w x : A) (v : List A)
        → StartsOver x v
        → Ascends cmp v
        → equal_to cmp w (x ∷ v) ≡ equal_to cmp w (v ++ x ∷ [])
    unfolding equal_to
    equal_to-pass w x [] over up = refl
    equal_to-pass w x (y ∷ ys) over (b, up) = elim (Bool-cases (is_zero (cmp w x))) [
      | inl same ↦
          let none_here : equal_to cmp w (y ∷ ys) ≡ [] =
            none_equal cmp order w y x (y ∷ ys) over (zero_not_pos (cmp w x) same)
              (itself cmp order y, b) in
          let last : equal_to cmp w (x ∷ []) ≡ x ∷ [] = rw same refl in
          let behind : equal_to cmp w ((y ∷ ys) ++ x ∷ []) ≡ x ∷ [] =
            equal_to-append cmp w (y ∷ ys) (x ∷ [])
            ∙ ap (λ l. l ++ equal_to cmp w (x ∷ [])) none_here
            ∙ last in
          rw same (ap (◌∷◌ x) none_here ∙ sym behind)
      | inr other ↦
          let last : equal_to cmp w (x ∷ []) ≡ [] = rw other refl in
          let behind : equal_to cmp w ((y ∷ ys) ++ x ∷ []) ≡ equal_to cmp w (y ∷ ys) =
            equal_to-append cmp w (y ∷ ys) (x ∷ [])
            ∙ ap (λ l. equal_to cmp w (y ∷ ys) ++ l) last
            ∙ append-nil (equal_to cmp w (y ∷ ys)) in
          rw other (sym behind)
    ]

    pub place-Rearranged :
        (x : A) (u v : List A)
        → StartsOver x v
        → Ascends cmp (u ++ v)
        → Rearranged cmp (u ++ x ∷ v) ((u ++ v) ++ x ∷ [])
    place-Rearranged x u v over up =
        let moved : Perm (x ∷ v) (v ++ x ∷ []) =
          Perm.symm (rw (append-nil v) at (perm_middle {a = x} v [])) in
        (
          rw (append_assoc u v (x ∷ [])) (Perm.append_left u moved),
          λ w.
              rw
                (
                  append_assoc u v (x ∷ []),
                  equal_to-append cmp w u (x ∷ v),
                  equal_to-append cmp w u (v ++ x ∷ []),
                )
                (ap (λ l. equal_to cmp w u ++ l) (equal_to-pass w x v over (Ascends-right u v up))),
        )
