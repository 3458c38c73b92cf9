-- ===== src/Heap/Order.antt =====
-- Comparison functions, and the two tests by which the sources order a heap.
use c2x_examples.Base.{◌≡◌, Bool, true, false, ℤ, pos, negsuc, is_neg, is_pos, refl, ◌∙◌, sym}
use c2x_examples.Strings.{strcmp, strcmp-turns, strcmp_trans}
use c2x_examples.Heap.Sift.{IsBetter}

-- What the code expects of a comparison function: that its sign turns when its arguments are
-- exchanged, and that `compare(x, y) >= 0` is transitive.
pub record IsOrder {A : Type 0} (compare : A → A → ℤ) : Type 0 where
  pub turns : (x y : A) → is_pos (compare x y) ≡ is_neg (compare y x)
  pub trans :
      (x y z : A)
      → is_neg (compare x y) ≡ false
      → is_neg (compare y z) ≡ false
      → is_neg (compare x z) ≡ false

module _ {A : Type 0} (compare : A → A → ℤ) where
  -- the larger one is nearer the root, as in `heap_insert` and `heap_extract`
  abbrev pub larger_first : A → A → Bool
  larger_first x y = is_pos (compare x y)

  -- the smaller one is nearer the root, as in `heap_sort_t`
  abbrev pub smaller_first : A → A → Bool
  smaller_first x y = is_pos (compare y x)

pub not_both : (r : ℤ) → is_pos r ≡ true → is_neg r ≡ false
not_both (pos n) h = refl
not_both (negsuc n) h = cc

module _ {A : Type 0} {compare : A → A → ℤ} (order : IsOrder compare) where
  pub larger_first-IsBetter : IsBetter (larger_first compare)
  larger_first-IsBetter = record {
    asym = λ x y h. order.turns y x ∙ not_both (compare x y) h;
    trans = λ x y z p q.
        order.turns z x ∙ order.trans x y z (sym (order.turns y x) ∙ p) (sym (order.turns z y) ∙ q);
  }

  pub smaller_first-IsBetter : IsBetter (smaller_first compare)
  smaller_first-IsBetter = record {
    asym = λ x y h. order.turns x y ∙ not_both (compare y x) h;
    trans = λ x y z p q.
        order.turns x z ∙ order.trans z y x (sym (order.turns y z) ∙ q) (sym (order.turns x y) ∙ p);
  }

pub strcmp-IsOrder : IsOrder strcmp
strcmp-IsOrder = record { turns = strcmp-turns; trans = strcmp_trans }
