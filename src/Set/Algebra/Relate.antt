-- ===== src/Set/Algebra/Relate.antt =====
-- `set_is_subset` and `set_is_equal`.
use c2x_examples.Base.{
  ◌≤◌, ◌≡◌, ◌↔◌, refl, true, some, List, [], ◌∷◌, Bytes, length, ◌∙◌, arith, sym, Bool-cases, inl,
  inr, ◌⊎◌, ◌==◌,
}
use mathlib.Core.Path.{subst}
use c2x_examples.Set.{Set, SetNode, Compare, contains, set_contains}
use c2x_examples.Set.Algebra.{all_in, is_empty, set_is_subset, set_is_equal}
use c2x_examples.Set.Algebra.Remove.{unlink-Cut, Cut-length, Cut-contains}
use c2x_examples.Set.Chain.{IsEquality, IsChain, IsValid, Distinct, contains_congr}
use c2x_examples.Set.Outcome.{contains_empty}

abbrev pub Includes : Compare → (l k : List SetNode) → Type 0
Includes c l k = (x : Bytes) → contains c l x ≡ true → contains c k x ≡ true

abbrev pub SameElements : Compare → (l k : List SetNode) → Type 0
SameElements c l k = (x : Bytes) → contains c l x ≡ contains c k x

module _ {c : Compare} (eq : IsEquality c) where
  -- a chain without duplicates is no longer than a chain that has its elements
  pub length-le_of_Includes :
      (l k : List SetNode) → Distinct c l → Includes c l k → length l ≤ length k
  unfolding contains
  length-le_of_Includes [] k distinct inc = omega arith
  length-le_of_Includes (n ∷ l) k (new, distinct) inc =
      let (found, left, at, cut) =
        unlink-Cut c n.content k (inc n.content (ground (arith, eq.same-refl n.content))) in
      let shorter =
        length-le_of_Includes l left distinct
          λ x h. ground (arith, inc x, Cut-contains eq cut x, contains_congr eq l n.content x) in
      omega (arith, shorter, Cut-length cut)

  -- with as many elements, inclusion goes both ways
  pub Includes-converse :
      (l k : List SetNode) → Distinct c l → Includes c l k → length k ≤ length l → Includes c k l
  unfolding contains
  Includes-converse l k distinct inc le x h = elim (Bool-cases (contains c l x)) [
    | inl e ↦ e
    | inr e ↦
        let n : SetNode = record { content = x; bytes = 1; count = 1 } in
        let longer =
          length-le_of_Includes (n ∷ l) k (e, distinct)
            (λ y i. ground (arith, inc y, contains_congr eq k x y)) in
        absurd (omega (arith, longer))
  ]

is_empty-length : (l : List SetNode) → is_empty l ≡ (length l == 0)
is_empty-length [] = ground arith
is_empty-length (n ∷ l) = ground arith

module _ (a b : Set) (eq : IsEquality b.compare) where
  all_in_sound :
      (l : List SetNode) (x : Bytes)
      → all_in l b ≡ true
      → contains b.compare l x ≡ true
      → contains b.compare b.top x ≡ true
  unfolding all_in set_contains contains
  all_in_sound [] x h i = cc
  all_in_sound (n ∷ l) x h i = ground (arith, all_in_sound l x, contains_congr eq b.top n.content x)

  all_in_complete : (l : List SetNode) → Includes b.compare l b.top → all_in l b ≡ true
  unfolding all_in set_contains contains
  all_in_complete [] inc = refl
  all_in_complete (n ∷ l) inc =
      rw (inc n.content (ground (arith, eq.same-refl n.content)))
        (all_in_complete l (λ x h. inc x (ground arith)))

  module _ (v : IsValid a) (w : IsValid b) (e : a.compare ≡ b.compare) where
    chain : IsChain b.compare a.top
    chain = subst (λ c. IsChain c a.top) e v.chain

    -- `set_is_subset` of two valid sets with the same comparison is true exactly when each element
    -- of the first is an element of the second.
    pub set_is_subset_iff :
        (set_is_subset (some a) (some b) ≡ true) ↔ Includes b.compare a.top b.top
    unfolding set_is_subset
    set_is_subset_iff = (
      λ h x i. elim (Bool-cases (a.count == 0)) [
        | inl none_there ↦ ground (arith, v.counted, contains_empty b.compare a.top x)
        | inr some_there ↦ all_in_sound a.top x (ground arith) i
      ],
      λ inc. ground (
        arith,
        all_in_complete a.top inc,
        v.counted,
        w.counted,
        length-le_of_Includes eq a.top b.top chain.distinct inc,
      ),
    )

    equal_cases :
        set_is_equal (some a) (some b) ≡ true
        → ((a.count ≡ 0) × (b.count ≡ 0))
          ⊎ ((a.count ≡ b.count) × (set_is_subset (some a) (some b) ≡ true))
    unfolding set_is_equal
    equal_cases h = ground arith

    equal_sound :
        (a.count ≡ b.count) × (set_is_subset (some a) (some b) ≡ true)
        → SameElements b.compare a.top b.top
    equal_sound (counts, sub) x =
        let inc = set_is_subset_iff.0 sub in
        ground (
          arith,
          inc x,
          Includes-converse eq a.top b.top chain.distinct inc (omega (arith, v.counted, w.counted))
              x,
        )

    -- `set_is_equal` of two valid sets with the same comparison is true exactly when they have the
    -- same elements.
    pub set_is_equal_iff :
        (set_is_equal (some a) (some b) ≡ true) ↔ SameElements b.compare a.top b.top
    unfolding set_is_equal
    set_is_equal_iff = (
      λ h. elim (equal_cases h) [
        | inl (p, q) ↦ λ x.
            contains_empty b.compare a.top x (omega (arith, v.counted))
            ∙ sym (contains_empty b.compare b.top x (omega (arith, w.counted)))
        | inr parts ↦ equal_sound parts
      ],
      λ same_elements.
          let there : Includes b.compare a.top b.top = λ x i. sym (same_elements x) ∙ i in
          let back : Includes b.compare b.top a.top = λ x i. same_elements x ∙ i in
          ground (
            arith,
            v.counted,
            w.counted,
            length-le_of_Includes eq a.top b.top chain.distinct there,
            length-le_of_Includes eq b.top a.top w.chain.distinct back,
            set_is_subset_iff.1 there,
            is_empty-length a.top,
            is_empty-length b.top,
          ),
    )
