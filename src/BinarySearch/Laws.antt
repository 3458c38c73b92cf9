-- ===== src/BinarySearch/Laws.antt =====
-- `bin_search` finds an object that compares equal exactly where there is one.
mod Tests
use c2x_examples.Base.{
  ℕ, zero, suc, ◌+◌, ◌-◌, ◌/◌, ◌^◌, ◌<◌, ◌≤◌, ◌≡◌, ◌≢◌, ◌⊎◌, refl, sym, ◌∙◌, Bool, true, false,
  Option, none, some, List, ℤ, pos, negsuc, is_zero, true≢false, ap, is_pos, is_neg, ◌==◌, ltb, leb,
  length, if◌then◌else◌, arith, Bool-cases, inl, inr,
}
use c2x_examples.Run.{Run, ok, fault, ◌>>=◌, Returns, value}
use c2x_examples.Array.{load, get_or, load-ok}
use c2x_examples.BinarySearch.{int_bound, turn, resume, search_loop, bin_search}

zero≢minus : pos 0 ≢ negsuc 0
zero≢minus e = true≢false (ap is_zero e)

zero≢one : pos 0 ≢ pos 1
zero≢one e = true≢false (ap is_zero e)

module _ {A : Type 0} (d : A) (cmp : A → A → ℤ) (target : A) where
  -- The comparison with the target is -1, 0 or 1, and does not fall along the array.
  pub record IsSorted (a : List A) : Type 0 where
    pub signs :
        (i : ℕ)
        → i < length a
        → (cmp (get_or a i d) target ≡ negsuc 0)
          ⊎ ((cmp (get_or a i d) target ≡ pos 0) ⊎ (cmp (get_or a i d) target ≡ pos 1))
    pub rises :
        (i j : ℕ)
        → i < j
        → j < length a
        → cmp (get_or a j d) target ≡ negsuc 0
        → cmp (get_or a i d) target ≡ negsuc 0
    pub stays :
        (i j : ℕ)
        → i < j
        → j < length a
        → cmp (get_or a i d) target ≡ pos 1
        → cmp (get_or a j d) target ≡ pos 1

  -- The index of an object that compares equal, or none where there is no such object.
  abbrev pub Found : List A → Option ℕ → Type 0
  Found a (some m) = (m < length a) × (cmp (get_or a m d) target ≡ pos 0)
  Found a none = (i : ℕ) → i < length a → cmp (get_or a i d) target ≢ pos 0

  -- What is left out is below or above.
  record Bounds (a : List A) (l hi : ℕ) : Type 0 where
    ordered : l ≤ hi
    inside : hi ≤ length a
    below : (i : ℕ) → i < l → i < length a → cmp (get_or a i d) target ≡ negsuc 0
    above : (i : ℕ) → hi ≤ i → i < length a → cmp (get_or a i d) target ≡ pos 1

  below_all :
      (a : List A) (m : ℕ)
      → IsSorted a
      → m < length a
      → cmp (get_or a m d) target ≡ negsuc 0
      → (i : ℕ) → i ≤ m
      → cmp (get_or a i d) target ≡ negsuc 0
  below_all a m sorted inside s i p = elim (Bool-cases (i == m)) [
    | inl e ↦ let same : i ≡ m = ground arith in rw same s
    | inr e ↦ sorted.rises i m (ground arith) inside s
  ]

  above_all :
      (a : List A) (m : ℕ)
      → IsSorted a
      → cmp (get_or a m d) target ≡ pos 1
      → (i : ℕ) → m ≤ i
      → i < length a
      → cmp (get_or a i d) target ≡ pos 1
  above_all a m sorted s i p inside = elim (Bool-cases (m == i)) [
    | inl e ↦ let same : m ≡ i = ground arith in rw (sym same) s
    | inr e ↦ sorted.stays m i (ground arith) inside s
  ]

  search_loop-Found :
      (k : ℕ) (a : List A) (l hi : ℕ)
      → length a + length a ≤ int_bound
      → hi < l + k
      → IsSorted a
      → Bounds a l hi
      → Returns (Found a) (search_loop cmp target k a l hi)
  unfolding search_loop resume
  search_loop-Found zero a l hi size fuel sorted b = absurd (omega (arith, b.ordered))
  search_loop-Found (suc k) a l hi size fuel sorted b = elim (Bool-cases (ltb l hi)) [
    | inl e ↦
        let m = (l + (hi - 1)) / 2 in
        let inside = b.inside in
        let in_range : m < length a = ground arith in
        let small : leb int_bound (l + (hi - 1)) ≡ false = ground arith in
        rw (e, small, load-ok d a m in_range)
          (elim (sorted.signs m in_range) [
            | inl s ↦ rw s (
                search_loop-Found k a (m + 1) hi size (ground arith) sorted (record {
                  ordered = ground arith;
                  inside = inside;
                  below = λ i p q. below_all a m sorted in_range s i (omega arith);
                  above = b.above;
                }))
            | inr (inl s) ↦ rw s (value (in_range, s))
            | inr (inr s) ↦ rw s (
                search_loop-Found k a l m size (ground arith) sorted (record {
                  ordered = ground (arith, b.ordered);
                  inside = omega arith;
                  below = b.below;
                  above = λ i p q. above_all a m sorted s i (omega arith) q;
                }))
          ])
    | inr e ↦ rw e (
        value λ i p hit. elim (Bool-cases (ltb i l)) [
          | inl before ↦ zero≢minus (sym hit ∙ b.below i (ground arith) p)
          | inr after ↦ zero≢one (sym hit ∙ b.above i (ground (arith, b.ordered)) p)
        ])
  ]

  -- With a comparison function that gives -1, 0 or 1 for the target and no other number, `bin_search`
  -- of a sorted array of at most 2^30 objects ends within the array without overflow, with the index
  -- of an object that compares equal to the target, or with -1 where there is none.
  pub bin_search-Found :
      (a : List A)
      → length a + length a ≤ int_bound
      → IsSorted a
      → Returns (Found a) (bin_search cmp target a)
  unfolding bin_search
  bin_search-Found a size sorted =
      let small : leb int_bound (length a) ≡ false = ground arith in
      rw small (
        search_loop-Found (suc (length a)) a 0 (length a) size (omega arith) sorted (record {
          ordered = omega arith;
          inside = omega arith;
          below = λ i p q. absurd (omega arith);
          above = λ i p q. absurd (omega arith);
        }))
