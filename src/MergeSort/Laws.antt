-- ===== src/MergeSort/Laws.antt =====
-- `merge` of src/mergesort/mergesort.c merges two runs that stand side by side.
use mathlib.Core.Path.{subst}
use mathlib.Core.List.{append_assoc, append-nil}
use c2x_examples.Base.{
  ℕ, zero, suc, ◌+◌, ◌-◌, ◌≡◌, ◌≤◌, ◌<◌, refl, sym, ap, ◌∙◌, true, false, List, [], ◌∷◌, ◌++◌, ℤ,
  is_pos, leb, length, length-append, arith, Bool-cases, inl, inr,
}
use c2x_examples.Run.{ok, Returns, value, bind, weaken}
use c2x_examples.Array.{load, length-perm}
use c2x_examples.MergeSort.{fill_rest, read_block, write_block, merge_loop, merge_into}
use c2x_examples.MergeSort.Merged.{
  Merged, left_done, right_done, take_left, take_right, Merged-perm,
}
use c2x_examples.MergeSort.Blocks.{load-append, read_block-append, write_block-append, fill-ok}

module _ {A : Type 0} (cmp : A → A → ℤ) where
  -- an array whose runs xs and ys are still to be merged
  abbrev runs : (a xs c ys b : List A) → List A
  runs a xs c ys b = a ++ (xs ++ (c ++ (ys ++ b)))

  -- What the loop gives: the buffer with a merge of the runs behind what it had.
  abbrev Gives : (out xs ys : List A) → List A → Type 0
  Gives out xs ys m_ptr = (rest : List A) × (m_ptr ≡ out ++ rest) × Merged cmp xs ys rest

  merge_loop-Gives :
      (fuel room : ℕ) (a xs c ys b out : List A) (z k i_ z_ : ℕ)
      → i_ ≡ length a
      → suc z ≡ length a + length xs
      → z_ ≡ length a + length xs + length c
      → suc k ≡ z_ + length ys
      → length out + length xs + length ys ≤ room
      → length xs + length ys < fuel
      → Returns (Gives out xs ys) (merge_loop cmp fuel room (runs a xs c ys b) z k i_ z_ out)
  unfolding merge_loop fill_rest
  merge_loop-Gives zero room a xs c ys b out z k i_ z_ hi hz hz_ hk fits h = absurd (omega arith)
  merge_loop-Gives (suc fuel) room a [] c [] b out z k i_ z_ hi hz hz_ hk fits h =
      let no_left : leb i_ z ≡ false = ground arith in
      let no_right : leb z_ k ≡ false = ground arith in
      rw (no_left, no_right) (value ([], sym (append-nil out), left_done))
  merge_loop-Gives (suc fuel) room a [] c (y ∷ ys) b out z k i_ z_ hi hz hz_ hk fits h =
      let no_left : leb i_ z ≡ false = ground arith in
      let more : leb z_ k ≡ true = ground arith in
      let at : read_block (a ++ (c ++ ((y ∷ ys) ++ b))) z_ ((k - z_) + 1) ≡ ok (y ∷ ys) =
        rw⁻¹ (append_assoc a c ((y ∷ ys) ++ b)) (
          read_block-append (a ++ c) (y ∷ ys) b z_ ((k - z_) + 1) (omega (arith, length-append a c))
            (omega arith)) in
      rw (no_left, more, at, fill-ok room out (y ∷ ys) (omega arith))
        (value (y ∷ ys, refl, left_done))
  merge_loop-Gives (suc fuel) room a (x ∷ xs) c [] b out z k i_ z_ hi hz hz_ hk fits h =
      let more : leb i_ z ≡ true = ground arith in
      let no_right : leb z_ k ≡ false = ground arith in
      let at : read_block (a ++ ((x ∷ xs) ++ (c ++ b))) i_ ((z - i_) + 1) ≡ ok (x ∷ xs) =
        read_block-append a (x ∷ xs) (c ++ b) i_ ((z - i_) + 1) hi (omega arith) in
      rw (more, no_right, at, fill-ok room out (x ∷ xs) (omega arith))
        (value (x ∷ xs, refl, right_done))
  merge_loop-Gives (suc fuel) room a (x ∷ xs) c (y ∷ ys) b out z k i_ z_ hi hz hz_ hk fits h =
      let left : leb i_ z ≡ true = ground arith in
      let right : leb z_ k ≡ true = ground arith in
      let at_x = load-append a (xs ++ (c ++ ((y ∷ ys) ++ b))) x i_ hi in
      let at_y : load (runs a (x ∷ xs) c (y ∷ ys) b) z_ ≡ ok y =
        subst (λ arr. load arr z_ ≡ ok y)
          (append_assoc (a ++ x ∷ xs) c (y ∷ (ys ++ b))
            ∙ append_assoc a (x ∷ xs) (c ++ y ∷ (ys ++ b)))
          (load-append ((a ++ x ∷ xs) ++ c) (ys ++ b) y z_
            (omega (arith, length-append (a ++ x ∷ xs) c, length-append a (x ∷ xs)))) in
      let past_x = append_assoc a (x ∷ []) (xs ++ (c ++ (y ∷ (ys ++ b)))) in
      let past_y = ap (λ l. a ++ (x ∷ xs ++ l)) (append_assoc c (y ∷ []) (ys ++ b)) in
      elim (Bool-cases (is_pos (cmp x y))) [
        | inl e ↦
            rw (left, right, at_x, at_y, e, fill-ok room out (y ∷ []) (omega arith))
              (weaken
                (subst
                  (λ arr.
                    Returns (Gives (out ++ y ∷ []) (x ∷ xs) ys)
                      (merge_loop cmp fuel room arr z k i_ (z_ + 1) (out ++ y ∷ [])))
                  past_y
                  (merge_loop-Gives fuel room a (x ∷ xs) (c ++ y ∷ []) ys b (out ++ y ∷ []) z k i_
                    (z_ + 1) hi hz (omega (arith, length-append c (y ∷ []))) (omega arith)
                    (omega (arith, length-append out (y ∷ []))) (omega arith)))
                λ m_ptr (rest, e', m).
                  (y ∷ rest, e' ∙ append_assoc out (y ∷ []) rest, take_right e m))
        | inr e ↦
            rw (left, right, at_x, at_y, e, fill-ok room out (x ∷ []) (omega arith))
              (weaken
                (subst
                  (λ arr.
                    Returns (Gives (out ++ x ∷ []) xs (y ∷ ys))
                      (merge_loop cmp fuel room arr z k (i_ + 1) z_ (out ++ x ∷ [])))
                  past_x
                  (merge_loop-Gives fuel room (a ++ x ∷ []) xs c (y ∷ ys) b (out ++ x ∷ []) z k
                    (i_ + 1) z_ (omega (arith, length-append a (x ∷ [])))
                    (omega (arith, length-append a (x ∷ [])))
                    (omega (arith, length-append a (x ∷ []))) (omega arith)
                    (omega (arith, length-append out (x ∷ []))) (omega arith)))
                λ m_ptr (rest, e', m).
                  (x ∷ rest, e' ∙ append_assoc out (x ∷ []) rest, take_left e m))
      ]

  -- two runs side by side are merged in place
  pub merge_into-Merged :
      (a xs ys b : List A) (i z k : ℕ)
      → i ≡ length a
      → suc z ≡ length a + length xs
      → suc k ≡ length a + length xs + length ys
      → i ≤ k
      → Returns
          (λ arr. (zs : List A) × (arr ≡ a ++ (zs ++ b)) × Merged cmp xs ys zs)
          (merge_into cmp (a ++ (xs ++ (ys ++ b))) i z k)
  unfolding merge_into
  merge_into-Merged a xs ys b i z k hi hz hk h =
      let room = (k - i) + 1 in
      bind
        (merge_loop-Gives (room + 1) room a xs [] ys b [] z k i (z + 1) hi hz (omega (arith, hz))
          (omega (arith, hz, hk)) (omega (arith, hz, hk)) (omega (arith, hz, hk)))
        λ m_ptr (zs, e, m).
          let size : length zs ≡ length xs + length ys =
            length-perm (Merged-perm cmp m) ∙ length-append xs ys in
          let buffer : read_block m_ptr 0 room ≡ ok zs = rw e (
            subst (λ l. read_block l 0 room ≡ ok zs) (append-nil zs)
              (read_block-append [] zs [] 0 room refl (omega (arith, size, hi, hk, h)))) in
          let whole : write_block (a ++ (xs ++ (ys ++ b))) i zs ≡ ok (a ++ (zs ++ b)) =
            subst (λ l. write_block (a ++ l) i zs ≡ ok (a ++ (zs ++ b))) (append_assoc xs ys b)
              (write_block-append a (xs ++ ys) b zs i hi (size ∙ sym (length-append xs ys))) in
          rw (buffer, whole) (value (zs, refl, m))
