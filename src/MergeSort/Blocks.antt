-- ===== src/MergeSort/Blocks.antt =====
-- Block reads and writes of src/mergesort/mergesort.c where the array is a list in pieces.
use mathlib.Core.List.{append_assoc}
use c2x_examples.Base.{
  ℕ, ◌+◌, ◌≡◌, ◌≤◌, refl, sym, ap, true, List, [], ◌∷◌, ◌++◌, leb, length, length-append, take,
  get_elem?, some, arith,
}
use c2x_examples.Run.{ok}
use c2x_examples.Array.{load}
use c2x_examples.MergeSort.{drop, read_block, write_block, fill}

module _ {A : Type 0} where
  drop-append : (a b : List A) → drop (length a) (a ++ b) ≡ b
  drop-append [] b = refl
  drop-append (x ∷ a) b = drop-append a b

  take-append : (a b : List A) → take (length a) (a ++ b) ≡ a
  take-append [] b = refl
  take-append (x ∷ a) b = ap (◌∷◌ x) (take-append a b)

  get_elem?-append : (a b : List A) (x : A) → get_elem? (a ++ x ∷ b) (length a) ≡ some x
  get_elem?-append [] b x = refl
  get_elem?-append (y ∷ a) b x = get_elem?-append a b x

  pub load-append : (a b : List A) (x : A) (i : ℕ) → i ≡ length a → load (a ++ x ∷ b) i ≡ ok x
  unfolding load
  load-append a b x i e = rw (e, get_elem?-append a b x)

  pub read_block-append :
      (a xs b : List A) (i n : ℕ)
      → i ≡ length a
      → n ≡ length xs
      → read_block (a ++ (xs ++ b)) i n ≡ ok xs
  unfolding read_block
  read_block-append a xs b i n e e' =
      let fits : leb (length a + length xs) (length (a ++ (xs ++ b))) ≡ true =
        ground (arith, length-append a (xs ++ b), length-append xs b) in
      rw (e, e', fits, drop-append a (xs ++ b), take-append xs b) refl

  pub write_block-append :
      (a xs b ys : List A) (i : ℕ)
      → i ≡ length a
      → length ys ≡ length xs
      → write_block (a ++ (xs ++ b)) i ys ≡ ok (a ++ (ys ++ b))
  unfolding write_block
  write_block-append a xs b ys i e e' =
      let fits : leb (length a + length xs) (length (a ++ (xs ++ b))) ≡ true =
        ground (arith, length-append a (xs ++ b), length-append xs b) in
      let behind : drop (length a + length xs) (a ++ (xs ++ b)) ≡ b =
        rw (sym (length-append a xs), sym (append_assoc a xs b)) (drop-append (a ++ xs) b) in
      rw (e, e', fits, take-append a (xs ++ b), behind) refl

  pub fill-ok :
      (room : ℕ) (out xs : List A)
      → length out + length xs ≤ room
      → fill room out xs ≡ ok (out ++ xs)
  unfolding fill
  fill-ok room out xs h =
      let fits : leb (length out + length xs) room ≡ true = ground arith in rw fits refl
