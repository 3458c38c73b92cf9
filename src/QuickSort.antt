-- ===== src/QuickSort.antt =====
-- src/quicksort/quicksort.c: `insertion_sort`. Its loops run down to 0 and up to the count, so they
-- need no fuel.
pub mod Place
pub mod Insertion
pub mod Partition
use c2x_examples.Base.{
  ℕ, zero, suc, ◌+◌, ◌-◌, Bool, true, false, List, ℤ, is_pos, ltb, length, set, if◌then◌else◌,
}
use c2x_examples.Memory.{Memory, malloc, free}
use c2x_examples.Run.{Run, ok, fault, ◌>>=◌}
use c2x_examples.Array.{load}

-- `a[i] = x`
pub store : {A : Type 0} → List A → ℕ → A → Run (List A)
store a i x = if ltb i (length a) then ok (set a i x) else fault

module _ {A : Type 0} (cmp : A → A → ℤ) where
  -- The inner loop from `j`, and the write of `temp` after it.
  pub shift_loop : (temp : A) → List A → (j : ℕ) → Run (List A)
  shift_loop temp arr zero = store arr zero temp
  shift_loop temp arr (suc j) = do
    y ← load arr j
    let shifted = store arr (suc j) y >>= λ b. shift_loop temp b j
    if is_pos (cmp y temp) then shifted else store arr (suc j) temp

  -- `rounds` of the outer loop from `i`.
  pub insert_loop : (rounds i : ℕ) → List A → Run (List A)
  insert_loop zero i arr = ok arr
  insert_loop (suc rounds) i arr = do
    temp ← load arr i
    b ← shift_loop temp arr i
    insert_loop rounds (i + 1) b

  pub insertion_sort : List A → Memory → Run (List A × Memory)
  insertion_sort base m =
      let got = malloc m in
      let sorted = insert_loop (length base - 1) 1 base >>= λ b. ok (b, (free got.1).1) in
      if got.0 then sorted else ok (base, got.1)
