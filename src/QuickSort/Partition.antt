-- ===== src/QuickSort/Partition.antt =====
-- src/quicksort/quicksort.c, continued: `partition` and `quick_sort`, for a first index that is not
-- negative. The results of `rand` are a parameter, by the number of the call. The scans
-- take the source's `i` plus one, which is the first index they read, and its `k`, one above theirs.
pub mod Split
pub mod Laws
mod Tests
use c2x_examples.Base.{
  ℕ, zero, suc, ◌+◌, ◌-◌, ◌%◌, Bool, true, false, Option, none, some, List, ℤ, pos, negsuc, is_pos,
  is_neg, ◌==◌, ltb, leb, not, ◌||◌, length, if◌then◌else◌,
}
use c2x_examples.Memory.{Memory, malloc, free}
use c2x_examples.Run.{Run, ok, fault, out_of_fuel, ◌>>=◌}
use c2x_examples.Array.{load, exchange}

-- The allocator, and the number of the next call of `rand`.
pub record World : Type 0 where
  pub memory : Memory
  pub draws : ℕ

module _ {A : Type 0} (cmp : A → A → ℤ) where
  -- `do { k--; } while (compare(&arr[k * esize], p_val) > 0);`
  pub down_scan : (p_val : A) → List A → (k : ℕ) → Run ℕ
  down_scan p_val arr zero = fault
  down_scan p_val arr (suc k) = do
    x ← load arr k
    let further = down_scan p_val arr k
    if is_pos (cmp x p_val) then further else ok k

  -- `do { i++; } while (compare(&arr[i * esize], p_val) < 0);`
  pub up_scan : (fuel : ℕ) → (p_val : A) → List A → (i : ℕ) → Run ℕ
  up_scan zero p_val arr i = out_of_fuel
  up_scan (suc fuel) p_val arr i = do
    x ← load arr i
    let further = up_scan fuel p_val arr (i + 1)
    if is_neg (cmp x p_val) then further else ok i

  -- The loop of `partition`, which gives the last `k` and the array.
  pub partition_loop : (fuel : ℕ) → (p_val : A) → List A → (i k : ℕ) → Run (ℕ × List A)
  partition_loop zero p_val arr i k = out_of_fuel
  partition_loop (suc fuel) p_val arr i k = do
    k' ← down_scan p_val arr k
    i' ← up_scan (suc (length arr)) p_val arr i
    let onward = exchange arr i' k' >>= λ b. partition_loop fuel p_val b (i' + 1) k'
    if leb k' i' then ok (k', arr) else onward

  module _ (rand : ℕ → ℕ) where
    -- `partition` from `i` to `k`, which is not below `i`, once it has both of its blocks.
    pub partition_with : List A → (i k : ℕ) → World → Run ((Option ℕ × List A) × World)
    partition_with arr i k w = do
      p_val ← load arr (rand w.draws % ((k - i) + 1) + i)
      r ← partition_loop (suc (length arr)) p_val arr i (k + 1)
      ok ((some r.0, r.1), record { memory = (free (free w.memory).1).1; draws = w.draws + 1 })

    -- none is the result -1.
    pub partition : List A → (i k : ℕ) → World → Run ((Option ℕ × List A) × World)
    partition arr i k w =
        let p_val = malloc w.memory in
        let temp = malloc p_val.1 in
        let split = partition_with arr i k (record w { memory = temp.1 }) in
        if not p_val.0
        then ok ((none, arr), record w { memory = p_val.1 })
        else if temp.0
        then split
        else ok ((none, arr), record w { memory = (free temp.1).1 })

    abbrev pub on_success :
        (Bool × List A) × World
        → (List A → World → Run ((Bool × List A) × World))
        → Run ((Bool × List A) × World)
    on_success ((true, arr), w) next = next arr w
    on_success ((false, arr), w) next = ok ((false, arr), w)

    abbrev pub after_partition :
        (Option ℕ × List A) × World
        → (ℕ → List A → World → Run ((Bool × List A) × World))
        → Run ((Bool × List A) × World)
    after_partition ((none, arr), w) next = ok ((false, arr), w)
    after_partition ((some j, arr), w) next = next j arr w

    -- The loop of `quick_sort`, from `i` to a last index that is not negative, with the call on the
    -- left part, which starts with the test `i > k`.
    pub quick_loop : (fuel : ℕ) → List A → (i k : ℕ) → World → Run ((Bool × List A) × World)
    quick_loop zero arr i k w = out_of_fuel
    quick_loop (suc fuel) arr i k w =
        let round = do
          p ← partition arr i k w
          after_partition p λ j arr' w'.
              let left = quick_loop fuel arr' i j w' in
              (if ltb j i then ok ((false, arr'), w') else left) >>= λ r.
              on_success r λ arr'' w''. quick_loop fuel arr'' (j + 1) k w''
        in if ltb i k then round else ok ((true, arr), w)

    -- `data` is none for the null pointer; `size` and `esize` are only compared with 0.
    pub quick_sort :
        (fuel : ℕ)
        → Option (List A)
        → (size esize i : ℕ) → (k : ℤ) → World
        → Run ((Bool × Option (List A)) × World)
    quick_sort fuel none size esize i k w = ok ((false, none), w)
    quick_sort fuel (some arr) size esize i (negsuc k) w = ok ((false, some arr), w)
    quick_sort fuel (some arr) size esize i (pos k) w =
        let sorted = quick_loop fuel arr i k w >>= λ r. ok ((r.0.0, some r.0.1), r.1) in
        if (size == 0) || (esize == 0) || ltb k i then ok ((false, some arr), w) else sorted
