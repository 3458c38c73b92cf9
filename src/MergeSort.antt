-- ===== src/MergeSort.antt =====
-- src/mergesort/mergesort.c: the sort of a segment of an array by merging, through a buffer that may
-- be refused. Indices into the array are natural; only the last index may be -1.
pub mod Merged
pub mod Blocks
pub mod Laws
pub mod Stable
pub mod Sort
mod Tests
use c2x_examples.Base.{
  ℕ, zero, suc, ◌+◌, ◌-◌, ◌/◌, Bool, true, false, Option, none, some, List, [], ◌∷◌, ◌++◌, ℤ, pos,
  negsuc, is_pos, ◌==◌, ltb, leb, ◌&&◌, length, take, if◌then◌else◌,
}
use c2x_examples.Memory.{Memory, malloc, free}
use c2x_examples.Run.{Run, ok, fault, out_of_fuel, ◌>>=◌}
use c2x_examples.Array.{load}

abbrev pub drop : {A : Type 0} → ℕ → List A → List A
drop zero xs = xs
drop (suc n) [] = []
drop (suc n) (x ∷ xs) = drop n xs

module _ {A : Type 0} where
  -- `memcpy` of `n` entries from `a + from`.
  unfoldable pub read_block : List A → (from n : ℕ) → Run (List A)
  read_block a from n = if leb (from + n) (length a) then ok (take n (drop from a)) else fault

  -- `memcpy` of entries to `a + to`.
  pub write_block : List A → (to : ℕ) → List A → Run (List A)
  write_block a to xs =
      if leb (to + length xs) (length a)
      then ok (take to a ++ (xs ++ drop (to + length xs) a))
      else fault

  -- `memcpy` of entries to the buffer `m_ptr` of `room` entries, behind the `m_` written so far.
  pub fill : (room : ℕ) → (m_ptr : List A) → List A → Run (List A)
  fill room m_ptr xs = if leb (length m_ptr + length xs) room then ok (m_ptr ++ xs) else fault

  -- What follows the loop: one of the two runs is left.
  pub fill_rest : (room : ℕ) → (arr : List A) → (z k i_ z_ : ℕ) → (m_ptr : List A) → Run (List A)
  fill_rest room arr z k i_ z_ m_ptr =
      let left = read_block arr i_ ((z - i_) + 1) >>= fill room m_ptr in
      let right = read_block arr z_ ((k - z_) + 1) >>= fill room m_ptr in
      if leb i_ z then left else if leb z_ k then right else ok m_ptr

module _ {A : Type 0} (cmp : A → A → ℤ) where
  -- The loop of `merge`.
  pub merge_loop :
      (fuel room : ℕ) → (arr : List A) → (z k i_ z_ : ℕ) → (m_ptr : List A) → Run (List A)
  merge_loop zero room arr z k i_ z_ m_ptr = out_of_fuel
  merge_loop (suc fuel) room arr z k i_ z_ m_ptr =
      let take_left : A → Run (List A) =
        λ x. fill room m_ptr (x ∷ []) >>= merge_loop fuel room arr z k (i_ + 1) z_ in
      let take_right : A → Run (List A) =
        λ y. fill room m_ptr (y ∷ []) >>= merge_loop fuel room arr z k i_ (z_ + 1) in
      let round : Run (List A) = do
        x ← load arr i_
        y ← load arr z_
        if is_pos (cmp x y) then take_right y else take_left x
      in if leb i_ z && leb z_ k then round else fill_rest room arr z k i_ z_ m_ptr

  -- What `merge` does once it has a buffer.
  pub merge_into : (arr : List A) → (i z k : ℕ) → Run (List A)
  merge_into arr i z k =
      let room = (k - i) + 1 in
      do
        m_ptr ← merge_loop (room + 1) room arr z k i (z + 1) []
        block ← read_block m_ptr 0 room
        write_block arr i block

  pub merge : (arr : List A) → (i z k : ℕ) → Memory → Run ((Bool × List A) × Memory)
  merge arr i z k m =
      let got = malloc m in
      let done = merge_into arr i z k >>= λ b. ok ((true, b), (free got.1).1) in
      if ltb z i then ok ((false, arr), m) else if got.0 then done else ok ((false, arr), got.1)

  abbrev pub on_success :
      (Bool × List A) × Memory
      → (List A → Memory → Run ((Bool × List A) × Memory))
      → Run ((Bool × List A) × Memory)
  on_success ((true, arr), m) next = next arr m
  on_success ((false, arr), m) next = ok ((false, arr), m)

  -- `merge_sort_ex` from `i` to a last index that is not negative.
  pub sort_between :
      (fuel : ℕ) → (arr : List A) → (i k : ℕ) → Memory → Run ((Bool × List A) × Memory)
  sort_between zero arr i k m = out_of_fuel
  sort_between (suc fuel) arr i k m =
      let z = i + (k - i) / 2 in
      let halves = do
        r ← sort_between fuel arr i z m
        on_success r λ arr' m'. sort_between fuel arr' (z + 1) k m' >>= λ r'.
            on_success r' λ arr'' m''. merge arr'' i z k m''
      in if ltb i k then halves else ok ((true, arr), m)

-- `esize` is not 0 where the array has elements; `data` is none for the null pointer.
pub merge_sort_ex :
    {A : Type 0}
    → Option (List A)
    → (esize i : ℕ) → (k : ℤ) → Option (A → A → ℤ)
    → Memory
    → Run ((Bool × Option (List A)) × Memory)
merge_sort_ex none esize i k cmp m = ok ((false, none), m)
merge_sort_ex (some arr) esize i k none m = ok ((false, some arr), m)
merge_sort_ex (some arr) esize i (negsuc k) (some cmp) m =
    ok ((if esize == 0 then false else true, some arr), m)
merge_sort_ex (some arr) esize i (pos k) (some cmp) m =
    let sorted = sort_between cmp (suc k) arr i k m >>= λ r. ok ((r.0.0, some r.0.1), r.1) in
    if esize == 0 then ok ((false, some arr), m) else sorted
