-- ===== src/BinarySearch.antt =====
-- src/binary_search/bsearch.c: binary search. The bound `r`, which falls to -1, is kept as `hi`, one
-- more than it. A sum of indices past the largest `int` is a fault, and so is such a size.
mod Laws
use c2x_examples.Base.{
  ℕ, zero, suc, ◌+◌, ◌-◌, ◌/◌, ◌^◌, Option, none, some, List, ℤ, pos, negsuc, ◌==◌, ltb, leb,
  length, if◌then◌else◌,
}
use c2x_examples.Run.{Run, ok, fault, out_of_fuel, ◌>>=◌}
use c2x_examples.Array.{load}

-- The number of values of an `int` that are not negative.
abbrev pub int_bound : ℕ
int_bound = 2 ^ 31

-- The `switch`: none is a hit, and any result but -1, 1 and 0 leaves the bounds as they are.
abbrev pub turn : ℤ → (m l hi : ℕ) → Option (ℕ × ℕ)
turn (pos zero) m l hi = none
turn (pos (suc n)) m l hi = if n == 0 then some (l, m) else some (l, hi)
turn (negsuc n) m l hi = if n == 0 then some (m + 1, hi) else some (l, hi)

-- The end of the round that has compared at `m`.
pub resume : Option (ℕ × ℕ) → ℕ → (ℕ → ℕ → Run (Option ℕ)) → Run (Option ℕ)
resume none m next = ok (some m)
resume (some (l, hi)) m next = next l hi

module _ {A : Type 0} (cmp : A → A → ℤ) (target : A) where
  pub search_loop : ℕ → List A → (l hi : ℕ) → Run (Option ℕ)
  search_loop zero sorted l hi = out_of_fuel
  search_loop (suc k) sorted l hi =
      let m = (l + (hi - 1)) / 2 in
      let round : Run (Option ℕ) =
        load sorted m >>= λ x. resume (turn (cmp x target) m l hi) m (search_loop k sorted) in
      if ltb l hi then (if leb int_bound (l + (hi - 1)) then fault else round) else ok none

  -- none is the result -1.
  pub bin_search : List A → Run (Option ℕ)
  bin_search sorted =
      if leb int_bound (length sorted)
      then fault
      else search_loop (suc (length sorted)) sorted 0 (length sorted)
