-- ===== src/BinarySearch/Laws/Tests.antt =====
-- src/binary_search/bsearch.c on an array of numbers.
use c2x_examples.Base.{
  ℕ, zero, suc, ◌<◌, ◌≡◌, ◌⊎◌, refl, some, none, List, [], ◌∷◌, ℤ, pos, negsuc, is_neg, ◌==◌, ltb,
  if◌then◌else◌, arith, inl, inr, ap, true≢false,
}
use c2x_examples.Run.{ok, Returns}
use c2x_examples.Array.{load, get_or}
use c2x_examples.BinarySearch.{bin_search, search_loop, resume}
use c2x_examples.BinarySearch.Laws.{Found, bin_search-Found}

abbrev by_size : ℕ → ℕ → ℤ
by_size a b = if ltb a b then negsuc 0 else if a == b then pos 0 else pos 1

abbrev two : List ℕ
two = 2 ∷ 5 ∷ []

hit : bin_search by_size 7 (1 ∷ 2 ∷ 5 ∷ 7 ∷ 9 ∷ []) ≡ ok (some 3)
unfolding bin_search search_loop resume load
hit = refl

miss : bin_search by_size 6 (1 ∷ 2 ∷ 5 ∷ 7 ∷ 9 ∷ []) ≡ ok none
unfolding bin_search search_loop resume load
miss = refl

signs :
    (i : ℕ)
    → i < 2
    → (by_size (get_or two i 0) 5 ≡ negsuc 0)
      ⊎ ((by_size (get_or two i 0) 5 ≡ pos 0) ⊎ (by_size (get_or two i 0) 5 ≡ pos 1))
unfolding get_or
signs zero h = inl refl
signs (suc zero) h = inr (inl refl)
signs (suc (suc i)) h = absurd (omega arith)

rises :
    (i j : ℕ)
    → i < j
    → j < 2
    → by_size (get_or two j 0) 5 ≡ negsuc 0
    → by_size (get_or two i 0) 5 ≡ negsuc 0
unfolding get_or
rises zero j h h' e = refl
rises (suc i) j h h' e = absurd (omega arith)

stays :
    (i j : ℕ)
    → i < j
    → j < 2
    → by_size (get_or two i 0) 5 ≡ pos 1
    → by_size (get_or two j 0) 5 ≡ pos 1
unfolding get_or
stays zero j h h' e = absurd (true≢false (ap is_neg e))
stays (suc i) j h h' e = absurd (omega arith)

bin_search-Found_example : Returns (Found 0 by_size 5 two) (bin_search by_size 5 two)
bin_search-Found_example =
    bin_search-Found 0 by_size 5 two (omega arith)
      (record { signs = signs; rises = rises; stays = stays })
