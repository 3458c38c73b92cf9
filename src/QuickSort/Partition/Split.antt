-- ===== src/QuickSort/Partition/Split.antt =====
-- `partition` of src/quicksort/quicksort.c splits a range of the array at an entry of it.
use mathlib.Core.List.{Perm}
use mathlib.Core.List.Perm
use c2x_examples.Base.{
  ℕ, zero, suc, ◌+◌, ◌≡◌, ◌≤◌, ◌<◌, true, false, List, ℤ, is_pos, is_neg, ◌==◌, leb, ltb, length,
  arith, Bool-cases, inl, inr,
}
use c2x_examples.Run.{Returns, value, bind, weaken}
use c2x_examples.Array.{load-ok, get_or, swap, exchange-ok, get_or-swap, swap-perm, length-swap}
use c2x_examples.QuickSort.Partition.{down_scan, up_scan, partition_loop}

module _ {A : Type 0} (cmp : A → A → ℤ) (d p : A) where
  -- Entry `a` is at most the pivot, at least it.
  abbrev pub Low : List A → ℕ → Type 0
  Low arr a = is_pos (cmp (get_or arr a d) p) ≡ false

  abbrev pub High : List A → ℕ → Type 0
  High arr a = is_neg (cmp (get_or arr a d) p) ≡ false

  over : (z : ℤ) → is_pos z ≡ true → is_neg z ≡ false
  over z e = ground arith

  under : (z : ℤ) → is_neg z ≡ true → is_pos z ≡ false
  under z e = ground arith

  down_scan-stops :
      (arr : List A) (k lo : ℕ)
      → lo < k
      → k ≤ length arr
      → Low arr lo
      → Returns
          (λ r. (lo ≤ r) × (r < k) × Low arr r × ((a : ℕ) → r < a → a < k → High arr a))
          (down_scan cmp p arr k)
  unfolding down_scan
  down_scan-stops arr zero lo h fits low = absurd (omega arith)
  down_scan-stops arr (suc k) lo h fits low =
      rw (load-ok d arr k (omega arith)) (elim (Bool-cases (is_pos (cmp (get_or arr k d) p))) [
        | inr e ↦ rw e (value (omega arith, omega arith, e, λ a q r. absurd (omega arith)))
        | inl e ↦ rw e (
            weaken
              (down_scan-stops arr k lo
                (elim (Bool-cases (lo == k)) [
                  | inl here ↦ let same : lo ≡ k = ground arith in absurd cc
                  | inr ne ↦ ground arith
                ])
                (omega arith) low)
              λ r (q, s, t, high). (
                q,
                omega arith,
                t,
                λ a u v. elim (Bool-cases (a == k)) [
                  | inl here ↦ let same : a ≡ k = ground arith in rw same (over _ e)
                  | inr ne ↦ high a u (ground arith)
                ],
              ))
      ])

  up_scan-stops :
      (fuel : ℕ) (arr : List A) (i hi : ℕ)
      → i ≤ hi
      → hi < length arr
      → hi < i + fuel
      → High arr hi
      → Returns
          (λ r. (i ≤ r) × (r ≤ hi) × High arr r × ((a : ℕ) → i ≤ a → a < r → Low arr a))
          (up_scan cmp fuel p arr i)
  unfolding up_scan
  up_scan-stops zero arr i hi h fits enough high = absurd (omega arith)
  up_scan-stops (suc fuel) arr i hi h fits enough high =
      rw (load-ok d arr i (omega arith)) (elim (Bool-cases (is_neg (cmp (get_or arr i d) p))) [
        | inr e ↦ rw e (value (omega arith, omega arith, e, λ a q r. absurd (omega arith)))
        | inl e ↦ rw e (
            weaken
              (up_scan-stops fuel arr (i + 1) hi
                (elim (Bool-cases (i == hi)) [
                  | inl here ↦ let same : i ≡ hi = ground arith in absurd cc
                  | inr ne ↦ ground arith
                ])
                fits (omega arith) high)
              λ r (q, s, t, low). (
                omega arith,
                s,
                t,
                λ a u v. elim (Bool-cases (a == i)) [
                  | inl here ↦ let same : a ≡ i = ground arith in rw same (under _ e)
                  | inr ne ↦ low a (ground arith) v
                ],
              ))
      ])

  -- The entries from `first` on that the scans have passed.
  abbrev pub Passed : (first last : ℕ) → List A → (i k : ℕ) → Type 0
  Passed first last arr i k =
      ((a : ℕ) → first ≤ a → a < i → Low arr a) × ((a : ℕ) → k ≤ a → a ≤ last → High arr a)

  -- The array is rearranged, with low entries up to `r.0` and high ones behind it.
  abbrev pub Split : (first last : ℕ) → List A → ℕ × List A → Type 0
  Split first last arr r =
      (first ≤ r.0)
      × (r.0 ≤ last)
      × Perm r.1 arr
      × ((a : ℕ) → first ≤ a → a ≤ r.0 → Low r.1 a)
      × ((a : ℕ) → r.0 < a → a ≤ last → High r.1 a)

  pub partition_loop-Split :
      (fuel first last : ℕ) (arr : List A) (i k lo hi : ℕ)
      → first ≤ lo
      → first ≤ i
      → lo < k
      → k ≤ last + 1
      → last < length arr
      → Low arr lo
      → i ≤ hi
      → hi ≤ last
      → High arr hi
      → k < fuel
      → Passed first last arr i k
      → Returns (Split first last arr) (partition_loop cmp fuel p arr i k)
  unfolding partition_loop
  partition_loop-Split zero first last arr i k lo hi b b' lt top fits low le le' high enough v =
      absurd (omega arith)
  partition_loop-Split (suc fuel) first last arr i k lo hi b b' lt top fits low le le' high enough
        (lows, highs) =
      bind (down_scan-stops arr k lo lt (omega arith) low) λ k' (q, s, low', above).
        bind (up_scan-stops (suc (length arr)) arr i hi le (omega arith) (omega arith) high)
          λ i' (q', s', high', below). elim (Bool-cases (leb k' i')) [
            | inl done ↦ rw done (
                value (
                  omega arith,
                  omega arith,
                  Perm.refl arr,
                  (λ a u w. elim (Bool-cases (ltb a i)) [
                    | inl x ↦ lows a u (ground arith)
                    | inr x ↦ elim (Bool-cases (a == i')) [
                      | inl y ↦ let same : a ≡ k' = ground arith in rw same low'
                      | inr y ↦ below a (ground arith) (ground arith)
                    ]
                  ]),
                  λ a u w. elim (Bool-cases (ltb a k)) [
                    | inl x ↦ above a u (ground arith)
                    | inr x ↦ highs a (ground arith) w
                  ],
                ))
            | inr on ↦
                let left : i' < length arr = ground arith in
                let right : k' < length arr = omega arith in
                let apart : i' < k' = ground arith in
                let b = swap d arr i' k' in
                let at = get_or-swap d arr i' k' left right in
                rw (on, exchange-ok d arr i' k' left right)
                  (weaken
                    (partition_loop-Split fuel first last b (i' + 1) k' i' k' (omega arith)
                      (omega arith) apart (omega arith) (rw (length-swap d arr i' k') fits)
                      (rw (at i') (ground arith)) (omega arith) (omega arith)
                      (rw (at k') (ground arith)) (omega arith)
                      (
                        (λ a u w. rw (at a) (ground (arith, lows a u, below a))),
                        λ a u w. rw (at a) (ground (arith, highs a, above a)),
                      ))
                    λ r (x, y, same, z, z').
                      (x, y, Perm.trans same (swap-perm d arr i' k' left right), z, z'))
          ]
