-- ===== src/Heap/Swap.antt =====
-- `swap_e` of src/heap/heap.c: the exchange of two objects of `esize` bytes, in blocks of at most 256.
use c2x_examples.Base.{
  ℕ, zero, suc, ◌+◌, ◌-◌, ◌≡◌, ◌≤◌, ◌<◌, leb, refl, ap, true, [], ◌∷◌, ◌++◌, Bytes, ltb, length,
  take, if◌then◌else◌, arith, Bool-cases, inl, inr,
}
use c2x_examples.Run.{Run, ok, out_of_fuel, ◌>>=◌}
use c2x_examples.MergeSort.{drop, read_block}

-- The bytes at `a` and at `b` after the loop.
pub swap_e : ℕ → (a b : Bytes) → (esize : ℕ) → Run (Bytes × Bytes)
swap_e zero a b esize = out_of_fuel
swap_e (suc k) a b esize =
    let c = if ltb esize 256 then esize else 256 in
    let later = swap_e k (drop c a) (drop c b) (esize - c) in
    let round = do
      temp ← read_block a 0 c
      other ← read_block b 0 c
      rest ← later
      ok (other ++ rest.0, temp ++ rest.1)
    in if ltb 0 esize then round else ok (a, b)

take-drop : (n : ℕ) (a : Bytes) → take n a ++ drop n a ≡ a
take-drop zero a = refl
take-drop (suc n) [] = refl
take-drop (suc n) (x ∷ a) = ap (◌∷◌ x) (take-drop n a)

length-drop : (n : ℕ) (a : Bytes) → length (drop n a) ≡ length a - n
length-drop zero a = omega arith
length-drop (suc n) [] = omega arith
length-drop (suc n) (x ∷ a) = omega (arith, length-drop n a)

no_bytes : (a : Bytes) → length a ≡ 0 → a ≡ []
no_bytes [] h = refl
no_bytes (x ∷ a) h = absurd (omega (arith, h))

read_front : (a : Bytes) (c : ℕ) → c ≤ length a → read_block a 0 c ≡ ok (take c a)
unfolding read_block
read_front a c h = let inside : leb (0 + c) (length a) ≡ true = ground arith in rw inside refl

-- `swap_e` of two objects of `esize` bytes, given a round more than there are bytes, ends within both
-- and exchanges them.
pub swap_e-exchanges :
    (k : ℕ) (a b : Bytes) (esize : ℕ)
    → esize + 1 ≤ k
    → length a ≡ esize
    → length b ≡ esize
    → swap_e k a b esize ≡ ok (b, a)
unfolding swap_e
swap_e-exchanges zero a b esize h ha hb = absurd (omega arith)
swap_e-exchanges (suc k) a b esize h ha hb = elim (Bool-cases (ltb 0 esize)) [
  | inr done ↦ rw (done, no_bytes a (ground arith), no_bytes b (ground arith)) refl
  | inl more ↦
      let c = if ltb esize 256 then esize else 256 in
      let fits : c ≤ esize = ground arith in
      let some_bytes : 0 < c = ground arith in
      rw
        (
          more,
          read_front a c (omega arith),
          read_front b c (omega arith),
          swap_e-exchanges k (drop c a) (drop c b) (esize - c) (omega arith)
              (omega (arith, length-drop c a)) (omega (arith, length-drop c b)),
          take-drop c a,
          take-drop c b,
        )
        refl
]
