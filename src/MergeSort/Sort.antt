-- ===== src/MergeSort/Sort.antt =====
-- `merge_sort_ex` of src/mergesort/mergesort.c sorts, and is stable.
use mathlib.Core.Path.{subst}
use mathlib.Core.List.{append_assoc}
use c2x_examples.Base.{
  ℕ, zero, suc, ◌+◌, ◌-◌, ◌/◌, ◌≡◌, ◌≤◌, ◌<◌, refl, sym, ap, ◌∙◌, Bool, true, false, true≢false,
  Option, some, List, [], ◌∷◌, ◌++◌, ℤ, pos, negsuc, ltb, ◌==◌, length, length-append, arith,
  Bool-cases, inl, inr,
}
use c2x_examples.Memory.{Memory, AlwaysGrants}
use c2x_examples.Run.{Run, ◌>>=◌, Returns, value, bind, weaken}
use c2x_examples.Array.{length-perm}
use c2x_examples.Heap.Order.{IsOrder}
use c2x_examples.MergeSort.{merge, on_success, sort_between, merge_sort_ex}
use c2x_examples.MergeSort.Merged.{Ascends, Merged-Ascends}
use c2x_examples.MergeSort.Stable.{
  Rearranged, Rearranged-self, Rearranged-trans, Rearranged-append, Merged-Rearranged,
}
use c2x_examples.MergeSort.Laws.{merge_into-Merged}

-- a list cut in two
cut :
    {A : Type 0} (n : ℕ) (xs : List A)
    → n ≤ length xs
    → (u : List A) × (v : List A) × (xs ≡ u ++ v) × (length u ≡ n)
cut zero xs h = ([], xs, refl, refl)
cut (suc n) [] h = absurd (omega (arith, h))
cut (suc n) (x ∷ xs) h =
    let (u, v, e, size) = cut n xs (omega (arith, h)) in (x ∷ u, v, ap (◌∷◌ x) e, ap suc size)

module _ {A : Type 0} (cmp : A → A → ℤ) where
  abbrev pub Verdict : Bool → List A → Memory → Type 0
  Verdict true ys m = Ascends cmp ys
  Verdict false ys m = ¬ AlwaysGrants m

  -- What a sort of the segment xs between a and b leaves: a stable rearrangement, which ascends where
  -- it succeeds, while it fails only where memory is refused. Its buffers are freed.
  abbrev pub Outcome : (a xs b : List A) → Memory → (Bool × List A) × Memory → Type 0
  Outcome a xs b m r =
      (ys : List A) × (r.0.1 ≡ a ++ (ys ++ b))
      × Rearranged cmp ys xs
      × (r.1.grant ≡ m.grant)
      × (r.1.live ≡ m.live)
      × Verdict r.0.0 ys m

  module _ (order : IsOrder cmp) where
    merge-Outcome :
        (a xs ys b : List A) (i z k : ℕ) (m : Memory)
        → i ≡ length a
        → suc z ≡ length a + length xs
        → suc k ≡ length a + length xs + length ys
        → i ≤ z
        → z ≤ k
        → Ascends cmp xs
        → Ascends cmp ys
        → Returns (Outcome a (xs ++ ys) b m) (merge cmp (a ++ ((xs ++ ys) ++ b)) i z k m)
    unfolding merge
    merge-Outcome a xs ys b i z k m hi hz hk h h' up up' =
        let first : ltb z i ≡ false = ground arith in
        elim (Bool-cases (m.grant m.calls)) [
          | inl got ↦
              rw (first, got, append_assoc xs ys b)
                (bind (merge_into-Merged cmp a xs ys b i z k hi hz hk (omega arith))
                  λ arr (zs, e, merged). value (
                    zs,
                    e,
                    Merged-Rearranged cmp order merged up up',
                    refl,
                    omega arith,
                    Merged-Ascends cmp order merged up up',
                  ))
          | inr refused ↦
              rw (first, refused)
                (value (
                  xs ++ ys,
                  refl,
                  Rearranged-self cmp (xs ++ ys),
                  refl,
                  refl,
                  λ all. true≢false (sym (all m.calls) ∙ refused),
                ))
        ]

  -- what follows a sort of a segment
  after :
      (a xs b : List A) (m : Memory) (c : Run ((Bool × List A) × Memory))
      (next : List A → Memory → Run ((Bool × List A) × Memory))
      {Q : (Bool × List A) × Memory → Type 0}
      → Returns (Outcome a xs b m) c
      → ((ys : List A) (m' : Memory)
          → Rearranged cmp ys xs
          → m'.grant ≡ m.grant
          → m'.live ≡ m.live
          → Ascends cmp ys
          → Returns Q (next (a ++ (ys ++ b)) m'))
      → ((ys : List A) (m' : Memory)
          → Rearranged cmp ys xs
          → m'.grant ≡ m.grant
          → m'.live ≡ m.live
          → ¬ AlwaysGrants m
          → Q ((false, a ++ (ys ++ b)), m'))
      → Returns Q (c >>= λ r. on_success cmp r next)
  after a xs b m c next {Q} ran good bad = bind ran onward
    where
      onward :
          (r : (Bool × List A) × Memory) → Outcome a xs b m r → Returns Q (on_success cmp r next)
      onward ((true, arr), m') (ys, e, same, grant, live, up) = rw e (good ys m' same grant live up)
      onward ((false, arr), m') (ys, e, same, grant, live, short) =
          rw e (value (bad ys m' same grant live short))

  one-Ascends : (xs : List A) → length xs ≡ 1 → Ascends cmp xs
  one-Ascends [] e = absurd (omega (arith, e))
  one-Ascends (x ∷ []) e = (tt, tt)
  one-Ascends (x ∷ y ∷ xs) e = absurd (omega (arith, e))

  granted_alike : (m m' : Memory) → m'.grant ≡ m.grant → ¬ AlwaysGrants m' → ¬ AlwaysGrants m
  granted_alike m m' e short all = short (λ n. ap (λ g. g n) e ∙ all n)

  Verdict-at :
      (flag : Bool) (ys : List A) (m m' : Memory)
      → m'.grant ≡ m.grant
      → Verdict flag ys m'
      → Verdict flag ys m
  Verdict-at true ys m m' e v = v
  Verdict-at false ys m m' e v = granted_alike m m' e v

  module _ (order : IsOrder cmp) where
    -- the second half and the merge, after the first half
    second_half :
        (a u v b : List A) (i z k : ℕ) (m m' : Memory) (ys : List A)
        (c : Run ((Bool × List A) × Memory))
        → i ≡ length a
        → suc z ≡ length a + length u
        → suc k ≡ length a + length u + length v
        → i ≤ z
        → z ≤ k
        → Rearranged cmp ys u
        → m'.grant ≡ m.grant
        → m'.live ≡ m.live
        → Ascends cmp ys
        → Returns (Outcome (a ++ ys) v b m') c
        → Returns
            (Outcome a (u ++ v) b m)
            (c >>= λ r. on_success cmp r λ arr m''. merge cmp arr i z k m'')
    second_half a u v b i z k m m' ys c hi hz hk h h' same grant live up ran =
        let size = length-perm same.0 in
        let regroup : (l : List A) → (a ++ ys) ++ (l ++ b) ≡ a ++ ((ys ++ l) ++ b) =
          λ l. append_assoc a ys (l ++ b) ∙ ap (λ t. a ++ t) (sym (append_assoc ys l b)) in
        after (a ++ ys) v b m' c (λ arr m''. merge cmp arr i z k m'') ran
          (λ zs m'' same' grant' live' up'.
            let size' = length-perm same'.0 in
            rw (regroup zs) (
              weaken
                (merge-Outcome order a ys zs b i z k m'' hi (omega (arith, size))
                  (omega (arith, size, size')) h h' up up')
                λ r (ws, e, all, grant'', live'', verdict). (
                  ws,
                  e,
                  Rearranged-trans cmp ws (ys ++ zs) (u ++ v) all
                      (Rearranged-append cmp ys u zs v same same'),
                  grant'' ∙ grant' ∙ grant,
                  live'' ∙ live' ∙ live,
                  Verdict-at r.0.0 ws m m'' (grant' ∙ grant) verdict,
                )))
          (λ zs m'' same' grant' live' short. (
            ys ++ zs,
            regroup zs,
            Rearranged-append cmp ys u zs v same same',
            grant' ∙ grant,
            live' ∙ live,
            granted_alike m m' grant short,
          ))

    sort_between-Outcome :
        (fuel : ℕ) (a xs b : List A) (i k : ℕ) (m : Memory)
        → i ≡ length a
        → suc k ≡ length a + length xs
        → i ≤ k
        → length xs ≤ fuel
        → Returns (Outcome a xs b m) (sort_between cmp fuel (a ++ (xs ++ b)) i k m)
    unfolding sort_between
    sort_between-Outcome zero a xs b i k m hi hk h enough = absurd (omega arith)
    sort_between-Outcome (suc fuel) a xs b i k m hi hk h enough = elim (Bool-cases (ltb i k)) [
      | inr last ↦
          rw last
            (value (xs, refl, Rearranged-self cmp xs, refl, refl, one-Ascends xs (ground arith)))
      | inl more ↦
          let z = i + (k - i) / 2 in
          let lt : i < k = ground arith in
          let (u, v, split, size) = cut (suc (z - i)) xs (omega arith) in
          let total : length xs ≡ length u + length v = ap length split ∙ length-append u v in
          let first =
            sort_between-Outcome fuel a u (v ++ b) i z m hi (omega arith) (omega arith)
              (omega arith) in
          let halves =
            after a u (v ++ b) m _ _ first
              (λ ys m' same grant live up.
                second_half a u v b i z k m m' ys _ hi (omega arith) (omega arith) (omega arith)
                  (omega arith) same grant live up
                  (subst
                    (λ arr.
                      Returns (Outcome (a ++ ys) v b m') (sort_between cmp fuel arr (z + 1) k m'))
                    (append_assoc a ys (v ++ b))
                    (sort_between-Outcome fuel (a ++ ys) v b (z + 1) k m'
                      (omega (arith, length-append a ys, length-perm same.0))
                      (omega (arith, length-append a ys, length-perm same.0)) (omega arith)
                      (omega arith))))
              (λ ys m' same grant live short. (
                ys ++ v,
                ap (λ t. a ++ t) (sym (append_assoc ys v b)),
                Rearranged-append cmp ys u v v same (Rearranged-self cmp v),
                grant,
                live,
                short,
              )) in
          rw (more, split, append_assoc u v b) halves
    ]

-- The index before n, which is -1 for 0.
abbrev pub last_index : ℕ → ℤ
last_index zero = negsuc 0
last_index (suc k) = pos k

module _ {A : Type 0} (cmp : A → A → ℤ) (order : IsOrder cmp) (a xs b : List A) where
  abbrev pub Sorts : Memory → (Bool × Option (List A)) × Memory → Type 0
  Sorts m r =
      (ys : List A) × (r.0.1 ≡ some (a ++ (ys ++ b)))
      × Rearranged cmp ys xs
      × (r.1.live ≡ m.live)
      × Verdict cmp r.0.0 ys m

  none-Ascends : (l : List A) → length l ≡ 0 → Ascends cmp l
  none-Ascends [] e = tt
  none-Ascends (x ∷ l) e = absurd (omega (arith, e))

  segment :
      (k : ℕ) (m : Memory)
      → suc k ≡ length a + length xs
      → Returns (Outcome cmp a xs b m) (sort_between cmp (suc k) (a ++ (xs ++ b)) (length a) k m)
  unfolding sort_between
  segment k m e = elim (Bool-cases (ltb k (length a))) [
    | inl past ↦
        let none_left : length xs ≡ 0 = ground arith in
        let stay : ltb (length a) k ≡ false = ground arith in
        rw stay (value (xs, refl, Rearranged-self cmp xs, refl, refl, none-Ascends xs none_left))
    | inr inside ↦
        sort_between-Outcome cmp order (suc k) a xs b (length a) k m refl e (ground arith)
          (omega arith)
  ]

  -- `merge_sort_ex` of a segment xs of an array, with a comparison that is an order, ends without an
  -- access out of range and with its buffers freed. It rearranges the segment so that equal entries
  -- keep their order, and nothing else; the segment ascends where it returns true, and it returns
  -- false only where memory is refused.
  pub merge_sort_ex-Sorts :
      (esize : ℕ) (m : Memory)
      → 0 < esize
      → Returns (Sorts m) (
          merge_sort_ex
            (some (a ++ (xs ++ b)))
            esize
            (length a)
            (last_index (length a + length xs))
            (some cmp)
            m)
  unfolding merge_sort_ex
  merge_sort_ex-Sorts esize m h = up_to (length a + length xs) refl
    where
      up_to :
          (n : ℕ)
          → n ≡ length a + length xs
          → Returns
              (Sorts m)
              (merge_sort_ex (some (a ++ (xs ++ b))) esize (length a) (last_index n) (some cmp) m)
      up_to zero e =
          let sized : (esize == 0) ≡ false = ground arith in
          rw sized
            (value (xs, refl, Rearranged-self cmp xs, refl, none-Ascends xs (omega (arith, e))))
      up_to (suc k) e =
          let sized : (esize == 0) ≡ false = ground arith in
          rw sized (
            bind (segment k m e)
              λ r (ys, e', same, grant, live, verdict). value (ys, ap some e', same, live, verdict))
