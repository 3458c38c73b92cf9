-- ===== src/Set/Algebra/Multiset.antt =====
-- `multiset_concat`.
use c2x_examples.Base.{
  ℕ, ◌+◌, ◌%◌, ◌≤◌, ◌<◌, ◌^◌, ◌≡◌, refl, Bool, true, false, Option, some, List, [], ◌∷◌, Bytes,
  length, ◌∙◌, arith, sym, ap, Bool-cases, inl, inr, ◌==◌, if◌then◌else◌,
}
use mathlib.Core.Path.{subst}
use c2x_examples.Memory.{Memory, AlwaysGrants}
use c2x_examples.Set.{Set, SetNode, Compare, same, contains, count_of}
use c2x_examples.Set.Algebra.{multiset_concat_loop, multiset_concat}
use c2x_examples.Set.Chain.{IsEquality, IsChain, IsValid, contains_congr}
use c2x_examples.Set.Outcome.{
  with_chain, with_chain_self, contains_empty, Accounted, Accounted-trans, AlwaysGrants-congr,
}
use c2x_examples.Set.Bump.{Counted, multiset_insert_many-Counted, count_of_missing}

-- Each count is a `size_t`.
abbrev pub SmallCounts : List SetNode → Type 0
SmallCounts [] = Unit
SmallCounts (n ∷ l) = (n.count < 2 ^ 64) × SmallCounts l

count_of_small :
    (c : Compare) (l : List SetNode) → SmallCounts l → (x : Bytes) → count_of c l x < 2 ^ 64
unfolding count_of
count_of_small c [] small x = omega arith
count_of_small c (n ∷ l) (count, small) x = ground (arith, count_of_small c l small x)

-- How adding a multiset to `s` ends, from the chain `k`; `f` gives the counts.
pub data Merged (s : Set) (f : Bytes → ℕ) (bound : ℕ) (k : List SetNode) (m : Memory)
    (r : (Bool × Option Set) × Memory) : Type 0 where
  done :
      (l : List SetNode)
      → r.0 ≡ (true, some (with_chain s l))
      → Accounted s.compare bound k m l r.1
      → ((x : Bytes) → count_of s.compare l x ≡ f x)
      → Merged s f bound k m r
  short :
      (l : List SetNode)
      → r.0 ≡ (false, some (with_chain s l))
      → Accounted s.compare bound k m l r.1
      → ¬ AlwaysGrants m
      → Merged s f bound k m r

module _ (s : Set) (eq : IsEquality s.compare) (bound : ℕ) (small : bound < 2 ^ 64) where
  extend :
      {f g : Bytes → ℕ} {n : ℕ} {k l : List SetNode} {m m1 : Memory}
      {r : (Bool × Option Set) × Memory}
      → ((x : Bytes) → f x ≡ g x)
      → Accounted s.compare n k m l m1
      → Merged s f bound l m1 r
      → Merged s g bound k m r
  extend counts a (done j e b mem) = done j e (Accounted-trans a b) (λ x. mem x ∙ counts x)
  extend {m} {m1} counts a (short j e b no_room) =
      short j e (Accounted-trans a b) (λ all. no_room (AlwaysGrants-congr m m1 a.grants all))

  step_counts :
      (l l1 nodes : List SetNode) (n : SetNode)
      → contains s.compare nodes n.content ≡ false
      → ((x : Bytes)
          → count_of s.compare l1 x ≡ (
              if same s.compare n.content x
              then (count_of s.compare l x + n.count) % 2 ^ 64
              else count_of s.compare l x))
      → (x : Bytes)
      → (count_of s.compare l1 x + count_of s.compare nodes x) % 2 ^ 64
        ≡ (count_of s.compare l x + count_of s.compare (n ∷ nodes) x) % 2 ^ 64
  unfolding count_of
  step_counts l l1 nodes n new counts x =
      ground
        (arith, counts x, count_of_missing s.compare nodes x, contains_congr eq nodes n.content x)

  pub multiset_concat_loop-Merged :
      (l nodes : List SetNode) (m : Memory)
      → IsChain s.compare l
      → ((x : Bytes) → count_of s.compare l x < 2 ^ 64)
      → IsChain s.compare nodes
      → SmallCounts nodes
      → length l + length nodes ≤ bound
      → Merged s
          (λ x. (count_of s.compare l x + count_of s.compare nodes x) % 2 ^ 64)
          bound
          l
          m
          (multiset_concat_loop (some (with_chain s l)) nodes m)
  unfolding multiset_concat_loop
  multiset_concat_loop-Merged l [] m chain low source counts fits =
      done l refl
        (record {
          chain = chain;
          bounded = omega arith;
          balance = refl;
          grants = refl;
          reads = refl;
        })
        (λ x. unfold count_of in omega (arith, low x))
  multiset_concat_loop-Merged l (n ∷ nodes) m chain low source (count, counts) fits =
      let (new, distinct) = source.distinct in
      let (pos, whole, sized) = source.sized in
      let rest : IsChain s.compare nodes = record { distinct = distinct; sized = sized } in
      elim (multiset_insert_many-Counted (with_chain s l) n.content n.bytes n.count m eq chain refl
        (omega arith) pos whole count) [
          | Counted.done l1 e a added ↦ rw e (
              extend (step_counts l l1 nodes n new added) a (
                multiset_concat_loop-Merged l1 nodes _ a.chain (λ x. ground (arith, added x, low x))
                  rest counts (omega (arith, a.bounded))))
          | Counted.short e live grants reads no_room ↦ rw e (
              short l refl
                (record {
                  chain = chain;
                  bounded = omega (arith, fits);
                  balance = omega (arith, live);
                  grants = grants;
                  reads = reads;
                })
                no_room)
        ]

-- `multiset_concat` of two valid multisets with the same comparison adds the counts of the second
-- to those of the first, modulo 2^64, or a request was refused and the first is a good chain that
-- holds what was added until then. Nothing is leaked and no copy reads past the end
-- of an object.
pub multiset_concat-Merged :
    (s from : Set) (m : Memory)
    → IsEquality s.compare
    → IsValid s
    → IsValid from
    → from.compare ≡ s.compare
    → SmallCounts s.top
    → SmallCounts from.top
    → length s.top + length from.top < 2 ^ 64
    → Merged s
        (λ x. (count_of s.compare s.top x + count_of s.compare from.top x) % 2 ^ 64)
        (length s.top + length from.top)
        s.top
        m
        (multiset_concat (some s) (some from) m)
unfolding multiset_concat
multiset_concat-Merged s from m eq v w e low counts fits =
    let rest = subst (λ c. IsChain c from.top) e w.chain in
    let low_s = count_of_small s.compare s.top low in
    elim (Bool-cases (from.count == 0)) [
      | inl none_there ↦ rw none_there (
          done s.top (ap (λ t. (true, some t)) (sym (with_chain_self s v.counted)))
            (record {
              chain = v.chain;
              bounded = omega arith;
              balance = refl;
              grants = refl;
              reads = refl;
            })
            (λ x.
              let absent = contains_empty s.compare from.top x (ground (arith, w.counted)) in
              omega (arith, low_s x, count_of_missing s.compare from.top x absent)))
      | inr some_there ↦ rw some_there (
          subst
            (λ t.
              Merged s (λ x. (count_of s.compare s.top x + count_of s.compare from.top x) % 2 ^ 64)
                (length s.top + length from.top) s.top m (multiset_concat_loop (some t) from.top m))
            (with_chain_self s v.counted)
            (multiset_concat_loop-Merged s eq (length s.top + length from.top) fits s.top from.top m
              v.chain low_s rest counts (omega arith)))
    ]
