-- ===== src/Set/Algebra/Concat.antt =====
-- `set_concat`.
use c2x_examples.Base.{
  ℕ, ◌+◌, ◌≤◌, ◌<◌, ◌^◌, refl, true, ◌||◌, some, List, [], ◌∷◌, length, ◌==◌, arith, sym, ap,
  Bool-cases, inl, inr,
}
use c2x_examples.Memory.{Memory}
use c2x_examples.Set.{Set, SetNode, contains}
use c2x_examples.Set.Algebra.{concat_loop, set_concat}
use c2x_examples.Set.Chain.{IsEquality, IsChain, IsValid, Sized}
use c2x_examples.Set.Outcome.{
  with_chain, Outcome, done, short, after, stop, relabel, with_chain_self, contains_empty,
}
use mathlib.Core.Path.{subst}
use c2x_examples.Set.Insert.{set_insert-Outcome}

module _ (s : Set) (eq : IsEquality s.compare) (bound : ℕ) (small : bound < 2 ^ 64) where
  pub concat_loop-Outcome :
      (l nodes : List SetNode) (m : Memory)
      → IsChain s.compare l
      → Sized nodes
      → length l + length nodes ≤ bound
      → Outcome s
          (λ x. contains s.compare l x || contains s.compare nodes x)
          bound
          l
          m
          (concat_loop (some (with_chain s l)) nodes m)
  unfolding concat_loop contains
  concat_loop-Outcome l [] m chain sized fits =
      done l refl
        (record {
          chain = chain;
          bounded = omega arith;
          balance = refl;
          grants = refl;
          reads = refl;
        })
        (λ x. ground arith)
  concat_loop-Outcome l (n ∷ nodes) m chain (pos, whole, sized) fits =
      elim (set_insert-Outcome (with_chain s l) n.content n.bytes m eq chain refl (omega arith) pos
        whole) [
          | done l1 e a mem ↦ rw e (
              after a (
                relabel (λ x. ground (arith, mem x))
                  (concat_loop-Outcome l1 nodes _ a.chain sized (omega (arith, a.bounded)))))
          | short l1 e a no_room ↦ rw e (stop _ (omega arith) a no_room refl)
        ]

-- `set_concat` of two valid sets over the same comparison, from any memory: the first set becomes
-- the union, or a request was refused and the first set is a good chain that holds what was added
-- until then. Nothing is leaked.
pub set_concat-Outcome :
    (s from : Set) (m : Memory)
    → IsEquality s.compare
    → IsValid s
    → IsValid from
    → length s.top + length from.top < 2 ^ 64
    → Outcome s
        (λ x. contains s.compare s.top x || contains s.compare from.top x)
        (length s.top + length from.top)
        s.top
        m
        (set_concat (some s) (some from) m)
unfolding set_concat
set_concat-Outcome s from m eq v w fits = elim (Bool-cases (from.count == 0)) [
  | inl e ↦ rw e (
      done s.top (ap (λ t. (true, some t)) (sym (with_chain_self s v.counted)))
        (record {
          chain = v.chain;
          bounded = omega arith;
          balance = refl;
          grants = refl;
          reads = refl;
        })
        (λ x. ground (arith, contains_empty s.compare from.top x)))
  | inr e ↦ rw e (
      subst
        (λ t.
          Outcome s (λ x. contains s.compare s.top x || contains s.compare from.top x)
            (length s.top + length from.top) s.top m (concat_loop (some t) from.top m))
        (with_chain_self s v.counted)
        (concat_loop-Outcome s eq (length s.top + length from.top) fits s.top from.top m v.chain
          w.chain.sized (omega arith)))
]
