-- ===== src/Set/Algebra/Copy.antt =====
-- The copying loop of `set_union`, `set_intersection` and `set_difference`.
use c2x_examples.Base.{
  ℕ, ◌+◌, ◌≤◌, ◌<◌, ◌^◌, ◌≡◌, refl, Bool, true, false, ◌||◌, some, List, [], ◌∷◌, Bytes, length,
  ◌∙◌, arith, Bool-cases, inl, inr, ◌&&◌,
}
use c2x_examples.Memory.{Memory}
use c2x_examples.Set.{Set, SetNode, Compare, same, contains}
use c2x_examples.Set.Algebra.{copy_loop}
use c2x_examples.Set.Chain.{IsEquality, IsChain, contains_congr}
use c2x_examples.Set.Outcome.{with_chain, Outcome, done, short, after, stop, relabel}
use c2x_examples.Set.Insert.{set_insert_no_check-Outcome}

-- A test that does not tell apart what compares equal.
abbrev pub Respects : Compare → (Bytes → Bool) → Type 0
Respects c keep = (a b : Bytes) → same c a b ≡ true → keep a ≡ keep b

abbrev pub Apart : Compare → List SetNode → List SetNode → Type 0
Apart c l nodes = (x : Bytes) → contains c nodes x ≡ true → contains c l x ≡ false

module _ (s : Set) (eq : IsEquality s.compare) (bound : ℕ) (small : bound < 2 ^ 64)
    (keep : Bytes → Bool) (respects : Respects s.compare keep) where
  fresh_rest :
      (n : SetNode) (nodes l : List SetNode)
      → contains s.compare nodes n.content ≡ false
      → Apart s.compare l (n ∷ nodes)
      → (x : Bytes) → contains s.compare nodes x ≡ true
      → (same s.compare n.content x || contains s.compare l x) ≡ false
  unfolding contains
  fresh_rest n nodes l new apart x h = ground (arith, contains_congr eq nodes n.content x, apart x)

  pub copy_loop-Outcome :
      (l nodes : List SetNode) (m : Memory)
      → IsChain s.compare l
      → IsChain s.compare nodes
      → Apart s.compare l nodes
      → length l + length nodes ≤ bound
      → Outcome s
          (λ x. contains s.compare l x || (contains s.compare nodes x && keep x))
          bound
          l
          m
          (copy_loop keep (some (with_chain s l)) nodes m)
  unfolding copy_loop contains
  copy_loop-Outcome l [] m chain source apart fits =
      done l refl
        (record {
          chain = chain;
          bounded = omega arith;
          balance = refl;
          grants = refl;
          reads = refl;
        })
        (λ x. ground arith)
  copy_loop-Outcome l (n ∷ nodes) m chain source apart fits =
      let (new, distinct) = source.distinct in
      let (pos, whole, sized) = source.sized in
      let rest : IsChain s.compare nodes = record { distinct = distinct; sized = sized } in
      elim (Bool-cases (keep n.content)) [
        | inl kept ↦
            rw kept
              (elim (set_insert_no_check-Outcome (with_chain s l) n.content n.bytes m eq chain refl
                (omega arith) pos whole
                (apart n.content (ground (arith, eq.same-refl n.content)))) [
                  | done l1 e a mem ↦ rw e (
                      after a (
                        relabel (λ x. ground (arith, mem x, respects n.content x))
                          (copy_loop-Outcome l1 nodes _ a.chain rest
                            (λ x h. mem x ∙ fresh_rest n nodes l new apart x h)
                            (omega (arith, a.bounded)))))
                  | short l1 e a no_room ↦ rw e (stop _ (omega arith) a no_room refl)
                ])
        | inr dropped ↦ rw dropped (
            relabel (λ x. ground (arith, respects n.content x))
              (copy_loop-Outcome l nodes m chain rest (λ x h. apart x (ground arith))
                (omega arith)))
      ]
