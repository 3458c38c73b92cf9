-- ===== src/Set/Algebra/Remove.antt =====
-- `set_remove`.
use c2x_examples.Base.{
  suc, ◌≡◌, refl, true, false, ◌||◌, none, some, List, [], ◌∷◌, Bytes, length, arith, ap,
  Bool-cases, inl, inr,
}
use c2x_examples.Memory.{Memory}
use c2x_examples.Set.{Set, SetNode, Compare, same, contains}
use c2x_examples.Set.Algebra.{unlink, set_remove}
use c2x_examples.Set.Chain.{IsEquality, IsValid, same_congr_left}

-- `left` is the chain without `n`, its first node that compares equal to `d`.
pub data Cut (c : Compare) (d : Bytes) (n : SetNode) : List SetNode → List SetNode → Type 0 where
  here : {l : List SetNode} → same c n.content d ≡ true → Cut c d n (n ∷ l) l
  there :
      {k : SetNode} {l left : List SetNode}
      → same c k.content d ≡ false
      → Cut c d n l left
      → Cut c d n (k ∷ l) (k ∷ left)

module _ (c : Compare) (d : Bytes) where
  pub unlink-Cut :
      (l : List SetNode)
      → contains c l d ≡ true
      → (n : SetNode) × (left : List SetNode) × (unlink c l d ≡ some (n, left)) × Cut c d n l left
  unfolding unlink contains
  unlink-Cut [] h = cc
  unlink-Cut (n ∷ l) h = elim (Bool-cases (same c n.content d)) [
    | inl e ↦ (n, l, rw e, here e)
    | inr e ↦
        let (found, left, at, cut) = unlink-Cut l (rw e at h) in
        (found, n ∷ left, rw (e, at) refl, there e cut)
  ]

  pub unlink_missing : (l : List SetNode) → contains c l d ≡ false → unlink c l d ≡ none
  unfolding unlink contains
  unlink_missing [] h = refl
  unlink_missing (n ∷ l) h = ground (arith, unlink_missing l)

module _ {c : Compare} {d : Bytes} {n : SetNode} where
  pub Cut-length : {l left : List SetNode} → Cut c d n l left → length l ≡ suc (length left)
  Cut-length (here e) = refl
  Cut-length (there e cut) = ap suc (Cut-length cut)

  pub Cut-contains :
      {l left : List SetNode}
      → IsEquality c
      → Cut c d n l left
      → (x : Bytes) → contains c l x ≡ (same c d x || contains c left x)
  unfolding contains
  Cut-contains eq (here e) x = rw (same_congr_left eq n.content d x e) (ground arith)
  Cut-contains eq (there {k} e cut) x = ground (arith, Cut-contains eq cut x)

module _ (s : Set) (d : Bytes) (m : Memory) (eq : IsEquality s.compare) (v : IsValid s) where
  -- `set_remove` of an object that the set does not hold reports it and changes nothing.
  pub set_remove-absent :
      contains s.compare s.top d ≡ false → set_remove (some s) (some d) m ≡ ((false, some s), m)
  unfolding set_remove
  set_remove-absent h = rw (unlink_missing s.compare d s.top h) (ground arith)
