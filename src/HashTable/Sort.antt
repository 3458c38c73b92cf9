-- ===== src/HashTable/Sort.antt =====
-- `sort_node`, which sorts the nodes of a list by their keys: a bubble sort that exchanges what the
-- nodes hold. The nodes before `l_ptr` are one list and those from it on another.
use mathlib.Core.List.{Perm, append_assoc, append-nil}
use mathlib.Core.List.Perm
use c2x_examples.Base.{
  ℕ, zero, suc, ◌≤◌, ◌<◌, ◌≡◌, refl, Bool, true, false, List, [], ◌∷◌, ◌++◌, ◌||◌, ◌∙◌, sym, ap,
  is_pos, length, if◌then◌else◌, arith, Bool-cases, true≢false, inl, inr,
}
use c2x_examples.Strings.{strcmp, strcmp-turns, strcmp_trans, strcmp_asym}
use c2x_examples.Run.{Run, ok, fault, out_of_fuel, Returns, value, weaken}
use mathlib.Core.Path.{subst}
use c2x_examples.HashTable.{Node}
use c2x_examples.HashTable.Find.{All}

-- `node_cmp(a->text, b->text) > 0`
abbrev pub after : Node → Node → Bool
after a b = is_pos (strcmp a.text b.text)

-- The inner loop, with `ptr_1` at a node that holds `n` and `rest` up to `l_ptr`: the nodes passed,
-- the one that `ptr_1` ends at, and `swapped`.
unfoldable pub bubble : Node → List Node → List Node × Node × Bool
bubble n [] = ([], n, false)
bubble n (k ∷ rest) =
    let r = bubble (if after n k then n else k) rest in
    ((if after n k then k else n) ∷ r.0, r.1, after n k || r.2)

-- With no node before `l_ptr` the inner loop would run past the end.
unfoldable pub sort_loop : ℕ → (front settled : List Node) → Run (List Node)
sort_loop zero front settled = out_of_fuel
sort_loop (suc k) [] settled = fault
sort_loop (suc k) (n ∷ rest) settled =
    let r = bubble n rest in
    let again = sort_loop k r.0 (r.1 ∷ settled) in if r.2 then again else ok (r.0 ++ r.1 ∷ settled)

unfoldable pub sort_node : List Node → Run (List Node)
sort_node [] = ok []
sort_node (n ∷ rest) = sort_loop (suc (length rest)) (n ∷ rest) []

abbrev pub Before : Node → Node → Type 0
Before a b = after a b ≡ false

-- Each node stands behind no node with a greater key.
abbrev pub IsSorted : List Node → Type 0
IsSorted [] = Unit
IsSorted (n ∷ l) = All (Before n) l × IsSorted l

Before-trans : (a b c : Node) → Before a b → Before b c → Before a c
Before-trans a b c p q =
    strcmp-turns a.text c.text
    ∙ strcmp_trans c.text b.text a.text (sym (strcmp-turns b.text c.text) ∙ q)
        (sym (strcmp-turns a.text b.text) ∙ p)

Before-total : (a b : Node) → after a b ≡ true → Before b a
Before-total a b h = strcmp_asym a.text b.text h

All-map : {P Q : Node → Type 0} (l : List Node) → ((n : Node) → P n → Q n) → All P l → All Q l
All-map [] f h = tt
All-map (n ∷ l) f (p, h) = (f n p, All-map l f h)

All-append : (P : Node → Type 0) (a b : List Node) → All P a → All P b → All P (a ++ b)
All-append P [] b p q = q
All-append P (n ∷ a) b (h, p) q = (h, All-append P a b p q)

All-zip : (P Q : Node → Type 0) (l : List Node) → All P l → All Q l → All (λ n. P n × Q n) l
All-zip P Q [] p q = tt
All-zip P Q (n ∷ l) (a, p) (b, q) = ((a, b), All-zip P Q l p q)

bubble-nil : (n : Node) → bubble n [] ≡ ([], n, false)
unfolding bubble
bubble-nil n = refl

module _ (n k : Node) (rest : List Node) where
  bubble-carry :
      after n k ≡ true → bubble n (k ∷ rest) ≡ (k ∷ (bubble n rest).0, (bubble n rest).1, true)
  unfolding bubble
  bubble-carry e = rw e

  bubble-pass :
      after n k ≡ false
      → bubble n (k ∷ rest) ≡ (n ∷ (bubble k rest).0, (bubble k rest).1, (bubble k rest).2)
  unfolding bubble
  bubble-pass e = rw e

bubble-All :
    (P : Node → Type 0) (n : Node) (rest : List Node)
    → P n
    → All P rest
    → All P (bubble n rest).0 × P (bubble n rest).1
bubble-All P n [] p h = rw (bubble-nil n) (tt, p)
bubble-All P n (k ∷ rest) p (q, h) = elim (Bool-cases (after n k)) [
  | inl e ↦
      let (before, last) = bubble-All P n rest p h in
      rw (bubble-carry n k rest e) ((q, before), last)
  | inr e ↦
      let (before, last) = bubble-All P k rest q h in
      rw (bubble-pass n k rest e) ((p, before), last)
]

-- a pass ends at a node that none of the others stands behind
bubble-last :
    (n : Node) (rest : List Node)
    → Before n (bubble n rest).1 × All (λ k. Before k (bubble n rest).1) (bubble n rest).0
bubble-last n [] = rw (bubble-nil n) (ground (arith, Before-total n n), tt)
bubble-last n (k ∷ rest) = elim (Bool-cases (after n k)) [
  | inl e ↦
      let (own, others) = bubble-last n rest in
      rw (bubble-carry n k rest e)
        (own, (Before-trans k n (bubble n rest).1 (Before-total n k e) own, others))
  | inr e ↦
      let (own, others) = bubble-last k rest in
      rw (bubble-pass n k rest e) (
        Before-trans n k (bubble k rest).1 e own,
        (Before-trans n k (bubble k rest).1 e own, others),
      )
]

bubble-perm :
    (n : Node) (rest : List Node) → Perm ((bubble n rest).0 ++ (bubble n rest).1 ∷ []) (n ∷ rest)
bubble-perm n [] = rw (bubble-nil n) (Perm.refl (n ∷ []))
bubble-perm n (k ∷ rest) = elim (Bool-cases (after n k)) [
  | inl e ↦
      rw (bubble-carry n k rest e)
        (Perm.trans (Perm.cons k (bubble-perm n rest)) (Perm.swap n k rest))
  | inr e ↦ rw (bubble-pass n k rest e) (Perm.cons n (bubble-perm k rest))
]

length-bubble : (n : Node) (rest : List Node) → length (bubble n rest).0 ≡ length rest
unfolding bubble
length-bubble n [] = refl
length-bubble n (k ∷ rest) = ap suc (length-bubble (if after n k then n else k) rest)

-- a pass without an exchange finds the nodes in order
bubble_still :
    (n : Node) (rest : List Node)
    → (bubble n rest).2 ≡ false
    → IsSorted (n ∷ rest) × ((bubble n rest).0 ++ (bubble n rest).1 ∷ [] ≡ n ∷ rest)
bubble_still n [] h = rw (bubble-nil n) ((tt, tt), refl)
bubble_still n (k ∷ rest) h = elim (Bool-cases (after n k)) [
  | inl e ↦ absurd (true≢false (rw (bubble-carry n k rest e) at h))
  | inr e ↦
      let (sorted, same) = bubble_still k rest (rw (bubble-pass n k rest e) at h) in
      (
        ((e, All-map rest (λ x. Before-trans n k x e) sorted.0), sorted),
        rw (bubble-pass n k rest e) (ap (◌∷◌ n) same),
      )
]

IsSorted-append :
    (a b : List Node) → IsSorted a → IsSorted b → All (λ n. All (Before n) b) a → IsSorted (a ++ b)
IsSorted-append [] b p q h = q
IsSorted-append (n ∷ a) b (first, p) q (h, rest) =
    (All-append (Before n) a b first h, IsSorted-append a b p q rest)

-- What holds between passes: the settled nodes are in order, behind none of the nodes in front.
record Passes (front settled : List Node) : Type 0 where
  ordered : IsSorted settled
  behind : All (λ n. All (Before n) settled) front

pass-Passes :
    (n : Node) (rest settled : List Node)
    → Passes (n ∷ rest) settled
    → Passes (bubble n rest).0 ((bubble n rest).1 ∷ settled)
pass-Passes n rest settled v =
    let (before, last) = bubble-All (λ k. All (Before k) settled) n rest v.behind.0 v.behind.1 in
    record {
      ordered = (last, v.ordered);
      behind = All-zip _ _ (bubble n rest).0 (bubble-last n rest).1 before;
    }

bubble-more : (n : Node) (rest : List Node) → (bubble n rest).2 ≡ true → 0 < length rest
bubble-more n [] h = absurd (true≢false (sym (rw (bubble-nil n) at h)))
bubble-more n (k ∷ rest) h = omega arith

pass-perm :
    (n : Node) (rest settled : List Node)
    → Perm ((bubble n rest).0 ++ (bubble n rest).1 ∷ settled) (n ∷ rest ++ settled)
pass-perm n rest settled =
    rw (append_assoc (bubble n rest).0 ((bubble n rest).1 ∷ []) settled) at
      (Perm.append_right settled (bubble-perm n rest))

sort_loop-sorts :
    (k : ℕ) (front settled : List Node)
    → 0 < length front
    → length front ≤ k
    → Passes front settled
    → Returns (λ l. IsSorted l × Perm l (front ++ settled)) (sort_loop k front settled)
unfolding sort_loop
sort_loop-sorts k [] settled some_left h v = absurd (omega arith)
sort_loop-sorts zero (n ∷ rest) settled some_left h v = absurd (omega arith)
sort_loop-sorts (suc k) (n ∷ rest) settled some_left h v = elim (Bool-cases (bubble n rest).2) [
  | inl e ↦ rw e (
      weaken
        (sort_loop-sorts k (bubble n rest).0 ((bubble n rest).1 ∷ settled)
          (omega (arith, length-bubble n rest, bubble-more n rest e))
          (omega (arith, length-bubble n rest)) (pass-Passes n rest settled v))
        λ l (sorted, same). (sorted, Perm.trans same (pass-perm n rest settled)))
  | inr e ↦
      let (sorted, same) = bubble_still n rest e in
      rw e (
        value (
          subst IsSorted
              (sym (ap (λ l. l ++ settled) same)
                ∙ append_assoc (bubble n rest).0 ((bubble n rest).1 ∷ []) settled)
              (IsSorted-append (n ∷ rest) settled sorted v.ordered v.behind),
          pass-perm n rest settled,
        ))
]

none_settled : (l : List Node) → All (λ n. All (Before n) []) l
none_settled [] = tt
none_settled (n ∷ l) = (tt, none_settled l)

-- `sort_node` of any list of nodes ends, within the list, with the same nodes in the order of their
-- keys.
pub sort_node-sorts : (l : List Node) → Returns (λ s. IsSorted s × Perm s l) (sort_node l)
unfolding sort_node
sort_node-sorts [] = value (tt, Perm.rfl)
sort_node-sorts (n ∷ rest) = rw (append-nil (n ∷ rest)) at (
    sort_loop-sorts (suc (length rest)) (n ∷ rest) [] (omega arith) (omega arith)
      (record { ordered = tt; behind = none_settled (n ∷ rest) }))
