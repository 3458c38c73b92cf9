-- ===== src/Set/Algebra/Combine.antt =====
-- `set_union`, `set_intersection` and `set_difference`.
use c2x_examples.Base.{
  ℕ, ◌+◌, ◌*◌, ◌≤◌, ◌<◌, ◌^◌, ◌≡◌, refl, Bool, true, false, ◌||◌, Option, some, List, [], Bytes,
  length, ◌∙◌, arith, ap, Bool-cases, inl, inr, ◌&&◌, not, ◌==◌, if◌then◌else◌,
}
use c2x_examples.Memory.{Memory, AlwaysGrants, ◌>>=◌}
use c2x_examples.Set.{Set, SetNode, Compare, Slot, holds, contains, set_init, set_contains}
use c2x_examples.Set.Algebra.{
  copy_loop, concat_loop, finish, set_union, set_intersection, set_difference,
}
use c2x_examples.Set.Algebra.Copy.{Respects, copy_loop-Outcome}
use c2x_examples.Set.Algebra.Concat.{concat_loop-Outcome}
use c2x_examples.Set.Algebra.Free.{set_free-released}
use c2x_examples.Set.Chain.{IsEquality, IsChain, Sized, contains_congr}
use c2x_examples.Set.Outcome.{Outcome, done, short, after, stop, relabel, contains_empty}

abbrev pub made : Bool → Compare → List SetNode → Set
made destroy c l = record { top = l; count = length l; destroy = destroy; compare = c }

-- How an operation that builds a set ends: with a new set whose elements are given by `f`, for
-- which two blocks a node and one more were allocated; or, with all of these given back,
-- because a request was refused. No copy reads past the end of an object.
pub data Built (f : Bytes → Bool) (n : ℕ) (destroy : Bool) (c : Compare) (m : Memory)
    (r : (Bool × Slot) × Memory) : Type 0 where
  built :
      (l : List SetNode)
      → r.0 ≡ (true, holds (made destroy c l))
      → IsChain c l
      → length l ≤ n
      → r.1.live ≡ m.live + (2 * length l + 1)
      → r.1.over_reads ≡ m.over_reads
      → ((x : Bytes) → contains c l x ≡ f x)
      → Built f n destroy c m r
  refused :
      r.0.0 ≡ false
      → r.1.live ≡ m.live
      → r.1.over_reads ≡ m.over_reads
      → ¬ AlwaysGrants m
      → Built f n destroy c m r

module _ {f : Bytes → Bool} {n : ℕ} {destroy : Bool} {c : Compare} where
  finish-Built :
      {m m1 : Memory} (r : (Bool × Option Set) × Memory)
      → Outcome (made destroy c []) f n [] m1 r
      → m1.live ≡ m.live + 1
      → m1.grant ≡ m.grant
      → m1.over_reads ≡ m.over_reads
      → Built f n destroy c m (finish r.0 r.1)
  unfolding finish
  finish-Built r (done l e a mem) live grants reads =
      rw e (built l refl a.chain a.bounded (omega (arith, a.balance)) (a.reads ∙ reads) mem)
  finish-Built {m} {m1} r (short l e a no_room) live grants reads = rw e (
      refused refl
        (ap (λ (k : Memory). k.live) (set_free-released (made destroy c l) r.1)
          ∙ omega (arith, a.balance))
        (ap (λ (k : Memory). k.over_reads) (set_free-released (made destroy c l) r.1)
          ∙ a.reads
          ∙ reads)
        (λ all. no_room (λ k. rw grants (all k))))

-- the memory after the request of `set_init`
abbrev opened : Memory → Memory
opened m = record m { calls = m.calls + 1; live = m.live + 1 }

module _ (a b : Set) (destroy : Bool) (c : Compare) (m : Memory) (eq : IsEquality c)
    (chain : IsChain c a.top) where
  fill :
      (keep : Bytes → Bool)
      → Respects c keep
      → length a.top < 2 ^ 64
      → Built
          (λ x. contains c a.top x && keep x)
          (length a.top)
          destroy
          c
          m
          ((copy_loop keep (some (made destroy c [])) a.top >>= finish) (opened m))
  unfolding contains
  fill keep respects fits =
      finish-Built _
        (relabel (λ x. refl)
          (copy_loop-Outcome (made destroy c []) eq (length a.top) fits keep respects [] a.top
            (opened m) (record { distinct = tt; sized = tt }) chain (λ x h. refl) (omega arith)))
        refl refl refl

  member-Respects : b.compare ≡ c → Respects c (λ x. set_contains (some b) (some x))
  unfolding set_contains
  member-Respects e = rw e (λ x y h. contains_congr eq b.top x y h)

  -- From any memory, `set_intersection` either builds a set of exactly the common elements, or
  -- fails because a request was refused and leaves no block behind.
  pub set_intersection-Built :
      b.compare ≡ c
      → b.count ≡ length b.top
      → length a.top < 2 ^ 64
      → Built
          (λ x. contains c a.top x && contains b.compare b.top x)
          (length a.top)
          destroy
          c
          m
          (set_intersection true (some a) (some b) destroy (some c) m)
  unfolding set_intersection set_init set_contains
  set_intersection-Built e counted fits = elim (Bool-cases (m.grant m.calls)) [
    | inl got ↦ rw got (elim (Bool-cases (b.count == 0)) [
      | inl none_there ↦ rw none_there (
          built [] refl (record { distinct = tt; sized = tt }) (omega arith) (omega arith) refl
            (λ x. ground (arith, contains_empty b.compare b.top x, contains_empty c [] x)))
      | inr some_there ↦
          rw some_there (fill (λ x. contains b.compare b.top x) (member-Respects e) fits)
    ])
    | inr no_room ↦
        rw no_room (refused refl (ground arith) refl (λ all. ground (arith, all m.calls)))
  ]

  -- From any memory, `set_difference` either builds a set of exactly the elements of the first
  -- set that are not in the second, or fails because a request was refused and leaves no block.
  pub set_difference-Built :
      b.compare ≡ c
      → length a.top < 2 ^ 64
      → Built
          (λ x. contains c a.top x && not (contains b.compare b.top x))
          (length a.top)
          destroy
          c
          m
          (set_difference true (some a) (some b) destroy (some c) m)
  unfolding set_difference set_init set_contains
  set_difference-Built e fits = elim (Bool-cases (m.grant m.calls)) [
    | inl got ↦ rw got (
        fill (λ x. not (contains b.compare b.top x)) (λ x y h. ap not (member-Respects e x y h))
          fits)
    | inr no_room ↦
        rw no_room (refused refl (ground arith) refl (λ all. ground (arith, all m.calls)))
  ]

  union_loops :
      Sized b.top
      → length a.top + length b.top < 2 ^ 64
      → Built
          (λ x. contains c a.top x || contains c b.top x)
          (length a.top + length b.top)
          destroy
          c
          m
          ((do
            first ← copy_loop (λ _. true) (some (made destroy c [])) a.top
            if first.0 then concat_loop first.1 b.top >>= finish else finish first)
            (opened m))
  unfolding contains
  union_loops sized fits =
      let bound : ℕ = length a.top + length b.top in
      let s = made destroy c [] in
      elim (copy_loop-Outcome s eq (length a.top) (omega arith) (λ _. true) (λ x y h. refl) [] a.top
        (opened m) (record { distinct = tt; sized = tt }) chain (λ x h. refl) (omega arith)) [
          | done l e acc mem ↦ rw e (
              finish-Built _
                (after acc (
                  relabel (λ x. ground (arith, mem x))
                    (concat_loop-Outcome s eq bound fits l b.top _ acc.chain sized
                      (omega (arith, acc.bounded)))))
                refl refl refl)
          | short l e acc no_room ↦
              rw e (finish-Built _ (stop _ (omega arith) acc no_room refl) refl refl refl)
        ]

  -- From any memory, `set_union` either builds a set of exactly the elements of the two sets, or
  -- fails because a request was refused and leaves no block behind.
  pub set_union-Built :
      Sized b.top
      → length a.top + length b.top < 2 ^ 64
      → Built
          (λ x. contains c a.top x || contains c b.top x)
          (length a.top + length b.top)
          destroy
          c
          m
          (set_union true (some a) (some b) destroy (some c) m)
  unfolding set_union set_init
  set_union-Built sized fits = elim (Bool-cases (m.grant m.calls)) [
    | inl got ↦ rw got (union_loops sized fits)
    | inr no_room ↦
        rw no_room (refused refl (ground arith) refl (λ all. ground (arith, all m.calls)))
  ]
