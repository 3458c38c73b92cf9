-- ===== src/Set/Bump.antt =====
-- `multiset_insert`, `_multiset_insert` and `multiset_count`.
use c2x_examples.Base.{
  ℕ, suc, ◌+◌, ◌%◌, ◌<◌, ◌^◌, ◌≡◌, refl, Bool, true, false, Option, none, some, List, [], ◌∷◌,
  Bytes, length, ◌∙◌, arith, ap, Bool-cases, inl, inr, ◌==◌, if◌then◌else◌, take,
}
use c2x_examples.Memory.{Memory, AlwaysGrants}
use c2x_examples.Set.{
  Set, SetNode, Compare, same, contains, bump, count_of, link_new, multiset_insert,
  multiset_insert_many,
}
use c2x_examples.Set.Chain.{
  IsEquality, IsChain, Sized, Distinct, contains_congr, same_congr_left, take-whole,
}
use c2x_examples.Set.Outcome.{with_chain, Accounted}
use c2x_examples.Set.Insert.{
  room, create_room, create_short, create_memory, create_reads, not-AlwaysGrants,
}

abbrev pub add_count : ℕ → SetNode → SetNode
add_count k n = record n { count = (n.count + k) % 2 ^ 64 }

-- `k` is added to the count of the first node that compares equal to `d`.
data Bumped (c : Compare) (d : Bytes) (k : ℕ) : List SetNode → List SetNode → Type 0 where
  here :
      {n : SetNode} {l : List SetNode}
      → same c n.content d ≡ true
      → Bumped c d k (n ∷ l) (add_count k n ∷ l)
  there :
      {n : SetNode} {l l' : List SetNode}
      → same c n.content d ≡ false
      → Bumped c d k l l'
      → Bumped c d k (n ∷ l) (n ∷ l')

module _ (c : Compare) (d : Bytes) (k : ℕ) where
  bump-Bumped :
      (l : List SetNode)
      → contains c l d ≡ true
      → (l' : List SetNode) × (bump c k l d ≡ some l') × Bumped c d k l l'
  unfolding bump contains
  bump-Bumped [] h = cc
  bump-Bumped (n ∷ l) h = elim (Bool-cases (same c n.content d)) [
    | inl e ↦ (add_count k n ∷ l, rw e, here e)
    | inr e ↦
        let (l', at, bumped) = bump-Bumped l (rw e at h) in
        (n ∷ l', rw (e, at) refl, there e bumped)
  ]

  bump_missing : (l : List SetNode) → contains c l d ≡ false → bump c k l d ≡ none
  unfolding bump contains
  bump_missing [] h = refl
  bump_missing (n ∷ l) h = ground (arith, bump_missing l)

module _ {c : Compare} {d : Bytes} {k : ℕ} where
  Bumped-length : {l l' : List SetNode} → Bumped c d k l l' → length l' ≡ length l
  Bumped-length (here e) = refl
  Bumped-length (there e b) = ap suc (Bumped-length b)

  Bumped-contains :
      {l l' : List SetNode} → Bumped c d k l l' → (x : Bytes) → contains c l' x ≡ contains c l x
  unfolding contains
  Bumped-contains (here e) x = refl
  Bumped-contains (there e b) x = rw (Bumped-contains b x)

  Bumped-Sized : {l l' : List SetNode} → Bumped c d k l l' → Sized l → Sized l'
  Bumped-Sized (here e) sized = sized
  Bumped-Sized (there e b) (pos, whole, sized) = (pos, whole, Bumped-Sized b sized)

  Bumped-Distinct : {l l' : List SetNode} → Bumped c d k l l' → Distinct c l → Distinct c l'
  Bumped-Distinct (here e) distinct = distinct
  Bumped-Distinct (there {n} e b) (new, distinct) =
      (Bumped-contains b n.content ∙ new, Bumped-Distinct b distinct)

  Bumped-count_of :
      {l l' : List SetNode}
      → IsEquality c
      → Bumped c d k l l'
      → (x : Bytes)
      → count_of c l' x ≡ (if same c d x then (count_of c l x + k) % 2 ^ 64 else count_of c l x)
  unfolding count_of
  Bumped-count_of eq (here {n} e) x = rw (same_congr_left eq n.content d x e) (ground arith)
  Bumped-count_of eq (there {n} e b) x =
      ground (arith, Bumped-count_of eq b x, eq.same-trans n.content x d, eq.same-sym d x)

-- How an insertion of `d` with count `k` into a multiset ends.
pub data Counted (s : Set) (d : Bytes) (k : ℕ) (m : Memory) (r : (Bool × Option Set) × Memory)
    : Type 0 where
  done :
      (l : List SetNode)
      → r.0 ≡ (true, some (with_chain s l))
      → Accounted s.compare (length s.top + 1) s.top m l r.1
      → ((x : Bytes)
          → count_of s.compare l x ≡ (
              if same s.compare d x
              then (count_of s.compare s.top x + k) % 2 ^ 64
              else count_of s.compare s.top x))
      → Counted s d k m r
  short :
      r.0 ≡ (false, some s)
      → r.1.live ≡ m.live
      → r.1.grant ≡ m.grant
      → r.1.over_reads ≡ m.over_reads
      → ¬ AlwaysGrants m
      → Counted s d k m r

pub count_of_missing :
    (c : Compare) (l : List SetNode) (x : Bytes) → contains c l x ≡ false → count_of c l x ≡ 0
unfolding count_of contains
count_of_missing c [] x h = refl
count_of_missing c (n ∷ l) x h = ground (arith, count_of_missing c l x)

count_of_new :
    {c : Compare} (l : List SetNode) (d : Bytes) (b : ℕ) {k : ℕ}
    → IsEquality c
    → k < 2 ^ 64
    → contains c l d ≡ false
    → (x : Bytes)
    → count_of c (record { content = d; bytes = b; count = k } ∷ l) x
      ≡ (if same c d x then (count_of c l x + k) % 2 ^ 64 else count_of c l x)
unfolding count_of
count_of_new {c} l d b eq small new x =
    ground (arith, count_of_missing c l x, contains_congr eq l d x)

module _ (s : Set) (d : Bytes) (b : ℕ) (k : ℕ) (m : Memory) where
  link_new-Counted :
      IsEquality s.compare
      → IsChain s.compare s.top
      → s.count ≡ length s.top
      → length s.top + 1 < 2 ^ 64
      → 0 < b
      → length d ≡ b
      → k < 2 ^ 64
      → contains s.compare s.top d ≡ false
      → Counted s d k m (link_new s d b (some k) m)
  unfolding link_new
  link_new-Counted eq chain counted fits pos whole small new = elim (Bool-cases (room m)) [
    | inl h ↦
        let n : SetNode = record { content = take b d; bytes = b; count = k } in
        done (n ∷ s.top) (rw (create_room d b m h) (ground arith))
          (rw (create_room d b m h) (record {
            chain = record {
              distinct = (rw (take-whole b d whole) new, chain.distinct);
              sized = (pos, rw (take-whole b d whole) whole, chain.sized);
            };
            bounded = omega arith;
            balance = ground (arith, create_memory d b m);
            grants = (create_memory d b m).1;
            reads = create_reads d b m whole;
          }))
          (rw (take-whole b d whole) (count_of_new s.top d b eq small new))
    | inr h ↦
        short (rw (create_short d b m h) refl)
          (rw (create_short d b m h) (ground (arith, create_memory d b m)))
          (rw (create_short d b m h) (create_memory d b m).1)
          (rw (create_short d b m h) (create_reads d b m whole)) (not-AlwaysGrants m h)
  ]

  -- `_multiset_insert` of an object of `b` bytes into a multiset without duplicate nodes adds the given
  -- count to that of the object, modulo 2^64, whether or not the object was there, and to that of
  -- no other; or it fails because a request was refused, and changes nothing. No copy
  -- reads past the end of the object.
  pub multiset_insert_many-Counted :
      IsEquality s.compare
      → IsChain s.compare s.top
      → s.count ≡ length s.top
      → length s.top + 1 < 2 ^ 64
      → 0 < b
      → length d ≡ b
      → k < 2 ^ 64
      → Counted s d k m (multiset_insert_many (some s) (some d) b k m)
  unfolding multiset_insert_many
  multiset_insert_many-Counted eq chain counted fits pos whole small =
      let some_bytes : (b == 0) ≡ false = ground arith in
      elim (Bool-cases (contains s.compare s.top d)) [
        | inl old ↦
            let (l, at, bumped) = bump-Bumped s.compare d k s.top old in
            rw (some_bytes, at)
              (done l (ground (arith, counted, Bumped-length bumped))
                (record {
                  chain = record {
                    distinct = Bumped-Distinct bumped chain.distinct;
                    sized = Bumped-Sized bumped chain.sized;
                  };
                  bounded = omega (arith, Bumped-length bumped);
                  balance = omega (arith, Bumped-length bumped);
                  grants = refl;
                  reads = refl;
                })
                (Bumped-count_of eq bumped))
        | inr new ↦
            rw (some_bytes, bump_missing s.compare d k s.top new)
              (link_new-Counted eq chain counted fits pos whole small new)
      ]

link_none :
    (s : Set) (d : Bytes) (b : ℕ) (m : Memory) → link_new s d b none m ≡ link_new s d b (some 1) m
unfolding link_new
link_none s d b m = elim (Bool-cases (room m)) [
  | inl h ↦ rw (create_room d b m h)
  | inr h ↦ rw (create_short d b m h)
]

-- `multiset_insert` does what `_multiset_insert` does with the count 1.
pub multiset_insert-eq-many :
    (s : Set) (d : Bytes) (b : ℕ) (m : Memory)
    → multiset_insert (some s) (some d) b m ≡ multiset_insert_many (some s) (some d) b 1 m
unfolding multiset_insert multiset_insert_many
multiset_insert-eq-many s d b m = ground (arith, link_none s d b m)
