-- ===== src/Set/Insert.antt =====
-- `set_insert`, `set_contains` and `set_node_create`.
use c2x_examples.Base.{
  ℕ, ◌+◌, ◌<◌, ◌^◌, ◌≡◌, refl, Bool, true, false, ◌||◌, none, some, ◌∷◌, Bytes, ltb, length, take,
  ◌==◌, arith, Bool-cases, inl, inr, if◌then◌else◌,
}
use c2x_examples.Memory.{Memory, AlwaysGrants}
use c2x_examples.Set.{
  Set, SetNode, same, contains, set_contains, set_node_create, set_insert, set_insert_no_check,
  link_new,
}
use c2x_examples.Set.Chain.{IsEquality, IsChain, take-whole, contains_congr}
use mathlib.Core.Path.{subst}
use c2x_examples.Set.Outcome.{Outcome, done, short}

abbrev pub new_node : Bytes → ℕ → SetNode
new_node d b = record { content = take b d; bytes = b; count = 1 }

-- the two requests of `set_node_create` from memory `m`
abbrev pub room : Memory → Bool
room m = if m.grant m.calls then m.grant (m.calls + 1) else false

pub not-AlwaysGrants : (m : Memory) → room m ≡ false → ¬ AlwaysGrants m
not-AlwaysGrants m h all = ground (arith, all m.calls, all (m.calls + 1))

module _ (d : Bytes) (b : ℕ) (m : Memory) where
  pub create_room : room m ≡ true → (set_node_create d b m).0 ≡ some (new_node d b)
  unfolding set_node_create
  create_room h = ground arith

  pub create_short : room m ≡ false → (set_node_create d b m).0 ≡ none
  unfolding set_node_create
  create_short h = ground arith

  pub create_memory :
      ((set_node_create d b m).1.live ≡ (if room m then m.live + 2 else m.live))
      × ((set_node_create d b m).1.grant ≡ m.grant)
  unfolding set_node_create
  create_memory = ground arith

  pub create_reads : length d ≡ b → (set_node_create d b m).1.over_reads ≡ m.over_reads
  unfolding set_node_create
  create_reads e =
      let inside : ltb (length d) b ≡ false = ground arith in
      elim (Bool-cases (m.grant m.calls)) [
        | inl h ↦ elim (Bool-cases (m.grant (m.calls + 1))) [
          | inl h' ↦ rw (h, h', inside)
          | inr h' ↦ rw (h, h')
        ]
        | inr h ↦ rw h
      ]

module _ (s : Set) (d : Bytes) (b : ℕ) (m : Memory) where
  -- linking a node whose object the set does not hold
  link_new-Outcome :
      IsEquality s.compare
      → IsChain s.compare s.top
      → s.count ≡ length s.top
      → length s.top + 1 < 2 ^ 64
      → 0 < b
      → length d ≡ b
      → contains s.compare s.top (take b d) ≡ false
      → Outcome s
          (λ x. same s.compare (take b d) x || contains s.compare s.top x)
          (length s.top + 1)
          s.top
          m
          (link_new s d b none m)
  unfolding link_new contains
  link_new-Outcome eq chain counted fits pos sized fresh = elim (Bool-cases (room m)) [
    | inl h ↦
        done (new_node d b ∷ s.top) (rw (create_room d b m h) (ground arith))
          (rw (create_room d b m h) (record {
            chain = record {
              distinct = (fresh, chain.distinct);
              sized = (pos, rw (take-whole b d sized) sized, chain.sized);
            };
            bounded = omega arith;
            balance = ground (arith, create_memory d b m);
            grants = (create_memory d b m).1;
            reads = create_reads d b m sized;
          }))
          (λ x. ground arith)
    | inr h ↦
        short s.top (rw (create_short d b m h) (ground arith))
          (rw (create_short d b m h) (record {
            chain = chain;
            bounded = omega arith;
            balance = ground (arith, create_memory d b m);
            grants = (create_memory d b m).1;
            reads = create_reads d b m sized;
          }))
          (not-AlwaysGrants m h)
  ]

-- From any memory, `set_insert` of an object of `b` bytes into a valid set either succeeds, and the
-- object and what compares equal to it have become elements and nothing else has changed, or it
-- fails, which needs a refused request, and leaves a good chain; either way no block is leaked and no copy
-- reads past the end of the object.
pub set_insert-Outcome :
    (s : Set) (d : Bytes) (b : ℕ) (m : Memory)
    → IsEquality s.compare
    → IsChain s.compare s.top
    → s.count ≡ length s.top
    → length s.top + 1 < 2 ^ 64
    → 0 < b
    → length d ≡ b
    → Outcome s
        (λ x. same s.compare d x || contains s.compare s.top x)
        (length s.top + 1)
        s.top
        m
        (set_insert (some s) (some d) b m)
unfolding set_insert set_contains
set_insert-Outcome s d b m eq chain counted fits pos whole =
    let some_bytes : (b == 0) ≡ false = ground arith in
    elim (Bool-cases (contains s.compare s.top d)) [
      | inl old ↦
          rw (some_bytes, old)
            (done s.top (ground arith)
              (record {
                chain = chain;
                bounded = omega arith;
                balance = refl;
                grants = refl;
                reads = refl;
              })
              (λ x. ground (arith, contains_congr eq s.top d x)))
      | inr new ↦
          rw (some_bytes, new)
            (subst
              (λ e.
                Outcome s (λ x. same s.compare e x || contains s.compare s.top x) (length s.top + 1)
                  s.top m (link_new s d b none m))
              (take-whole b d whole)
              (link_new-Outcome s d b m eq chain counted fits pos whole
                (rw (take-whole b d whole) new)))
    ]

-- The insertion that does not search: the object must not be an element already.
pub set_insert_no_check-Outcome :
    (s : Set) (d : Bytes) (b : ℕ) (m : Memory)
    → IsEquality s.compare
    → IsChain s.compare s.top
    → s.count ≡ length s.top
    → length s.top + 1 < 2 ^ 64
    → 0 < b
    → length d ≡ b
    → contains s.compare s.top d ≡ false
    → Outcome s
        (λ x. same s.compare d x || contains s.compare s.top x)
        (length s.top + 1)
        s.top
        m
        (set_insert_no_check (some s) (some d) b m)
unfolding set_insert_no_check
set_insert_no_check-Outcome s d b m eq chain counted fits pos whole new =
    let some_bytes : (b == 0) ≡ false = ground arith in
    rw some_bytes (
      subst
        (λ e.
          Outcome s (λ x. same s.compare e x || contains s.compare s.top x) (length s.top + 1) s.top
            m (link_new s d b none m))
        (take-whole b d whole)
        (link_new-Outcome s d b m eq chain counted fits pos whole (rw (take-whole b d whole) new)))
