-- ===== src/OpenTable/Place.antt =====
-- `hash_reinsert_owned` of src/hashtable/open_address/oa_hashtable.c: a node with a new key finds a
-- place in a table with an empty slot.
use mathlib.Core.Option.{some-injective}
use c2x_examples.Base.{
  ℕ, suc, ◌+◌, ◌<◌, ◌≤◌, ◌≡◌, ◌≢◌, ◌⊎◌, refl, sym, ap, ◌∙◌, some, List, length, size_mod, arith,
  Option-cases, inl, inr, set,
}
use c2x_examples.HashTable.{Node, hash}
use c2x_examples.HashTable.Laws.{hash_bound}
use c2x_examples.OpenTable.{
  Slot, empty, occupied, HashTable, at, is_occupied, is_deleted, node_of, tally, reinsert_loop,
  hash_reinsert_owned,
}
use c2x_examples.OpenTable.Search.{In, Reaches, Probes, WellFormed}
use c2x_examples.OpenTable.Fill.{tally-set, set-cases, at-set_ne, at-set_self, set-Probes}
use c2x_examples.OpenTable.Probe.{probes-filled, Settled, reinsert_loop-Settled}

-- Slots that hold the same nodes as before and one more.
pub record Placed (old : List Slot) (n : Node) (new : List Slot) : Type 0 where
  pub more : tally is_occupied new ≡ suc (tally is_occupied old)
  pub same : tally is_deleted new ≡ tally is_deleted old
  pub only : (m : Node) → In new m → (n ≡ m) ⊎ In old m
  pub kept : (m : Node) → In old m → In new m
  pub added : In new n

pub node_eq : (a b : Node) → occupied a ≡ occupied b → a ≡ b
node_eq a b e = some-injective _ _ (ap node_of e)

empty-Placed :
    (slots : List Slot) (i : ℕ) (n : Node)
    → i < length slots
    → at slots i ≡ empty
    → Placed slots n (set slots i (occupied n))
empty-Placed slots i n inside vacant =
    let occ = tally-set is_occupied slots i (occupied n) inside in
    let del = tally-set is_deleted slots i (occupied n) inside in
    record {
      more = omega (arith, rw vacant at occ);
      same = omega (arith, rw vacant at del);
      only = λ m (j, e). elim (set-cases slots i (occupied n) inside j m e) [
        | inl (here, new) ↦ inl (node_eq n m new)
        | inr (ne, there) ↦ inr (j, there)
      ];
      kept = λ m (j, e). (
        j,
        at-set_ne slots i (occupied n) inside j (occupied m)
            (λ here. cc (vacant, ap (at slots) here)) e,
      );
      added = (i, at-set_self slots i (occupied n) inside);
    }

-- the sizes that the allocator grants leave room for the probes and the counts
pub size-small : (t : HashTable) → WellFormed t → t.bucket_size + t.bucket_size ≤ size_mod
size-small t w = omega (arith, w.small)

pub Reaches-bound :
    (slots : List Slot) (size start i : ℕ) → 0 < size → Reaches slots size start i → i < size
Reaches-bound slots size start i h r = rw (sym r.ends) (grind arith)

-- a node in a slot that a search for its key comes to, where no other slot holds the key
pub occupied-Probes :
    (slots : List Slot) (size i : ℕ) (n : Node)
    → i < length slots
    → Reaches slots size (hash (some n.text) size) i
    → ((j : ℕ) (m : Node) → at slots j ≡ occupied m → m.text ≡ n.text → j ≡ i)
    → Probes slots size
    → Probes (set slots i (occupied n)) size
occupied-Probes slots size i n inside r only =
    set-Probes slots i (occupied n) inside size refl (λ e. cc)
      λ m e. rw (sym (node_eq n m e)) (r, only)

reinsert_at :
    (t : HashTable) (n : Node)
    → WellFormed t
    → tally is_occupied t.slots + tally is_deleted t.slots < t.bucket_size
    → ((m : Node) → In t.slots m → m.text ≢ n.text)
    → (out : List Slot)
    → reinsert_loop t.bucket_size t.slots t.bucket_size
        (hash (some n.text) t.bucket_size)
        0
        (occupied n)
      ≡ some out
    → Settled t.slots t.bucket_size (hash (some n.text) t.bucket_size) (occupied n) (some out)
    → (t' : HashTable) × (hash_reinsert_owned t (occupied n) ≡ some t')
      × WellFormed t'
      × (t'.bucket_size ≡ t.bucket_size)
      × Placed t.slots n t'.slots
unfolding hash_reinsert_owned
reinsert_at t n w room missing out e (i, same, vacant, r) =
    let inside : i < length t.slots =
      rw w.probes.full (Reaches-bound t.slots t.bucket_size _ i w.sized r) in
    let placed = empty-Placed t.slots i n inside vacant in
    rw (e, same)
      (
        _,
        refl,
        record {
          allocated = w.allocated;
          sized = w.sized;
          small = w.small;
          probes =
              occupied-Probes t.slots t.bucket_size i n inside r
                (λ j m here key. absurd (missing m (j, here) key)) w.probes;
          counted = omega (arith, placed.more, w.counted, w.small, room);
          removed = w.removed ∙ sym placed.same;
        },
        refl,
        placed,
      )

-- a table with an empty slot takes a node with a new key
pub reinsert-Placed :
    (t : HashTable) (n : Node)
    → WellFormed t
    → tally is_occupied t.slots + tally is_deleted t.slots < t.bucket_size
    → ((m : Node) → In t.slots m → m.text ≢ n.text)
    → (t' : HashTable) × (hash_reinsert_owned t (occupied n) ≡ some t')
      × WellFormed t'
      × (t'.bucket_size ≡ t.bucket_size)
      × Placed t.slots n t'.slots
unfolding hash_reinsert_owned
reinsert-Placed t n w room missing =
    let size = t.bucket_size in
    let start = hash (some n.text) size in
    let loop = reinsert_loop size t.slots size start 0 (occupied n) in
    let all : Settled t.slots size start (occupied n) loop =
      reinsert_loop-Settled t.slots size start size 0 (occupied n) (omega arith)
        (λ p h. absurd (omega arith)) in
    elim (Option-cases loop) [
      | inl e ↦ absurd (
          omega (
            arith,
            probes-filled t.slots size start (hash_bound (some n.text) size w.sized)
                (size-small t w) w.probes.full (rw e at all),
          ))
      | inr (out, e) ↦ reinsert_at t n w room missing out e (rw e at all)
    ]
