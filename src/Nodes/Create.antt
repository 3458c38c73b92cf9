-- ===== src/Nodes/Create.antt =====
-- `create_node`, and reads and writes through a pointer to a node.
use c2x_examples.Base.{
  ℕ, ◌+◌, ◌==◌, ◌≡◌, ◌≢◌, ◌≤◌, ◌<◌, refl, sym, ◌∙◌, false, true≢false, Option, none, some, Bytes,
  take, length, ltb, arith, Bool-cases, inl, inr,
}
use c2x_examples.Memory.{AlwaysGrants}
use c2x_examples.Run.{Run, ok, Returns, returns, value}
use c2x_examples.Nodes.{
  Item, Node, Store, Cmd, load, set_next, set_prev, update, create_node, and_then,
}
use c2x_examples.Nodes.Seg.{node}

abbrev pub item : Bytes → ℕ → Item
item object size = record { data_bytes = take size object; size = size }

-- Nothing differs but the number of the next request: the nodes, the live blocks and the objects
-- handed to a callback are the same.
abbrev pub Unchanged : Store → Store → Type 0
Unchanged s s' = (s'.nodes ≡ s.nodes) × (s'.memory ≡ record s.memory { calls = s'.memory.calls })

-- What `create_node` may give: a node at a new address, in two new blocks, or none after a refusal,
-- with nothing changed.
abbrev pub Created : Store → Item → Option ℕ × Store → Type 0
Created s x (none, s') =
    Unchanged s s' × (s.memory.calls ≤ s'.memory.calls) × ¬ AlwaysGrants s.memory
Created s x (some p, s') =
    (p ≡ s.memory.calls)
    × (s'.nodes ≡ update s.nodes p (some (node x none none)))
    × (p < s'.memory.calls)
    × (AlwaysGrants s.memory → AlwaysGrants s'.memory)
    × (s'.memory.live ≡ s.memory.live + 2)

pub create_node-Created :
    (object : Bytes) (size : ℕ) (s : Store)
    → 0 < size
    → size ≤ length object
    → Returns (Created s (item object size)) (create_node (some object) size s)
unfolding create_node
create_node-Created object size s h whole =
    let some_bytes : (size == 0) ≡ false = ground arith in
    let readable : ltb (length object) size ≡ false = ground arith in
    let m = s.memory in
    elim (Bool-cases (m.grant m.calls)) [
      | inl e ↦ elim (Bool-cases (m.grant (m.calls + 1))) [
        | inl e' ↦
            rw (some_bytes, e, e', readable)
              (value (refl, refl, omega arith, (λ a. a), omega arith))
        | inr e' ↦
            rw (some_bytes, e, e')
              (value (
                (refl, ground arith),
                omega arith,
                λ all. true≢false (sym (all (m.calls + 1)) ∙ e'),
              ))
      ]
      | inr e ↦
          rw (some_bytes, e)
            (value ((refl, refl), omega arith, λ all. true≢false (sym (all m.calls) ∙ e)))
    ]

-- The store with other nodes.
abbrev pub with_nodes : Store → (ℕ → Option Node) → Store
with_nodes s h = record s { nodes = h }

module _ (p : ℕ) (s : Store) (n : Node) (e : s.nodes p ≡ some n) where
  pub load-ok : load p s ≡ ok (n, s)
  unfolding load
  load-ok = rw e

  pub set_next-ok :
      (q : Option ℕ)
      → set_next p q s ≡ ok (tt, with_nodes s (update s.nodes p (some (record n { next = q }))))
  unfolding set_next
  set_next-ok q = rw load-ok

  pub set_prev-ok :
      (q : Option ℕ)
      → set_prev p q s ≡ ok (tt, with_nodes s (update s.nodes p (some (record n { prev = q }))))
  unfolding set_prev
  set_prev-ok q = rw load-ok

module _ (h : ℕ → Option Node) (p : ℕ) (c : Option Node) where
  pub update_self : update h p c p ≡ c
  unfolding update
  update_self = ground arith

  pub update_other : (a : ℕ) → a ≢ p → update h p c a ≡ h a
  unfolding update
  update_other a ne = ground arith

-- The rule for `>>=`.
pub step :
    {A B : Type 0} {P : A × Store → Type 0} {Q : B × Store → Type 0} {r : Run (A × Store)}
    {f : A → Cmd B}
    → Returns P r
    → ((a : A) (s : Store) → P (a, s) → Returns Q (f a s))
    → Returns Q (and_then r f)
step (returns (a, s) e p) next = rw e (next a s p)
