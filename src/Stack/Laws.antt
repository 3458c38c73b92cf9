-- ===== src/Stack/Laws.antt =====
-- `stack_push` and `stack_pop` of src/stack/stack.c against the list of the stack's items, the top
-- item last.
use c2x_examples.Base.{
  ℕ, ◌+◌, ◌==◌, ◌≡◌, ◌⊎◌, ◌<◌, ◌≤◌, length, refl, sym, ◌∙◌, Bool, true, false, true≢false, Option,
  none, some, Bytes, List, [], ◌∷◌, ◌++◌, arith, Bool-cases, inl, inr,
}
use c2x_examples.Memory.{AlwaysGrants}
use c2x_examples.Run.{Returns, value, weaken}
use c2x_examples.Nodes.{Item, Store, ◌>>=◌}
use c2x_examples.Nodes.Seg.{node}
use c2x_examples.Nodes.Create.{item, Unchanged, Created, create_node-Created, load-ok, step}
use c2x_examples.Nodes.Link.{released}
use c2x_examples.Nodes.Chain.{
  Chained, Chained-nodes, link_last-Chained, Ending, Chained-Ending, unlink_last-Chained,
}
use c2x_examples.Stack.{Stack, link_top, stack_push, unlink_top, stack_pop}

abbrev pub Stacked : Stack → Store → List Item → Type 0
Stacked t s items = Chained s t.top t.tail items

-- A push has put the item on top, in two new blocks, or a request was refused, the stack is as it
-- was and nothing differs in memory but the number of the next request.
abbrev pub Put : Stack → Store → (old new : List Item) → (Bool × Option Stack) × Store → Type 0
Put t s old new r =
    ((t' : Stack) × (r.0 ≡ (true, some t'))
      × (t'.destroy ≡ t.destroy)
      × (AlwaysGrants s.memory → AlwaysGrants r.1.memory)
      × (r.1.memory.live ≡ s.memory.live + 2)
      × Stacked t' r.1 new)
    ⊎ ((r.0 ≡ (false, some t)) × Unchanged s r.1 × Stacked t r.1 old × ¬ AlwaysGrants s.memory)

-- A pop has taken the item off and freed its node, or the block for the copy was refused and the
-- stack is as it was.
abbrev pub Taken :
    Stack
    → Store
    → Item
    → (old rest : List Item) → (Bool × Option Stack × Option Item) × Store
    → Type 0
Taken t s x old rest r =
    ((s.memory.grant s.memory.calls ≡ true)
      × ((t' : Stack) × (r.0 ≡ (true, some t', some x))
          × (t'.destroy ≡ t.destroy)
          × (r.1.memory
              ≡ released t.destroy x
                  (record s.memory { calls = s.memory.calls + 1; live = s.memory.live + 1 }))
          × Stacked t' r.1 rest))
    ⊎ ((s.memory.grant s.memory.calls ≡ false) × (r.0 ≡ (false, some t, none)) × Stacked t r.1 old)

module _ (t : Stack) (s : Store) where
  -- `stack_push` of `size` bytes, at least one, from an object that has them, on a stack that holds
  -- items, ends without a bad access: it puts a copy on top and keeps two blocks, or a request was
  -- refused, it reports it, and the stack, the nodes and the live blocks are as they were.
  pub stack_push-Put :
      (items : List Item) (object : Bytes) (size : ℕ)
      → 0 < size
      → size ≤ length object
      → Stacked t s items
      → Returns
          (Put t s items (items ++ item object size ∷ []))
          (stack_push (some t) (some object) size s)
  unfolding stack_push link_top
  stack_push-Put items object size h whole v =
      let some_bytes : (size == 0) ≡ false = ground arith in
      rw some_bytes (step (create_node-Created object size s h whole) on_top)
    where
      on_top :
          (r : Option ℕ) (s' : Store)
          → Created s (item object size) (r, s')
          → Returns (Put t s items (items ++ item object size ∷ [])) (link_top t r s')
      on_top none s' ((same, mem), more, short) =
          value (inr (refl, (same, mem), Chained-nodes s s' t.top t.tail items same more v, short))
      on_top (some p) s' made =
          step (link_last-Chained s s' t.top t.tail items (item object size) v p made)
            λ top out (mem, chained).
              value (inl (_, refl, refl, rw mem made.3, rw mem made.4, chained))

  from_tail : (p : ℕ) → t.tail ≡ some p → stack_pop (some t) true s ≡ unlink_top t p s
  unfolding stack_pop
  from_tail p e = simp (e)

  unlink_top-Taken :
      (items : List Item) (x : Item) (v : Ending s t.top t.tail items x)
      → Stacked t s (items ++ x ∷ [])
      → Returns (Taken t s x (items ++ x ∷ []) items) (unlink_top t v.p s)
  unfolding unlink_top
  unlink_top-Taken items x v whole =
      let m = s.memory in
      let at_p = load-ok v.p s (node x none v.before.mid) v.before.here in
      elim (Bool-cases (m.grant m.calls)) [
        | inl got ↦
            rw (at_p, got)
              (step
                (unlink_last-Chained t.destroy s t.top t.tail items x v
                  (record m { calls = m.calls + 1; live = m.live + 1 }) (omega arith))
                λ top s' (mem, chained). value (inl (got, (_, refl, refl, mem, chained))))
        | inr refused ↦
            rw (at_p, refused)
              (value (
                inr (
                  refused,
                  refl,
                  Chained-nodes s (record s { memory = record m { calls = m.calls + 1 } }) t.top
                      t.tail (items ++ x ∷ []) refl (omega arith) whole,
                )))
      ]

  -- `stack_pop` on a stack with the item x on top ends without a bad access: it gives x, frees its
  -- node and keeps the items below, or the block for the copy was refused and the stack is as it was.
  pub stack_pop-Taken :
      (items : List Item) (x : Item)
      → Stacked t s (items ++ x ∷ [])
      → Returns (Taken t s x (items ++ x ∷ []) items) (stack_pop (some t) true s)
  stack_pop-Taken items x v =
      let end = Chained-Ending s t.top t.tail items x v in
      rw (from_tail end.p end.before.at_last) (unlink_top-Taken items x end v)

-- While no request is refused, `stack_pop` after `stack_push` of `size` bytes, at least one, from an
-- object that has them gives those bytes and the size back, and the stack holds the items that it held before both.
pub stack_pop-push :
    (t : Stack) (s : Store) (items : List Item) (object : Bytes) (size : ℕ)
    → 0 < size
    → size ≤ length object
    → AlwaysGrants s.memory
    → Stacked t s items
    → Returns
        (λ r.
          (t' : Stack) × (r.0 ≡ (true, some t', some (item object size))) × Stacked t' r.1 items)
        ((stack_push (some t) (some object) size >>= λ r. stack_pop r.1 true) s)
stack_pop-push t s items object size h whole all v =
    step (stack_push-Put t s items object size h whole v) λ out s' put. elim put [
      | inl (t', e, same, grants, live, v') ↦ rw e (
          weaken (stack_pop-Taken t' s' items (item object size) v') λ r taken. elim taken [
            | inl (got, (t'', e', same', mem, v'')) ↦ (t'', e', v'')
            | inr (refused, e', v'') ↦
                elim (true≢false (sym (grants all s'.memory.calls) ∙ refused)) [ ]
          ])
      | inr (e, kept, v', short) ↦ elim (short all) [ ]
    ]
