-- ===== src/Stack/Walks.antt =====
-- `stack_print` and `stack_free` of src/stack/stack.c.
use mathlib.Core.List.{reverse}
use c2x_examples.Base.{
  ℕ, ◌+◌, ◌-◌, ◌*◌, ◌≡◌, ◌<◌, true, some, List, ◌++◌, map, length, if◌then◌else◌, arith,
}
use c2x_examples.Run.{ok, Returns, value}
use c2x_examples.Nodes.{Item, Store}
use c2x_examples.Nodes.Seg.{Outside}
use c2x_examples.Nodes.Create.{step}
use c2x_examples.Nodes.Walk.{data_of, Gone, backward-items, free_loop-items}
use c2x_examples.Stack.{Stack, stack_print, stack_free}
use c2x_examples.Stack.Laws.{Stacked}

module _ (t : Stack) (s : Store) (items : List Item) (k : ℕ) (v : Stacked t s items)
    (h : length items < k) where
  -- On a stack that holds items, `stack_print` ends within a round more than there are items, hands
  -- over their objects from the top down and changes nothing.
  pub stack_print-order : stack_print k (some t) true s ≡ ok (reverse (map data_of items), s)
  unfolding stack_print
  stack_print-order = backward-items s t.top t.tail items k v h

  -- `stack_free` on a stack that holds items ends within a round more than there are items, without a
  -- bad access and without a double free: it frees each of the nodes and no other, gives back two
  -- blocks for each item and one for the stack, and hands the objects to the destroy callback from the
  -- bottom up if there is one.
  pub stack_free-frees :
      Returns
        (λ r.
          ((a : ℕ) → Outside a v.cells → r.1.nodes a ≡ s.nodes a)
          × Gone r.1.nodes v.cells
          × (r.1.memory.live ≡ s.memory.live - (2 * length items + 1))
          × (r.1.memory.destroyed ≡ (
              if t.destroy
              then reverse (map data_of items) ++ s.memory.destroyed
              else s.memory.destroyed)))
        (stack_free k (some t) s)
  unfolding stack_free
  stack_free-frees =
      step (free_loop-items s t.top t.tail items k v h t.destroy)
        λ _ s' (kept, gone, live, handed). value (kept, gone, omega (arith, live), handed)
