-- ===== src/Deque/Walks.antt =====
-- The printing functions and `deque_free` of src/deque/deque.c, each a walk along the links.
use mathlib.Core.List.{reverse}
use c2x_examples.Base.{
  ℕ, ◌+◌, ◌-◌, ◌*◌, ◌≡◌, ◌<◌, true, some, List, ◌++◌, map, length, if◌then◌else◌, arith,
}
use c2x_examples.Run.{ok, Returns, value}
use c2x_examples.Nodes.{Item, Store}
use c2x_examples.Nodes.Seg.{Outside}
use c2x_examples.Nodes.Create.{step}
use c2x_examples.Nodes.Walk.{data_of, Gone, forward-items, backward-items, free_loop-items}
use c2x_examples.Deque.{Deque, deque_free, deque_print_forward, deque_print_backward}
use c2x_examples.Deque.Pushes.{Holds}

module _ (d : Deque) (s : Store) (items : List Item) (k : ℕ) (v : Holds d s items)
    (h : length items < k) where
  -- On a deque that holds items, `deque_print_forward` ends within a round more than there are items,
  -- hands over their objects from first to last and changes nothing.
  pub deque_print_forward-order : deque_print_forward k (some d) true s ≡ ok (map data_of items, s)
  unfolding deque_print_forward
  deque_print_forward-order = forward-items s d.top d.tail items k v.held h

  -- On a deque that holds items, `deque_print_backward` ends within a round more than there are items,
  -- hands over their objects from last to first and changes nothing.
  pub deque_print_backward-order :
      deque_print_backward k (some d) true s ≡ ok (reverse (map data_of items), s)
  unfolding deque_print_backward
  deque_print_backward-order = backward-items s d.top d.tail items k v.held h

  -- `deque_free` on a deque that holds items ends within a round more than there are items, without a
  -- bad access and without a double free: it frees each of the nodes and no other, gives back two
  -- blocks for each item and one for the deque, and hands the objects to the destroy callback in order
  -- if there is one.
  pub deque_free-frees :
      Returns
        (λ r.
          ((a : ℕ) → Outside a v.held.cells → r.1.nodes a ≡ s.nodes a)
          × Gone r.1.nodes v.held.cells
          × (r.1.memory.live ≡ s.memory.live - (2 * length items + 1))
          × (r.1.memory.destroyed ≡ (
              if d.destroy
              then reverse (map data_of items) ++ s.memory.destroyed
              else s.memory.destroyed)))
        (deque_free k (some d) s)
  unfolding deque_free
  deque_free-frees =
      step (free_loop-items s d.top d.tail items k v.held h d.destroy)
        λ _ s' (kept, gone, live, handed). value (kept, gone, omega (arith, live), handed)
