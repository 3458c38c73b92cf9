-- ===== src/Stack/Tests.antt =====
-- The theorems on src/stack/stack.c at a stack of two items.
use c2x_examples.Base.{ℕ, ◌-◌, ◌+◌, ◌*◌, length, ◌≡◌, true, false, some, [], ◌∷◌, arith}
use c2x_examples.Run.{ok, Returns}
use c2x_examples.Nodes.{◌>>=◌}
use c2x_examples.Nodes.Seg.{Outside}
use c2x_examples.Nodes.Walk.{Gone}
use c2x_examples.Nodes.Create.{item}
use c2x_examples.Nodes.Samples.{ann, bob, two_nodes, two_nodes-Chained, two_nodes-AlwaysGrants}
use c2x_examples.Stack.{Stack, stack_push, stack_pop, stack_print, stack_free}
use c2x_examples.Stack.Laws.{Stacked, Put, Taken, stack_push-Put, stack_pop-Taken, stack_pop-push}
use c2x_examples.Stack.Walks.{stack_print-order, stack_free-frees}

abbrev two : Stack
two = record { top = some 0; tail = some 2; destroy = false }

seven_on_top :
    Returns
      (Put two two_nodes (ann ∷ bob ∷ []) (ann ∷ bob ∷ item (7 ∷ []) 1 ∷ []))
      (stack_push (some two) (some (7 ∷ [])) 1 two_nodes)
seven_on_top =
    stack_push-Put two two_nodes (ann ∷ bob ∷ []) (7 ∷ []) 1 (omega arith) (omega arith)
      two_nodes-Chained

stack_pop-Taken_example :
    Returns
      (Taken two two_nodes bob (ann ∷ bob ∷ []) (ann ∷ []))
      (stack_pop (some two) true two_nodes)
stack_pop-Taken_example = stack_pop-Taken two two_nodes (ann ∷ []) bob two_nodes-Chained

stack_pop-push_example :
    Returns
      (λ r.
        (t' : Stack) × (r.0 ≡ (true, some t', some (item (7 ∷ []) 1)))
        × Stacked t' r.1 (ann ∷ bob ∷ []))
      ((stack_push (some two) (some (7 ∷ [])) 1 >>= λ r. stack_pop r.1 true) two_nodes)
stack_pop-push_example =
    stack_pop-push two two_nodes (ann ∷ bob ∷ []) (7 ∷ []) 1 (omega arith) (omega arith)
      two_nodes-AlwaysGrants two_nodes-Chained

printed_down :
    stack_print 3 (some two) true two_nodes ≡ ok ((2 ∷ 3 ∷ []) ∷ (1 ∷ []) ∷ [], two_nodes)
printed_down = stack_print-order two two_nodes (ann ∷ bob ∷ []) 3 two_nodes-Chained (omega arith)

two_freed :
    Returns
      (λ r.
        ((a : ℕ) → Outside a two_nodes-Chained.cells → r.1.nodes a ≡ two_nodes.nodes a)
        × Gone r.1.nodes two_nodes-Chained.cells
        × (r.1.memory.live ≡ 5 - (2 * length (ann ∷ bob ∷ []) + 1))
        × (r.1.memory.destroyed ≡ []))
      (stack_free 3 (some two) two_nodes)
two_freed = stack_free-frees two two_nodes (ann ∷ bob ∷ []) 3 two_nodes-Chained (omega arith)
