-- ===== src/Deque/Tests.antt =====
-- The theorems on src/deque/deque.c at a deque of two items.
use c2x_examples.Base.{
  ℕ, ◌+◌, ◌-◌, ◌*◌, ◌≡◌, refl, true, false, none, some, List, [], ◌∷◌, length, arith,
}
use c2x_examples.Run.{ok, Returns}
use c2x_examples.Nodes.Seg.{Outside}
use c2x_examples.Nodes.Create.{item}
use c2x_examples.Nodes.Walk.{Gone}
use c2x_examples.Nodes.Samples.{ann, bob, two_nodes, two_nodes-Chained, two_nodes-AlwaysGrants}
use c2x_examples.Deque.{
  Deque, deque_push_back, deque_push_front, deque_pop_back, deque_pop_front, deque_print_backward,
  deque_print_forward, deque_free,
}
use c2x_examples.Deque.Pushes.{Holds, Pushed, deque_push_back-Pushed, deque_push_front-Pushed}
use c2x_examples.Deque.Pops.{Popped, deque_pop_back-Popped, deque_pop_front-Popped}
use c2x_examples.Deque.Walks.{
  deque_print_forward-order, deque_print_backward-order, deque_free-frees,
}
use c2x_examples.Deque.Requests.{
  Request, push_back, push_front, pop_back, pop_front, peek_back, peek_front, count, done, copied,
  counted, serve_all, AllReadable, promise, promise_all, unsnoc, fitting, pushed,
}
use c2x_examples.Deque.Requests.Kept.{serve_all-refines}

abbrev pair : Deque
pair = record { top = some 0; tail = some 2; destroy = true; count = 2 }

pair-Holds : Holds pair two_nodes (ann ∷ bob ∷ [])
pair-Holds = record { held = two_nodes-Chained; counted = refl }

deque_push_back-Pushed_example :
    Returns
      (Pushed pair two_nodes (ann ∷ bob ∷ []) (ann ∷ bob ∷ item (7 ∷ []) 1 ∷ []))
      (deque_push_back (some pair) (some (7 ∷ [])) 1 two_nodes)
deque_push_back-Pushed_example =
    deque_push_back-Pushed pair two_nodes (ann ∷ bob ∷ []) (7 ∷ []) 1 (omega arith) (omega arith)
      pair-Holds

seven_in_front :
    Returns
      (Pushed pair two_nodes (ann ∷ bob ∷ []) (item (7 ∷ []) 1 ∷ ann ∷ bob ∷ []))
      (deque_push_front (some pair) (some (7 ∷ [])) 1 two_nodes)
seven_in_front =
    deque_push_front-Pushed pair two_nodes (ann ∷ bob ∷ []) (7 ∷ []) 1 (omega arith) (omega arith)
      pair-Holds

second_out :
    Returns (Popped pair two_nodes 8 bob (ann ∷ [])) (deque_pop_back (some pair) true 8 two_nodes)
second_out = deque_pop_back-Popped pair two_nodes 8 bob (ann ∷ []) pair-Holds

first_out :
    Returns (Popped pair two_nodes 8 ann (bob ∷ [])) (deque_pop_front (some pair) true 8 two_nodes)
first_out = deque_pop_front-Popped pair two_nodes 8 ann (bob ∷ []) pair-Holds

forward_printed :
    deque_print_forward 3 (some pair) true two_nodes ≡ ok ((1 ∷ []) ∷ (2 ∷ 3 ∷ []) ∷ [], two_nodes)
forward_printed =
    deque_print_forward-order pair two_nodes (ann ∷ bob ∷ []) 3 pair-Holds (omega arith)

deque_print_backward-order_example :
    deque_print_backward 3 (some pair) true two_nodes ≡ ok ((2 ∷ 3 ∷ []) ∷ (1 ∷ []) ∷ [], two_nodes)
deque_print_backward-order_example =
    deque_print_backward-order pair two_nodes (ann ∷ bob ∷ []) 3 pair-Holds (omega arith)

deque_free-frees_example :
    Returns
      (λ r.
        ((a : ℕ) → Outside a pair-Holds.held.cells → r.1.nodes a ≡ two_nodes.nodes a)
        × Gone r.1.nodes pair-Holds.held.cells
        × (r.1.memory.live ≡ 5 - (2 * length (ann ∷ bob ∷ []) + 1))
        × (r.1.memory.destroyed ≡ (2 ∷ 3 ∷ []) ∷ (1 ∷ []) ∷ []))
      (deque_free 3 (some pair) two_nodes)
deque_free-frees_example =
    deque_free-frees pair two_nodes (ann ∷ bob ∷ []) 3 pair-Holds (omega arith)

abbrev history : List Request
history =
    pop_back 8
    ∷ push_front (some (7 ∷ [])) 1
    ∷ peek_back 1
    ∷ peek_front 0
    ∷ count
    ∷ pop_front 4
    ∷ pop_front 4
    ∷ pop_back 4
    ∷ push_back none 3
    ∷ []

history_readable : AllReadable history
history_readable = (tt, (omega arith, (tt, (tt, (tt, (tt, (tt, (tt, (tt, tt)))))))))

serve_all-refines_example :
    Returns
      (λ r.
        (d' : Deque) × (r.0 ≡ ((promise_all history (ann ∷ bob ∷ [])).0, some d'))
        × Holds d' r.1 (promise_all history (ann ∷ bob ∷ [])).1)
      (serve_all history (some pair) two_nodes)
serve_all-refines_example =
    serve_all-refines history pair two_nodes (ann ∷ bob ∷ []) history_readable
      two_nodes-AlwaysGrants pair-Holds

promised : promise_all history (ann ∷ bob ∷ []) ≡ (
  copied true (some bob)
      ∷ done true
      ∷ copied true (some ann)
      ∷ copied false none
      ∷ counted 2
      ∷ copied true (some (item (7 ∷ []) 1))
      ∷ copied true (some ann)
      ∷ copied false none
      ∷ done false
      ∷ [],
  [],
)
unfolding promise_all promise unsnoc fitting pushed
promised = refl
