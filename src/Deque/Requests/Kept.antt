-- ===== src/Deque/Requests/Kept.antt =====
-- The requests of Deque/Requests.antt keep what they promise.
use mathlib.Core.Path.{subst}
use c2x_examples.Base.{
  ℕ, ◌==◌, ltb, ◌≡◌, ◌⊎◌, refl, ap, Bool, true, false, Option, none, some, Bytes, List, [], ◌∷◌,
  ◌++◌, arith, Bool-cases, inl, inr,
}
use c2x_examples.Memory.{AlwaysGrants}
use c2x_examples.Run.{ok, Returns, value}
use c2x_examples.Nodes.{Item, Store, Cmd}
use c2x_examples.Nodes.Seg.{node}
use c2x_examples.Nodes.Create.{item, step, load-ok}
use c2x_examples.Deque.{
  Deque, Copied, deque_push_back, deque_push_front, deque_pop_back, deque_pop_front,
  deque_peek_front, deque_peek_back, deque_count, peek_at,
}
use c2x_examples.Deque.Pushes.{Holds, Pushed, deque_push_back-Pushed, deque_push_front-Pushed}
use c2x_examples.Deque.Pops.{Popped, deque_pop_back-Popped, deque_pop_front-Popped}
use c2x_examples.Deque.Ends.{
  push_back-none, push_back-zero, push_front-none, push_front-zero, no_ends, last_node, first_node,
  pop_back-none, pop_front-none, peek_back-at, peek_front-at,
}
use c2x_examples.Deque.Requests.{
  Request, push_back, push_front, pop_back, pop_front, peek_back, peek_front, count, Answer, done,
  copied, counted, serve, serve_all, unsnoc, pushed, fitting, promise, promise_all, Kept, Readable,
  AllReadable, after_push, after_pop, after_peek,
}

unsnoc-view :
    {A : Type 0} (xs : List A)
    → ((unsnoc xs ≡ none) × (xs ≡ []))
      ⊎ ((init : List A) × (y : A) × (unsnoc xs ≡ some (init, y)) × (xs ≡ init ++ y ∷ []))
unfolding unsnoc
unsnoc-view [] = inl (refl, refl)
unsnoc-view (x ∷ xs) = elim (unsnoc-view xs) [
  | inl (e, empty) ↦ inr ([], x, rw e refl, ap (◌∷◌ x) empty)
  | inr (init, y, e, split) ↦ inr (x ∷ init, y, rw e refl, ap (◌∷◌ x) split)
]

module _ (d : Deque) (s : Store) (items : List Item) (all : AlwaysGrants s.memory)
    (v : Holds d s items) where
  Kept-as_is : (a : Answer) → Kept d (a, items) ((a, some d), s)
  Kept-as_is a = (d, refl, refl, all, v)

  push-Kept :
      (new : List Item) (c : Cmd (Bool × Option Deque))
      → Returns (Pushed d s items new) (c s)
      → Returns (Kept d (done true, new)) (after_push c s)
  unfolding after_push
  push-Kept new c r = step r λ out s' p. elim p [
    | inl (d', e, same, grants, live, v') ↦
        value (d', ap (λ o. (done o.0, o.1)) e, same, grants all, v')
    | inr (e, kept, v', short) ↦ elim (short all) [ ]
  ]

  turned_down :
      (c : Cmd (Bool × Option Deque))
      → c s ≡ ok ((false, some d), s)
      → Returns (Kept d (done false, items)) (after_push c s)
  unfolding after_push
  turned_down c e = rw e (value (Kept-as_is (done false)))

  pop-Kept :
      (size_val : ℕ) (x : Item) (rest : List Item) (c : Cmd (Bool × Option Deque × Copied))
      → Returns (Popped d s size_val x rest) (c s)
      → Returns (Kept d (fitting size_val x rest items)) (after_pop c s)
  unfolding after_pop fitting
  pop-Kept size_val x rest c r = step r λ out s' p. elim p [
    | inl (fits, (d', e, same, mem, v')) ↦
        let long : ltb size_val x.size ≡ false = ground arith in
        rw long (value (d', ap (λ o. (copied o.0 o.2, o.1)) e, same, rw mem all, v'))
    | inr (short, e) ↦
        let long : ltb size_val x.size ≡ true = ground arith in
        rw (long, ap (λ r. r.0) e, ap (λ r. r.1) e) (value (Kept-as_is (copied false none)))
  ]

  peek-Kept :
      (size : ℕ) (x : Item) (p : ℕ) (next prev : Option ℕ)
      → s.nodes p ≡ some (node x next prev)
      → Returns (Kept d (fitting size x items items)) (after_peek d (peek_at (some p) size) s)
  unfolding after_peek fitting peek_at
  peek-Kept size x p next prev e = elim (Bool-cases (ltb size x.size)) [
    | inl short ↦
        rw (load-ok p s (node x next prev) e, short) (value (Kept-as_is (copied false none)))
    | inr fits ↦
        rw (load-ok p s (node x next prev) e, fits) (value (Kept-as_is (copied true (some x))))
  ]

  push_back-Kept :
      (object : Option Bytes) (size : ℕ)
      → Readable (push_back object size)
      → Returns (Kept d (promise (push_back object size) items)) (serve (push_back object size) d s)
  unfolding promise serve pushed
  push_back-Kept none size whole =
      turned_down (deque_push_back (some d) none size) (push_back-none d s size)
  push_back-Kept (some object) size whole = elim (Bool-cases (size == 0)) [
    | inl e ↦ rw e (
        turned_down (deque_push_back (some d) (some object) size)
          (push_back-zero d s object size e))
    | inr e ↦ rw e (
        push-Kept (items ++ item object size ∷ []) (deque_push_back (some d) (some object) size)
          (deque_push_back-Pushed d s items object size (ground arith) whole v))
  ]

  push_front-Kept :
      (object : Option Bytes) (size : ℕ)
      → Readable (push_front object size)
      → Returns
          (Kept d (promise (push_front object size) items))
          (serve (push_front object size) d s)
  unfolding promise serve pushed
  push_front-Kept none size whole =
      turned_down (deque_push_front (some d) none size) (push_front-none d s size)
  push_front-Kept (some object) size whole = elim (Bool-cases (size == 0)) [
    | inl e ↦ rw e (
        turned_down (deque_push_front (some d) (some object) size)
          (push_front-zero d s object size e))
    | inr e ↦ rw e (
        push-Kept (item object size ∷ items) (deque_push_front (some d) (some object) size)
          (deque_push_front-Pushed d s items object size (ground arith) whole v))
  ]

module _ (d : Deque) (s : Store) (all : AlwaysGrants s.memory) where
  none-Kept :
      (c : Cmd (Bool × Option Deque × Copied))
      → Holds d s []
      → c s ≡ ok ((false, some d, none), s)
      → Returns (Kept d (copied false none, [])) (after_pop c s)
  unfolding after_pop
  none-Kept c v e = rw e (value (Kept-as_is d s [] all v (copied false none)))

  no_peek-Kept :
      (size : ℕ) (c : Cmd (Bool × Copied))
      → Holds d s []
      → c s ≡ peek_at none size s
      → Returns (Kept d (copied false none, [])) (after_peek d c s)
  unfolding after_peek peek_at
  no_peek-Kept size c v e = rw e (value (Kept-as_is d s [] all v (copied false none)))

  pop_front-Kept :
      (size_val : ℕ) (items : List Item)
      → Holds d s items
      → Returns (Kept d (promise (pop_front size_val) items)) (serve (pop_front size_val) d s)
  unfolding promise serve
  pop_front-Kept size_val [] v =
      none-Kept (deque_pop_front (some d) true size_val) v
        (pop_front-none d s size_val (no_ends d s v).0)
  pop_front-Kept size_val (x ∷ rest) v =
      pop-Kept d s (x ∷ rest) all v size_val x rest (deque_pop_front (some d) true size_val)
        (deque_pop_front-Popped d s size_val x rest v)

  pop_back-Kept :
      (size_val : ℕ) (items : List Item)
      → Holds d s items
      → Returns (Kept d (promise (pop_back size_val) items)) (serve (pop_back size_val) d s)
  unfolding promise serve
  pop_back-Kept size_val items v = elim (unsnoc-view items) [
    | inl (e, empty) ↦
        let v' : Holds d s [] = subst (Holds d s) empty v in
        rw (e, empty)
          (none-Kept (deque_pop_back (some d) true size_val) v'
            (pop_back-none d s size_val (no_ends d s v').1))
    | inr (init, x, e, split) ↦ rw e (
        pop-Kept d s items all v size_val x init (deque_pop_back (some d) true size_val)
          (deque_pop_back-Popped d s size_val x init (subst (Holds d s) split v)))
  ]

  peeked :
      (size : ℕ) (items : List Item) (x : Item) (p : ℕ) (next prev : Option ℕ)
      (c : Cmd (Bool × Copied))
      → Holds d s items
      → s.nodes p ≡ some (node x next prev)
      → c s ≡ peek_at (some p) size s
      → Returns (Kept d (fitting size x items items)) (after_peek d c s)
  unfolding after_peek
  peeked size items x p next prev c v here e =
      rw e (peek-Kept d s items all v size x p next prev here)

  peek_front-Kept :
      (size : ℕ) (items : List Item)
      → Holds d s items
      → Returns (Kept d (promise (peek_front size) items)) (serve (peek_front size) d s)
  unfolding promise serve
  peek_front-Kept size [] v =
      no_peek-Kept size (deque_peek_front (some d) true size) v
        (peek_front-at d s size none (no_ends d s v).0)
  peek_front-Kept size (x ∷ rest) v =
      let (p, next, at_top, here) = first_node d s rest x v in
      peeked size (x ∷ rest) x p next none (deque_peek_front (some d) true size) v here
        (peek_front-at d s size (some p) at_top)

  peek_back-Kept :
      (size : ℕ) (items : List Item)
      → Holds d s items
      → Returns (Kept d (promise (peek_back size) items)) (serve (peek_back size) d s)
  unfolding promise serve
  peek_back-Kept size items v = elim (unsnoc-view items) [
    | inl (e, empty) ↦
        let v' : Holds d s [] = subst (Holds d s) empty v in
        rw (e, empty)
          (no_peek-Kept size (deque_peek_back (some d) true size) v'
            (peek_back-at d s size none (no_ends d s v').1))
    | inr (init, x, e, split) ↦
        let (p, prev, at_tail, here) = last_node d s init x (subst (Holds d s) split v) in
        rw e (
          peeked size items x p none prev (deque_peek_back (some d) true size) v here
            (peek_back-at d s size (some p) at_tail))
  ]

serve-Kept :
    (r : Request) (d : Deque) (s : Store) (items : List Item)
    → Readable r
    → AlwaysGrants s.memory
    → Holds d s items
    → Returns (Kept d (promise r items)) (serve r d s)
unfolding promise serve deque_count
serve-Kept (push_back object size) d s items whole all v =
    push_back-Kept d s items all v object size whole
serve-Kept (push_front object size) d s items whole all v =
    push_front-Kept d s items all v object size whole
serve-Kept (pop_back size_val) d s items whole all v = pop_back-Kept d s all size_val items v
serve-Kept (pop_front size_val) d s items whole all v = pop_front-Kept d s all size_val items v
serve-Kept (peek_back size) d s items whole all v = peek_back-Kept d s all size items v
serve-Kept (peek_front size) d s items whole all v = peek_front-Kept d s all size items v
serve-Kept count d s items whole all v =
    value (d, ap (λ n. (counted n, some d)) v.counted, refl, all, v)

-- While no request for memory fails and every object pushed has the bytes asked for, a deque that holds items serves any history of pushes, pops,
-- peeks and counts without a bad access: it gives the answers that a plain list of the items promises
-- (refused pushes of no bytes, an empty deque and too short buffers among them) and holds the items
-- that the list has at the end.
pub serve_all-refines :
    (requests : List Request) (d : Deque) (s : Store) (items : List Item)
    → AllReadable requests
    → AlwaysGrants s.memory
    → Holds d s items
    → Returns
        (λ r.
          (d' : Deque) × (r.0 ≡ ((promise_all requests items).0, some d'))
          × Holds d' r.1 (promise_all requests items).1)
        (serve_all requests (some d) s)
unfolding serve_all promise_all
serve_all-refines [] d s items whole all v = value (d, refl, v)
serve_all-refines (r ∷ later) d s items (whole, wholes) all v =
    step (serve-Kept r d s items whole all v) λ a s' (d', e, same, all', v'). rw e (
      step (serve_all-refines later d' s' (promise r items).1 wholes all' v')
        λ b s'' (d'', e', v''). value (d'', ap (λ b. ((promise r items).0 ∷ b.0, b.1)) e', v''))
