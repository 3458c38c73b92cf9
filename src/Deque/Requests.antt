-- ===== src/Deque/Requests.antt =====
-- src/deque/deque.c as a service: a history of requests on a deque, and what it promises of the plain
-- list of its items.
pub mod Kept
use mathlib.Core.Path.{subst}
use c2x_examples.Base.{
  ℕ, zero, suc, ◌==◌, ◌%◌, ltb, ◌≡◌, ◌≤◌, ◌<◌, refl, sym, ap, ◌∙◌, Bool, true, false, Option, none,
  some, Bytes, List, [], ◌∷◌, ◌++◌, length, if◌then◌else◌, arith, Bool-cases, inl, inr, size_mod,
}
use c2x_examples.Memory.{Memory, AlwaysGrants}
use c2x_examples.Run.{Run, ok, Returns, value}
use c2x_examples.Nodes.{Item, Store, Cmd, pure, ◌>>=◌}
use c2x_examples.Nodes.Create.{item, step}
use c2x_examples.Deque.{
  Deque, Copied, deque_push_back, deque_push_front, deque_pop_back, deque_pop_front,
  deque_peek_front, deque_peek_back, deque_count,
}
use c2x_examples.Deque.Pushes.{Holds, Pushed, deque_push_back-Pushed, deque_push_front-Pushed}
use c2x_examples.Deque.Pops.{Popped, deque_pop_back-Popped, deque_pop_front-Popped}

pub data Request : Type 0 where
  push_back : Option Bytes → ℕ → Request
  push_front : Option Bytes → ℕ → Request
  pop_back : ℕ → Request
  pop_front : ℕ → Request
  peek_back : ℕ → Request
  peek_front : ℕ → Request
  count : Request

pub data Answer : Type 0 where
  done : Bool → Answer
  copied : Bool → Copied → Answer
  counted : ℕ → Answer

-- The calls on a deque, which hand it on.
pub after_push : Cmd (Bool × Option Deque) → Cmd (Answer × Option Deque)
after_push c = do r ← c; pure (done r.0, r.1)

pub after_pop : Cmd (Bool × Option Deque × Copied) → Cmd (Answer × Option Deque)
after_pop c = do r ← c; pure (copied r.0 r.2, r.1)

pub after_peek : Deque → Cmd (Bool × Copied) → Cmd (Answer × Option Deque)
after_peek d c = do r ← c; pure (copied r.0 r.1, some d)

pub serve : Request → Deque → Cmd (Answer × Option Deque)
serve (push_back object size) d = after_push (deque_push_back (some d) object size)
serve (push_front object size) d = after_push (deque_push_front (some d) object size)
serve (pop_back size_val) d = after_pop (deque_pop_back (some d) true size_val)
serve (pop_front size_val) d = after_pop (deque_pop_front (some d) true size_val)
serve (peek_back size) d = after_peek d (deque_peek_back (some d) true size)
serve (peek_front size) d = after_peek d (deque_peek_front (some d) true size)
serve count d = pure (counted (deque_count (some d)), some d)

pub serve_all : List Request → Option Deque → Cmd (List Answer × Option Deque)
serve_all [] d = pure ([], d)
serve_all (r ∷ later) none = pure ([], none)
serve_all (r ∷ later) (some d) = do
  a ← serve r d
  rest ← serve_all later a.1
  pure (a.0 ∷ rest.0, rest.1)

-- The same on a list.
unfoldable pub unsnoc : {A : Type 0} → List A → Option (List A × A)
unsnoc [] = none
unsnoc (x ∷ xs) = elim (unsnoc xs) [ none ↦ some ([], x) | some (init, y) ↦ some (x ∷ init, y) ]

unfoldable pub pushed : (Item → List Item) → List Item → Option Bytes → ℕ → Answer × List Item
pushed put items none size = (done false, items)
pushed put items (some object) size =
    if size == 0 then (done false, items) else (done true, put (item object size))

unfoldable pub fitting : ℕ → Item → (rest items : List Item) → Answer × List Item
fitting size_val x rest items =
    if ltb size_val x.size then (copied false none, items) else (copied true (some x), rest)

abbrev pub from_end : ℕ → List Item → Option (List Item × Item) → Answer × List Item
from_end size_val items none = (copied false none, items)
from_end size_val items (some (init, x)) = fitting size_val x init items

abbrev pub peek_end : ℕ → List Item → Option (List Item × Item) → Answer × List Item
peek_end size items none = (copied false none, items)
peek_end size items (some (init, x)) = fitting size x items items

unfoldable pub promise : Request → List Item → Answer × List Item
promise (push_back object size) items = pushed (λ x. items ++ x ∷ []) items object size
promise (push_front object size) items = pushed (λ x. x ∷ items) items object size
promise (pop_back size_val) items = from_end size_val items (unsnoc items)
promise (pop_front size_val) [] = (copied false none, [])
promise (pop_front size_val) (x ∷ rest) = fitting size_val x rest (x ∷ rest)
promise (peek_back size) items = peek_end size items (unsnoc items)
promise (peek_front size) [] = (copied false none, [])
promise (peek_front size) (x ∷ rest) = fitting size x (x ∷ rest) (x ∷ rest)
promise count items = (counted (length items % size_mod), items)

unfoldable pub promise_all : List Request → List Item → List Answer × List Item
promise_all [] items = ([], items)
promise_all (r ∷ later) items =
    let rest = promise_all later (promise r items).1 in ((promise r items).0 ∷ rest.0, rest.1)

-- An object to be pushed has the bytes asked for.
abbrev pub Readable : Request → Type 0
Readable (push_back (some object) size) = size ≤ length object
Readable (push_front (some object) size) = size ≤ length object
Readable r = Unit {0}

abbrev pub AllReadable : List Request → Type 0
AllReadable [] = Unit {0}
AllReadable (r ∷ later) = Readable r × AllReadable later

-- The answer is the promised one and the deque holds the promised items.
abbrev pub Kept : Deque → Answer × List Item → (Answer × Option Deque) × Store → Type 0
Kept d (a, items) r =
    (d' : Deque) × (r.0 ≡ (a, some d'))
    × (d'.destroy ≡ d.destroy)
    × AlwaysGrants r.1.memory
    × Holds d' r.1 items
