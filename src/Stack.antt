-- ===== src/Stack.antt =====
-- src/stack/stack.c: a stack on doubly linked nodes, whose top is the last node.
pub mod Laws
pub mod Walks
mod Tests
use c2x_examples.Base.{
  ℕ, zero, suc, ◌==◌, Bool, true, false, Option, none, some, Bytes, List, [], if◌then◌else◌,
}
use c2x_examples.Memory.{malloc, free}
use c2x_examples.Nodes.{
  Item, Node, Cmd, pure, ◌>>=◌, ◌>>◌, lift, load, create_node, link_last, unlink_last, free_loop,
  backward_loop,
}

pub record Stack : Type 0 where
  pub top : Option ℕ
  pub tail : Option ℕ
  pub destroy : Bool

-- `stack` says whether the pointer is not null; what is written through it is a result.
pub stack_init : (stack : Bool) → Bool → Cmd (Bool × Option Stack)
stack_init false destroy = pure (false, none)
stack_init true destroy = do
  got ← lift malloc
  pure (got, (if got then some (record { top = none; tail = none; destroy = destroy }) else none))

pub stack_free : ℕ → Option Stack → Cmd (Unit {0})
stack_free k none = pure tt
stack_free k (some t) = free_loop k t.destroy t.top >> lift free

-- What follows `create_node` in `stack_push`.
pub link_top : Stack → Option ℕ → Cmd (Bool × Option Stack)
link_top t none = pure (false, some t)
link_top t (some p) = do
  top ← link_last t.top t.tail p
  pure (true, some (record t { top = top; tail = some p }))

pub stack_push : Option Stack → Option Bytes → ℕ → Cmd (Bool × Option Stack)
stack_push none object size = pure (false, none)
stack_push (some t) none size = pure (false, some t)
stack_push (some t) (some object) size =
    if size == 0 then pure (false, some t) else create_node (some object) size >>= link_top t

-- What `stack_pop` does to the last node: the copy it hands out is a new block.
pub unlink_top : Stack → ℕ → Cmd (Bool × Option Stack × Option Item)
unlink_top t p = do
  n ← load p
  got ← lift malloc
  if got
      then (do
        top ← unlink_last t.destroy t.top n.prev p
        pure (true, some (record t { top = top; tail = n.prev }), some n.item))
      else pure (false, some t, none)

-- `targets` says whether `data` and `size` are not null.
pub stack_pop : Option Stack → (targets : Bool) → Cmd (Bool × Option Stack × Option Item)
stack_pop none targets = pure (false, none, none)
stack_pop (some t) false = pure (false, some t, none)
stack_pop (some t) true = elim t.tail [
  | none ↦ pure (false, some t, none)
  | some p ↦ unlink_top t p
]

pub stack_print : ℕ → Option Stack → (print : Bool) → Cmd (List Bytes)
stack_print k none print = pure []
stack_print k (some t) print = if print then backward_loop k t.tail else pure []
