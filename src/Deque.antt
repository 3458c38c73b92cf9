-- ===== src/Deque.antt =====
-- src/deque/deque.c: a queue with two ends on doubly linked nodes. Where a result pointer is null
-- only the test matters, so it is a Bool; what is copied through it is a result.
pub mod Pushes
pub mod Pops
pub mod Walks
pub mod Ends
pub mod Requests
mod Tests
use c2x_examples.Base.{
  ℕ, zero, suc, ◌==◌, ltb, ◌≡◌, not, ◌&&◌, ◌||◌, Bool, true, false, Option, none, some, Bytes, List,
  [], ◌∷◌, if◌then◌else◌, incr, decr,
}
use c2x_examples.Memory.{M, malloc, free}
use c2x_examples.Run.{Run, ok, out_of_fuel}
use c2x_examples.Nodes.{
  Item, Node, Store, Cmd, pure, ◌>>=◌, ◌>>◌, lift, load, set_next, set_prev, create_node, release,
  first_of, end_of, link_last, unlink_last, free_loop, forward_loop, backward_loop,
}

pub record Deque : Type 0 where
  pub top : Option ℕ
  pub tail : Option ℕ
  pub destroy : Bool
  pub count : ℕ

-- `deque` says whether the pointer is not null.
pub deque_init : (deque : Bool) → Bool → Cmd (Bool × Option Deque)
deque_init false destroy = pure (false, none)
deque_init true destroy = do
  got ← lift malloc
  pure (
    got,
    (if got then some (record { top = none; tail = none; destroy = destroy; count = 0 }) else none),
  )

pub deque_free : ℕ → Option Deque → Cmd (Unit {0})
deque_free k none = pure tt
deque_free k (some d) = free_loop k d.destroy d.top >> lift free

pub link_back : Deque → Option ℕ → Cmd (Bool × Option Deque)
link_back d none = pure (false, some d)
link_back d (some p) = do
  top ← link_last d.top d.tail p
  pure (true, some (record d { top = top; tail = some p; count = incr d.count }))

pub deque_push_back : Option Deque → Option Bytes → ℕ → Cmd (Bool × Option Deque)
deque_push_back none object size = pure (false, none)
deque_push_back (some d) none size = pure (false, some d)
deque_push_back (some d) (some object) size =
    if size == 0 then pure (false, some d) else create_node (some object) size >>= link_back d

abbrev pub join_top : Option ℕ → ℕ → Cmd (Unit {0})
join_top none p = pure tt
join_top (some t) p = set_prev t (some p)

pub link_front : Deque → Option ℕ → Cmd (Bool × Option Deque)
link_front d none = pure (false, some d)
link_front d (some p) = do
  set_next p d.top
  set_prev p none
  join_top d.top p
  pure
      (true, some (record d { top = some p; tail = first_of d.top d.tail p; count = incr d.count }))

pub deque_push_front : Option Deque → Option Bytes → ℕ → Cmd (Bool × Option Deque)
deque_push_front none object size = pure (false, none)
deque_push_front (some d) none size = pure (false, some d)
deque_push_front (some d) (some object) size =
    if size == 0 then pure (false, some d) else create_node (some object) size >>= link_front d

-- What a pop or a peek copies: the object and its size.
abbrev pub Copied : Type 0
Copied = Option Item

abbrev pub cut_prev : Option ℕ → Cmd (Unit {0})
cut_prev none = pure tt
cut_prev (some q) = set_prev q none

pub unlink_back : Deque → ℕ → ℕ → Cmd (Bool × Option Deque × Copied)
unlink_back d size_val p = do
  n ← load p
  if ltb size_val n.item.size then pure (false, some d, none) else (do
    top ← unlink_last d.destroy d.top n.prev p
    pure (true, some (record d { top = top; tail = n.prev; count = decr d.count }), some n.item))

-- `targets` says whether `data` and `size` are not null.
pub deque_pop_back : Option Deque → (targets : Bool) → ℕ → Cmd (Bool × Option Deque × Copied)
deque_pop_back none targets size_val = pure (false, none, none)
deque_pop_back (some d) false size_val = pure (false, some d, none)
deque_pop_back (some d) true size_val = elim d.tail [
  | none ↦ pure (false, some d, none)
  | some p ↦ unlink_back d size_val p
]

pub unlink_front : Deque → ℕ → ℕ → Cmd (Bool × Option Deque × Copied)
unlink_front d size_val p = do
  n ← load p
  if ltb size_val n.item.size then pure (false, some d, none) else (do
    cut_prev n.next
    release d.destroy p
    pure (
      true,
      some (record d { top = n.next; tail = end_of n.next d.tail; count = decr d.count }),
      some n.item,
    ))

pub deque_pop_front : Option Deque → (targets : Bool) → ℕ → Cmd (Bool × Option Deque × Copied)
deque_pop_front none targets size_val = pure (false, none, none)
deque_pop_front (some d) false size_val = pure (false, some d, none)
deque_pop_front (some d) true size_val = elim d.top [
  | none ↦ pure (false, some d, none)
  | some p ↦ unlink_front d size_val p
]

-- The object at a node that is to be copied into `size` bytes.
pub peek_at : Option ℕ → ℕ → Cmd (Bool × Copied)
peek_at none size = pure (false, none)
peek_at (some p) size = do
  n ← load p
  if ltb size n.item.size then pure (false, none) else pure (true, some n.item)

pub deque_peek_front : Option Deque → (target : Bool) → ℕ → Cmd (Bool × Copied)
deque_peek_front none target size = pure (false, none)
deque_peek_front (some d) target size = if target then peek_at d.top size else pure (false, none)

pub deque_peek_back : Option Deque → (target : Bool) → ℕ → Cmd (Bool × Copied)
deque_peek_back none target size = pure (false, none)
deque_peek_back (some d) target size = if target then peek_at d.tail size else pure (false, none)

pub deque_count : Option Deque → ℕ
deque_count none = 0
deque_count (some d) = d.count

pub deque_print_forward : ℕ → Option Deque → (print : Bool) → Cmd (List Bytes)
deque_print_forward k none print = pure []
deque_print_forward k (some d) print = if print then forward_loop k d.top else pure []

pub deque_print_backward : ℕ → Option Deque → (print : Bool) → Cmd (List Bytes)
deque_print_backward k none print = pure []
deque_print_backward k (some d) print = if print then backward_loop k d.tail else pure []
