-- ===== src/Nodes.antt =====
-- The doubly linked nodes that src/deque/deque.c and src/stack/stack.c share the text of: `struct
-- Node_` and `create_node`, on a store of nodes at addresses. An address is the number of the request
-- that gave it, so none is given twice. A pointer is none where it is null; to follow it to an address
-- without a node is a fault.
pub mod Seg
pub mod Create
pub mod Link
pub mod Chain
pub mod Walk
pub mod Samples
use c2x_examples.Base.{
  ℕ, zero, suc, ◌==◌, ◌≡◌, Bool, true, false, Option, none, some, Bytes, List, [], ◌∷◌, take,
  length, ltb, if◌then◌else◌,
}
use c2x_examples.Memory.{Memory, M, malloc, free, call_destroy}
use c2x_examples.Run.{Run, ok, fault, out_of_fuel}

-- `data` is what the pointer shows.
pub record Item : Type 0 where
  pub data_bytes : Bytes
  pub size : ℕ

pub record Node : Type 0 where
  pub item : Item
  pub next : Option ℕ
  pub prev : Option ℕ

pub record Store : Type 0 where
  pub nodes : ℕ → Option Node
  pub memory : Memory

abbrev pub Cmd : Type 0 → Type 0
Cmd A = Store → Run (A × Store)

abbrev pub pure : {A : Type 0} → A → Cmd A
pure a s = ok (a, s)

abbrev pub and_then : {A B : Type 0} → Run (A × Store) → (A → Cmd B) → Run (B × Store)
and_then (ok r) f = f r.0 r.1
and_then fault f = fault
and_then out_of_fuel f = out_of_fuel

infixl 5 ◌>>=◌ ◌>>◌
abbrev pub ◌>>=◌ : {A B : Type 0} → Cmd A → (A → Cmd B) → Cmd B
◌>>=◌ c f s = and_then (c s) f

abbrev pub ◌>>◌ : {B : Type 0} → Cmd (Unit {0}) → Cmd B → Cmd B
c >> k = c >>= λ _. k

-- A call of the allocator or of a callback.
abbrev pub lift : {A : Type 0} → M A → Cmd A
lift c s = ok ((c s.memory).0, record s { memory = (c s.memory).1 })

unfoldable pub update : (ℕ → Option Node) → ℕ → Option Node → ℕ → Option Node
update nodes p c a = if a == p then c else nodes a

abbrev pub found : Option Node → Cmd Node
found none s = fault
found (some n) s = ok (n, s)

-- `*p`
unfoldable pub load : ℕ → Cmd Node
load p s = found (s.nodes p) s

abbrev pub put : ℕ → Option Node → Cmd (Unit {0})
put p c s = ok (tt, record s { nodes = update s.nodes p c })

-- `p->next = q` and `p->prev = q`
unfoldable pub set_next : ℕ → Option ℕ → Cmd (Unit {0})
set_next p q = do n ← load p; put p (some (record n { next = q }))

unfoldable pub set_prev : ℕ → Option ℕ → Cmd (Unit {0})
set_prev p q = do n ← load p; put p (some (record n { prev = q }))

-- `free(p)` of a node.
unfoldable pub free_node : ℕ → Cmd (Unit {0})
free_node p = load p >>= λ _. put p none >> lift free

abbrev pub address : Cmd ℕ
address s = ok (s.memory.calls, s)

-- A node without links that holds a copy. `memcpy` from an object of fewer than `size` bytes is a
-- fault.
unfoldable pub create_node : Option Bytes → ℕ → Cmd (Option ℕ)
create_node none size = pure none
create_node (some object) size = if size == 0 then pure none else do
  p ← address
  got ← lift malloc
  if got
      then (do
        got_data ← lift malloc
        if got_data
            then (if ltb (length object) size
                then (λ s. fault)
                else put p (
                    some (record {
                      item = record { data_bytes = take size object; size = size };
                      next = none;
                      prev = none;
                    }))
                  >> pure (some p))
            else lift free >> pure none)
      else pure none

-- `destroy(n->data)` or `free(n->data)`, then `free(n)`.
unfoldable pub release : Bool → ℕ → Cmd (Unit {0})
release destroy p = do
  n ← load p
  lift (if destroy then call_destroy n.item.data_bytes else free)
  free_node p

abbrev pub join_tail : Option ℕ → ℕ → Cmd (Unit {0})
join_tail none p = pure tt
join_tail (some t) p = set_next t (some p)

abbrev pub first_of : Option ℕ → Option ℕ → ℕ → Option ℕ
first_of none top p = some p
first_of (some t) top p = top

-- `n->prev = tail; n->next = nullptr; if (tail != nullptr) tail->next = n; else top = n;`, which
-- gives the new `top`.
unfoldable pub link_last : Option ℕ → Option ℕ → ℕ → Cmd (Option ℕ)
link_last top tail p = do
  set_prev p tail
  set_next p none
  join_tail tail p
  pure (first_of tail top p)

abbrev pub cut_next : Option ℕ → Cmd (Unit {0})
cut_next none = pure tt
cut_next (some q) = set_next q none

abbrev pub end_of : Option ℕ → Option ℕ → Option ℕ
end_of none other = none
end_of (some q) other = other

-- `if (prev != nullptr) prev->next = nullptr; else top = nullptr;`, then the release of the node,
-- which gives the new `top`.
unfoldable pub unlink_last : Bool → Option ℕ → Option ℕ → ℕ → Cmd (Option ℕ)
unlink_last destroy top prev p = do cut_next prev; release destroy p; pure (end_of prev top)

-- The loop of the `free` functions, from `n` on; k bounds the rounds.
unfoldable pub free_loop : ℕ → Bool → Option ℕ → Cmd (Unit {0})
free_loop zero destroy n = λ s. out_of_fuel
free_loop (suc k) destroy none = pure tt
free_loop (suc k) destroy (some p) = do n ← load p; release destroy p; free_loop k destroy n.next

-- The objects handed to `print`, in order.
unfoldable pub forward_loop : ℕ → Option ℕ → Cmd (List Bytes)
forward_loop zero n = λ s. out_of_fuel
forward_loop (suc k) none = pure []
forward_loop (suc k) (some p) = do
  n ← load p
  rest ← forward_loop k n.next
  pure (n.item.data_bytes ∷ rest)

unfoldable pub backward_loop : ℕ → Option ℕ → Cmd (List Bytes)
backward_loop zero n = λ s. out_of_fuel
backward_loop (suc k) none = pure []
backward_loop (suc k) (some p) = do
  n ← load p
  rest ← backward_loop k n.prev
  pure (n.item.data_bytes ∷ rest)
