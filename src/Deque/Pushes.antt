-- ===== src/Deque/Pushes.antt =====
-- `deque_push_back` and `deque_push_front` of src/deque/deque.c.
use mathlib.Core.Path.{subst}
use mathlib.Core.Option.{some-injective}
use c2x_examples.Base.{
  ℕ, ◌+◌, ◌%◌, ◌==◌, ◌≡◌, ◌⊎◌, ◌<◌, ◌≤◌, refl, sym, ap, ◌∙◌, Bool, true, false, Option, none, some,
  Bytes, List, [], ◌∷◌, ◌++◌, length, length-append, arith, inl, inr, size_mod,
}
use c2x_examples.Memory.{AlwaysGrants}
use c2x_examples.Run.{Returns, value}
use c2x_examples.Nodes.{Item, Store, update}
use c2x_examples.Nodes.Seg.{Cell, node, Outside, Seg, Seg-update}
use c2x_examples.Nodes.Create.{
  item, Unchanged, Created, create_node-Created, with_nodes, set_next-ok, set_prev-ok, update_self,
  update_other, step,
}
use c2x_examples.Nodes.{first_of}
use c2x_examples.Nodes.Chain.{
  Chained, Chained-nodes, linked, here, fresh, linked_chain, later_below, link_last-Chained,
}
use c2x_examples.Deque.{Deque, link_back, deque_push_back, join_top, link_front, deque_push_front}

-- The deque is a chain of nodes that holds the items in order, and counts them.
pub record Holds (d : Deque) (s : Store) (items : List Item) : Type 0 where
  pub held : Chained s d.top d.tail items
  pub counted : d.count ≡ length items % size_mod

-- A push has put the item in, in two new blocks, or a request was refused, the deque is as it was and
-- nothing differs in memory but the number of the next request.
abbrev pub Pushed : Deque → Store → (old new : List Item) → (Bool × Option Deque) × Store → Type 0
Pushed d s old new r =
    ((d' : Deque) × (r.0 ≡ (true, some d'))
      × (d'.destroy ≡ d.destroy)
      × (AlwaysGrants s.memory → AlwaysGrants r.1.memory)
      × (r.1.memory.live ≡ s.memory.live + 2)
      × Holds d' r.1 new)
    ⊎ ((r.0 ≡ (false, some d)) × Unchanged s r.1 × Holds d r.1 old × ¬ AlwaysGrants s.memory)

-- the chain with a node linked before its first
link_first :
    (s : Store) (top tail : Option ℕ) (cells : List Cell) (p : ℕ) (x : Item)
    → Seg s.nodes none top cells tail none
    → Outside p cells
    → s.nodes p ≡ some (node x top none)
    → Returns
        (λ r.
          (r.1.memory ≡ s.memory)
          × Seg r.1.nodes none (some p) ((p, x) ∷ cells) (first_of top tail p) none)
        (join_top top p s)
link_first s none tail [] p x seg fresh here = value (refl, (none, refl, here, tt, (refl, refl)))
link_first s none tail ((q, y) ∷ cells) p x (next, e, at_q, out, seg) fresh here = cc
link_first s (some t) tail [] p x (e, e') fresh here = cc
link_first s (some t) tail ((q, y) ∷ cells) p x (next, e, at_q, out, seg) fresh here =
    let same : q ≡ t = sym (some-injective _ _ e) in
    let n = node y next (some p) in
    let at_t : s.nodes t ≡ some (node y next none) = rw same at at_q in
    let out_t : Outside t cells = subst (λ a. Outside a cells) same out in
    rw (set_prev-ok t s (node y next none) at_t (some p), same)
      (value (
        refl,
        (
          some t,
          refl,
          update_other s.nodes t (some n) p (λ hit. fresh.0 (hit ∙ sym same)) ∙ here,
          ((λ hit. fresh.0 (hit ∙ sym same)), fresh.1),
          (
            next,
            refl,
            update_self s.nodes t (some n),
            out_t,
            Seg-update s.nodes (some t) next cells tail none t (some n) out_t
                (subst (λ a. Seg s.nodes (some a) next cells tail none) same seg),
          ),
        ),
      ))

module _ (d : Deque) (s s' : Store) (items : List Item) (x : Item) (v : Holds d s items) (p : ℕ)
    (made : Created s x (some p, s')) where
  link_back-Pushed : Returns (Pushed d s items (items ++ x ∷ [])) (link_back d (some p) s')
  unfolding link_back
  link_back-Pushed =
      step (link_last-Chained s s' d.top d.tail items x v.held p made) λ top out (mem, chained).
        value (
          inl (
            _,
            refl,
            refl,
            rw mem made.3,
            rw mem made.4,
            record {
              held = chained;
              counted = omega (arith, v.counted, length-append items (x ∷ []));
            },
          ))

  link_front-Pushed : Returns (Pushed d s items (x ∷ items)) (link_front d (some p) s')
  unfolding link_front
  link_front-Pushed =
      let m = node x d.top none in
      let old = v.held in
      let at_p = here s s' d.top d.tail items x old p made in
      let apart = fresh s s' d.top d.tail items x old p made in
      rw
        (
          set_next-ok p s' (node x none none) at_p d.top,
          set_prev-ok p (with_nodes s' (update s'.nodes p (some m))) m
              (update_self s'.nodes p (some m)) none,
        )
        (step
          (link_first (linked s' p m m) d.top d.tail old.cells p x
            (linked_chain s s' d.top d.tail items x old p made m m) apart
            (update_self (update s'.nodes p (some m)) p (some m)))
          λ _ out (mem, seg). value (
            inl (
              _,
              refl,
              refl,
              rw mem made.3,
              rw mem made.4,
              record {
                held = record {
                  cells = (p, x) ∷ old.cells;
                  chain = seg;
                  contents = ap (◌∷◌ x) old.contents;
                  below = λ a h. later_below s s' d.top d.tail items x old p made a (rw mem at h);
                };
                counted = omega (arith, v.counted);
              },
            )))

-- a refusal leaves the deque as it was
refused-Pushed :
    (d : Deque) (s s' : Store) (items new : List Item) (x : Item)
    → Holds d s items
    → Created s x (none, s')
    → Pushed d s items new ((false, some d), s')
refused-Pushed d s s' items new x v ((same, mem), more, short) = inr (
  refl,
  (same, mem),
  record { held = Chained-nodes s s' d.top d.tail items same more v.held; counted = v.counted },
  short,
)

module _ (d : Deque) (s : Store) (items : List Item) (object : Bytes) (size : ℕ) where
  -- `deque_push_back` of `size` bytes, at least one, from an object that has them, on a deque that holds
  -- items, ends without a bad access: it puts a copy behind them and keeps two blocks, or a request was
  -- refused, it reports it, and the deque, the nodes and the live blocks are as they were.
  pub deque_push_back-Pushed :
      0 < size
      → size ≤ length object
      → Holds d s items
      → Returns
          (Pushed d s items (items ++ item object size ∷ []))
          (deque_push_back (some d) (some object) size s)
  unfolding deque_push_back link_back
  deque_push_back-Pushed h whole v =
      let some_bytes : (size == 0) ≡ false = ground arith in
      rw some_bytes
        (step (create_node-Created object size s h whole) λ r s' made. back_step r s' made v)
    where
      back_step :
          (r : Option ℕ) (s' : Store)
          → Created s (item object size) (r, s')
          → Holds d s items
          → Returns (Pushed d s items (items ++ item object size ∷ [])) (link_back d r s')
      back_step none s' made v = value (refused-Pushed d s s' items _ (item object size) v made)
      back_step (some p) s' made v = link_back-Pushed d s s' items (item object size) v p made

  -- `deque_push_front` of `size` bytes, at least one, from an object that has them, on a deque that holds
  -- items, ends without a bad access: it puts a copy before them and keeps two blocks, or a request was
  -- refused, it reports it, and the deque, the nodes and the live blocks are as they were.
  pub deque_push_front-Pushed :
      0 < size
      → size ≤ length object
      → Holds d s items
      → Returns
          (Pushed d s items (item object size ∷ items))
          (deque_push_front (some d) (some object) size s)
  unfolding deque_push_front link_front
  deque_push_front-Pushed h whole v =
      let some_bytes : (size == 0) ≡ false = ground arith in
      rw some_bytes
        (step (create_node-Created object size s h whole) λ r s' made. front_step r s' made v)
    where
      front_step :
          (r : Option ℕ) (s' : Store)
          → Created s (item object size) (r, s')
          → Holds d s items
          → Returns (Pushed d s items (item object size ∷ items)) (link_front d r s')
      front_step none s' made v = value (refused-Pushed d s s' items _ (item object size) v made)
      front_step (some p) s' made v = link_front-Pushed d s s' items (item object size) v p made
