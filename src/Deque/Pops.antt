-- ===== src/Deque/Pops.antt =====
-- `deque_pop_back` and `deque_pop_front` of src/deque/deque.c.
use mathlib.Core.Path.{subst}
use mathlib.Core.Option.{some-injective}
use c2x_examples.Base.{
  ℕ, suc, ◌%◌, ◌≡◌, ◌⊎◌, ◌≤◌, ◌<◌, ltb, refl, sym, ap, ◌∙◌, Bool, true, false, Option, none, some,
  List, [], ◌∷◌, ◌++◌, map, length, length-append, arith, Bool-cases, inl, inr, size_mod, decr,
}
use c2x_examples.Run.{Returns, value}
use c2x_examples.Nodes.{Item, Node, Store, update, end_of}
use c2x_examples.Nodes.Seg.{Cell, node, Outside, Seg, Seg-update}
use c2x_examples.Nodes.Create.{load-ok, step, set_prev-ok, update_self, update_other}
use c2x_examples.Nodes.Chain.{Ending, Chained-Ending, unlink_last-Chained}
use c2x_examples.Nodes.Link.{released, release-ok}
use c2x_examples.Deque.{
  Deque, Copied, cut_prev, unlink_back, deque_pop_back, unlink_front, deque_pop_front,
}
use c2x_examples.Deque.Pushes.{Holds}

-- A pop has taken the item `x` out and freed its node, or the buffer is too short for it and nothing
-- changes.
abbrev pub Popped :
    Deque → Store → ℕ → Item → (rest : List Item) → (Bool × Option Deque × Copied) × Store → Type 0
Popped d s size_val x rest r =
    ((x.size ≤ size_val)
      × ((d' : Deque) × (r.0 ≡ (true, some d', some x))
          × (d'.destroy ≡ d.destroy)
          × (r.1.memory ≡ released d.destroy x s.memory)
          × Holds d' r.1 rest))
    ⊎ ((size_val < x.size) × (r ≡ ((false, some d, none), s)))

-- the cells of items that end with x
pub last_cell :
    (cells : List Cell) (items : List Item) (x : Item)
    → map (λ (c : Cell). c.1) cells ≡ items ++ x ∷ []
    → (init : List Cell) × (p : ℕ) × (cells ≡ init ++ (p, x) ∷ [])
      × (map (λ (c : Cell). c.1) init ≡ items)
last_cell [] [] x e = cc
last_cell [] (y ∷ items) x e = cc
last_cell ((p, z) ∷ []) [] x e = let same : z ≡ x = cc in ([], p, ap (λ a. (p, a) ∷ []) same, refl)
last_cell (c ∷ c' ∷ cells) [] x e = cc
last_cell ((q, z) ∷ cells) (y ∷ items) x e =
    let same : z ≡ y = cc in
    let (init, p, split, rest) = last_cell cells items x cc in
    ((q, z) ∷ init, p, ap (◌∷◌ (q, z)) split, cc)

-- the chain without its first node, which keeps its place in the store
cut_first :
    (s : Store) (next tail : Option ℕ) (cells : List Cell) (p : ℕ)
    → Seg s.nodes (some p) next cells tail none
    → Outside p cells
    → Returns
        (λ r.
          (r.1.memory ≡ s.memory)
          × (r.1.nodes p ≡ s.nodes p)
          × Seg r.1.nodes none next cells (end_of next tail) none)
        (cut_prev next s)
cut_first s none tail [] p seg out = value (refl, refl, (refl, refl))
cut_first s none tail ((q, y) ∷ cells) p (after, e, at_q, fresh, seg) out = cc
cut_first s (some t) tail [] p (e, e') out = cc
cut_first s (some t) tail ((q, y) ∷ cells) p (after, e, at_q, fresh, seg) out =
    let same : q ≡ t = sym (some-injective _ _ e) in
    let n = node y after none in
    let at_t : s.nodes t ≡ some (node y after (some p)) = rw same at at_q in
    let out_t : Outside t cells = subst (λ a. Outside a cells) same fresh in
    rw (set_prev-ok t s (node y after (some p)) at_t none, same)
      (value (
        refl,
        update_other s.nodes t (some n) p (λ hit. out.0 (hit ∙ sym same)),
        (
          after,
          refl,
          update_self s.nodes t (some n),
          out_t,
          Seg-update s.nodes (some t) after cells tail none t (some n) out_t
              (subst (λ a. Seg s.nodes (some a) after cells tail none) same seg),
        ),
      ))

-- what a successful pop leaves
leaves :
    (d d' : Deque) (s : Store) (nodes : ℕ → Option Node) (x : Item) (cells : List Cell)
    (items : List Item)
    → Seg nodes none d'.top cells d'.tail none
    → map (λ (c : Cell). c.1) cells ≡ items
    → ((a : ℕ) → s.memory.calls ≤ a → Outside a cells)
    → d.count ≡ suc (length items) % size_mod
    → d'.count ≡ decr d.count
    → Holds d' (record { nodes = nodes; memory = released d.destroy x s.memory }) items
leaves d d' s nodes x cells items seg same below counted less = record {
  held = record { cells = cells; chain = seg; contents = same; below = below };
  counted = omega (arith, counted, less);
}

module _ (d : Deque) (s : Store) (size_val : ℕ) (x : Item) where
  from_tail :
      (p : ℕ)
      → d.tail ≡ some p
      → deque_pop_back (some d) true size_val s ≡ unlink_back d size_val p s
  unfolding deque_pop_back
  from_tail p e = simp (e)

  from_top :
      (p : ℕ)
      → d.top ≡ some p
      → deque_pop_front (some d) true size_val s ≡ unlink_front d size_val p s
  unfolding deque_pop_front
  from_top p e = simp (e)

  unlink_back-Popped :
      (items : List Item) (v : Ending s d.top d.tail items x)
      → d.count ≡ suc (length items) % size_mod
      → Returns (Popped d s size_val x items) (unlink_back d size_val v.p s)
  unfolding unlink_back
  unlink_back-Popped items v counted =
      let at_p = load-ok v.p s (node x none v.before.mid) v.before.here in
      elim (Bool-cases (ltb size_val x.size)) [
        | inl short ↦ rw (at_p, short) (value (inr (ground arith, refl)))
        | inr fits ↦
            rw (at_p, fits)
              (step (unlink_last-Chained d.destroy s d.top d.tail items x v s.memory (omega arith))
                λ top s' (mem, chained). value (
                  inl (
                    ground arith,
                    (
                      _,
                      refl,
                      refl,
                      mem,
                      record { held = chained; counted = omega (arith, counted) },
                    ),
                  )))
      ]

  -- `deque_pop_back` on a deque that holds an item x behind others ends without a bad access. It gives
  -- x, frees its node and keeps the others, or x does not fit the buffer and nothing changes.
  pub deque_pop_back-Popped :
      (items : List Item)
      → Holds d s (items ++ x ∷ [])
      → Returns (Popped d s size_val x items) (deque_pop_back (some d) true size_val s)
  deque_pop_back-Popped items v =
      let end = Chained-Ending s d.top d.tail items x v.held in
      rw (from_tail end.p end.before.at_last)
        (unlink_back-Popped items end (omega (arith, v.counted, length-append items (x ∷ []))))

  unlink_front-Popped :
      (items : List Item) (p : ℕ) (cells : List Cell) (next : Option ℕ)
      → s.nodes p ≡ some (node x next none)
      → Outside p cells
      → Seg s.nodes (some p) next cells d.tail none
      → map (λ (c : Cell). c.1) cells ≡ items
      → ((a : ℕ) → s.memory.calls ≤ a → Outside a cells)
      → d.count ≡ suc (length items) % size_mod
      → Returns (Popped d s size_val x items) (unlink_front d size_val p s)
  unfolding unlink_front
  unlink_front-Popped items p cells next at_p out seg same below counted =
      let n = node x next none in
      elim (Bool-cases (ltb size_val x.size)) [
        | inl short ↦ rw (load-ok p s n at_p, short) (value (inr (ground arith, refl)))
        | inr fits ↦
            rw (load-ok p s n at_p, fits)
              (step (cut_first s next d.tail cells p seg out) λ _ s' (mem, kept, seg').
                rw (release-ok d.destroy p s' n (kept ∙ at_p), mem)
                  (value (
                    inl (
                      ground arith,
                      (
                        _,
                        refl,
                        refl,
                        refl,
                        leaves d
                            (record d {
                              top = next;
                              tail = end_of next d.tail;
                              count = decr d.count;
                            })
                            s (update s'.nodes p none) x cells items
                            (Seg-update s'.nodes none next cells (end_of next d.tail) none p none
                              out seg')
                            same below counted refl,
                      ),
                    ))))
      ]

  -- `deque_pop_front` on a deque that holds an item x before others ends without a bad access. It
  -- gives x, frees its node and keeps the others, or x does not fit the buffer and nothing changes.
  pub deque_pop_front-Popped :
      (items : List Item)
      → Holds d s (x ∷ items)
      → Returns (Popped d s size_val x items) (deque_pop_front (some d) true size_val s)
  deque_pop_front-Popped items v = first v.held.cells v.held.contents v.held.chain v.held.below
    where
      first :
          (cells : List Cell)
          → map (λ (c : Cell). c.1) cells ≡ x ∷ items
          → Seg s.nodes none d.top cells d.tail none
          → ((a : ℕ) → s.memory.calls ≤ a → Outside a cells)
          → Returns (Popped d s size_val x items) (deque_pop_front (some d) true size_val s)
      first [] e seg below = cc
      first ((p, z) ∷ cells) e (next, at_top, at_p, out, seg) below =
          let same : z ≡ x = cc in
          let rest : map (λ (c : Cell). c.1) cells ≡ items = cc in
          rw (from_top p at_top) (
            unlink_front-Popped items p cells next (at_p ∙ ap (λ a. some (node a next none)) same)
              out seg rest (λ a h. (below a h).1) (omega (arith, v.counted)))
