-- ===== src/Nodes/Chain.antt =====
-- A chain between two ends that holds items, and what linking and unlinking its last node make of it.
use c2x_examples.Base.{
  ℕ, ◌≡◌, ◌≢◌, ◌≤◌, refl, ap, ◌∙◌, Bool, Option, none, some, List, [], ◌∷◌, ◌++◌, map, arith,
}
use mathlib.Core.List.{map-append}
use c2x_examples.Memory.{Memory}
use c2x_examples.Run.{Returns, value}
use c2x_examples.Nodes.{Item, Node, Store, update, link_last, unlink_last, end_of}
use c2x_examples.Nodes.Seg.{
  Cell, node, Outside, Seg, Seg-update, Snoc, Seg-Snoc, Outside-snoc, Outside-left,
}
use c2x_examples.Nodes.Create.{Created, with_nodes, set_next-ok, set_prev-ok, update_self, step}
use c2x_examples.Nodes.Link.{join_tail-Seg, cut_last, released, release-ok}

-- The nodes between the ends are linked both ways and hold the items in order, and none stands at an
-- address still to be given.
pub record Chained (s : Store) (top tail : Option ℕ) (items : List Item) : Type 0 where
  pub cells : List Cell
  pub chain : Seg s.nodes none top cells tail none
  pub contents : map (λ (c : Cell). c.1) cells ≡ items
  pub below : (a : ℕ) → s.memory.calls ≤ a → Outside a cells

-- a later store with the same nodes
pub Chained-nodes :
    (s s' : Store) (top tail : Option ℕ) (items : List Item)
    → s'.nodes ≡ s.nodes
    → s.memory.calls ≤ s'.memory.calls
    → Chained s top tail items
    → Chained s' top tail items
Chained-nodes s s' top tail items same more v = record {
  cells = v.cells;
  chain = rw same v.chain;
  contents = v.contents;
  below = λ a h. v.below a (omega arith);
}

-- a store after the two links of a new node are set
abbrev pub linked : Store → ℕ → Node → Node → Store
linked s p m n = with_nodes s (update (update s.nodes p (some m)) p (some n))

module _ (s s' : Store) (top tail : Option ℕ) (items : List Item) (x : Item)
    (v : Chained s top tail items) (p : ℕ) (made : Created s x (some p, s')) where
  pub here : s'.nodes p ≡ some (node x none none)
  here = rw made.1 (update_self s.nodes p (some (node x none none)))

  pub fresh : Outside p v.cells
  fresh = v.below p (omega (arith, made.0))

  chain : Seg s'.nodes none top v.cells tail none
  chain =
      rw made.1
        (Seg-update s.nodes none top v.cells tail none p (some (node x none none)) fresh v.chain)

  pub linked_chain : (m n : Node) → Seg (linked s' p m n).nodes none top v.cells tail none
  linked_chain m n =
      let once = Seg-update s'.nodes none top v.cells tail none p (some m) fresh chain in
      Seg-update (update s'.nodes p (some m)) none top v.cells tail none p (some n) fresh once

  pub later_below : (a : ℕ) → s'.memory.calls ≤ a → (a ≢ p) × Outside a v.cells
  later_below a h = ((λ e. omega (arith, made.2)), v.below a (omega (arith, made.0, made.2)))

  pub link_last-Chained :
      Returns
        (λ r. (r.1.memory ≡ s'.memory) × Chained r.1 r.0 (some p) (items ++ x ∷ []))
        (link_last top tail p s')
  unfolding link_last
  link_last-Chained =
      let m = node x none tail in
      rw
        (
          set_prev-ok p s' (node x none none) here tail,
          set_next-ok p (with_nodes s' (update s'.nodes p (some m))) m
              (update_self s'.nodes p (some m)) none,
        )
        (step
          (join_tail-Seg (linked s' p m m) top tail v.cells p x (linked_chain m m) fresh
            (update_self (update s'.nodes p (some m)) p (some m)))
          λ _ out (mem, seg). value (
            mem,
            record {
              cells = v.cells ++ (p, x) ∷ [];
              chain = seg;
              contents = map-append _ v.cells ((p, x) ∷ []) ∙ ap (λ l. l ++ x ∷ []) v.contents;
              below = λ a h.
                  let (ne, out_a) = later_below a (rw mem at h) in
                  Outside-snoc a p x v.cells out_a ne;
            },
          ))

-- the cells of items that end with x
pub last_cell :
    (cells : List Cell) (items : List Item) (x : Item)
    → map (λ (c : Cell). c.1) cells ≡ items ++ x ∷ []
    → (init : List Cell) × (p : ℕ) × (cells ≡ init ++ (p, x) ∷ [])
      × (map (λ (c : Cell). c.1) init ≡ items)
last_cell [] [] x e = cc
last_cell [] (y ∷ items) x e = cc
last_cell ((p, z) ∷ []) [] x e = let same : z ≡ x = cc in ([], p, ap (λ a. (p, a) ∷ []) same, refl)
last_cell (c ∷ c' ∷ cells) [] x e = cc
last_cell ((q, z) ∷ cells) (y ∷ items) x e =
    let same : z ≡ y = cc in
    let (init, p, split, rest) = last_cell cells items x cc in
    ((q, z) ∷ init, p, ap (◌∷◌ (q, z)) split, cc)

-- What a chain is before its last item.
pub record Ending (s : Store) (top tail : Option ℕ) (items : List Item) (x : Item) : Type 0 where
  pub p : ℕ
  pub init : List Cell
  pub before : Snoc s.nodes none top init p x tail none
  pub contents : map (λ (c : Cell). c.1) init ≡ items
  pub below : (a : ℕ) → s.memory.calls ≤ a → Outside a init

pub Chained-Ending :
    (s : Store) (top tail : Option ℕ) (items : List Item) (x : Item)
    → Chained s top tail (items ++ x ∷ [])
    → Ending s top tail items x
Chained-Ending s top tail items x v =
    let (init, p, split, same) = last_cell v.cells items x v.contents in
    record {
      p = p;
      init = init;
      before = Seg-Snoc s.nodes p x tail none none top init (rw split at v.chain);
      contents = same;
      below = λ a h. Outside-left a init ((p, x) ∷ []) (rw split at v.below a h);
    }

-- the last node is cut off and released, with any memory after the chain's
pub unlink_last-Chained :
    (destroy : Bool) (s : Store) (top tail : Option ℕ) (items : List Item) (x : Item)
    (v : Ending s top tail items x) (m : Memory)
    → s.memory.calls ≤ m.calls
    → Returns
        (λ r. (r.1.memory ≡ released destroy x m) × Chained r.1 r.0 v.before.mid items)
        (unlink_last destroy top v.before.mid v.p (record s { memory = m }))
unfolding unlink_last
unlink_last-Chained destroy s top tail items x v m later =
    let r = v.before in
    let n = node x none r.mid in
    step (cut_last (record s { memory = m }) top tail v.init v.p x r) λ _ s' (mem, at_p, seg).
      rw (release-ok destroy v.p s' n (at_p ∙ r.here), mem)
        (value (
          refl,
          record {
            cells = v.init;
            chain =
                Seg-update s'.nodes none (end_of r.mid top) v.init r.mid none v.p none r.fresh seg;
            contents = v.contents;
            below = λ a h. v.below a (omega (arith, later, h));
          },
        ))
