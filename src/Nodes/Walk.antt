-- ===== src/Nodes/Walk.antt =====
-- The loops along the links of a chain: `forward_loop`, `backward_loop` and `free_loop`.
use mathlib.Core.List.{reverse, reverse-cons, reverse-append, map-append, append_assoc}
use c2x_examples.Base.{
  ℕ, zero, suc, ◌-◌, ◌*◌, ◌≡◌, ◌<◌, refl, sym, ap, ◌∙◌, Bool, true, false, Option, none, some,
  Bytes, List, [], ◌∷◌, ◌++◌, map, length, length-append, if◌then◌else◌, arith,
}
use c2x_examples.Run.{ok, Returns, value, weaken}
use c2x_examples.Nodes.{Item, Node, Store, update, free_loop, forward_loop, backward_loop}
use c2x_examples.Nodes.Seg.{Cell, node, Outside, Seg, Seg-update, Seg-none, Seg-some}
use c2x_examples.Nodes.Create.{load-ok, update_other, update_self}
use c2x_examples.Nodes.Link.{released, release-ok}
use c2x_examples.Nodes.Chain.{Chained}

abbrev pub data_of : Item → Bytes
data_of x = x.data_bytes

pub object_of : Cell → Bytes
object_of c = c.1.data_bytes

pub map-length : {A B : Type 0} (f : A → B) (xs : List A) → length (map f xs) ≡ length xs
map-length f [] = refl
map-length f (x ∷ xs) = ap suc (map-length f xs)

pub objects :
    (cells : List Cell) (items : List Item)
    → map (λ (c : Cell). c.1) cells ≡ items
    → map object_of cells ≡ map data_of items
unfolding object_of
objects [] items e = ap (map data_of) e
objects (c ∷ cells) items e = ap (◌∷◌ (object_of c)) (objects cells _ refl) ∙ ap (map data_of) e

module _ (s : Store) where
  pub forward :
      (k : ℕ) (start first : Option ℕ) (cells : List Cell) (last : Option ℕ)
      → length cells < k
      → Seg s.nodes start first cells last none
      → forward_loop k first s ≡ ok (map object_of cells, s)
  unfolding forward_loop object_of
  forward zero start first cells last h seg = ground arith
  forward (suc k) start first [] last h (e, _) = rw e refl
  forward (suc k) start first ((p, x) ∷ cells) last h (next, e, at_p, _, rest) =
      rw
        (
          e,
          load-ok p s (node x next start) at_p,
          forward k (some p) next cells last (omega (arith, h)) rest,
        )
        refl

  pub backward :
      (k : ℕ) (first : Option ℕ) (cells : List Cell) (last stop : Option ℕ)
      → length cells < k
      → Seg s.nodes none first cells last stop
      → backward_loop k last s ≡ ok (reverse (map object_of cells), s)
  unfolding backward_loop object_of
  backward zero first cells last stop h seg = ground arith
  backward (suc k) first cells none stop h seg =
      rw (Seg-none s.nodes first cells none stop refl seg) refl
  backward (suc k) first cells (some p) stop h seg =
      let (init, x, split, r) = Seg-some s.nodes first cells p (some p) stop refl seg in
      let fewer : length init < k =
        omega (arith, length-append init ((p, x) ∷ []), ap length split, h) in
      rw
        (
          load-ok p s (node x stop r.mid) r.here,
          backward k first init r.mid (some p) fewer r.front,
          split,
          map-append object_of init ((p, x) ∷ []),
          reverse-append (map object_of init) (object_of (p, x) ∷ []),
        )
        refl

abbrev pub Gone : (ℕ → Option Node) → List Cell → Type 0
Gone h [] = Unit {0}
Gone h ((p, x) ∷ cells) = (h p ≡ none) × Gone h cells

-- Every node of the chain is freed and every object is released, the first object first; nothing
-- outside of the chain changes.
abbrev pub Freed : Bool → List Cell → Store → Unit {0} × Store → Type 0
Freed destroy cells s r =
    ((a : ℕ) → Outside a cells → r.1.nodes a ≡ s.nodes a)
    × Gone r.1.nodes cells
    × (r.1.memory.live ≡ s.memory.live - 2 * length cells)
    × (r.1.memory.destroyed ≡ (
        if destroy
        then reverse (map object_of cells) ++ s.memory.destroyed
        else s.memory.destroyed))

handed_first :
    (destroy : Bool) (b : Bytes) (later old : List Bytes)
    → (if destroy
        then reverse later ++ (if destroy then b ∷ old else old)
        else (if destroy then b ∷ old else old))
      ≡ (if destroy then reverse (b ∷ later) ++ old else old)
handed_first true b later old =
    sym (ap (λ l. l ++ old) (reverse-cons b later) ∙ append_assoc (reverse later) (b ∷ []) old)
handed_first false b later old = refl

nothing_handed : (destroy : Bool) (old : List Bytes) → old ≡ (if destroy then old else old)
nothing_handed true old = refl
nothing_handed false old = refl

pub free_loop-Freed :
    (k : ℕ) (destroy : Bool) (start first : Option ℕ) (cells : List Cell) (last : Option ℕ)
    (s : Store)
    → length cells < k
    → Seg s.nodes start first cells last none
    → Returns (Freed destroy cells s) (free_loop k destroy first s)
unfolding free_loop object_of
free_loop-Freed zero destroy start first cells last s h seg = ground arith
free_loop-Freed (suc k) destroy start first [] last s h (e, _) =
    rw e (value ((λ a out. refl), tt, omega arith, nothing_handed destroy s.memory.destroyed))
free_loop-Freed (suc k) destroy start first ((p, x) ∷ cells) last s h (next, e, at_p, out, rest) =
    let n = node x next start in
    let s' : Store = record {
      nodes = update s.nodes p none;
      memory = released destroy x s.memory;
    } in
    rw (e, load-ok p s n at_p, release-ok destroy p s n at_p)
      (weaken
        (free_loop-Freed k destroy (some p) next cells last s' (omega (arith, h))
          (Seg-update s.nodes (some p) next cells last none p none out rest))
        λ r (kept, gone, live, handed). (
          (λ a (ne, out_a). kept a out_a ∙ update_other s.nodes p none a ne),
          (kept p out ∙ update_self s.nodes p none, gone),
          omega (arith, live),
          handed ∙ handed_first destroy x.data_bytes (map object_of cells) s.memory.destroyed,
        ))

-- The same by the items of the chain.
abbrev pub FreedItems : Bool → List Cell → List Item → Store → Unit {0} × Store → Type 0
FreedItems destroy cells items s r =
    ((a : ℕ) → Outside a cells → r.1.nodes a ≡ s.nodes a)
    × Gone r.1.nodes cells
    × (r.1.memory.live ≡ s.memory.live - 2 * length items)
    × (r.1.memory.destroyed ≡ (
        if destroy then reverse (map data_of items) ++ s.memory.destroyed else s.memory.destroyed))

module _ (s : Store) (top tail : Option ℕ) (items : List Item) (k : ℕ)
    (v : Chained s top tail items) (h : length items < k) where
  pub enough : length v.cells < k
  enough = omega (arith, map-length (λ (c : Cell). c.1) v.cells, ap length v.contents, h)

  pub forward-items : forward_loop k top s ≡ ok (map data_of items, s)
  forward-items =
      forward s k none top v.cells tail enough v.chain
      ∙ ap (λ out. ok (out, s)) (objects v.cells items v.contents)

  pub backward-items : backward_loop k tail s ≡ ok (reverse (map data_of items), s)
  backward-items =
      backward s k top v.cells tail none enough v.chain
      ∙ ap (λ out. ok (reverse out, s)) (objects v.cells items v.contents)

  pub free_loop-items :
      (destroy : Bool) → Returns (FreedItems destroy v.cells items s) (free_loop k destroy top s)
  free_loop-items destroy =
      weaken (free_loop-Freed k destroy none top v.cells tail s enough v.chain)
        λ r (kept, gone, live, handed). (
          kept,
          gone,
          omega (arith, live, map-length (λ (c : Cell). c.1) v.cells, ap length v.contents),
          handed
              ∙ ap (λ l. if destroy then reverse l ++ s.memory.destroyed else s.memory.destroyed)
                  (objects v.cells items v.contents),
        )
