-- ===== src/Nodes/Seg.antt =====
-- Chains of nodes in a store, linked both ways.
use mathlib.Core.Path.{subst}
use mathlib.Core.Option.{some-injective}
use c2x_examples.Base.{
  ℕ, ◌≡◌, ◌≢◌, refl, sym, ap, ◌∙◌, Option, none, some, List, [], ◌∷◌, ◌++◌, arith, snoc-view, inl,
  inr,
}
use c2x_examples.Nodes.{Item, Node, update}

-- An address and what stands there.
abbrev pub Cell : Type 0
Cell = ℕ × Item

abbrev pub node : Item → Option ℕ → Option ℕ → Node
node x next prev = record { item = x; next = next; prev = prev }

abbrev pub Outside : ℕ → List Cell → Type 0
Outside a [] = Unit {0}
Outside a ((p, x) ∷ cells) = (a ≢ p) × Outside a cells

-- From `first` the `next` links lead through the cells to `stop`, and the `prev` links from `last`
-- back through them to `start`.
abbrev pub Seg :
    (ℕ → Option Node) → (start first : Option ℕ) → List Cell → (last stop : Option ℕ) → Type 0
Seg h start first [] last stop = (first ≡ stop) × (last ≡ start)
Seg h start first ((p, x) ∷ cells) last stop =
    (next : Option ℕ) × (first ≡ some p)
    × (h p ≡ some (node x next start))
    × Outside p cells
    × Seg h (some p) next cells last stop

-- a chain is kept by a write outside of it
pub Seg-update :
    (h : ℕ → Option Node) (start first : Option ℕ) (cells : List Cell) (last stop : Option ℕ)
    (a : ℕ) (c : Option Node)
    → Outside a cells
    → Seg h start first cells last stop
    → Seg (update h a c) start first cells last stop
unfolding update
Seg-update h start first [] last stop a c out seg = seg
Seg-update h start first ((p, x) ∷ cells) last stop a c (ne, out) (next, e, at_p, fresh, rest) =
    (next, e, ground arith, fresh, Seg-update h (some p) next cells last stop a c out rest)

pub Outside-left : (a : ℕ) (xs ys : List Cell) → Outside a (xs ++ ys) → Outside a xs
Outside-left a [] ys out = tt
Outside-left a (x ∷ xs) ys (ne, out) = (ne, Outside-left a xs ys out)

pub Outside-last : (a p : ℕ) (x : Item) (xs : List Cell) → Outside a (xs ++ (p, x) ∷ []) → a ≢ p
Outside-last a p x [] out = out.0
Outside-last a p x (y ∷ xs) out = Outside-last a p x xs out.1

pub Outside-snoc :
    (a p : ℕ) (x : Item) (xs : List Cell) → Outside a xs → a ≢ p → Outside a (xs ++ (p, x) ∷ [])
Outside-snoc a p x [] out ne = (ne, tt)
Outside-snoc a p x (y ∷ xs) (ne', out) ne = (ne', Outside-snoc a p x xs out ne)

-- What a chain is before its last node.
pub record Snoc (h : ℕ → Option Node) (start first : Option ℕ) (cells : List Cell) (p : ℕ)
    (x : Item) (last stop : Option ℕ) : Type 0 where
  pub mid : Option ℕ
  pub front : Seg h start first cells mid (some p)
  pub here : h p ≡ some (node x stop mid)
  pub at_last : last ≡ some p
  pub fresh : Outside p cells

module _ (h : ℕ → Option Node) (p : ℕ) (x : Item) (last stop : Option ℕ) where
  pub Seg-Snoc :
      (start first : Option ℕ) (cells : List Cell)
      → Seg h start first (cells ++ (p, x) ∷ []) last stop
      → Snoc h start first cells p x last stop
  Seg-Snoc start first [] (next, e, at_p, fresh, (e', at_last)) = record {
    mid = start;
    front = (e, refl);
    here = rw e' at at_p;
    at_last = at_last;
    fresh = tt;
  }
  Seg-Snoc start first ((q, y) ∷ cells) (next, e, at_q, fresh, rest) =
      let r = Seg-Snoc (some q) next cells rest in
      record {
        mid = r.mid;
        front = (next, e, at_q, Outside-left q cells _ fresh, r.front);
        here = r.here;
        at_last = r.at_last;
        fresh = ((λ same. Outside-last q p x cells fresh (sym same)), r.fresh);
      }

  pub Snoc-Seg :
      (start first : Option ℕ) (cells : List Cell)
      → Snoc h start first cells p x last stop
      → Seg h start first (cells ++ (p, x) ∷ []) last stop
  Snoc-Seg start first [] r = (stop, r.front.0, rw r.front.1 at r.here, tt, (refl, r.at_last))
  Snoc-Seg start first ((q, y) ∷ cells) r =
      let (next, e, at_q, fresh, rest) = r.front in
      (
        next,
        e,
        at_q,
        Outside-snoc q p x cells fresh (λ same. r.fresh.0 (sym same)),
        Snoc-Seg (some q) next cells (record {
          mid = r.mid;
          front = rest;
          here = r.here;
          at_last = r.at_last;
          fresh = r.fresh.1;
        }),
      )

-- the last link tells whether there is a node
pub Seg-none :
    (h : ℕ → Option Node) (first : Option ℕ) (cells : List Cell) (last stop : Option ℕ)
    → last ≡ none
    → Seg h none first cells last stop
    → cells ≡ []
Seg-none h first cells last stop e seg = elim (snoc-view cells) [
  | inl done ↦ done
  | inr (init, (p, x), split) ↦
      let r = Seg-Snoc h p x last stop none first init (rw split at seg) in cc (r.at_last)
]

pub Seg-some :
    (h : ℕ → Option Node) (first : Option ℕ) (cells : List Cell) (p : ℕ) (last stop : Option ℕ)
    → last ≡ some p
    → Seg h none first cells last stop
    → (init : List Cell) × (x : Item) × (cells ≡ init ++ (p, x) ∷ [])
      × Snoc h none first init p x last stop
Seg-some h first cells p last stop e seg = elim (snoc-view cells) [
  | inl split ↦ cc (let (a, b) = rw split at seg in b)
  | inr (init, (q, x), split) ↦
      let r = Seg-Snoc h q x last stop none first init (rw split at seg) in
      let same : q ≡ p = some-injective _ _ (sym r.at_last ∙ e) in
      (
        init,
        x,
        split ∙ ap (λ a. init ++ (a, x) ∷ []) same,
        subst (λ a. Snoc h none first init a x last stop) same r,
      )
]
