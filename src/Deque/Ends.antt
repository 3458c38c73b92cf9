-- ===== src/Deque/Ends.antt =====
-- The ends of a deque of src/deque/deque.c, by the items that it holds.
use c2x_examples.Base.{
  ℕ, Bytes, ◌==◌, ◌≡◌, refl, ap, ◌∙◌, true, false, Option, none, some, List, [], ◌∷◌, ◌++◌, map,
}
use c2x_examples.Run.{ok}
use c2x_examples.Nodes.{Item, Store}
use c2x_examples.Nodes.Seg.{Cell, node, Seg}
use c2x_examples.Deque.{
  Deque, deque_push_back, deque_push_front, deque_pop_back, deque_pop_front, deque_peek_back,
  deque_peek_front, peek_at,
}
use c2x_examples.Deque.Pushes.{Holds}
use c2x_examples.Nodes.Chain.{Chained-Ending}

module _ (d : Deque) (s : Store) where
  pub no_ends : Holds d s [] → (d.top ≡ none) × (d.tail ≡ none)
  no_ends v = from v.held.cells v.held.contents v.held.chain
    where
      from :
          (cells : List Cell)
          → map (λ (c : Cell). c.1) cells ≡ []
          → Seg s.nodes none d.top cells d.tail none
          → (d.top ≡ none) × (d.tail ≡ none)
      from [] e seg = seg
      from (c ∷ cells) e seg = cc

  pub last_node :
      (items : List Item) (x : Item)
      → Holds d s (items ++ x ∷ [])
      → (p : ℕ) × (prev : Option ℕ) × (d.tail ≡ some p) × (s.nodes p ≡ some (node x none prev))
  last_node items x v =
      let end = Chained-Ending s d.top d.tail items x v.held in
      (end.p, end.before.mid, end.before.at_last, end.before.here)

  pub first_node :
      (items : List Item) (x : Item)
      → Holds d s (x ∷ items)
      → (p : ℕ) × (next : Option ℕ) × (d.top ≡ some p) × (s.nodes p ≡ some (node x next none))
  first_node items x v = from v.held.cells v.held.contents v.held.chain
    where
      from :
          (cells : List Cell)
          → map (λ (c : Cell). c.1) cells ≡ x ∷ items
          → Seg s.nodes none d.top cells d.tail none
          → (p : ℕ) × (next : Option ℕ) × (d.top ≡ some p) × (s.nodes p ≡ some (node x next none))
      from [] e seg = cc
      from ((p, z) ∷ cells) e (next, at_top, at_p, out, seg) =
          let same : z ≡ x = cc in (p, next, at_top, at_p ∙ ap (λ a. some (node a next none)) same)

  pub pop_back-none :
      (size_val : ℕ)
      → d.tail ≡ none
      → deque_pop_back (some d) true size_val s ≡ ok ((false, some d, none), s)
  unfolding deque_pop_back
  pop_back-none size_val e = simp (e)

  pub pop_front-none :
      (size_val : ℕ)
      → d.top ≡ none
      → deque_pop_front (some d) true size_val s ≡ ok ((false, some d, none), s)
  unfolding deque_pop_front
  pop_front-none size_val e = simp (e)

  pub peek_back-at :
      (size : ℕ) (p : Option ℕ)
      → d.tail ≡ p
      → deque_peek_back (some d) true size s ≡ peek_at p size s
  unfolding deque_peek_back
  peek_back-at size p e = ap (λ q. peek_at q size s) e

  pub peek_front-at :
      (size : ℕ) (p : Option ℕ)
      → d.top ≡ p
      → deque_peek_front (some d) true size s ≡ peek_at p size s
  unfolding deque_peek_front
  peek_front-at size p e = ap (λ q. peek_at q size s) e

  pub push_back-none : (size : ℕ) → deque_push_back (some d) none size s ≡ ok ((false, some d), s)
  unfolding deque_push_back
  push_back-none size = refl

  pub push_back-zero :
      (object : Bytes) (size : ℕ)
      → (size == 0) ≡ true
      → deque_push_back (some d) (some object) size s ≡ ok ((false, some d), s)
  unfolding deque_push_back
  push_back-zero object size e = rw e refl

  pub push_front-none : (size : ℕ) → deque_push_front (some d) none size s ≡ ok ((false, some d), s)
  unfolding deque_push_front
  push_front-none size = refl

  pub push_front-zero :
      (object : Bytes) (size : ℕ)
      → (size == 0) ≡ true
      → deque_push_front (some d) (some object) size s ≡ ok ((false, some d), s)
  unfolding deque_push_front
  push_front-zero object size e = rw e refl
