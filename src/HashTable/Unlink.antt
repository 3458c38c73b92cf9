-- ===== src/HashTable/Unlink.antt =====
-- The links of a bucket of src/hashtable/hashtable.c, and the unlinking of `hash_remove` as the removal
-- from a list.
use c2x_examples.Base.{
  ℕ, ◌==◌, ◌≡◌, ◌<◌, ◌≤◌, refl, true, Option, none, some, List, [], ◌∷◌, Bytes, if◌then◌else◌,
  Bool-cases, inl, inr, arith,
}
use c2x_examples.Strings.{str_eq}
use c2x_examples.Run.{ok}
use c2x_examples.HashTable.{
  Node, Link, update_node, new_address, set_prev, link_front, cut_after, onto, unlink_loop,
}

-- What is left of a bucket without the first node with the key.
unfoldable pub remove_node : List Node → Bytes → List Node
remove_node [] text = []
remove_node (n ∷ rest) text = if str_eq n.text text then rest else n ∷ remove_node rest text

-- Each node's `prev` points to the node before it, the first one's to `before`.
unfoldable pub Linked : Option ℕ → List Node → List Link → Type 0
Linked before [] [] = Unit {0}
Linked before (n ∷ nodes) (l ∷ links) = (l.prev ≡ before) × Linked (some l.address) nodes links
Linked before nodes links = ⊥

pub Linked-set_prev :
    (p q : Option ℕ) (nodes : List Node) (links : List Link)
    → Linked p nodes links
    → Linked q nodes (set_prev q links)
unfolding Linked
Linked-set_prev p q [] [] v = v
Linked-set_prev p q [] (l ∷ links) v = elim v [ ]
Linked-set_prev p q (n ∷ nodes) [] v = elim v [ ]
Linked-set_prev p q (n ∷ nodes) (l ∷ links) (e, v) = (refl, v)

pub Linked-front :
    (n : Node) (nodes : List Node) (links : List Link)
    → Linked none nodes links
    → Linked none (n ∷ nodes) (link_front links)
unfolding Linked
Linked-front n nodes links v = (refl, Linked-set_prev none _ nodes links v)

pub Linked-update :
    (p : Option ℕ) (nodes : List Node) (links : List Link) (text : Bytes) (f : Node → Node)
    → Linked p nodes links
    → Linked p (update_node nodes text f) links
unfolding Linked update_node
Linked-update p [] [] text f v = v
Linked-update p [] (l ∷ links) text f v = elim v [ ]
Linked-update p (n ∷ nodes) [] text f v = elim v [ ]
Linked-update p (n ∷ nodes) (l ∷ links) text f (e, v) = elim (Bool-cases (str_eq n.text text)) [
  | inl here ↦ rw here (e, v)
  | inr on ↦ rw on (e, Linked-update (some l.address) nodes links text f v)
]

-- Every address is below `b`.
abbrev pub Below : ℕ → List Link → Type 0
Below b [] = Unit {0}
Below b (l ∷ links) = (l.address < b) × Below b links

Below-later : (a b : ℕ) (links : List Link) → a ≤ b → Below a links → Below b links
Below-later a b [] h v = v
Below-later a b (l ∷ links) h (below, v) = (omega arith, Below-later a b links h v)

-- no node of the chain has the address of a new one
new_address-Below : (links : List Link) → Below (new_address links) links
unfolding new_address
new_address-Below [] = tt
new_address-Below (l ∷ links) =
    (ground arith, Below-later (new_address links) _ links (ground arith) (new_address-Below links))

-- The address of the nearest node passed.
abbrev nearest : List Link → Option ℕ
nearest [] = none
nearest (l ∷ links) = some l.address

abbrev SameShape : List Node → List Link → Type 0
SameShape [] [] = Unit {0}
SameShape (n ∷ nodes) (l ∷ links) = Unit {0}
SameShape nodes links = ⊥

pub unlink_loop-remove :
    (nodes passed : List Node) (links passed_links : List Link) (text : Bytes)
    → SameShape passed passed_links
    → Linked (nearest passed_links) nodes links
    → (links' : List Link) × (unlink_loop (passed, passed_links) (nodes, links) text
        ≡ ok (onto passed (remove_node nodes text), onto passed_links links'))
      × Linked (nearest passed_links) (remove_node nodes text) links'
unfolding Linked unlink_loop remove_node cut_after
unlink_loop-remove [] passed [] passed_links text shape v = ([], refl, v)
unlink_loop-remove [] passed (l ∷ links) passed_links text shape v = elim v [ ]
unlink_loop-remove (n ∷ nodes) [] [] passed_links text shape v = elim v [ ]
unlink_loop-remove (n ∷ nodes) [] (l ∷ links) (k ∷ passed_links) text shape v = elim shape [ ]
unlink_loop-remove (n ∷ nodes) (m ∷ passed) [] passed_links text shape v = elim v [ ]
unlink_loop-remove (n ∷ nodes) (m ∷ passed) (l ∷ links) [] text shape v = elim shape [ ]
unlink_loop-remove (n ∷ nodes) [] (l ∷ links) [] text shape (e, v) =
    elim (Bool-cases (str_eq n.text text)) [
      | inl here ↦ rw (here, e) (set_prev none links, refl, Linked-set_prev _ none nodes links v)
      | inr on ↦
          let (links', e', v') = unlink_loop-remove nodes (n ∷ []) links (l ∷ []) text tt v in
          rw on (l ∷ links', e', (e, v'))
    ]
unlink_loop-remove (n ∷ nodes) (m ∷ passed) (l ∷ links) (k ∷ passed_links) text shape (e, v) =
    elim (Bool-cases (str_eq n.text text)) [
      | inl here ↦
          let same : (k.address == k.address) ≡ true = ground arith in
          rw (here, e, same)
            (
              set_prev (some k.address) links,
              refl,
              Linked-set_prev _ (some k.address) nodes links v,
            )
      | inr on ↦
          let (links', e', v') =
            unlink_loop-remove nodes (n ∷ m ∷ passed) links (l ∷ k ∷ passed_links) text tt v in
          rw on (l ∷ links', e', (e, v'))
    ]
