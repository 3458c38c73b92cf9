-- ===== src/HashTable/Find.antt =====
-- The search, the update and the removal of a key in a bucket of src/hashtable/hashtable.c.
use c2x_examples.Base.{
  ◌≡◌, refl, true, false, none, List, [], ◌∷◌, Bytes, sym, arith, Bool-cases, inl, inr,
}
use mathlib.Core.Option
use c2x_examples.Strings.{str_eq, eq_of_str_eq}
use c2x_examples.HashTable.{Node, find_node, update_node}
use c2x_examples.HashTable.Unlink.{remove_node}

abbrev pub All : (Node → Type 0) → List Node → Type 0
All P [] = Unit
All P (n ∷ l) = P n × All P l

-- No key stands in two nodes.
abbrev pub Distinct : List Node → Type 0
Distinct [] = Unit
Distinct (n ∷ l) = (find_node l n.text ≡ none) × Distinct l

-- a key that equals one of two unequal keys differs from the other
other_key :
    (own text k : Bytes) → str_eq own text ≡ true → str_eq text k ≡ false → str_eq own k ≡ false
other_key own text k e ne = rw (eq_of_str_eq own text e) ne

module _ (text k : Bytes) where
  pub find-remove_other :
      (l : List Node) → str_eq text k ≡ false → find_node (remove_node l text) k ≡ find_node l k
  unfolding find_node remove_node
  find-remove_other [] ne = refl
  find-remove_other (n ∷ l) ne = elim (Bool-cases (str_eq n.text text)) [
    | inl e ↦ rw (e, other_key n.text text k e ne)
    | inr e ↦ rw (e, find-remove_other l ne)
  ]

  find-remove_none :
      (l : List Node) → find_node l k ≡ none → find_node (remove_node l text) k ≡ none
  unfolding find_node remove_node
  find-remove_none [] h = refl
  find-remove_none (n ∷ l) h = ground (arith, find-remove_none l)

pub find-remove_same :
    (text : Bytes) (l : List Node) → Distinct l → find_node (remove_node l text) text ≡ none
unfolding find_node remove_node
find-remove_same text [] distinct = refl
find-remove_same text (n ∷ l) (fresh, distinct) = elim (Bool-cases (str_eq n.text text)) [
  | inl e ↦ rw (e, sym (eq_of_str_eq n.text text e)) fresh
  | inr e ↦ rw (e, e) (find-remove_same text l distinct)
]

pub remove-Distinct : (text : Bytes) (l : List Node) → Distinct l → Distinct (remove_node l text)
unfolding remove_node
remove-Distinct text [] distinct = tt
remove-Distinct text (n ∷ l) (fresh, distinct) = elim (Bool-cases (str_eq n.text text)) [
  | inl e ↦ rw e distinct
  | inr e ↦ rw e (find-remove_none text n.text l fresh, remove-Distinct text l distinct)
]

pub remove-All :
    (P : Node → Type 0) (text : Bytes) (l : List Node) → All P l → All P (remove_node l text)
unfolding remove_node
remove-All P text [] h = tt
remove-All P text (n ∷ l) (p, h) = elim (Bool-cases (str_eq n.text text)) [
  | inl e ↦ rw e h
  | inr e ↦ rw e (p, remove-All P text l h)
]

-- A change `f` of a node that leaves its key alone.
module _ (f : Node → Node) (keeps : (n : Node) → (f n).text ≡ n.text) (text : Bytes) where
  pub find-update_same :
      (l : List Node) → find_node (update_node l text f) text ≡ Option.map f (find_node l text)
  unfolding find_node update_node
  find-update_same [] = refl
  find-update_same (n ∷ l) = elim (Bool-cases (str_eq n.text text)) [
    | inl e ↦ rw (e, keeps n, e)
    | inr e ↦ rw (e, e) (find-update_same l)
  ]

  pub find-update_other :
      (k : Bytes) (l : List Node)
      → str_eq text k ≡ false
      → find_node (update_node l text f) k ≡ find_node l k
  unfolding find_node update_node
  find-update_other k [] ne = refl
  find-update_other k (n ∷ l) ne = elim (Bool-cases (str_eq n.text text)) [
    | inl e ↦ rw (e, keeps n, other_key n.text text k e ne)
    | inr e ↦ rw (e, find-update_other k l ne)
  ]

  find-update_none :
      (k : Bytes) (l : List Node) → find_node l k ≡ none → find_node (update_node l text f) k ≡ none
  unfolding find_node update_node
  find-update_none k [] h = refl
  find-update_none k (n ∷ l) h = ground (arith, keeps n, find-update_none k l)

  pub update-Distinct : (l : List Node) → Distinct l → Distinct (update_node l text f)
  unfolding update_node
  update-Distinct [] distinct = tt
  update-Distinct (n ∷ l) (fresh, distinct) = elim (Bool-cases (str_eq n.text text)) [
    | inl e ↦ rw (e, keeps n) (fresh, distinct)
    | inr e ↦ rw e (find-update_none n.text l fresh, update-Distinct l distinct)
  ]

  pub update-All :
      (P : Node → Type 0) (l : List Node)
      → ((n : Node) → P n → P (f n))
      → All P l
      → All P (update_node l text f)
  unfolding update_node
  update-All P [] next h = tt
  update-All P (n ∷ l) next (p, h) = elim (Bool-cases (str_eq n.text text)) [
    | inl e ↦ rw e (next n p, h)
    | inr e ↦ rw e (p, update-All P l next h)
  ]
