-- ===== src/HashTable/Insert.antt =====
-- `hash_insert` of src/hashtable/hashtable.c, as a change of the map from keys to nodes.
use c2x_examples.Base.{
  ◌+◌, ◌≡◌, ◌⊎◌, refl, true, false, Option, none, some, ◌∷◌, Bytes, ◌∙◌, sym, if◌then◌else◌,
  Bool-cases, Option-cases, inl, inr, is_some,
}
use c2x_examples.Strings.{str_eq, str_eq_refl, eq_of_str_eq}
use c2x_examples.Memory.{Memory, AlwaysGrants}
use c2x_examples.HashTable.{
  Node, HashTable, dup_string, create_node, insert_node, find_node, Chain, bucket, links_at,
  set_links, set_chain, link_front, hash_lookup, hash_insert,
}
use c2x_examples.HashTable.Unlink.{Linked-front}
use c2x_examples.HashTable.Laws.{
  hash_bound, WellFormed, usable-true, lookup-find, set_chain-WellFormed, lookup-set,
}

abbrev pub fresh : Bytes → Node
fresh text = record { text = text; value = none; bytes = 0; cleanup = none }

insert_node-cases :
    (root : Chain) (text : Bytes) (m : Memory)
    → ((insert_node root (some text) m).0 ≡ none)
      ⊎ ((insert_node root (some text) m).0 ≡ some (fresh text ∷ root.0, link_front root.1))
unfolding insert_node create_node dup_string
insert_node-cases root text m = elim (Bool-cases (m.grant m.calls)) [
  | inl e ↦ elim (Bool-cases (m.grant (m.calls + 1))) [
    | inl e' ↦ inr (rw (e, e'))
    | inr e' ↦ inl (rw (e, e'))
  ]
  | inr e ↦ inl (rw e)
]

insert_node-grants :
    (root : Chain) (text : Bytes) (m : Memory)
    → AlwaysGrants m
    → (insert_node root (some text) m).0 ≡ some (fresh text ∷ root.0, link_front root.1)
unfolding insert_node create_node dup_string
insert_node-grants root text m h = rw (h m.calls, h (m.calls + 1))

-- The node with the key after `hash_insert`.
abbrev pub kept : Bytes → Option Node → Node
kept text (some n) = n
kept text none = fresh text

-- What `hash_insert` leaves where it returns a node.
abbrev pub ensured : HashTable → Bytes → HashTable
ensured t text =
    if is_some (find_node (bucket t text) text)
    then t
    else set_chain t text (fresh text ∷ bucket t text, link_front (links_at t text))

module _ (t : HashTable) (w : WellFormed t) (text : Bytes) where
  pub insert_outcome :
      (m : Memory)
      → ((hash_insert (some t) (some text) m).0 ≡ (false, some t))
        ⊎ ((hash_insert (some t) (some text) m).0 ≡ (true, some (ensured t text)))
  unfolding hash_insert insert_node create_node
  insert_outcome m =
      rw (usable-true t w) (elim (Bool-cases (is_some (find_node (bucket t text) text))) [
        | inl e ↦ inr (rw e)
        | inr e ↦ elim (insert_node-cases (bucket t text, links_at t text) text m) [
          | inl e' ↦ inl (rw (e, e'))
          | inr e' ↦ inr (rw (e, e'))
        ]
      ])

  pub insert_granted :
      (m : Memory)
      → AlwaysGrants m
      → (hash_insert (some t) (some text) m).0 ≡ (true, some (ensured t text))
  unfolding hash_insert insert_node create_node
  insert_granted m h =
      rw (usable-true t w) (elim (Bool-cases (is_some (find_node (bucket t text) text))) [
        | inl e ↦ rw e
        | inr e ↦ rw (e, insert_node-grants (bucket t text, links_at t text) text m h)
      ])

  pub ensured-WellFormed : WellFormed (ensured t text)
  unfolding find_node
  ensured-WellFormed =
      let inside = hash_bound (some text) t.bucket_size w.sized in
      elim (Option-cases (find_node (bucket t text) text)) [
        | inr (n, e) ↦ rw e w
        | inl e ↦ rw e (
            set_chain-WellFormed t w text (fresh text ∷ bucket t text)
              (link_front (links_at t text)) (e, w.distinct _ inside) (refl, w.placed _ inside)
              (Linked-front (fresh text) (bucket t text) (links_at t text) (w.linked _ inside)))
      ]

  pub ensured-lookup :
      (k : Bytes)
      → hash_lookup (some (ensured t text)) (some k) ≡ (
          if str_eq text k
          then some (kept text (hash_lookup (some t) (some text)))
          else hash_lookup (some t) (some k))
  unfolding find_node
  ensured-lookup k = elim (Option-cases (find_node (bucket t text) text)) [
    | inr (n, e) ↦
        let found = lookup-find t w text ∙ e in
        elim (Bool-cases (str_eq text k)) [
          | inl e' ↦ rw (e, e', found, sym (eq_of_str_eq text k e'), found) refl
          | inr e' ↦ rw (e, e')
        ]
    | inl e ↦
        rw (e, lookup-find t w text, e)
          (rw (str_eq_refl text) at (
            lookup-set t w text (fresh text ∷ bucket t text)
              (set_links t text (link_front (links_at t text))) (λ k' ne. rw ne) k))
  ]
