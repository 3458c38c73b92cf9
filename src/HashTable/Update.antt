-- ===== src/HashTable/Update.antt =====
-- `hash_set` and `hash_remove` of src/hashtable/hashtable.c, as changes of the map from keys to nodes.
use mathlib.Core.Option
use mathlib.Core.Option.{some-injective}
use c2x_examples.Base.{
  ℕ, ◌≡◌, ◌⊎◌, refl, Bool, true, false, Option, none, some, List, [], ◌∷◌, Bytes, ◌∙◌, sym, ap,
  if◌then◌else◌, Bool-cases, Option-cases, inl, inr, true≢false,
}
use c2x_examples.Strings.{str_eq, str_eq_refl, eq_of_str_eq}
use c2x_examples.Memory.{Memory, AlwaysGrants}
use c2x_examples.HashTable.{
  Node, HashTable, find_node, update_node, bucket, set_bucket, hash_lookup, hash_set, assign,
  hash_remove, links_at, set_links,
}
use c2x_examples.HashTable.Find.{
  find-remove_other, find-remove_same, remove-Distinct, remove-All, find-update_same,
  find-update_other, update-Distinct, update-All,
}
use c2x_examples.Run.{ok}
use c2x_examples.HashTable.Unlink.{Linked-update, remove_node, unlink_loop-remove}
use c2x_examples.HashTable.Laws.{
  hash_bound, WellFormed, usable-true, lookup-find, set_bucket-WellFormed, set_chain-WellFormed,
  lookup-set,
}
use c2x_examples.HashTable.Insert.{
  kept, ensured, insert_outcome, insert_granted, ensured-WellFormed, ensured-lookup,
}

-- the node that a search returns has the key
find_node-text : (l : List Node) (k : Bytes) (n : Node) → find_node l k ≡ some n → n.text ≡ k
unfolding find_node
find_node-text [] k n h = cc
find_node-text (a ∷ l) k n h = elim (Bool-cases (str_eq a.text k)) [
  | inl e ↦
      let here : some a ≡ some n = rw e at h in
      ap (λ (x : Node). x.text) (sym (some-injective _ _ here)) ∙ eq_of_str_eq a.text k e
  | inr e ↦ find_node-text l k n (rw e at h)
]

-- The node with its new value.
abbrev pub assigned : Bytes → Option Bytes → ℕ → Option ℕ → Node
assigned text value bytes cleanup = record {
  text = text;
  value = value;
  bytes = bytes;
  cleanup = cleanup;
}

-- The map that holds `n` at its key and is the table elsewhere.
abbrev pub Maps : HashTable → Bytes → Option Node → HashTable → Type 0
Maps t text n t' =
    (k : Bytes)
    → hash_lookup (some t') (some k) ≡ (if str_eq text k then n else hash_lookup (some t) (some k))

module _ (t : HashTable) (w : WellFormed t) (text : Bytes) where
  pub update-lookup :
      (f : Node → Node)
      → ((n : Node) → (f n).text ≡ n.text)
      → Maps t text
          (Option.map f (hash_lookup (some t) (some text)))
          (set_bucket t text (update_node (bucket t text) text f))
  update-lookup f keeps k =
      rw (lookup-find t w text, sym (find-update_same f keeps text (bucket t text)))
        (lookup-set t w text (update_node (bucket t text) text f) t.links
          (λ k' ne. find-update_other f keeps text k' (bucket t text) ne) k)

  pub update-WellFormed :
      (f : Node → Node)
      → ((n : Node) → (f n).text ≡ n.text)
      → WellFormed (set_bucket t text (update_node (bucket t text) text f))
  update-WellFormed f keeps =
      let inside = hash_bound (some text) t.bucket_size w.sized in
      set_bucket-WellFormed t w text (update_node (bucket t text) text f)
        (update-Distinct f keeps text (bucket t text) (w.distinct _ inside))
        (update-All f keeps text _ (bucket t text) (λ n e. rw (keeps n) e) (w.placed _ inside))
        (Linked-update none (bucket t text) (links_at t text) text f (w.linked _ inside))

  -- `hash_remove` of any key from a table within the invariant ends without following a
  -- pointer out of the bucket and leaves a table within it in which the key is not found and every
  -- other key is found as before.
  pub hash_remove-Maps :
      (m : Memory)
      → (t' : HashTable) × ((hash_remove (some t) (some text) m).0 ≡ ok (some t'))
        × WellFormed t'
        × Maps t text none t'
  unfolding hash_remove
  hash_remove-Maps m =
      let inside = hash_bound (some text) t.bucket_size w.sized in
      let there = w.distinct _ inside in
      let (links, unlinked, v) =
        unlink_loop-remove (bucket t text) [] (links_at t text) [] text tt (w.linked _ inside) in
      rw (usable-true t w) (elim (Option-cases (find_node (bucket t text) text)) [
        | inl e ↦ rw e (
          t,
          refl,
          w,
          λ k. elim (Bool-cases (str_eq text k)) [
            | inl e' ↦ rw (e', sym (eq_of_str_eq text k e')) (lookup-find t w text ∙ e)
            | inr e' ↦ rw e'
          ],
        )
        | inr (n, e) ↦
            rw (e, unlinked)
              (
                _,
                refl,
                set_chain-WellFormed t w text (remove_node (bucket t text) text) links
                    (remove-Distinct text (bucket t text) there)
                    (remove-All _ text (bucket t text) (w.placed _ inside)) v,
                rw (find-remove_same text (bucket t text) there) at (
                    lookup-set t w text (remove_node (bucket t text) text) (set_links t text links)
                      λ k ne. find-remove_other text k (bucket t text) ne),
              )
      ])

module _ (t : HashTable) (w : WellFormed t) (text : Bytes) (value : Option Bytes) (bytes : ℕ)
    (cleanup : Option ℕ) where
  abbrev write : Node → Node
  write n = record n { value = value; bytes = bytes; cleanup = cleanup }

  abbrev written : HashTable
  written = let e = ensured t text in set_bucket e text (update_node (bucket e text) text write)

  kept-text : (kept text (hash_lookup (some t) (some text))).text ≡ text
  kept-text = rw (lookup-find t w text) (elim (Option-cases (find_node (bucket t text) text)) [
    | inl e ↦ rw e refl
    | inr (n, e) ↦ rw e (find_node-text (bucket t text) text n e)
  ])

  written_node :
      Option.map write (hash_lookup (some (ensured t text)) (some text))
      ≡ some (assigned text value bytes cleanup)
  written_node =
      rw (ensured-lookup t w text text, str_eq_refl text)
        (ap (λ key. some (assigned key value bytes cleanup)) kept-text)

  written-Maps : Maps t text (some (assigned text value bytes cleanup)) written
  written-Maps k =
      update-lookup (ensured t text) (ensured-WellFormed t w text) text write (λ n. refl) k
      ∙ rw written_node (elim (Bool-cases (str_eq text k)) [
        | inl e ↦ rw e
        | inr e ↦ rw e (ensured-lookup t w text k ∙ rw e)
      ])

  written-WellFormed : WellFormed written
  written-WellFormed =
      update-WellFormed (ensured t text) (ensured-WellFormed t w text) text write (λ n. refl)

  -- `hash_set` of a table within the invariant, of any key and value, either returns no node and
  -- leaves the table as it is, or returns one and leaves a table within the invariant in which the
  -- key is found with the new value, size and callback, and every other key as before. No request
  -- for memory refused, it does the latter.
  pub hash_set-Maps :
      (m : Memory)
      → let r = (hash_set (some t) (some text) value bytes cleanup m).0 in
        ((r ≡ (false, some t)) × ¬ AlwaysGrants m)
        ⊎ ((t' : HashTable) × (r ≡ (true, some t'))
            × WellFormed t'
            × Maps t text (some (assigned text value bytes cleanup)) t')
  unfolding hash_set assign
  hash_set-Maps m = elim (insert_outcome t w text m) [
    | inl e ↦ rw e (
        inl (
          refl,
          λ granted.
              let all = sym e ∙ insert_granted t w text m granted in
              true≢false (sym (ap (λ (r : Bool × Option HashTable). r.0) all)),
        ))
    | inr e ↦ rw e (inr (written, refl, written-WellFormed, written-Maps))
  ]
