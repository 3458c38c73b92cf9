-- ===== src/HashTable/Table/Union.antt =====
-- `hash_merge` and `hash_clone_merge` of src/hashtable/hashtable.c, as unions of maps.
use mathlib.Core.Option
use c2x_examples.Base.{
  ℕ, zero, suc, ◌<◌, ◌≡◌, ◌≢◌, refl, true, Option, none, some, List, [], ◌∷◌, Bytes, ◌∙◌, sym, ap,
  arith, Bool-cases, Option-cases, inl, inr, length, ◌==◌,
}
use c2x_examples.Strings.{str_eq, eq_of_str_eq}
use c2x_examples.Array.{get_or}
use c2x_examples.Memory.{Memory, AlwaysGrants}
use c2x_examples.HashTable.{Node, HashTable, hash, find_node, hash_lookup}
use c2x_examples.HashTable.Find.{All}
use c2x_examples.HashTable.Laws.{hash_bound, WellFormed, usable-true, lookup-find}
use c2x_examples.HashTable.Table.{merge_chain, merge_loop, hash_merge, hash_clone_merge, hash_init}
use c2x_examples.HashTable.Table.Init.{hash_init-WellFormed}
use c2x_examples.HashTable.Table.Merge.{
  copied, Readable, or_else, or_else-none, Merged, then-Merged, same_Merged, unchanged,
  merge_chain-Merged,
}

-- The first node with the key in any bucket.
find_all : List (List Node) → Bytes → Option Node
find_all [] k = none
find_all (l ∷ b) k = or_else (find_node l k) (find_all b k)

abbrev pub AllReadable : List (List Node) → Type 0
AllReadable [] = Unit {0}
AllReadable (l ∷ b) = All Readable l × AllReadable b

merge_loop-Merged :
    (b : List (List Node)) (to : HashTable) (m : Memory)
    → WellFormed to
    → AllReadable b
    → AlwaysGrants m
    → Merged to (λ k. Option.map copied (find_all b k)) (merge_loop to b m)
unfolding merge_loop find_all
merge_loop-Merged [] to m w readable h = unchanged to m w h
merge_loop-Merged (l ∷ b) to m w (here, readable) h =
    same_Merged to _ _ (merge_loop to (l ∷ b) m)
      (λ k. elim (Option-cases (find_node l k)) [ inl e ↦ rw e | inr (n, e) ↦ rw e ])
      (then-Merged to _ _ (merge_chain to l m) _ (merge_chain-Merged l to m w here h)
        λ t m' w' h'. merge_loop-Merged b t m' w' readable h')

find_all-none :
    (b : List (List Node)) (k : Bytes)
    → ((j : ℕ) → j < length b → find_node (get_or b j []) k ≡ none)
    → find_all b k ≡ none
unfolding find_all get_or
find_all-none [] k h = refl
find_all-none (l ∷ b) k h =
    rw (h 0 (omega arith)) (find_all-none b k λ j p. h (suc j) (omega arith))

find_all-one :
    (b : List (List Node)) (k : Bytes) (i : ℕ)
    → i < length b
    → ((j : ℕ) → j < length b → j ≢ i → find_node (get_or b j []) k ≡ none)
    → find_all b k ≡ find_node (get_or b i []) k
unfolding find_all get_or
find_all-one [] k i h others = absurd (omega arith)
find_all-one (l ∷ b) k zero h others =
    rw (find_all-none b k λ j p. others (suc j) (omega arith) (λ e. omega (arith, e)))
      (or_else-none (find_node l k))
find_all-one (l ∷ b) k (suc i) h others = rw (others 0 (omega arith) (λ e. omega (arith, e))) (
    find_all-one b k i (omega arith)
      λ j p ne. others (suc j) (omega arith) (λ e. ne (omega (arith, e))))

-- a key is not found where its hash is not
astray :
    (l : List Node) (k : Bytes) (size j : ℕ)
    → All (λ n. hash (some n.text) size ≡ j) l
    → j ≢ hash (some k) size
    → find_node l k ≡ none
unfolding find_node
astray [] k size j placed ne = refl
astray (n ∷ l) k size j (p, placed) ne = elim (Bool-cases (str_eq n.text k)) [
  | inl e ↦ absurd (ne (sym p ∙ ap (λ key. hash (some key) size) (eq_of_str_eq n.text k e)))
  | inr e ↦ rw e (astray l k size j placed ne)
]

find_all-lookup :
    (t : HashTable)
    → WellFormed t
    → (k : Bytes) → find_all t.buckets k ≡ hash_lookup (some t) (some k)
find_all-lookup t w k =
    find_all-one t.buckets k (hash (some k) t.bucket_size)
      (rw w.full (hash_bound (some k) t.bucket_size w.sized))
      (λ j p ne.
        let inside : j < t.bucket_size = rw w.full at p in
        astray (get_or t.buckets j []) k t.bucket_size j (w.placed j inside) ne)
    ∙ sym (lookup-find t w k)

-- `hash_merge` of tables within the invariant, the values of the second one as long as their nodes
-- say and no request for memory refused, succeeds with a table within the invariant, in which a key is
-- found as it was and otherwise as `copied` makes of the node that the second table has: where that
-- has a value of at least one byte, with a copy of that many of its bytes, the size and the callback,
-- and otherwise with no value, size 0 and no callback.
pub hash_merge-Merged :
    (to from : HashTable) (m : Memory)
    → WellFormed to
    → WellFormed from
    → AllReadable from.buckets
    → AlwaysGrants m
    → Merged to
        (λ k. Option.map copied (hash_lookup (some from) (some k)))
        (hash_merge (some to) (some from) m)
unfolding hash_merge
hash_merge-Merged to from m w v readable h =
    rw (usable-true to w, usable-true from v)
      (same_Merged to _ _ (merge_loop to from.buckets m)
        (λ k. ap (Option.map copied) (find_all-lookup from v k))
        (merge_loop-Merged from.buckets to m w readable h))

init_grants : (size : ℕ) (m : Memory) → AlwaysGrants m → AlwaysGrants (hash_init true size m).1
unfolding hash_init
init_grants size m h = elim (Bool-cases (size == 0)) [ inl e ↦ rw e h | inr e ↦ rw e h ]

-- `hash_clone_merge` of tables within the invariant, their values as long as their nodes say and no
-- request for memory refused, succeeds and leaves a table within the invariant, in which a key is
-- found as `copied` makes of the node that the first table has, or else of the one that the second
-- has: where that node has a value of at least one byte, with a copy of that many of its bytes, the
-- size and the callback, and otherwise with no value, size 0 and no callback.
pub hash_clone_merge-Union :
    (global file_table : HashTable) (m : Memory)
    → WellFormed global
    → WellFormed file_table
    → AllReadable global.buckets
    → AllReadable file_table.buckets
    → AlwaysGrants m
    → (t : HashTable) × ((hash_clone_merge (some global) (some file_table) m).0 ≡ (true, some t))
      × WellFormed t
      × ((k : Bytes)
          → hash_lookup (some t) (some k)
            ≡ or_else
                (Option.map copied (hash_lookup (some global) (some k)))
                (Option.map copied (hash_lookup (some file_table) (some k))))
unfolding hash_clone_merge
hash_clone_merge-Union global file_table m w v readable readable' h =
    let (temp, e, u, _, none_found) =
      hash_init-WellFormed global.bucket_size w.sized m (ground (arith, h m.calls, w.fits)) in
    let (first, e1, w1, found1, h1) =
      hash_merge-Merged temp global (hash_init true global.bucket_size m).1 u w readable
        (init_grants global.bucket_size m h) in
    let (second, e2, w2, found2, h2) =
      hash_merge-Merged first file_table
        (hash_merge (some temp) (some global) (hash_init true global.bucket_size m).1).1 w1 v
        readable' h1 in
    rw (usable-true global w, usable-true file_table v)
      (rw e (
        rw e1 (
          rw e2 (
            second,
            refl,
            w2,
            λ k.
                found2 k
                ∙ ap (λ o. or_else o (Option.map copied (hash_lookup (some file_table) (some k))))
                    (found1 k
                      ∙ ap (λ o. or_else o (Option.map copied (hash_lookup (some global) (some k))))
                          (none_found k)),
          ))))
