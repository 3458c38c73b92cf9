-- ===== src/HashTable/Table/Cleanup.antt =====
-- `hash_cleanup` of src/hashtable/hashtable.c: what it gives back.
use mathlib.Core.List.{reverse_aux, append_assoc}
use c2x_examples.Base.{
  ℕ, ◌+◌, ◌-◌, ◌*◌, ◌≡◌, ◌∙◌, refl, ap, sym, true, some, none, List, [], ◌∷◌, ◌++◌, Bytes, length,
  length-append, arith, Option-cases, inl, inr,
}
use c2x_examples.Memory.{Memory}
use c2x_examples.HashTable.{Node, HashTable, usable, clean, release_one}
use c2x_examples.HashTable.Table.{release_node, release_buckets, hash_cleanup, closed}

-- The value that the node owns, with its callback.
abbrev pub owned : Node → List (ℕ × Bytes)
owned n = elim n.cleanup [
  | none ↦ []
  | some f ↦ elim n.value [ none ↦ [] | some object ↦ (f, object) ∷ [] ]
]

abbrev pub nodes : List (List Node) → List Node
nodes [] = []
nodes (l ∷ b) = l ++ nodes b

abbrev pub owned_all : List Node → List (ℕ × Bytes)
owned_all [] = []
owned_all (n ∷ l) = owned n ++ owned_all l

-- Memory after `k` blocks have gone, the objects of `l` handed to their callbacks in order.
abbrev pub released : ℕ → List (ℕ × Bytes) → Memory → Memory
released k l m = record m { live = m.live - k; cleaned = reverse_aux l m.cleaned }

release_one_lem :
    (n : Node) (m : Memory) → (release_one n m).1 ≡ released (2 + length (owned n)) (owned n) m
unfolding release_one clean
release_one_lem n m = elim (Option-cases n.cleanup) [
  | inl e ↦ rw e (ground arith)
  | inr (f, e) ↦ elim (Option-cases n.value) [
    | inl e' ↦ rw (e, e') (ground arith)
    | inr (object, e') ↦ rw (e, e') (ground arith)
  ]
]

released_twice :
    (j k : ℕ) (a b : List (ℕ × Bytes)) (m : Memory)
    → released k b (released j a m) ≡ released (j + k) (a ++ b) m
released_twice j k [] b m = ground arith
released_twice j k (x ∷ a) b m = released_twice j k a b (record m { cleaned = x ∷ m.cleaned })

release_node_lem :
    (l : List Node) (m : Memory)
    → (release_node l m).1 ≡ released (2 * length l + length (owned_all l)) (owned_all l) m
unfolding release_node
release_node_lem [] m = ground arith
release_node_lem (n ∷ l) m =
    release_node_lem l (release_one n m).1
    ∙ ap (released (2 * length l + length (owned_all l)) (owned_all l)) (release_one_lem n m)
    ∙ released_twice (2 + length (owned n)) (2 * length l + length (owned_all l)) (owned n)
        (owned_all l) m
    ∙ ap (λ k. released k (owned_all (n ∷ l)) m)
        (omega (arith, length-append (owned n) (owned_all l)))

-- The blocks of the nodes: each, its key and the value that it owns.
abbrev pub blocks : List Node → ℕ
blocks l = 2 * length l + length (owned_all l)

owned_all-append : (l k : List Node) → owned_all (l ++ k) ≡ owned_all l ++ owned_all k
owned_all-append [] k = refl
owned_all-append (n ∷ l) k =
    ap (λ o. owned n ++ o) (owned_all-append l k)
    ∙ sym (append_assoc (owned n) (owned_all l) (owned_all k))

release_buckets_lem :
    (b : List (List Node)) (m : Memory)
    → (release_buckets b m).1 ≡ released (blocks (nodes b)) (owned_all (nodes b)) m
unfolding release_buckets
release_buckets_lem [] m = ground arith
release_buckets_lem (l ∷ b) m =
    release_buckets_lem b (release_node l m).1
    ∙ ap (released (blocks (nodes b)) (owned_all (nodes b))) (release_node_lem l m)
    ∙ released_twice (blocks l) (blocks (nodes b)) (owned_all l) (owned_all (nodes b)) m
    ∙ rw (owned_all-append l (nodes b)) (
        ap (λ k. released k (owned_all l ++ owned_all (nodes b)) m)
          (omega
            (arith, length-append l (nodes b), length-append (owned_all l) (owned_all (nodes b)))))

-- `hash_cleanup` of a table with its array of buckets gives back the array and the blocks of every
-- node, hands each value that has a callback to this callback once, in the order of the buckets and chains,
-- and leaves a table without an array.
pub hash_cleanup-released :
    (t : HashTable) (m : Memory)
    → usable t ≡ true
    → hash_cleanup (some t) m
      ≡ (some closed, released (blocks (nodes t.buckets) + 1) (owned_all (nodes t.buckets)) m)
unfolding hash_cleanup
hash_cleanup-released t m h = rw h (
    ap (λ (x : Memory). (some closed, record x { live = x.live - 1 }))
      (release_buckets_lem t.buckets m)
    ∙ ground arith)
