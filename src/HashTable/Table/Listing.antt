-- ===== src/HashTable/Table/Listing.antt =====
-- The listings of src/hashtable/hashtable.c: `hash_print`, `hash_count` and `hash_flat_list`.
use mathlib.Core.List.{Perm, append_assoc, append-nil, perm_middle, perm_append_comm}
use mathlib.Core.List.Perm
use c2x_examples.Base.{
  ℕ, ◌+◌, ◌%◌, ◌<◌, ◌≡◌, refl, Bool, true, Option, some, List, [], ◌∷◌, ◌++◌, Bytes, ◌∙◌, map,
  arith, length, length-append, size_mod, incr,
}
use c2x_examples.Memory.{Memory, AlwaysGrants}
use c2x_examples.HashTable.{Node, Chain, HashTable, usable, insert_node, create_node, dup_string}
use c2x_examples.HashTable.Table.{
  print_node, print_loop, hash_print, count_chain, count_loop, hash_count, flat_chain, flat_loop,
  hash_flat_list,
}

count_chain-total :
    (count : ℕ) (l : List Node)
    → count < size_mod
    → count_chain count l ≡ (count + length (print_node l)) % size_mod
unfolding count_chain print_node
count_chain-total count [] h = omega arith
count_chain-total count (n ∷ l) h = count_chain-total (incr count) l (omega arith) ∙ (omega arith)

count_loop-total :
    (count : ℕ) (b : List (List Node))
    → count < size_mod
    → count_loop count b ≡ (count + length (print_loop b)) % size_mod
unfolding count_loop print_loop
count_loop-total count [] h = omega arith
count_loop-total count (l ∷ b) h =
    rw (length-append (print_node l) (print_loop b), count_chain-total count l h)
      (count_loop-total ((count + length (print_node l)) % size_mod) b (omega arith) ∙ omega arith)

-- `hash_count` of a table with its array of buckets is the number of keys that `hash_print` writes,
-- modulo 2^64.
pub hash_count-printed :
    (t : HashTable) → usable t ≡ true → hash_count t ≡ length (hash_print (some t)) % size_mod
unfolding hash_count hash_print
hash_count-printed t h = rw h (count_loop-total 0 t.buckets (omega arith) ∙ omega arith)

abbrev Listed : Chain → List Bytes → (Bool × Chain) × Memory → Type 0
Listed flat keys r =
    (r.0.0 ≡ true) × Perm (print_node r.0.1.0) (keys ++ print_node flat.0) × AlwaysGrants r.1

flat_chain-Listed :
    (l : List Node) (flat : Chain) (m : Memory)
    → AlwaysGrants m
    → Listed flat (print_node l) (flat_chain flat l m)
unfolding flat_chain insert_node create_node dup_string print_node
flat_chain-Listed [] flat m h = (refl, Perm.rfl, h)
flat_chain-Listed (n ∷ l) flat m h =
    rw (h m.calls, h (m.calls + 1))
      (let (done, same, granted) = flat_chain-Listed l _ _ h in
        (done, Perm.trans same (perm_middle (print_node l) (print_node flat.0)), granted))

abbrev ListedAll : Chain → List Bytes → Option Chain × Memory → Type 0
ListedAll flat keys r =
    (out : Chain) × (r.0 ≡ some out) × Perm (print_node out.0) (keys ++ print_node flat.0)

flat_step :
    (own rest flat grown out : List Bytes)
    → Perm out (rest ++ grown)
    → Perm grown (own ++ flat)
    → Perm out ((own ++ rest) ++ flat)
flat_step own rest flat grown out same first = Perm.trans same (
    Perm.trans (Perm.append_left rest first)
      (rw (append_assoc rest own flat) at (Perm.append_right flat (perm_append_comm rest own))))

flat_loop-Listed :
    (flat : Chain) (b : List (List Node)) (m : Memory)
    → AlwaysGrants m
    → ListedAll flat (print_loop b) (flat_loop flat b m)
unfolding flat_loop print_loop
flat_loop-Listed flat [] m h = (flat, refl, Perm.rfl)
flat_loop-Listed flat (l ∷ b) m h =
    let (done, first, granted) = flat_chain-Listed l flat m h in
    let (out, e, same) = flat_loop-Listed (flat_chain flat l m).0.1 b _ granted in
    rw done (out, e, flat_step (print_node l) (print_loop b) (print_node flat.0) _ _ same first)

-- `hash_flat_list` of a table with its array of buckets, no request for memory refused, gives nodes
-- with exactly the keys that `hash_print` writes, each as often.
pub hash_flat_list-printed :
    (t : HashTable) (m : Memory)
    → usable t ≡ true
    → AlwaysGrants m
    → Perm (print_node (hash_flat_list (some t) m).0) (hash_print (some t))
unfolding hash_flat_list hash_print print_node
hash_flat_list-printed t m h granted =
    let (out, e, same) = flat_loop-Listed ([], []) t.buckets m granted in
    rw h (rw (map, e) (rw (append-nil (print_loop t.buckets)) at same))
