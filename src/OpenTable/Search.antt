-- ===== src/OpenTable/Search.antt =====
-- The search of src/hashtable/open_address/oa_hashtable.c under the invariant of the table.
use mathlib.Core.Option.{some-injective}
use c2x_examples.Base.{
  ◌≢◌, ℕ, zero, suc, ◌+◌, ◌*◌, ◌<◌, ◌≤◌, ◌≡◌, refl, sym, ap, ◌∙◌, Bool, true, false, true≢false,
  Option, none, some, List, [], ◌∷◌, Bytes, ◌==◌, length, size_mod, arith, Bool-cases, Option-cases,
  inl, inr,
}
use c2x_examples.Strings.{str_eq, str_eq_refl, eq_of_str_eq}
use c2x_examples.Array.{get_or}
use c2x_examples.HashTable.{Node, hash}
use c2x_examples.OpenTable.{
  Slot, empty, deleted, moved, occupied, HashTable, usable, at, probed, is_occupied, is_deleted,
  slot_bytes, tally, visit, find_loop, hash_find_slot, hash_lookup,
}

abbrev pub is_empty : Slot → Bool
is_empty empty = true
is_empty s = false

-- The table holds the node.
abbrev pub In : List Slot → Node → Type 0
In slots n = (i : ℕ) × (at slots i ≡ occupied n)

-- The probes from `start` come to `i` over slots that are not empty.
pub record Reaches (slots : List Slot) (size start i : ℕ) : Type 0 where
  pub steps : ℕ
  pub within : steps < size
  pub ends : probed size start steps ≡ i
  pub filled : (p : ℕ) → p < steps → is_empty (at slots (probed size start p)) ≡ false

-- No two slots hold one key, no node has been reset, and a search comes to each.
pub record Probes (slots : List Slot) (size : ℕ) : Type 0 where
  pub full : length slots ≡ size
  pub distinct :
      (i j : ℕ) (a b : Node)
      → at slots i ≡ occupied a
      → at slots j ≡ occupied b
      → a.text ≡ b.text
      → i ≡ j
  pub whole : (i : ℕ) → at slots i ≢ moved
  pub reached :
      (i : ℕ) (n : Node) → at slots i ≡ occupied n → Reaches slots size (hash (some n.text) size) i

pub record WellFormed (t : HashTable) : Type 0 where
  pub allocated : t.allocated ≡ true
  pub sized : 0 < t.bucket_size
  pub small : t.bucket_size * slot_bytes < size_mod
  pub probes : Probes t.slots t.bucket_size
  pub counted : t.count ≡ tally is_occupied t.slots
  pub removed : t.deleted ≡ tally is_deleted t.slots

pub at-bound : (slots : List Slot) (i : ℕ) (n : Node) → at slots i ≡ occupied n → i < length slots
unfolding get_or
at-bound [] i n e = cc
at-bound (s ∷ slots) zero n e = omega arith
at-bound (s ∷ slots) (suc i) n e = omega (arith, at-bound slots i n e)

visit-some :
    (s : Slot) (text : Bytes) (idx i : ℕ) (rest : Option ℕ)
    → is_empty s ≡ false
    → ((m : Node) → s ≡ occupied m → m.text ≡ text → idx ≡ i)
    → rest ≡ some i
    → visit s text idx rest ≡ some i
unfolding visit
visit-some empty text idx i rest f own e = absurd (true≢false f)
visit-some deleted text idx i rest f own e = e
visit-some moved text idx i rest f own e = e
visit-some (occupied m) text idx i rest f own e = elim (Bool-cases (str_eq m.text text)) [
  | inl h ↦ rw h (ap some (own m refl (eq_of_str_eq m.text text h)))
  | inr h ↦ rw h e
]

-- A slot that a search may end at.
abbrev Hit : List Slot → Bytes → ℕ → Type 0
Hit slots text i = (n : Node) × (at slots i ≡ occupied n) × (n.text ≡ text)

visit-Hit :
    (slots : List Slot) (s : Slot) (text : Bytes) (idx i : ℕ) (rest : Option ℕ)
    → at slots idx ≡ s
    → (rest ≡ some i → Hit slots text i)
    → visit s text idx rest ≡ some i
    → Hit slots text i
unfolding visit
visit-Hit slots empty text idx i rest own later e = cc
visit-Hit slots deleted text idx i rest own later e = later e
visit-Hit slots moved text idx i rest own later e = later e
visit-Hit slots (occupied m) text idx i rest own later e = elim (Bool-cases (str_eq m.text text)) [
  | inl h ↦
      let here : some idx ≡ some i = rw h at e in
      let same : idx ≡ i = some-injective _ _ here in
      (m, ap (at slots) (sym same) ∙ own, eq_of_str_eq m.text text h)
  | inr h ↦ later (rw h at e)
]

module _ (slots : List Slot) (size start : ℕ) (text : Bytes) where
  -- a search that is not past the node with the key comes to it
  find_loop-some :
      (k probe i : ℕ) (n : Node)
      → at slots i ≡ occupied n
      → n.text ≡ text
      → ((j : ℕ) (m : Node) → at slots j ≡ occupied m → m.text ≡ text → j ≡ i)
      → (r : Reaches slots size start i) → probe ≤ r.steps
      → r.steps < probe + k
      → find_loop k slots size start probe text ≡ some i
  unfolding find_loop visit
  find_loop-some zero probe i n e same only r lo hi = absurd (omega arith)
  find_loop-some (suc k) probe i n e same only r lo hi = elim (Bool-cases (probe == r.steps)) [
    | inl here ↦
        let now : probe ≡ r.steps = ground arith in
        let ends : probed size start probe ≡ i = rw now r.ends in
        rw (ends, e, same, str_eq_refl text) refl
    | inr more ↦
        visit-some (at slots (probed size start probe)) text _ i _ (r.filled probe (ground arith))
          (λ m e' s. only _ m e' s)
          (find_loop-some k (probe + 1) i n e same only r (ground arith) (ground arith))
  ]

  find_loop-Hit :
      (k probe i : ℕ) → find_loop k slots size start probe text ≡ some i → Hit slots text i
  unfolding find_loop
  find_loop-Hit zero probe i e = cc
  find_loop-Hit (suc k) probe i e =
      visit-Hit slots (at slots (probed size start probe)) text _ i _ refl
        (find_loop-Hit k (probe + 1) i) e

module _ (t : HashTable) (w : WellFormed t) where
  pub usable-true : usable t ≡ true
  usable-true =
      let e = w.allocated in
      let s = w.sized in let n : (t.bucket_size == 0) ≡ false = ground arith in rw (e, n)

  -- the search comes to the slot that holds the key
  pub find_slot-some :
      (i : ℕ) (n : Node) → at t.slots i ≡ occupied n → hash_find_slot t n.text ≡ some i
  unfolding hash_find_slot
  find_slot-some i n e =
      let r = w.probes.reached i n e in
      rw usable-true (
        find_loop-some t.slots t.bucket_size _ n.text t.bucket_size 0 i n e refl
          (λ j m e' same. w.probes.distinct j i m n e' e same) r (omega arith)
          (omega (arith, r.within)))

  pub find_slot-Hit : (i : ℕ) (text : Bytes) → hash_find_slot t text ≡ some i → Hit t.slots text i
  unfolding hash_find_slot
  find_slot-Hit i text e =
      find_loop-Hit t.slots t.bucket_size _ text t.bucket_size 0 i (rw usable-true at e)

  pub find_slot-none :
      (text : Bytes) (n : Node) → hash_find_slot t text ≡ none → In t.slots n → n.text ≢ text
  find_slot-none text n e (i, at_i) same =
      let found = find_slot-some i n at_i in cc (ap (hash_find_slot t) same)

-- What a lookup of the key is to give.
abbrev pub Holds : List Slot → Bytes → Option Node → Type 0
Holds slots k (some n) = In slots n × (n.text ≡ k)
Holds slots k none = (n : Node) → In slots n → n.text ≢ k

-- `hash_lookup` gives the node with the key, wherever in the table it stands.
pub lookup-eq :
    (t : HashTable)
    → WellFormed t
    → (k : Bytes) (o : Option Node) → Holds t.slots k o
    → hash_lookup (some t) (some k) ≡ o
unfolding hash_lookup
lookup-eq t w k none h = elim (Option-cases (hash_find_slot t k)) [
  | inl e ↦ rw e refl
  | inr (i, e) ↦ let (n, at_i, same) = find_slot-Hit t w i k e in absurd (h n (i, at_i) same)
]
lookup-eq t w k (some n) ((i, at_i), same) = rw (sym same, find_slot-some t w i n at_i, at_i) refl

pub lookup-Holds :
    (t : HashTable) → WellFormed t → (k : Bytes) → Holds t.slots k (hash_lookup (some t) (some k))
unfolding hash_lookup
lookup-Holds t w k = elim (Option-cases (hash_find_slot t k)) [
  | inl e ↦ rw e (λ n inside. find_slot-none t w k n e inside)
  | inr (i, e) ↦ let (n, at_i, same) = find_slot-Hit t w i k e in rw (e, at_i) ((i, at_i), same)
]
