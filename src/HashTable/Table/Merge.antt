-- ===== src/HashTable/Table/Merge.antt =====
-- One bucket of `hash_merge` of src/hashtable/hashtable.c: what each node adds to the first table.
use mathlib.Core.Option
use c2x_examples.Base.{
  ◌+◌, ◌≡◌, refl, Bool, true, Option, none, some, List, [], ◌∷◌, Bytes, ◌∙◌, sym, ap, if◌then◌else◌,
  Bool-cases, Option-cases, inl, inr, is_some, ◌==◌, take, ◌≤◌, length, ltb, arith, false,
}
use c2x_examples.Strings.{str_eq, str_eq_refl, eq_of_str_eq}
use c2x_examples.Memory.{Memory, M, AlwaysGrants}
use c2x_examples.HashTable.{
  Node, HashTable, dup_string, create_node, insert_node, find_node, update_node, usable, bucket,
  set_bucket, hash_lookup, hash_insert,
}
use c2x_examples.HashTable.Find.{All}
use c2x_examples.HashTable.Laws.{WellFormed}
use c2x_examples.HashTable.Insert.{
  fresh, ensured, insert_granted, ensured-WellFormed, ensured-lookup,
}
use c2x_examples.HashTable.Update.{Maps, update-lookup, update-WellFormed}
use c2x_examples.HashTable.Table.{and_then, copy_value, merge_node, merge_chain}

-- What a merge makes of a node: a value of 0 bytes, with its callback, is not taken over.
abbrev pub copied : Node → Node
copied n = elim n.value [
  | none ↦ fresh n.text
  | some object ↦
      if n.bytes == 0 then fresh n.text else record n { value = some (take n.bytes object) }
]

-- The object at the value has at least the bytes that the node says.
abbrev pub Readable : Node → Type 0
Readable n = (object : Bytes) → n.value ≡ some object → n.bytes ≤ length object

abbrev pub or_else : Option Node → Option Node → Option Node
or_else (some n) o = some n
or_else none o = o

or_else_assoc : (a b c : Option Node) → or_else (or_else a b) c ≡ or_else a (or_else b c)
or_else_assoc none b c = refl
or_else_assoc (some n) b c = refl

-- The merge succeeds and adds `more` to what is found, with memory still granted.
abbrev pub Merged : HashTable → (Bytes → Option Node) → (Bool × Option HashTable) × Memory → Type 0
Merged to more r =
    (t : HashTable) × (r.0 ≡ (true, some t))
    × WellFormed t
    × ((k : Bytes)
        → hash_lookup (some t) (some k) ≡ or_else (hash_lookup (some to) (some k)) (more k))
    × AlwaysGrants r.1

pub then-Merged :
    (to : HashTable) (first second : Bytes → Option Node) (r : (Bool × Option HashTable) × Memory)
    (next : HashTable → M (Bool × Option HashTable))
    → Merged to first r
    → ((t : HashTable) (m : Memory) → WellFormed t → AlwaysGrants m → Merged t second (next t m))
    → Merged to (λ k. or_else (first k) (second k)) (and_then next r.0 r.1)
then-Merged to first second r next (t, e, w, found, granted) step =
    let (t', e', w', found', granted') = step t r.1 w granted in
    rw e (
      t',
      e',
      w',
      (λ k.
          found' k
          ∙ ap (λ o. or_else o (second k)) (found k)
          ∙ or_else_assoc (hash_lookup (some to) (some k)) (first k) (second k)),
      granted',
    )

insert_grants :
    (t : HashTable) (text : Bytes) (m : Memory)
    → AlwaysGrants m
    → AlwaysGrants (hash_insert (some t) (some text) m).1
unfolding hash_insert insert_node create_node dup_string
insert_grants t text m h = elim (Bool-cases (usable t)) [
  | inl e ↦ elim (Bool-cases (is_some (find_node (bucket t text) text))) [
    | inl e' ↦ rw (e, e') h
    | inr e' ↦ rw (e, e', h m.calls, h (m.calls + 1)) h
  ]
  | inr e ↦ rw e h
]

pub or_else-none : (o : Option Node) → or_else o none ≡ o
or_else-none none = refl
or_else-none (some n) = refl

pub same_Merged :
    (to : HashTable) (first second : Bytes → Option Node) (r : (Bool × Option HashTable) × Memory)
    → ((k : Bytes) → first k ≡ second k)
    → Merged to first r
    → Merged to second r
same_Merged to first second r same (t, e, w, found, granted) =
    (t, e, w, (λ k. found k ∙ ap (or_else (hash_lookup (some to) (some k))) (same k)), granted)

module _ (to : HashTable) (w : WellFormed to) (text : Bytes)
    (missing : hash_lookup (some to) (some text) ≡ none) where
  -- a change at a missing key adds a node
  added :
      (t : HashTable) (new : Node)
      → Maps to text (some new) t
      → (k : Bytes)
      → hash_lookup (some t) (some k)
        ≡ or_else (hash_lookup (some to) (some k)) (if str_eq text k then some new else none)
  added t new maps k = maps k ∙ elim (Bool-cases (str_eq text k)) [
    | inl e ↦ rw (e, sym (eq_of_str_eq text k e), missing) refl
    | inr e ↦ rw (e, or_else-none (hash_lookup (some to) (some k))) refl
  ]

  ensured-Maps : Maps to text (some (fresh text)) (ensured to text)
  ensured-Maps = rw missing at (ensured-lookup to w text)

  new-Maps :
      (f : Node → Node)
      → ((n : Node) → (f n).text ≡ n.text)
      → Maps to text
          (some (f (fresh text)))
          (set_bucket (ensured to text) text (update_node (bucket (ensured to text) text) text f))
  new-Maps f keeps k =
      update-lookup (ensured to text) (ensured-WellFormed to w text) text f keeps k
      ∙ rw (ensured-Maps text, str_eq_refl text)
          (elim (Bool-cases (str_eq text k)) [
            | inl e ↦ rw e
            | inr e ↦ rw e (ensured-Maps k ∙ rw e)
          ])

-- where the key is missing, the new node is the copy
copy_value-Merged :
    (to : HashTable) (w : WellFormed to) (n : Node) (m : Memory)
    → hash_lookup (some to) (some n.text) ≡ none
    → Readable n
    → AlwaysGrants m
    → Merged to
        (λ k. if str_eq n.text k then some (copied n) else none)
        (copy_value n (ensured to n.text) m)
unfolding copy_value
copy_value-Merged to w n m missing readable h =
    let kept = ensured-WellFormed to w n.text in
    let new =
      added to w n.text missing (ensured to n.text) (fresh n.text)
        (ensured-Maps to w n.text missing) in
    elim (Option-cases n.value) [
      | inl e ↦ rw e (ensured to n.text, refl, kept, new, h)
      | inr (object, e) ↦ elim (Bool-cases (n.bytes == 0)) [
        | inl e' ↦ rw (e, e') (ensured to n.text, refl, kept, new, h)
        | inr e' ↦
            let f = λ (k : Node). record k {
              value = some (take n.bytes object);
              bytes = n.bytes;
              cleanup = n.cleanup;
            } in
            let whole : ltb (length object) n.bytes ≡ false = ground (arith, readable object e) in
            rw (e, e', h m.calls, whole)
              (
                _,
                refl,
                update-WellFormed (ensured to n.text) kept n.text f (λ k. refl),
                added to w n.text missing _ _ (new-Maps to w n.text missing f (λ k. refl)),
                h,
              )
      ]
    ]

merge_node-Merged :
    (n : Node) (to : HashTable) (m : Memory)
    → WellFormed to
    → Readable n
    → AlwaysGrants m
    → Merged to (λ k. if str_eq n.text k then some (copied n) else none) (merge_node to n m)
unfolding merge_node
merge_node-Merged n to m w readable h = elim (Option-cases (hash_lookup (some to) (some n.text))) [
  | inl e ↦
      rw (e, insert_granted to w n.text m h)
        (copy_value-Merged to w n _ e readable (insert_grants to n.text m h))
  | inr (k, e) ↦ rw e (
    to,
    refl,
    w,
    (λ k'. elim (Bool-cases (str_eq n.text k')) [
      | inl e' ↦ rw (sym (eq_of_str_eq n.text k' e'), e) refl
      | inr e' ↦ rw (e', or_else-none (hash_lookup (some to) (some k'))) refl
    ]),
    h,
  )
]

pub unchanged :
    (to : HashTable) (m : Memory)
    → WellFormed to
    → AlwaysGrants m
    → Merged to (λ _. none) ((true, some to), m)
unchanged to m w h = (to, refl, w, (λ k. sym (or_else-none (hash_lookup (some to) (some k)))), h)

pub merge_chain-Merged :
    (l : List Node) (to : HashTable) (m : Memory)
    → WellFormed to
    → All Readable l
    → AlwaysGrants m
    → Merged to (λ k. Option.map copied (find_node l k)) (merge_chain to l m)
unfolding merge_chain find_node
merge_chain-Merged [] to m w readable h = unchanged to m w h
merge_chain-Merged (n ∷ l) to m w (here, readable) h =
    same_Merged to _ _ (merge_chain to (n ∷ l) m)
      (λ k. elim (Bool-cases (str_eq n.text k)) [ inl e ↦ rw e | inr e ↦ rw e ])
      (then-Merged to _ _ (merge_node to n m) _ (merge_node-Merged n to m w here h)
        λ t m' w' h'. merge_chain-Merged l t m' w' readable h')
