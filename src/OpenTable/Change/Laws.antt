-- ===== src/OpenTable/Change/Laws.antt =====
-- `hash_set` and `hash_remove` of src/hashtable/open_address/oa_hashtable.c as changes of the map
-- from keys to nodes.
use mathlib.Core.Path.{subst}
use c2x_examples.Base.{
  ℕ, ◌≡◌, refl, sym, ap, ◌∙◌, true, false, Option, none, some, [], Bytes, if◌then◌else◌, arith,
  Bool-cases, Option-cases, inl, inr, set, incr, decr, length-set,
}
use c2x_examples.Strings.{str_eq, eq_of_str_eq}
use c2x_examples.Memory.{Memory}
use c2x_examples.HashTable.{Node}
use c2x_examples.HashTable.Update.{assigned}
use c2x_examples.OpenTable.{
  Slot, empty, deleted, moved, occupied, HashTable, at, is_occupied, is_deleted, hash_find_slot,
  hash_lookup,
}
use c2x_examples.OpenTable.Search.{
  WellFormed, Holds, usable-true, find_slot-none, find_slot-Hit, lookup-eq, lookup-Holds, at-bound,
}
use c2x_examples.OpenTable.Fill.{
  tally-set, tally-le-length, set-Probes, Holds-occupied, Holds-deleted,
}
use c2x_examples.OpenTable.Place.{occupied-Probes}
use c2x_examples.OpenTable.Change.{
  put_node, insert_at, hash_insert, assign, hash_set, remove_at, hash_remove,
}
use c2x_examples.OpenTable.Change.Insert.{Inserted, Ample, Outcome, insert_at-Outcome}

-- `t'` finds `o` at the key, and elsewhere what `t` finds.
abbrev pub Maps : HashTable → Bytes → Option Node → HashTable → Type 0
Maps t text o t' =
    (k : Bytes)
    → hash_lookup (some t') (some k) ≡ (if str_eq text k then o else hash_lookup (some t) (some k))

module _ (t : HashTable) (w : WellFormed t) (text : Bytes) where
  removed_at-WellFormed :
      (i : ℕ) (n : Node)
      → at t.slots i ≡ occupied n
      → WellFormed (record t {
        slots = set t.slots i deleted;
        count = decr t.count;
        deleted = incr t.deleted;
      })
  removed_at-WellFormed i n here =
      let inside = at-bound t.slots i n here in
      let occ = tally-set is_occupied t.slots i deleted inside in
      let del = tally-set is_deleted t.slots i deleted inside in
      let few = tally-le-length is_occupied t.slots in
      let few_deleted = tally-le-length is_deleted (set t.slots i deleted) in
      let bound = length-set t.slots i deleted in
      record {
        allocated = w.allocated;
        sized = w.sized;
        small = w.small;
        probes =
            set-Probes t.slots i deleted inside t.bucket_size refl (λ e. cc) (λ m e. cc) w.probes;
        counted = omega (arith, rw here at occ, few, w.counted, w.small, w.probes.full);
        removed =
            omega (arith, rw here at del, few_deleted, bound, w.removed, w.small, w.probes.full);
      }

  -- `hash_remove` of any key from a table within the invariant leaves a table within it in which
  -- the key is not found and every other key is found as before.
  pub hash_remove-Removed :
      (m : Memory)
      → (t' : HashTable) × ((hash_remove (some t) (some text) m).0 ≡ some t')
        × WellFormed t'
        × Maps t text none t'
  unfolding hash_remove remove_at
  hash_remove-Removed m = rw (usable-true t w) (elim (Option-cases (hash_find_slot t text)) [
    | inl e ↦ rw e (
      t,
      refl,
      w,
      λ k. elim (Bool-cases (str_eq text k)) [
        | inl same ↦
            rw (same, sym (eq_of_str_eq text k same))
              (lookup-eq t w text none λ n inside. find_slot-none t w text n e inside)
        | inr other ↦ rw other refl
      ],
    )
    | inr (i, e) ↦
        let (n, here, key) = find_slot-Hit t w i text e in
        let valid = removed_at-WellFormed i n here in
        rw e (
          _,
          refl,
          valid,
          λ k. lookup-eq _ valid k _ (
              rw key at (
                Holds-deleted t.slots t.bucket_size i n k _ (at-bound t.slots i n here) here
                  w.probes (lookup-Holds t w k))),
        )
  ])

-- a node that is put in the place of one with its key
module _ (t : HashTable) (w : WellFormed t) (i : ℕ) (old new : Node)
    (here : at t.slots i ≡ occupied old) (key : old.text ≡ new.text) where
  only_here : (j : ℕ) (m : Node) → at t.slots j ≡ occupied m → m.text ≡ new.text → j ≡ i
  only_here j m there same = w.probes.distinct j i m old there here (same ∙ sym key)

  put_node-WellFormed : WellFormed (put_node t i new)
  put_node-WellFormed =
      let inside = at-bound t.slots i old here in
      let occ = tally-set is_occupied t.slots i (occupied new) inside in
      let del = tally-set is_deleted t.slots i (occupied new) inside in
      record {
        allocated = w.allocated;
        sized = w.sized;
        small = w.small;
        probes =
            occupied-Probes t.slots t.bucket_size i new inside
              (rw key at (w.probes.reached i old here)) only_here w.probes;
        counted = omega (arith, rw here at occ, w.counted);
        removed = omega (arith, rw here at del, w.removed);
      }

  put_node-Holds :
      (k : Bytes) (o : Option Node)
      → Holds t.slots k o
      → Holds (put_node t i new).slots k (if str_eq new.text k then some new else o)
  put_node-Holds k o h =
      Holds-occupied t.slots i new k o (at-bound t.slots i old here) only_here
        (λ m there.
          ap (λ (s : Slot). elim s [ empty ↦ [] | deleted ↦ [] | moved ↦ [] | occupied n ↦ n.text ])
            (sym there ∙ here)
          ∙ key)
        h

module _ (t : HashTable) (w : WellFormed t) (text : Bytes) (value : Option Bytes) (bytes : ℕ)
    (cleanup : Option ℕ) where
  -- The table after `hash_set`: it finds the key with its new value, or every key as before.
  abbrev pub SetOutcome : Memory → Option ℕ → HashTable → Type 0
  SetOutcome m (some i) t' = Maps t text (some (assigned text value bytes cleanup)) t'
  SetOutcome m none t' =
      ((k : Bytes) → hash_lookup (some t') (some k) ≡ hash_lookup (some t) (some k)) × ¬ Ample t m

  assigned_Holds :
      (t' : HashTable) (i : ℕ) (ins : Inserted t text i t') (k : Bytes)
      → Holds (put_node t' i (assigned ins.node.text value bytes cleanup)).slots k (
          if str_eq text k
          then some (assigned text value bytes cleanup)
          else hash_lookup (some t) (some k))
  assigned_Holds t' i ins k =
      let new = assigned ins.node.text value bytes cleanup in
      let put = put_node-Holds t' ins.valid i ins.node new ins.here refl in
      elim (Bool-cases (str_eq text k)) [
        | inl e ↦
            let own : str_eq ins.node.text k ≡ true = rw ins.key e in
            rw e (
              subst
                (λ key. Holds (put_node t' i new).slots k (some (assigned key value bytes cleanup)))
                ins.key (rw own at (put k _ (lookup-Holds t' ins.valid k))))
        | inr e ↦
            let own : str_eq ins.node.text k ≡ false = rw ins.key e in
            rw e (rw own at (put k _ (ins.others k _ (lookup-Holds t w k) e)))
      ]

  assign-SetOutcome :
      (m m' : Memory) (r : Option ℕ × HashTable)
      → Outcome t text (Ample t m) r
      → (t' : HashTable) × ((assign value bytes cleanup (r.0, some r.1) m').0 ≡ (r.0, some t'))
        × WellFormed t'
        × SetOutcome m r.0 t'
  unfolding assign
  assign-SetOutcome m m' (none, t') (u, short) = (
    t',
    refl,
    u.valid,
    ((λ k. lookup-eq t' u.valid k _ (u.same k _ (lookup-Holds t w k))), short),
  )
  assign-SetOutcome m m' (some i, t') ins =
      let new = assigned ins.node.text value bytes cleanup in
      let valid = put_node-WellFormed t' ins.valid i ins.node new ins.here refl in
      rw ins.here
        (put_node t' i new, refl, valid, λ k. lookup-eq _ valid k _ (assigned_Holds t' i ins k))

  -- `hash_set` of a table within the invariant leaves a table within the invariant. Where it
  -- returns a node, the key is found with the new value, size and callback and every other key as
  -- before. Where it returns none, every key is found as before, and a request was refused or the
  -- number of slots is near the end of a `size_t`.
  pub hash_set-SetOutcome :
      (m : Memory)
      → (i : Option ℕ) × (t' : HashTable) × ((hash_set (some t) (some text) value bytes cleanup m).0
          ≡ (i, some t'))
        × WellFormed t'
        × SetOutcome m i t'
  unfolding hash_set hash_insert
  hash_set-SetOutcome m = rw (usable-true t w) (
      let (t', e, valid, out) =
        assign-SetOutcome m (insert_at t text (hash_find_slot t text) m).1 _
          (insert_at-Outcome t w text m) in
      (_, t', e, valid, out))
