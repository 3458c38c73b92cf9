-- ===== src/OpenTable/Table/Laws.antt =====
-- `hash_init`, `hash_count` and `hash_print` of src/hashtable/open_address/oa_hashtable.c.
use c2x_examples.Base.{
  ℕ, suc, ◌*◌, ◌<◌, ◌≡◌, refl, sym, ap, ◌∙◌, true, false, none, some, List, [], ◌∷◌, Bytes, ◌==◌,
  length, size_mod, arith,
}
use c2x_examples.Memory.{Memory, calloc}
use c2x_examples.OpenTable.{
  Slot, empty, deleted, moved, occupied, HashTable, slot_bytes, is_occupied, tally, blank,
  hash_lookup,
}
use c2x_examples.OpenTable.Search.{WellFormed, lookup-eq, usable-true}
use c2x_examples.OpenTable.Resize.{blank-WellFormed, get-blank}
use c2x_examples.OpenTable.Table.{hash_init, print_slots, hash_print, hash_count}

-- `hash_init` with at least one slot, where the slots are granted, gives a table within the
-- invariant that has this many slots and in which no key is found.
pub hash_init-Blank :
    (size : ℕ) (m : Memory)
    → 0 < size
    → (calloc size slot_bytes m).0 ≡ true
    → (t : HashTable) × ((hash_init true size m).0 ≡ (true, some t))
      × WellFormed t
      × (t.bucket_size ≡ size)
      × ((k : Bytes) → hash_lookup (some t) (some k) ≡ none)
unfolding hash_init
hash_init-Blank size m h got =
    let sized : (size == 0) ≡ false = ground arith in
    let small : size * slot_bytes < size_mod = ground arith in
    let w = blank-WellFormed size h small in
    (
      blank size,
      rw (sized, got) refl,
      w,
      refl,
      λ k. lookup-eq (blank size) w k none λ n (i, e). cc (get-blank size i),
    )

printed-tally : (slots : List Slot) → length (print_slots slots) ≡ tally is_occupied slots
unfolding print_slots tally
printed-tally [] = refl
printed-tally (empty ∷ rest) = printed-tally rest
printed-tally (deleted ∷ rest) = printed-tally rest
printed-tally (moved ∷ rest) = ap suc (printed-tally rest)
printed-tally (occupied n ∷ rest) = ap suc (printed-tally rest)

-- `hash_count` of a table within the invariant is the number of keys that `hash_print` writes.
pub hash_count-print :
    (t : HashTable) → WellFormed t → hash_count (some t) ≡ length (hash_print (some t))
unfolding hash_count hash_print
hash_count-print t w = rw (usable-true t w) (w.counted ∙ sym (printed-tally t.slots))
