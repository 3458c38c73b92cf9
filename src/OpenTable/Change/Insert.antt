-- ===== src/OpenTable/Change/Insert.antt =====
-- `hash_insert` of src/hashtable/open_address/oa_hashtable.c: what it leaves where it returns a
-- node, and where it does not.
use mathlib.Core.Path.{subst}
use c2x_examples.Base.{
  ℕ, ◌+◌, ◌*◌, ◌<◌, ◌≤◌, ◌≡◌, ◌≢◌, refl, sym, ap, ◌∙◌, true, false, true≢false, Option, none, some,
  List, [], ◌∷◌, Bytes, if◌then◌else◌, length, size_mod, arith, Bool-cases, Option-cases, inl, inr,
  set, incr, decr, length-set,
}
use c2x_examples.Strings.{str_eq}
use c2x_examples.Memory.{Memory, AlwaysGrants, ◌>>=◌, calloc}
use c2x_examples.HashTable.{Node, hash, dup_string}
use c2x_examples.HashTable.Laws.{hash_bound}
use c2x_examples.OpenTable.{
  Slot, empty, deleted, moved, occupied, HashTable, at, is_occupied, is_deleted, tally, slot_bytes,
  hash_find_slot, hash_should_grow,
}
use c2x_examples.OpenTable.Search.{In, WellFormed, Holds, find_slot-none, find_slot-Hit}
use c2x_examples.OpenTable.Fill.{at-set_self, tally-set, tally-le-length, Holds-occupied}
use c2x_examples.OpenTable.Probe.{probes-filled}
use c2x_examples.OpenTable.Resize.{Resized, hash_resize-cases}
use c2x_examples.OpenTable.Place.{Reaches-bound, occupied-Probes, size-small}
use c2x_examples.OpenTable.Change.{
  insert_loop, fresh, put_node, occupy, grown_size, grow, insert_new, insert_at,
}
use c2x_examples.OpenTable.Change.Pick.{Chosen, Picked, insert_loop-Picked}

-- The table with a new node in a slot that had none.
abbrev pub occupied_at : HashTable → Bytes → ℕ → HashTable
occupied_at t text i = record (put_node t i (fresh text)) {
  count = incr t.count;
  deleted = if is_deleted (at t.slots i) then decr t.deleted else t.deleted;
}

module _ (t : HashTable) (w : WellFormed t) (text : Bytes) (i : ℕ)
    (missing : (n : Node) → In t.slots n → n.text ≢ text)
    (chosen : Chosen t.slots t.bucket_size (hash (some text) t.bucket_size) (some i)) where
  inside : i < length t.slots
  inside = rw w.probes.full (Reaches-bound t.slots t.bucket_size _ i w.sized chosen.1)

  pub occupied_at-WellFormed : WellFormed (occupied_at t text i)
  occupied_at-WellFormed =
      let occ = tally-set is_occupied t.slots i (occupied (fresh text)) inside in
      let del = tally-set is_deleted t.slots i (occupied (fresh text)) inside in
      let few_deleted = tally-le-length is_deleted t.slots in
      let bound = length-set t.slots i (occupied (fresh text)) in
      let few' = tally-le-length is_occupied (set t.slots i (occupied (fresh text))) in
      record {
        allocated = w.allocated;
        sized = w.sized;
        small = w.small;
        probes =
            occupied-Probes t.slots t.bucket_size i (fresh text) inside chosen.1
              (λ j m here key. absurd (missing m (j, here) key)) w.probes;
        counted = omega (arith, rw chosen.0 at occ, few', bound, w.counted, w.small, w.probes.full);
        removed = elim (Bool-cases (is_deleted (at t.slots i))) [
          | inl e ↦
              rw e (omega (arith, rw e at del, few_deleted, w.removed, w.small, w.probes.full))
          | inr e ↦ rw e (omega (arith, rw e at del, w.removed))
        ];
      }

  pub occupied_at-Holds :
      (k : Bytes) (o : Option Node)
      → Holds t.slots k o
      → Holds (occupied_at t text i).slots k (if str_eq text k then some (fresh text) else o)
  occupied_at-Holds k o h =
      Holds-occupied t.slots i (fresh text) k o inside
        (λ j m here key. absurd (missing m (j, here) key))
        (λ m here. absurd (true≢false (ap is_occupied (sym here) ∙ chosen.0))) h

-- What `hash_insert` leaves: a table within the invariant with the key in a slot and the others as
-- they were, or with every key as it was.
pub record Inserted (t : HashTable) (text : Bytes) (i : ℕ) (t' : HashTable) : Type 0 where
  pub valid : WellFormed t'
  pub node : Node
  pub here : at t'.slots i ≡ occupied node
  pub key : node.text ≡ text
  pub others :
      (k : Bytes) (o : Option Node) → Holds t.slots k o → str_eq text k ≡ false → Holds t'.slots k o

pub record Unchanged (t t' : HashTable) : Type 0 where
  pub valid : WellFormed t'
  pub same : (k : Bytes) (o : Option Node) → Holds t.slots k o → Holds t'.slots k o

Resized-Unchanged : (t : HashTable) (size : ℕ) (t' : HashTable) → Resized t size t' → Unchanged t t'
Resized-Unchanged t size t' r = record { valid = r.valid; same = held }
  where
    held : (k : Bytes) (o : Option Node) → Holds t.slots k o → Holds t'.slots k o
    held k none h = λ m inside. h m (r.only m inside)
    held k (some n) (inside, same) = (r.kept n inside, same)

-- no request is refused, and the sizes are far from the end of a `size_t`
abbrev pub Ample : HashTable → Memory → Type 0
Ample t m = AlwaysGrants m × (t.bucket_size * 100 + 1000 < size_mod)

abbrev pub Outcome : HashTable → Bytes → Type 0 → (Option ℕ × HashTable) → Type 0
Outcome t text ample (none, t') = Unchanged t t' × ¬ ample
Outcome t text ample (some i, t') = Inserted t text i t'

module _ (t : HashTable) (w : WellFormed t) (text : Bytes)
    (missing : (n : Node) → In t.slots n → n.text ≢ text) where
  inserted :
      (i : ℕ)
      → Chosen t.slots t.bucket_size (hash (some text) t.bucket_size) (some i)
      → Inserted t text i (occupied_at t text i)
  inserted i chosen = record {
    valid = occupied_at-WellFormed t w text i missing chosen;
    node = fresh text;
    here =
        at-set_self t.slots i (occupied (fresh text))
          (rw w.probes.full (Reaches-bound t.slots t.bucket_size _ i w.sized chosen.1));
    key = refl;
    others = λ k o h ne. rw ne at (occupied_at-Holds t w text i missing chosen k o h);
  }

  occupy-Outcome :
      (m : Memory) (ample : Type 0)
      → (ample
          → AlwaysGrants m × (tally is_occupied t.slots + tally is_deleted t.slots < t.bucket_size))
      → Outcome t text ample (insert_new text (true, t) m).0
  unfolding insert_new occupy dup_string
  occupy-Outcome m ample enough =
      let size = t.bucket_size in
      let start = hash (some text) size in
      let loop = insert_loop size t.slots size start 0 none in
      let picked =
        insert_loop-Picked t.slots size start size 0 none (omega arith)
          (λ p h. absurd (omega arith)) tt in
      elim (Option-cases loop) [
        | inl e ↦
            let full =
              probes-filled t.slots size start (hash_bound (some text) size w.sized)
                (size-small t w) w.probes.full (subst (Picked t.slots size start) e picked) in
            rw e (record { valid = w; same = λ k o h. h }, λ a. omega (arith, full, (enough a).1))
        | inr (i, e) ↦
            let chosen = subst (Picked t.slots size start) e picked in
            elim (Bool-cases (m.grant m.calls)) [
              | inl got ↦ rw (e, got) (inserted i chosen)
              | inr refused ↦
                  rw (e, refused)
                    (
                      record { valid = w; same = λ k o h. h },
                      λ a. true≢false (sym ((enough a).0 m.calls) ∙ refused),
                    )
            ]
      ]

Outcome-Unchanged :
    (t t' : HashTable) (text : Bytes) (ample : Type 0) (r : Option ℕ × HashTable)
    → Unchanged t t'
    → Outcome t' text ample r
    → Outcome t text ample r
Outcome-Unchanged t t' text ample (none, out) u (same, short) =
    (record { valid = same.valid; same = λ k o h. same.same k o (u.same k o h) }, short)
Outcome-Unchanged t t' text ample (some i, out) u made = record {
  valid = made.valid;
  node = made.node;
  here = made.here;
  key = made.key;
  others = λ k o h. made.others k o (u.same k o h);
}

tally-sum-le : (a : List Slot) → tally is_occupied a + tally is_deleted a ≤ length a
unfolding tally
tally-sum-le [] = omega arith
tally-sum-le (empty ∷ a) = omega (arith, tally-sum-le a)
tally-sum-le (deleted ∷ a) = omega (arith, tally-sum-le a)
tally-sum-le (moved ∷ a) = omega (arith, tally-sum-le a)
tally-sum-le (occupied n ∷ a) = omega (arith, tally-sum-le a)

-- `hash_insert` before the key is known to be missing
module _ (t : HashTable) (w : WellFormed t) (text : Bytes) where
  -- the table has room after `hash_should_grow` has said no
  not_grown :
      (m : Memory)
      → Ample t m
      → hash_should_grow t ≡ false
      → tally is_occupied t.slots + tally is_deleted t.slots < t.bucket_size
  unfolding hash_should_grow
  not_grown m (granted, small) e =
      ground (arith, tally-sum-le t.slots, w.counted, w.removed, w.probes.full, w.sized)

  calloc_granted :
      (m : Memory) → Ample t m → (calloc (grown_size t.bucket_size) slot_bytes m).0 ≢ false
  calloc_granted m (granted, small) e = ground (arith, granted m.calls)

  grow-Outcome :
      (m : Memory)
      → ((n : Node) → In t.slots n → n.text ≢ text)
      → Outcome t text (Ample t m) ((grow t >>= insert_new text) m).0
  unfolding grow insert_new
  grow-Outcome m missing = elim (Bool-cases (hash_should_grow t)) [
    | inl e ↦
        let few = tally-le-length is_occupied t.slots in
        elim (hash_resize-cases t (grown_size t.bucket_size) m w (ground (arith, w.small))) [
          | inl (e', refused) ↦
              rw (e, e') (record { valid = w; same = λ k o h. h }, λ a. calloc_granted m a refused)
          | inr (t', e', r, keeps) ↦
              rw (e, e')
                (Outcome-Unchanged t t' text (Ample t m) _ (Resized-Unchanged t _ t' r) (
                  occupy-Outcome t' r.valid text (λ n h. missing n (r.only n h)) _ (Ample t m)
                    λ a. (
                      keeps a.0,
                      ground (
                        arith, r.total, r.clear, r.size_is, few, w.probes.full, w.sized, w.small,
                      ),
                    )))
        ]
    | inr e ↦ rw e (occupy-Outcome t w text missing m (Ample t m) λ a. (a.0, not_grown m a e))
  ]

  pub insert_at-Outcome :
      (m : Memory) → Outcome t text (Ample t m) (insert_at t text (hash_find_slot t text) m).0
  unfolding insert_at
  insert_at-Outcome m = elim (Option-cases (hash_find_slot t text)) [
    | inl e ↦ rw e (grow-Outcome m λ n inside. find_slot-none t w text n e inside)
    | inr (i, e) ↦
        let (n, here, key) = find_slot-Hit t w i text e in
        rw e (record { valid = w; node = n; here = here; key = key; others = λ k o h ne. h })
  ]
