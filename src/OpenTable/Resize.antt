-- ===== src/OpenTable/Resize.antt =====
-- `hash_resize` of src/hashtable/open_address/oa_hashtable.c: every node finds a place in the new
-- slots, so that the path on which one does not is never taken.
use mathlib.Core.Path.{subst}
use c2x_examples.Base.{
  ℕ, zero, suc, ◌+◌, ◌*◌, ◌<◌, ◌≤◌, ◌≡◌, ◌≢◌, ◌⊎◌, refl, sym, ap, ◌∙◌, Bool, true, false,
  true≢false, List, [], ◌∷◌, ◌==◌, length, size_mod, arith, Bool-cases, inl, inr,
}
use c2x_examples.Array.{get_or}
use c2x_examples.Memory.{Memory, AlwaysGrants, calloc}
use c2x_examples.HashTable.{Node}
use c2x_examples.OpenTable.{
  Slot, empty, deleted, moved, occupied, HashTable, at, is_occupied, is_deleted, tally, slot_bytes,
  Refill, refill, blank, blank_slots, resized, hash_resize,
}
use c2x_examples.OpenTable.Search.{In, WellFormed}
use c2x_examples.OpenTable.Fill.{tally-le-length}
use c2x_examples.OpenTable.Place.{node_eq, reinsert-Placed}

-- The nodes of the old slots can all be put into the table.
record Fits (t : HashTable) (rest : List Slot) : Type 0 where
  valid : WellFormed t
  clear : tally is_deleted t.slots ≡ 0
  room : tally is_occupied t.slots + tally is_occupied rest ≤ t.bucket_size
  whole : (i : ℕ) → at rest i ≢ moved
  distinct :
      (i j : ℕ) (a b : Node)
      → at rest i ≡ occupied a
      → at rest j ≡ occupied b
      → a.text ≡ b.text
      → i ≡ j
  apart : (a b : Node) → In t.slots a → In rest b → a.text ≢ b.text

-- They have been put there.
record Took (t : HashTable) (rest : List Slot) (out : Refill) : Type 0 where
  all : out.0 ≡ true
  valid : WellFormed out.1
  size : out.1.bucket_size ≡ t.bucket_size
  total : tally is_occupied out.1.slots ≡ tally is_occupied t.slots + tally is_occupied rest
  clear : tally is_deleted out.1.slots ≡ 0
  only : (m : Node) → In out.1.slots m → In t.slots m ⊎ In rest m
  kept : (m : Node) → In t.slots m → In out.1.slots m
  added : (m : Node) → In rest m → In out.1.slots m

suc_inj : {i j : ℕ} → suc i ≡ suc j → i ≡ j
suc_inj e = omega arith

zero≢suc : {i : ℕ} → 0 ≢ suc i
zero≢suc e = omega arith

In-cases : (s : Slot) (rest : List Slot) (m : Node) → In (s ∷ rest) m → (s ≡ occupied m) ⊎ In rest m
unfolding get_or
In-cases s rest m (zero, e) = inl e
In-cases s rest m (suc i, e) = inr (i, e)

-- a slot that holds no node is passed over
skip-Took :
    (t : HashTable) (s : Slot) (rest : List Slot)
    → is_occupied s ≡ false
    → (Fits t rest → Took t rest (refill t rest))
    → Fits t (s ∷ rest)
    → Took t (s ∷ rest) (refill t (s ∷ rest))
unfolding refill get_or tally
skip-Took t s rest e later f =
    let r = later (record {
      valid = f.valid;
      clear = f.clear;
      room = rw e at f.room;
      whole = λ i. f.whole (suc i);
      distinct = λ i j a b p q key. suc_inj (f.distinct (suc i) (suc j) a b p q key);
      apart = λ a b p (i, q). f.apart a b p (suc i, q);
    }) in
    rw e (record {
      all = r.all;
      valid = r.valid;
      size = r.size;
      total = rw e r.total;
      clear = r.clear;
      only = λ m h. elim (r.only m h) [ inl old ↦ inl old | inr (i, q) ↦ inr (suc i, q) ];
      kept = r.kept;
      added = λ m h. elim (In-cases s rest m h) [
        | inl here ↦ absurd (true≢false (ap is_occupied (sym here) ∙ e))
        | inr there ↦ r.added m there
      ];
    })

refill-Took : (t : HashTable) (rest : List Slot) → Fits t rest → Took t rest (refill t rest)
unfolding refill tally get_or
refill-Took t [] f = record {
  all = refl;
  valid = f.valid;
  size = refl;
  total = omega arith;
  clear = f.clear;
  only = λ m h. inl h;
  kept = λ m h. h;
  added = λ m (i, e). cc;
}
refill-Took t (empty ∷ rest) f = skip-Took t empty rest refl (refill-Took t rest) f
refill-Took t (deleted ∷ rest) f = skip-Took t deleted rest refl (refill-Took t rest) f
refill-Took t (moved ∷ rest) f = absurd (f.whole 0 refl)
refill-Took t (occupied n ∷ rest) f =
    let (t', e, valid, size, placed) =
      reinsert-Placed t n f.valid (omega (arith, f.room, f.clear))
        λ m old key. f.apart m n old (0, refl) key in
    let r = refill-Took t' rest (record {
      valid = valid;
      clear = placed.same ∙ f.clear;
      room = omega (arith, f.room, placed.more, size);
      whole = λ i. f.whole (suc i);
      distinct = λ i j a b p q key. suc_inj (f.distinct (suc i) (suc j) a b p q key);
      apart = λ a b p (i, q) key. elim (placed.only a p) [
        | inl new ↦
            absurd
              (zero≢suc (f.distinct 0 (suc i) n b refl q (ap (λ (x : Node). x.text) new ∙ key)))
        | inr old ↦ f.apart a b old (suc i, q) key
      ];
    }) in
    rw e (record {
      all = r.all;
      valid = r.valid;
      size = r.size ∙ size;
      total = omega (arith, r.total, placed.more);
      clear = r.clear;
      only = λ m h. elim (r.only m h) [
        | inl here ↦ elim (placed.only m here) [
          | inl new ↦ inr (0, ap occupied new)
          | inr old ↦ inl old
        ]
        | inr (i, q) ↦ inr (suc i, q)
      ];
      kept = λ m old. r.kept m (placed.kept m old);
      added = λ m h. elim (In-cases (occupied n) rest m h) [
        | inl here ↦ r.kept m (subst (In t'.slots) (node_eq n m here) placed.added)
        | inr there ↦ r.added m there
      ];
    })

pub get-blank : (n i : ℕ) → at (blank_slots n) i ≡ empty
unfolding blank_slots get_or
get-blank zero i = refl
get-blank (suc n) zero = refl
get-blank (suc n) (suc i) = get-blank n i

length-blank : (n : ℕ) → length (blank_slots n) ≡ n
unfolding blank_slots
length-blank zero = refl
length-blank (suc n) = ap suc (length-blank n)

tally-blank : (p : Slot → Bool) (n : ℕ) → p empty ≡ false → tally p (blank_slots n) ≡ 0
unfolding tally blank_slots
tally-blank p zero h = refl
tally-blank p (suc n) h = rw h (tally-blank p n h)

pub blank-WellFormed : (n : ℕ) → 0 < n → n * slot_bytes < size_mod → WellFormed (blank n)
blank-WellFormed n h small = record {
  allocated = refl;
  sized = h;
  small = small;
  probes = record {
    full = length-blank n;
    distinct = λ i j a b p q same. cc (get-blank n i);
    whole = λ i e. cc (get-blank n i);
    reached = λ i m e. cc (get-blank n i);
  };
  counted = sym (tally-blank is_occupied n refl);
  removed = sym (tally-blank is_deleted n refl);
}

-- the table after `hash_resize` where it succeeds
pub record Resized (t : HashTable) (size : ℕ) (t' : HashTable) : Type 0 where
  pub valid : WellFormed t'
  pub size_is : t'.bucket_size ≡ size
  pub total : tally is_occupied t'.slots ≡ tally is_occupied t.slots
  pub clear : tally is_deleted t'.slots ≡ 0
  pub only : (m : Node) → In t'.slots m → In t.slots m
  pub kept : (m : Node) → In t.slots m → In t'.slots m

refill-Resized :
    (t : HashTable) (size : ℕ)
    → WellFormed t
    → t.bucket_size ≤ size
    → size * slot_bytes < size_mod
    → Took (blank size) t.slots (refill (blank size) t.slots)
refill-Resized t size w more small = refill-Took (blank size) t.slots (record {
  valid = blank-WellFormed size (omega (arith, w.sized)) small;
  clear = tally-blank is_deleted size refl;
  room = omega (
    arith,
    tally-blank is_occupied size refl,
    tally-le-length is_occupied t.slots,
    w.probes.full,
  );
  whole = w.probes.whole;
  distinct = w.probes.distinct;
  apart = λ a b (i, e) old. cc (get-blank size i);
})

-- `hash_resize` of a table within the invariant to no smaller a size is refused the memory and
-- changes nothing, or gives a table within the invariant, of that size, with exactly the same nodes
-- and no deleted slot; a memory that refuses nothing is left so.
pub hash_resize-cases :
    (t : HashTable) (size : ℕ) (m : Memory)
    → WellFormed t
    → t.bucket_size ≤ size
    → (((hash_resize t size m).0 ≡ (false, t)) × ((calloc size slot_bytes m).0 ≡ false))
      ⊎ ((t' : HashTable) × ((hash_resize t size m).0 ≡ (true, t'))
          × Resized t size t'
          × (AlwaysGrants m → AlwaysGrants (hash_resize t size m).1))
unfolding hash_resize resized
hash_resize-cases t size m w more =
    let some_slots : (size == 0) ≡ false = ground (arith, w.sized) in
    elim (Bool-cases (calloc size slot_bytes m).0) [
      | inl e ↦
          let small : size * slot_bytes < size_mod = ground arith in
          let r = refill-Resized t size w more small in
          inr (
            _,
            rw (some_slots, e, r.all) refl,
            record {
              valid = r.valid;
              size_is = r.size;
              total = r.total ∙ omega (arith, tally-blank is_occupied size refl);
              clear = r.clear;
              only =
                  λ n h. elim (r.only n h) [ inl (i, new) ↦ cc (get-blank size i) | inr old ↦ old ];
              kept = r.added;
            },
            rw (some_slots, e, r.all) (λ h. h),
          )
      | inr e ↦ inl (rw (some_slots, e) refl, e)
    ]
