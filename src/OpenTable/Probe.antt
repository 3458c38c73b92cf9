-- ===== src/OpenTable/Probe.antt =====
-- The probes of src/hashtable/open_address/oa_hashtable.c come to every slot.
use c2x_examples.Base.{
  ℕ, zero, suc, ◌+◌, ◌-◌, ◌%◌, ◌<◌, ◌≤◌, ◌≡◌, refl, ◌∙◌, false, true≢false, Option, none, some,
  List, [], ◌∷◌, ◌==◌, leb, length, size_mod, arith, Bool-cases, inl, inr, set,
}
use c2x_examples.Array.{get_or}
use c2x_examples.OpenTable.{
  Slot, empty, deleted, moved, occupied, at, probed, is_occupied, is_deleted, tally, settle,
  reinsert_loop,
}
use c2x_examples.OpenTable.Search.{is_empty, Reaches}

wrapped : (i size : ℕ) → i < size → (i + size) % size ≡ i
wrapped i size h = grind arith

pub probed-covers :
    (size start i : ℕ)
    → start < size
    → i < size
    → size + size ≤ size_mod
    → (p : ℕ) × (p < size) × (probed size start p ≡ i)
probed-covers size start i h h' small = elim (Bool-cases (leb start i)) [
  | inl e ↦
      let sum : (start + (i - start)) % size_mod ≡ i = ground arith in
      (i - start, ground arith, rw sum (grind arith))
  | inr e ↦
      let sum : (start + (i + size - start)) % size_mod ≡ i + size = ground arith in
      (i + size - start, ground arith, rw sum (wrapped i size h'))
]

tally-filled :
    (slots : List Slot)
    → ((i : ℕ) → i < length slots → is_empty (at slots i) ≡ false)
    → tally is_occupied slots + tally is_deleted slots ≡ length slots
unfolding tally get_or
tally-filled [] h = omega arith
tally-filled (empty ∷ slots) h = absurd (true≢false (h 0 (omega arith)))
tally-filled (deleted ∷ slots) h = omega (arith, tally-filled slots λ i p. h (suc i) (omega arith))
tally-filled (moved ∷ slots) h = omega (arith, tally-filled slots λ i p. h (suc i) (omega arith))
tally-filled (occupied n ∷ slots) h =
    omega (arith, tally-filled slots λ i p. h (suc i) (omega arith))

-- where every probe comes to a slot in use, all are in use
pub probes-filled :
    (slots : List Slot) (size start : ℕ)
    → start < size
    → size + size ≤ size_mod
    → length slots ≡ size
    → ((p : ℕ) → p < size → is_empty (at slots (probed size start p)) ≡ false)
    → tally is_occupied slots + tally is_deleted slots ≡ size
probes-filled slots size start h small full filled =
    tally-filled slots (λ i p.
      let (q, within, ends) = probed-covers size start i h (omega arith) small in
      rw ends at (filled q within))
    ∙ full

module _ (slots : List Slot) (size start : ℕ) where
  abbrev pub FilledTo : ℕ → Type 0
  FilledTo probe = (p : ℕ) → p < probe → is_empty (at slots (probed size start p)) ≡ false

  pub FilledTo-step :
      (probe : ℕ)
      → FilledTo probe
      → is_empty (at slots (probed size start probe)) ≡ false
      → FilledTo (probe + 1)
  FilledTo-step probe before here p h = elim (Bool-cases (p == probe)) [
    | inl e ↦ let same : p ≡ probe = ground arith in rw same here
    | inr e ↦ before p (ground arith)
  ]

  pub arrive :
      (probe : ℕ)
      → probe < size
      → FilledTo probe
      → Reaches slots size start (probed size start probe)
  arrive probe h before = record { steps = probe; within = h; ends = refl; filled = before }

  -- What `reinsert_loop` may give: the slots with `s` in an empty slot that the probes reach, or
  -- none where there is no empty slot.
  abbrev pub Settled : Slot → Option (List Slot) → Type 0
  Settled s none = FilledTo size
  Settled s (some out) =
      (i : ℕ) × (out ≡ set slots i s) × (at slots i ≡ empty) × Reaches slots size start i

  settle-Settled :
      (here s : Slot) (probe : ℕ) (rest : Option (List Slot))
      → at slots (probed size start probe) ≡ here
      → probe < size
      → FilledTo probe
      → (is_empty here ≡ false → Settled s rest)
      → Settled s (settle here s slots (probed size start probe) rest)
  unfolding settle
  settle-Settled empty s probe rest e h before later =
      (probed size start probe, refl, e, arrive probe h before)
  settle-Settled deleted s probe rest e h before later = later refl
  settle-Settled moved s probe rest e h before later = later refl
  settle-Settled (occupied n) s probe rest e h before later = later refl

  pub reinsert_loop-Settled :
      (k probe : ℕ) (s : Slot)
      → probe + k ≡ size
      → FilledTo probe
      → Settled s (reinsert_loop k slots size start probe s)
  unfolding reinsert_loop
  reinsert_loop-Settled zero probe s h before = λ p q. before p (omega arith)
  reinsert_loop-Settled (suc k) probe s h before =
      settle-Settled (at slots (probed size start probe)) s probe _ refl (omega arith) before
        λ f. reinsert_loop-Settled k (probe + 1) s (omega arith) (FilledTo-step probe before f)
