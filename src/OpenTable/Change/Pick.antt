-- ===== src/OpenTable/Change/Pick.antt =====
-- The loop of `hash_insert` of src/hashtable/open_address/oa_hashtable.c: the slot that it chooses
-- for a new key.
use c2x_examples.Base.{ℕ, zero, suc, ◌+◌, ◌<◌, ◌≡◌, refl, false, Option, none, some, List, arith}
use c2x_examples.OpenTable.{Slot, empty, deleted, moved, occupied, at, probed, is_occupied}
use c2x_examples.OpenTable.Search.{is_empty, Reaches}
use c2x_examples.OpenTable.Probe.{FilledTo, FilledTo-step, arrive}
use c2x_examples.OpenTable.Change.{next_deleted, halt, insert_loop}

module _ (slots : List Slot) (size start : ℕ) where
  -- A slot without a node that a search for the key comes to.
  abbrev pub Chosen : Option ℕ → Type 0
  Chosen none = Unit
  Chosen (some i) = (is_occupied (at slots i) ≡ false) × Reaches slots size start i

  next-Chosen :
      (s : Slot) (probe : ℕ) (fd : Option ℕ)
      → at slots (probed size start probe) ≡ s
      → probe < size
      → FilledTo slots size start probe
      → Chosen fd
      → Chosen (next_deleted s (probed size start probe) fd)
  next-Chosen empty probe none e h before c = tt
  next-Chosen empty probe (some i) e h before c = c
  next-Chosen deleted probe none e h before c = (rw e refl, arrive slots size start probe h before)
  next-Chosen deleted probe (some i) e h before c = c
  next-Chosen moved probe none e h before c = tt
  next-Chosen moved probe (some i) e h before c = c
  next-Chosen (occupied n) probe none e h before c = tt
  next-Chosen (occupied n) probe (some i) e h before c = c

  -- none is given where no slot is empty
  abbrev pub Picked : Option ℕ → Type 0
  Picked none = FilledTo slots size start size
  Picked (some i) = Chosen (some i)

  halt-Picked :
      (s : Slot) (probe : ℕ) (fd rest : Option ℕ)
      → at slots (probed size start probe) ≡ s
      → probe < size
      → FilledTo slots size start probe
      → Chosen fd
      → (is_empty s ≡ false → Picked rest)
      → Picked (halt s (probed size start probe) fd rest)
  unfolding halt
  halt-Picked empty probe none rest e h before c later =
      (rw e refl, arrive slots size start probe h before)
  halt-Picked empty probe (some i) rest e h before c later = c
  halt-Picked deleted probe fd rest e h before c later = later refl
  halt-Picked moved probe fd rest e h before c later = later refl
  halt-Picked (occupied n) probe fd rest e h before c later = later refl

  pub insert_loop-Picked :
      (k probe : ℕ) (fd : Option ℕ)
      → probe + k ≡ size
      → FilledTo slots size start probe
      → Chosen fd
      → Picked (insert_loop k slots size start probe fd)
  unfolding insert_loop
  insert_loop-Picked zero probe none h before c = λ p q. before p (omega arith)
  insert_loop-Picked zero probe (some i) h before c = c
  insert_loop-Picked (suc k) probe fd h before c =
      let s = at slots (probed size start probe) in
      halt-Picked s probe fd _ refl (omega arith) before c λ f.
        insert_loop-Picked k (probe + 1) (next_deleted s (probed size start probe) fd) (omega arith)
          (FilledTo-step slots size start probe before f)
          (next-Chosen s probe fd refl (omega arith) before c)
