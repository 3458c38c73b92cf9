-- ===== src/Heap/Sift.antt =====
-- The loop that both versions of sifting down run, under any test of which of two objects is the
-- better one, and what it restores.
use mathlib.Core.List.{Perm}
use mathlib.Core.List.Perm
use c2x_examples.Base.{
  ℕ, zero, suc, ◌+◌, ◌-◌, ◌*◌, ◌/◌, ◌≤◌, ◌<◌, ◌≡◌, ◌≢◌, refl, Bool, true, false, List, ◌==◌, ltb,
  length, if◌then◌else◌, arith, ◌∙◌, sym, Bool-cases, inl, inr, ◌⊎◌,
}
use c2x_examples.Run.{Run, ok, out_of_fuel, ◌>>=◌, Returns, value, weaken}
use c2x_examples.Array.{
  load, exchange, get_or, swap, load-ok, exchange-ok, get_or-swap, length-swap, swap-perm,
}

-- `better x y`: x belongs nearer the root than y.
pub record IsBetter {A : Type 0} (better : A → A → Bool) : Type 0 where
  pub asym : (x y : A) → better x y ≡ true → better y x ≡ false
  pub trans : (x y z : A) → better y x ≡ false → better z y ≡ false → better z x ≡ false

abbrev pub parent : ℕ → ℕ
parent c = (c - 1) / 2

module _ {A : Type 0} (better : A → A → Bool) where
  unfoldable pub pick : ℕ → List A → (j m : ℕ) → Run ℕ
  pick n a j m =
      let test : Run ℕ = do x ← load a j; y ← load a m; ok (if better x y then j else m)
      in if ltb j n then test else ok m

  unfoldable pub sift : ℕ → ℕ → List A → ℕ → Run (List A)
  sift n zero a i = out_of_fuel
  sift n (suc k) a i = do
    l ← pick n a (i * 2 + 1) i
    m ← pick n a (i * 2 + 2) l
    let sink = exchange a m i >>= λ b. sift n k b m
    if m == i then ok a else sink

module _ {A : Type 0} (better : A → A → Bool) (d : A) where
  -- every edge among the first `n` entries whose parent is at `lo` or later is in order
  abbrev pub IsHeapFrom : ℕ → ℕ → List A → Type 0
  IsHeapFrom n lo a =
      (c : ℕ)
      → 0 < c
      → c < n
      → lo ≤ parent c
      → better (get_or a c d) (get_or a (parent c) d) ≡ false

  -- the same but for the edges below `i`, past which the order holds
  pub record DownInv (n lo : ℕ) (a : List A) (i : ℕ) : Type 0 where
    pub edges :
        (c : ℕ)
        → 0 < c
        → c < n
        → lo ≤ parent c
        → parent c ≢ i
        → better (get_or a c d) (get_or a (parent c) d) ≡ false
    pub bridged :
        (c : ℕ)
        → 0 < c
        → c < n
        → parent c ≡ i
        → 0 < i
        → lo ≤ parent i
        → better (get_or a c d) (get_or a (parent i) d) ≡ false

  -- each of the first `n` entries of `b` is one of the first `n` of `a`
  abbrev pub Drawn : ℕ → List A → List A → Type 0
  Drawn n a b = (j : ℕ) → j < n → (j' : ℕ) × (j' < n) × (get_or b j d ≡ get_or a j' d)

  pub record Sifted (n lo : ℕ) (a b : List A) : Type 0 where
    pub heap : IsHeapFrom n lo b
    pub same : Perm b a
    pub kept : (j : ℕ) → n ≤ j → get_or b j d ≡ get_or a j d
    pub drawn : Drawn n a b

  module _ (laws : IsBetter better) (n lo : ℕ) where
    irrefl : (x : A) → better x x ≡ false
    irrefl x = ground (arith, laws.asym x x)

    pub pick-ok :
        (a : List A) (j m : ℕ)
        → n ≤ length a
        → m < length a
        → pick better n a j m
          ≡ ok (if ltb j n then (if better (get_or a j d) (get_or a m d) then j else m) else m)
    unfolding pick
    pick-ok a j m le h = elim (Bool-cases (ltb j n)) [
      | inl e ↦ rw (e, load-ok d a j (ground arith), load-ok d a m h)
      | inr e ↦ rw e
    ]

    abbrev pub choose : List A → (j m : ℕ) → ℕ
    choose a j m = if ltb j n then (if better (get_or a j d) (get_or a m d) then j else m) else m

    abbrev best : List A → ℕ → ℕ
    best a i = choose a (i * 2 + 2) (choose a (i * 2 + 1) i)

    choose-over :
        (a : List A) (j m : ℕ) → j < n → better (get_or a j d) (get_or a (choose a j m) d) ≡ false
    choose-over a j m h = ground (arith, irrefl (get_or a j d))

    choose-improves :
        (a : List A) (j m : ℕ) (x : A)
        → better x (get_or a m d) ≡ false
        → better x (get_or a (choose a j m) d) ≡ false
    choose-improves a j m x h =
        ground (
          arith,
          laws.asym (get_or a j d) (get_or a m d),
          laws.trans (get_or a j d) (get_or a m d) x,
        )

    best-over :
        (a : List A) (i c : ℕ)
        → 0 < c
        → c < n
        → parent c ≡ i
        → better (get_or a c d) (get_or a (best a i) d) ≡ false
    best-over a i c pos h p = elim (Bool-cases (c == i * 2 + 1)) [
      | inl e ↦
          let at : i * 2 + 1 ≡ c = ground arith in
          choose-improves a (i * 2 + 2) (choose a (i * 2 + 1) i) (get_or a c d)
            (rw at (choose-over a c i h))
      | inr e ↦
          let at : i * 2 + 2 ≡ c = ground arith in
          rw at (choose-over a c (choose a (i * 2 + 1) i) h)
    ]

    best-over_self : (a : List A) (i : ℕ) → better (get_or a i d) (get_or a (best a i) d) ≡ false
    best-over_self a i =
        choose-improves a (i * 2 + 2) (choose a (i * 2 + 1) i) (get_or a i d)
          (choose-improves a (i * 2 + 1) i (get_or a i d) (irrefl (get_or a i d)))

    best-place :
        (a : List A) (i : ℕ)
        → (best a i ≡ i) ⊎ ((parent (best a i) ≡ i) × (0 < best a i) × (best a i < n))
    best-place a i = ground arith

    swap-DownInv :
        (a : List A) (i m : ℕ)
        → n ≤ length a
        → DownInv n lo a i
        → parent m ≡ i
        → 0 < m
        → m < n
        → lo ≤ i
        → ((c : ℕ) → 0 < c → c < n → parent c ≡ i → better (get_or a c d) (get_or a m d) ≡ false)
        → better (get_or a i d) (get_or a m d) ≡ false
        → DownInv n lo (swap d a m i) m
    swap-DownInv a i m le v up pos hm lo_le over over_self =
        let at = get_or-swap d a m i (omega arith) (omega arith) in
        record {
          edges = λ c p q r s. ground (arith, at c, at (parent c), v.edges c, v.bridged m, over c);
          bridged = λ c p q r s u. ground (arith, at c, at (parent m), v.edges c);
        }

    Sifted-settled : (a : List A) (i : ℕ) → DownInv n lo a i → best a i ≡ i → Sifted n lo a a
    Sifted-settled a i v e = record {
      heap = λ c p q r. elim (Bool-cases (parent c == i)) [
        | inl at ↦
            let below : parent c ≡ i = ground arith in rw (below, ← e) (best-over a i c p q below)
        | inr at ↦ v.edges c p q r (ground arith)
      ];
      same = Perm.rfl;
      kept = λ j h. refl;
      drawn = λ j h. (j, h, refl);
    }

    -- sifting a swapped array sifts the array
    pub Sifted-swap :
        (a b : List A) (m i : ℕ)
        → n ≤ length a
        → m < n
        → i < n
        → Sifted n lo (swap d a m i) b
        → Sifted n lo a b
    Sifted-swap a b m i le hm hi s =
        let at = get_or-swap d a m i (omega arith) (omega arith) in
        record {
          heap = s.heap;
          same = Perm.trans s.same (swap-perm d a m i (omega arith) (omega arith));
          kept = λ j h. s.kept j h ∙ ground (arith, at j);
          drawn = λ j h.
              let (j', h', e) = s.drawn j h in
              (
                if i == j' then m else if m == j' then i else j',
                ground arith,
                e ∙ ground (arith, at j'),
              );
        }

    -- the rest of a round, with the entry `m` that it has picked
    sift_rest :
        (k : ℕ) (a : List A) (i m : ℕ)
        → n ≤ length a
        → lo ≤ i
        → i < n
        → DownInv n lo a i
        → best a i ≡ m
        → (i < m
            → (m < n) × DownInv n lo (swap d a m i) m
            → Returns (Sifted n lo (swap d a m i)) (sift better n k (swap d a m i) m))
        → Returns
            (Sifted n lo a)
            (if m == i then ok a else (exchange a m i >>= λ b. sift better n k b m))
    sift_rest k a i m le lo_le inside v e again = elim (best-place a i) [
      | inl stay ↦
          let test : (m == i) ≡ true = ground (arith, sym e ∙ stay) in
          rw test (value (Sifted-settled a i v stay))
      | inr (p, pos, h) ↦
          let p' : parent m ≡ i = rw e at p in
          let pos' : 0 < m = rw e at pos in
          let h' : m < n = rw e at h in
          let test : (m == i) ≡ false = ground arith in
          let moved =
            swap-DownInv a i m le v p' pos' h' lo_le (λ c x y z. rw e at (best-over a i c x y z))
              (rw e at (best-over_self a i)) in
          rw (test, exchange-ok d a m i (omega arith) (omega arith))
            (weaken (again (omega arith) (h', moved)) λ b s. Sifted-swap a b m i le h' inside s)
    ]

    pub sift-Sifted :
        (k : ℕ) (a : List A) (i : ℕ)
        → n ≤ length a
        → n ≤ k + i
        → lo ≤ i
        → i < n
        → DownInv n lo a i
        → Returns (Sifted n lo a) (sift better n k a i)
    unfolding sift
    sift-Sifted zero a i le fuel lo_le inside v = absurd (omega arith)
    sift-Sifted (suc k) a i le fuel lo_le inside v =
        rw
          (
            pick-ok a (i * 2 + 1) i le (omega arith),
            pick-ok a (i * 2 + 2) (choose a (i * 2 + 1) i) le (ground arith),
          )
          (sift_rest k a i (best a i) le lo_le inside v refl λ h more.
            sift-Sifted k (swap d a (best a i) i) (best a i) (rw length-swap le) (omega arith)
              (omega arith) (more.0) (more.1))

    -- the root of a heap is better than none of its entries
    root-best :
        (k : ℕ) (a : List A) (i : ℕ)
        → IsHeapFrom n 0 a
        → i < k
        → i < n
        → better (get_or a i d) (get_or a 0 d) ≡ false
    root-best zero a i heap fuel h = absurd (omega arith)
    root-best (suc k) a i heap fuel h = elim (Bool-cases (i == 0)) [
      | inl e ↦ let root : i ≡ 0 = ground arith in rw root (irrefl (get_or a 0 d))
      | inr e ↦
          laws.trans (get_or a 0 d) (get_or a (parent i) d) (get_or a i d)
            (root-best k a (parent i) heap (ground arith) (ground arith))
            (heap i (ground arith) h (omega arith))
    ]

    pub heap-root :
        (a : List A) (i : ℕ)
        → IsHeapFrom n 0 a
        → i < n
        → better (get_or a i d) (get_or a 0 d) ≡ false
    heap-root a i heap h = root-best (suc i) a i heap (omega arith) h
