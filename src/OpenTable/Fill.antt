-- ===== src/OpenTable/Fill.antt =====
-- What the change of one slot does to the invariant and to the contents of a table of
-- src/hashtable/open_address/oa_hashtable.c.
use mathlib.Core.Option.{some-injective}
use c2x_examples.Base.{
  ◌⊎◌, ℕ, zero, suc, ◌+◌, ◌<◌, ◌≤◌, ◌≡◌, ◌≢◌, refl, sym, ap, ◌∙◌, Bool, true, false, true≢false,
  Option, none, some, List, [], ◌∷◌, Bytes, ◌==◌, if◌then◌else◌, length, arith, Bool-cases, inl,
  inr, set, length-set,
}
use c2x_examples.Strings.{str_eq, str_eq_refl, eq_of_str_eq}
use c2x_examples.Array.{get_or, get_or-set}
use c2x_examples.HashTable.{Node, hash}
use c2x_examples.OpenTable.{Slot, empty, deleted, moved, occupied, at, probed, tally, key_of}
use c2x_examples.OpenTable.Search.{is_empty, In, Reaches, Probes, Holds}

pub tally-set :
    (p : Slot → Bool) (a : List Slot) (i : ℕ) (v : Slot)
    → i < length a
    → tally p (set a i v) + (if p (at a i) then 1 else 0) ≡ tally p a + (if p v then 1 else 0)
unfolding tally get_or
tally-set p [] i v h = absurd (omega arith)
tally-set p (s ∷ a) zero v h = ground arith
tally-set p (s ∷ a) (suc i) v h = ground (arith, tally-set p a i v)

pub tally-le-length : (p : Slot → Bool) (a : List Slot) → tally p a ≤ length a
unfolding tally
tally-le-length p [] = omega arith
tally-le-length p (s ∷ a) = ground (arith, tally-le-length p a)

module _ (slots : List Slot) (i : ℕ) (v : Slot) (inside : i < length slots) where
  at-set : (j : ℕ) → at (set slots i v) j ≡ (if i == j then v else at slots j)
  at-set j = get_or-set empty slots i j v inside

  -- a node of the new table is in the new slot, or was there
  pub set-cases :
      (j : ℕ) (n : Node)
      → at (set slots i v) j ≡ occupied n
      → ((i ≡ j) × (v ≡ occupied n)) ⊎ ((i ≢ j) × (at slots j ≡ occupied n))
  set-cases j n e = elim (Bool-cases (i == j)) [
    | inl h ↦ inl (ground arith, rw (at-set j, h) at e)
    | inr h ↦ inr (ground arith, rw (at-set j, h) at e)
  ]

  pub at-set_ne : (j : ℕ) (s : Slot) → i ≢ j → at slots j ≡ s → at (set slots i v) j ≡ s
  at-set_ne j s ne e = let h : (i == j) ≡ false = ground arith in rw (at-set j, h) e

  pub at-set_self : at (set slots i v) i ≡ v
  at-set_self = let h : (i == i) ≡ true = ground arith in rw (at-set i, h) refl

  Reaches-set :
      (size start j : ℕ)
      → is_empty v ≡ false
      → Reaches slots size start j
      → Reaches (set slots i v) size start j
  Reaches-set size start j f r = record {
    steps = r.steps;
    within = r.within;
    ends = r.ends;
    filled = λ p h.
        rw (at-set (probed size start p)) (elim (Bool-cases (i == probed size start p)) [
          | inl e ↦ rw e f
          | inr e ↦ rw e (r.filled p h)
        ]);
  }

  pub set-Probes :
      (size : ℕ)
      → is_empty v ≡ false
      → v ≢ moved
      → ((n : Node)
          → v ≡ occupied n
          → Reaches slots size (hash (some n.text) size) i
            × ((j : ℕ) (m : Node) → at slots j ≡ occupied m → m.text ≡ n.text → j ≡ i))
      → Probes slots size
      → Probes (set slots i v) size
  set-Probes size f kept new w = record {
    full = length-set slots i v ∙ w.full;
    distinct = λ j k a b p q same. elim (set-cases j a p) [
      | inl (e, here) ↦ elim (set-cases k b q) [
        | inl (e', here') ↦ omega arith
        | inr (ne, there) ↦ sym ((new a here).1 k b there (sym same) ∙ e)
      ]
      | inr (ne, there) ↦ elim (set-cases k b q) [
        | inl (e', here') ↦ (new b here').1 j a there same ∙ e'
        | inr (ne', there') ↦ w.distinct j k a b there there' same
      ]
    ];
    whole = λ j e. elim (Bool-cases (i == j)) [
      | inl h ↦ kept (rw (at-set j, h) at e)
      | inr h ↦ w.whole j (rw (at-set j, h) at e)
    ];
    reached = λ j n e. elim (set-cases j n e) [
      | inl (same, here) ↦ rw (sym same) (Reaches-set size _ i f (new n here).0)
      | inr (ne, there) ↦ Reaches-set size _ j f (w.reached j n there)
    ];
  }

occupied_text : (a b : Node) → occupied a ≡ occupied b → a.text ≡ b.text
occupied_text a b e = some-injective _ _ (ap key_of e)

differs : (a k : Bytes) → str_eq a k ≡ false → a ≢ k
differs a k e same = true≢false (sym (str_eq_refl k) ∙ (rw same at e))

-- a new node adds its key, and leaves every other
pub Holds-occupied :
    (slots : List Slot) (i : ℕ) (n : Node) (k : Bytes) (o : Option Node)
    → i < length slots
    → ((j : ℕ) (m : Node) → at slots j ≡ occupied m → m.text ≡ n.text → j ≡ i)
    → ((m : Node) → at slots i ≡ occupied m → m.text ≡ n.text)
    → Holds slots k o
    → Holds (set slots i (occupied n)) k (if str_eq n.text k then some n else o)
Holds-occupied slots i n k o inside only own h = elim (Bool-cases (str_eq n.text k)) [
  | inl e ↦ rw e ((i, at-set_self slots i (occupied n) inside), eq_of_str_eq n.text k e)
  | inr e ↦ rw e (held o h e)
]
  where
    held :
        (o : Option Node)
        → Holds slots k o
        → str_eq n.text k ≡ false
        → Holds (set slots i (occupied n)) k o
    held none h e = λ m (j, p) same. elim (set-cases slots i (occupied n) inside j m p) [
      | inl (here, new) ↦ differs n.text k e (occupied_text n m new ∙ same)
      | inr (ne, there) ↦ h m (j, there) same
    ]
    held (some m) ((j, p), same) e = (
      (
        j,
        at-set_ne slots i (occupied n) inside j (occupied m)
            (λ here. differs n.text k e (sym (own m (ap (at slots) here ∙ p)) ∙ same)) p,
      ),
      same,
    )

-- a deleted slot takes its key away, and leaves every other
pub Holds-deleted :
    (slots : List Slot) (size i : ℕ) (n : Node) (k : Bytes) (o : Option Node)
    → i < length slots
    → at slots i ≡ occupied n
    → Probes slots size
    → Holds slots k o
    → Holds (set slots i deleted) k (if str_eq n.text k then none else o)
Holds-deleted slots size i n k none inside e w h = elim (Bool-cases (str_eq n.text k)) [
  | inl key ↦ rw key missing
  | inr key ↦ rw key missing
]
  where
    missing : (m : Node) → In (set slots i deleted) m → m.text ≢ k
    missing m (j, p) = elim (set-cases slots i deleted inside j m p) [
      | inl (here, new) ↦ cc
      | inr (ne, there) ↦ h m (j, there)
    ]
Holds-deleted slots size i n k (some m) inside e w ((j, p), same) =
    elim (Bool-cases (str_eq n.text k)) [
      | inl key ↦ rw key λ m' (j', p') same'. elim (set-cases slots i deleted inside j' m' p') [
        | inl (here, new) ↦ cc
        | inr (ne, there) ↦
            ne (w.distinct i j' n m' e there (eq_of_str_eq n.text k key ∙ sym same'))
      ]
      | inr key ↦ rw key (
        (
          j,
          at-set_ne slots i deleted inside j (occupied m)
              (λ here.
                differs n.text k key (occupied_text n m (sym e ∙ ap (at slots) here ∙ p) ∙ same))
              p,
        ),
        same,
      )
    ]
