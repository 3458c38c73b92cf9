-- ===== src/Set/Chain.antt =====
-- Chains of set nodes under a comparison that is an equality: what the searches of src/set/set.c
-- find, and what a chain without duplicates is.
use c2x_examples.Base.{
  ℕ, suc, ◌^◌, ◌<◌, ◌≡◌, refl, ap, true, false, List, [], ◌∷◌, Bytes, length, take, arith,
}
use c2x_examples.Set.{Set, SetNode, Compare, same, contains}

-- What the code expects of `compare(a, b) == 0`.
pub record IsEquality (c : Compare) : Type 0 where
  pub same-refl : (a : Bytes) → same c a a ≡ true
  pub same-sym : (a b : Bytes) → same c a b ≡ true → same c b a ≡ true
  pub same-trans : (a b d : Bytes) → same c a b ≡ true → same c b d ≡ true → same c a d ≡ true

-- No two nodes compare equal.
abbrev pub Distinct : Compare → List SetNode → Type 0
Distinct c [] = Unit
Distinct c (n ∷ rest) = (contains c rest n.content ≡ false) × Distinct c rest

-- Each node holds an object of its positive size.
abbrev pub Sized : List SetNode → Type 0
Sized [] = Unit
Sized (n ∷ rest) = (0 < n.bytes) × (length n.content ≡ n.bytes) × Sized rest

pub record IsChain (c : Compare) (l : List SetNode) : Type 0 where
  pub distinct : Distinct c l
  pub sized : Sized l

pub record IsValid (s : Set) : Type 0 where
  pub chain : IsChain s.compare s.top
  pub counted : s.count ≡ length s.top
  pub fits : length s.top < 2 ^ 64

-- to copy as many bytes as an object has is to copy the object
pub take-whole {ℓ} : {A : Type ℓ} (n : ℕ) (xs : List A) → length xs ≡ n → take n xs ≡ xs
take-whole ℕ.zero [] e = refl
take-whole ℕ.zero (x ∷ xs) e = absurd (omega arith)
take-whole (suc n) [] e = absurd (omega arith)
take-whole (suc n) (x ∷ xs) e = ap (◌∷◌ x) (take-whole n xs (omega arith))

module _ {c : Compare} (eq : IsEquality c) where
  pub same_congr : (a b x : Bytes) → same c a b ≡ true → same c x a ≡ same c x b
  same_congr a b x h = ground (arith, eq.same-trans x a b, eq.same-trans x b a, eq.same-sym a b)

  pub same_comm : (a b : Bytes) → same c a b ≡ same c b a
  same_comm a b = ground (arith, eq.same-sym a b, eq.same-sym b a)

  pub contains_congr :
      (l : List SetNode) (a b : Bytes) → same c a b ≡ true → contains c l a ≡ contains c l b
  unfolding contains
  contains_congr [] a b h = refl
  contains_congr (n ∷ l) a b h = rw (same_congr a b n.content h, contains_congr l a b h)

  pub same_congr_left : (a b x : Bytes) → same c a b ≡ true → same c a x ≡ same c b x
  same_congr_left a b x h =
      ground (arith, eq.same-trans a b x, eq.same-trans b a x, eq.same-sym a b)
