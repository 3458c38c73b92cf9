-- ===== src/Run.antt =====
-- How a computation over C arrays ends: with a value, with an access out of range, or short of the
-- rounds that the model gives its loops. `Returns` is total correctness: only the first.
use c2x_examples.Base.{◌≡◌, refl, Option, none, some}

pub data Run {ℓ} (A : Type ℓ) : Type ℓ where
  ok : A → Run A
  fault : Run A
  out_of_fuel : Run A

infixl 5 ◌>>=◌
abbrev pub ◌>>=◌ {ℓ κ} : {A : Type ℓ} {B : Type κ} → Run A → (A → Run B) → Run B
ok a >>= f = f a
fault >>= f = fault
out_of_fuel >>= f = out_of_fuel

-- A read through an index: none is out of range.
abbrev pub in_range {ℓ} : {A : Type ℓ} → Option A → Run A
in_range (some a) = ok a
in_range none = fault

pub data Returns {ℓ κ} {A : Type ℓ} (P : A → Type κ) (r : Run A) : Type (ℓ ⊔ κ) where
  returns : (a : A) → r ≡ ok a → P a → Returns P r

module _ {ℓ κ} {A : Type ℓ} {P : A → Type κ} where
  pub value : {a : A} → P a → Returns P (ok a)
  value p = returns _ refl p

  pub bind {μ ν} :
      {B : Type μ} {Q : B → Type ν} {r : Run A} {f : A → Run B}
      → Returns P r
      → ((a : A) → P a → Returns Q (f a))
      → Returns Q (r >>= f)
  bind (returns a e p) next = rw e (next a p)

  pub weaken {ν} : {Q : A → Type ν} {r : Run A} → Returns P r → ((a : A) → P a → Q a) → Returns Q r
  weaken (returns a e p) imp = returns a e (imp a p)

abbrev pub map_run {ℓ κ} : {A : Type ℓ} {B : Type κ} → (A → B) → Run A → Run B
map_run f r = r >>= λ a. ok (f a)
