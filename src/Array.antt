-- ===== src/Array.antt =====
-- C arrays of objects of one size, as lists under native indices. `get_or` reads with a value for
-- indices out of range, which only statements use; the code reads by `load`.
use mathlib.Core.List.{Perm, Permᴰ, perm_middle, append-nil}
use mathlib.Core.List.Perm
use mathlib.Core.Logic.{∥∥₁_elim}
use native.Mathlib.Nat.{ℕ_set}
use c2x_examples.Base.{
  ℕ, zero, suc, ◌<◌, ◌≡◌, refl, sym, ap, ◌∙◌, List, [], ◌∷◌, ◌++◌, some, arith, ◌==◌, if◌then◌else◌,
  length, get_elem?, set, take, length-set,
}
use c2x_examples.Run.{Run, ok, ◌>>=◌, in_range}

module _ {ℓ} {A : Type ℓ} where
  -- `a[i]`
  unfoldable pub load : List A → ℕ → Run A
  load a i = in_range (get_elem? a i)

  -- The exchange of `a[i]` and `a[j]` through a temporary.
  unfoldable pub exchange : List A → ℕ → ℕ → Run (List A)
  exchange a i j = do x ← load a i; y ← load a j; ok (set (set a i y) j x)

  unfoldable pub get_or : List A → ℕ → A → A
  get_or [] i d = d
  get_or (x ∷ a) zero d = x
  get_or (x ∷ a) (suc i) d = get_or a i d

  unfoldable pub swap : A → List A → ℕ → ℕ → List A
  swap d a i j = set (set a i (get_or a j d)) j (get_or a i d)

  pub get_elem?-get_or :
      (a : List A) (i : ℕ) (d : A) → i < length a → get_elem? a i ≡ some (get_or a i d)
  unfolding get_or
  get_elem?-get_or [] i d h = absurd (omega arith)
  get_elem?-get_or (x ∷ a) zero d h = refl
  get_elem?-get_or (x ∷ a) (suc i) d h = get_elem?-get_or a i d (omega arith)

  pub get_or-append :
      (a b : List A) (i : ℕ) (d : A) → i < length a → get_or (a ++ b) i d ≡ get_or a i d
  unfolding get_or
  get_or-append [] b i d h = absurd (omega arith)
  get_or-append (x ∷ a) b zero d h = refl
  get_or-append (x ∷ a) b (suc i) d h = get_or-append a b i d (omega arith)

  pub get_or-take :
      (n : ℕ) (a : List A) (i : ℕ) (d : A) → i < n → get_or (take n a) i d ≡ get_or a i d
  unfolding get_or
  get_or-take zero a i d h = absurd (omega arith)
  get_or-take (suc n) [] i d h = refl
  get_or-take (suc n) (x ∷ a) zero d h = refl
  get_or-take (suc n) (x ∷ a) (suc i) d h = get_or-take n a i d (omega arith)

module _ {ℓ} {A : Type ℓ} (d : A) where
  pub load-ok : (a : List A) (i : ℕ) → i < length a → load a i ≡ ok (get_or a i d)
  unfolding load
  load-ok a i h = rw (get_elem?-get_or a i d h)

  -- writing an entry trades what stood there for what is written
  set-perm :
      (entries : List A) (k : ℕ) (new : A)
      → k < length entries
      → Perm (new ∷ entries) (get_or entries k d ∷ set entries k new)
  unfolding get_or
  set-perm (first ∷ rest) (suc k) new inside =
      let below = Perm.cons first (set-perm rest k new (omega arith)) in
      Perm.trans (Perm.swap first new rest) (Perm.trans below (Perm.swap _ first _))
  set-perm (first ∷ rest) zero new inside = Perm.swap first new rest
  set-perm [] k new inside = absurd (omega arith)

  pub get_or-set :
      (a : List A) (i j : ℕ) (v : A)
      → i < length a
      → get_or (set a i v) j d ≡ (if i == j then v else get_or a j d)
  unfolding get_or
  get_or-set [] i j v h = absurd (omega arith)
  get_or-set (x ∷ a) (suc i) (suc j) v h = ground (arith, get_or-set a i j v)
  get_or-set (x ∷ a) zero zero v h = refl
  get_or-set (x ∷ a) i j v h = ground arith

  pub length-swap : (a : List A) (i j : ℕ) → length (swap d a i j) ≡ length a
  unfolding swap
  length-swap a i j = simp length-set

  module _ (a : List A) (i j : ℕ) (hi : i < length a) (hj : j < length a) where
    pub exchange-ok : exchange a i j ≡ ok (swap d a i j)
    unfolding exchange swap
    exchange-ok = rw (load-ok a i hi, load-ok a j hj)

    pub get_or-swap :
        (k : ℕ)
        → get_or (swap d a i j) k d
          ≡ (if j == k then get_or a i d else if i == k then get_or a j d else get_or a k d)
    unfolding swap
    get_or-swap k = rw (
      get_or-set (set a i (get_or a j d)) j k (get_or a i d) (rw length-set hj),
      get_or-set a i k (get_or a j d) hi,
    )

    pub swap-perm : Perm (swap d a i j) a
    unfolding swap
    swap-perm =
        let once = set a i (get_or a j d) in
        let unchanged : get_or once j d ≡ get_or a j d =
          ground (arith, get_or-set a i j (get_or a j d)) in
        let twice = set-perm once j (get_or a i d) (rw length-set hj) in
        Perm.cons_inv
          (Perm.symm (Perm.trans (set-perm a i (get_or a j d) hi) (rw unchanged at twice)))

module _ {ℓ} {A : Type ℓ} where
  same_length : {xs ys : List A} → Permᴰ xs ys → length ys ≡ length xs
  same_length (Permᴰ.trans first second) = same_length second ∙ same_length first
  same_length (Permᴰ.swap _ _) = refl
  same_length (Permᴰ.cons _ tail) = ap suc (same_length tail)
  same_length Permᴰ.nil = refl

  pub length-perm : {xs ys : List A} → Perm xs ys → length xs ≡ length ys
  length-perm same = ∥∥₁_elim same (ℕ_set _ _) (λ d. sym (same_length d))

  -- appending at the end is a permutation of putting in front
  pub concat-perm : (front : List A) (last : A) → Perm (front ++ last ∷ []) (last ∷ front)
  concat-perm front last = rw (append-nil front) at (perm_middle {a = last} front [])
