-- ===== src/Strings.antt =====
-- C strings, as the bytes before the terminator, and `strcmp` on them.
use c2x_examples.Base.{
  ◌≡◌, ◌↔◌, refl, Bool, true, false, [], ◌∷◌, Bytes, ℤ, pos, negsuc, is_zero, is_pos, is_neg, ◌==◌,
  ltb, if◌then◌else◌, arith,
}

unfoldable pub strcmp : Bytes → Bytes → ℤ
strcmp [] [] = pos 0
strcmp [] (y ∷ b) = negsuc 0
strcmp (x ∷ a) [] = pos 1
strcmp (x ∷ a) (y ∷ b) =
    let rest = strcmp a b in if x == y then rest else if ltb x y then negsuc 0 else pos 1

-- `strcmp(a, b) == 0`
abbrev pub str_eq : Bytes → Bytes → Bool
str_eq a b = is_zero (strcmp a b)

pub strcmp_refl : (a : Bytes) → strcmp a a ≡ pos 0
unfolding strcmp
strcmp_refl [] = refl
strcmp_refl (x ∷ a) = ground (arith, strcmp_refl a)

pub str_eq_refl : (a : Bytes) → str_eq a a ≡ true
str_eq_refl a = rw (strcmp_refl a)

pub eq_of_str_eq : (a b : Bytes) → str_eq a b ≡ true → a ≡ b
unfolding strcmp
eq_of_str_eq [] [] h = refl
eq_of_str_eq [] (y ∷ b) h = cc
eq_of_str_eq (x ∷ a) [] h = cc
eq_of_str_eq (x ∷ a) (y ∷ b) h = ground (arith, eq_of_str_eq a b)

pub str_eq_iff : (a b : Bytes) → (str_eq a b ≡ true) ↔ (a ≡ b)
str_eq_iff a b = (eq_of_str_eq a b, λ e. rw e (str_eq_refl b))

pub strcmp-turns : (a b : Bytes) → is_pos (strcmp a b) ≡ is_neg (strcmp b a)
unfolding strcmp
strcmp-turns [] [] = refl
strcmp-turns [] (y ∷ b) = refl
strcmp-turns (x ∷ a) [] = refl
strcmp-turns (x ∷ a) (y ∷ b) = ground (arith, strcmp-turns a b)

pub strcmp_trans :
    (a b c : Bytes)
    → is_neg (strcmp a b) ≡ false
    → is_neg (strcmp b c) ≡ false
    → is_neg (strcmp a c) ≡ false
unfolding strcmp
strcmp_trans [] [] c p q = q
strcmp_trans [] (y ∷ b) c p q = cc
strcmp_trans (x ∷ a) b [] p q = refl
strcmp_trans (x ∷ a) [] (z ∷ c) p q = cc
strcmp_trans (x ∷ a) (y ∷ b) (z ∷ c) p q = ground (arith, strcmp_trans a b c)

pub strcmp_asym : (a b : Bytes) → is_pos (strcmp a b) ≡ true → is_pos (strcmp b a) ≡ false
unfolding strcmp
strcmp_asym [] [] h = cc
strcmp_asym [] (y ∷ b) h = cc
strcmp_asym (x ∷ a) [] h = refl
strcmp_asym (x ∷ a) (y ∷ b) h = ground (arith, strcmp_asym a b)
