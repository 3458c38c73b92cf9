-- ===== src/Set/Algebra/Tests.antt =====
-- src/set/set.c at concrete sets of strings.
use c2x_examples.Base.{
  ℕ, ◌+◌, ◌%◌, ◌^◌, ◌≡◌, ◌↔◌, refl, true, false, not, ◌&&◌, ◌||◌, some, [], ◌∷◌, Bytes, arith,
  if◌then◌else◌, ◌==◌,
}
use c2x_examples.Memory.{Memory}
use c2x_examples.Strings.{strcmp, str_eq_refl, eq_of_str_eq}
use c2x_examples.Set.{
  Set, SetNode, same, contains, count_of, set_insert, multiset_insert_many, set_node_create,
  set_init, set_insert_no_check,
}
use c2x_examples.Set.Chain.{IsEquality, IsValid}
use c2x_examples.Set.Outcome.{Outcome}
use c2x_examples.Set.Insert.{set_insert-Outcome}
use c2x_examples.Set.Bump.{Counted, multiset_insert_many-Counted}
use c2x_examples.Set.Algebra.{
  set_concat, set_free, set_union, set_intersection, set_difference, set_is_subset, set_is_equal,
  multiset_concat, release, copy_loop, concat_loop, finish, free_chain,
}
use c2x_examples.Set.Algebra.Concat.{set_concat-Outcome}
use c2x_examples.Set.Algebra.Combine.{
  Built, set_union-Built, set_intersection-Built, set_difference-Built,
}
use c2x_examples.Set.Algebra.Relate.{Includes, SameElements, set_is_subset_iff, set_is_equal_iff}
use c2x_examples.Set.Algebra.Multiset.{Merged, multiset_concat-Merged}
use c2x_examples.Set.Algebra.Free.{released, set_free-released}

-- a memory that grants everything, and one that refuses the third request
abbrev plenty : Memory
plenty = record {
  grant = λ _. true;
  calls = 0;
  live = 0;
  destroyed = [];
  cleaned = [];
  over_reads = 0;
}

abbrev strict : Memory
strict = record {
  grant = λ n. if n == 2 then false else true;
  calls = 0;
  live = 0;
  destroyed = [];
  cleaned = [];
  over_reads = 0;
}

abbrev ape : Bytes
ape = 97 ∷ 0 ∷ []

abbrev bee : Bytes
bee = 98 ∷ 0 ∷ []

abbrev cat : Bytes
cat = 99 ∷ 0 ∷ []

abbrev node : Bytes → ℕ → SetNode
node x k = record { content = x; bytes = 2; count = k }

abbrev two : Set
two = record { top = node bee 1 ∷ node ape 3 ∷ []; count = 2; destroy = true; compare = strcmp }

abbrev other : Set
other = record { top = node cat 2 ∷ node bee 5 ∷ []; count = 2; destroy = false; compare = strcmp }

strcmp-IsEquality : IsEquality strcmp
strcmp-IsEquality = record {
  same-refl = str_eq_refl;
  same-sym = λ a b h. rw (eq_of_str_eq a b h) (str_eq_refl b);
  same-trans = λ a b d h k. rw (eq_of_str_eq a b h) k;
}

two-IsValid : IsValid two
unfolding contains strcmp
two-IsValid = ground arith

other-IsValid : IsValid other
unfolding contains strcmp
other-IsValid = ground arith

insert_twice :
    ((set_insert (some two) (some cat) 2 plenty).0.0 ≡ true)
    × (set_insert (some two) (some ape) 2 plenty ≡ ((true, some two), plenty))
    × ((set_insert (some two) (some cat) 2 (record strict { calls = 1 })).0 ≡ (false, some two))
unfolding set_insert strcmp set_node_create contains
insert_twice = (refl, refl, refl)

union_runs : (set_union true (some two) (some other) true (some strcmp) plenty).0.0 ≡ true
unfolding set_union set_init copy_loop concat_loop finish set_insert set_insert_no_check
    set_node_create contains strcmp
union_runs = refl

union_short :
    ((set_union true (some two) (some other) true (some strcmp) strict).0.0 ≡ false)
    × ((set_union true (some two) (some other) true (some strcmp) strict).1.live ≡ 0)
unfolding set_union set_init copy_loop concat_loop finish set_insert set_insert_no_check
    set_node_create contains strcmp set_free free_chain release
union_short = (refl, refl)

set_insert-Outcome_example :
    Outcome two
      (λ x. same strcmp cat x || contains strcmp two.top x)
      3
      two.top
      strict
      (set_insert (some two) (some cat) 2 strict)
set_insert-Outcome_example =
    set_insert-Outcome two cat 2 strict strcmp-IsEquality two-IsValid.chain refl (omega arith)
      (omega arith) refl

set_concat-Outcome_example :
    Outcome two
      (λ x. contains strcmp two.top x || contains strcmp other.top x)
      4
      two.top
      strict
      (set_concat (some two) (some other) strict)
set_concat-Outcome_example =
    set_concat-Outcome two other strict strcmp-IsEquality two-IsValid other-IsValid (omega arith)

set_union-Built_example :
    Built
      (λ x. contains strcmp two.top x || contains strcmp other.top x)
      4
      true
      strcmp
      strict
      (set_union true (some two) (some other) true (some strcmp) strict)
set_union-Built_example =
    set_union-Built two other true strcmp strict strcmp-IsEquality two-IsValid.chain
      other-IsValid.chain.sized (omega arith)

set_intersection-Built_example :
    Built
      (λ x. contains strcmp two.top x && contains strcmp other.top x)
      2
      true
      strcmp
      plenty
      (set_intersection true (some two) (some other) true (some strcmp) plenty)
set_intersection-Built_example =
    set_intersection-Built two other true strcmp plenty strcmp-IsEquality two-IsValid.chain refl
      refl (omega arith)

set_difference-Built_example :
    Built
      (λ x. contains strcmp two.top x && not (contains strcmp other.top x))
      2
      false
      strcmp
      plenty
      (set_difference true (some two) (some other) false (some strcmp) plenty)
set_difference-Built_example =
    set_difference-Built two other false strcmp plenty strcmp-IsEquality two-IsValid.chain refl
      (omega arith)

set_is_subset_iff_example :
    (set_is_subset (some two) (some other) ≡ true) ↔ Includes strcmp two.top other.top
set_is_subset_iff_example =
    set_is_subset_iff two other strcmp-IsEquality two-IsValid other-IsValid refl

set_is_equal_iff_example :
    (set_is_equal (some two) (some other) ≡ true) ↔ SameElements strcmp two.top other.top
set_is_equal_iff_example =
    set_is_equal_iff two other strcmp-IsEquality two-IsValid other-IsValid refl

multiset_insert_many-Counted_example :
    Counted two bee 7 plenty (multiset_insert_many (some two) (some bee) 2 7 plenty)
multiset_insert_many-Counted_example =
    multiset_insert_many-Counted two bee 2 7 plenty strcmp-IsEquality two-IsValid.chain refl
      (omega arith) (omega arith) refl (omega arith)

multiset_concat-Merged_example :
    Merged two
      (λ x. (count_of strcmp two.top x + count_of strcmp other.top x) % 2 ^ 64)
      4
      two.top
      strict
      (multiset_concat (some two) (some other) strict)
multiset_concat-Merged_example =
    multiset_concat-Merged two other strict strcmp-IsEquality two-IsValid other-IsValid refl
      (omega arith) (omega arith) (omega arith)

set_free-released_example : (set_free (some two) plenty).1 ≡ released true 5 two.top plenty
set_free-released_example = set_free-released two plenty
