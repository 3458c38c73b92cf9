-- ===== src/Nodes/Samples.antt =====
-- A chain of two nodes of src/deque/deque.c, with memory for any request.
use c2x_examples.Base.{refl, true, none, some, [], ◌∷◌, arith}
use c2x_examples.Memory.{AlwaysGrants}
use c2x_examples.Nodes.{Item, Store, update}
use c2x_examples.Nodes.Seg.{node}
use c2x_examples.Nodes.Chain.{Chained}

abbrev pub ann : Item
ann = record { data_bytes = 1 ∷ []; size = 1 }

abbrev pub bob : Item
bob = record { data_bytes = 2 ∷ 3 ∷ []; size = 2 }

abbrev pub two_nodes : Store
two_nodes = record {
  nodes =
      update (update (λ _. none) 0 (some (node ann (some 2) none))) 2
        (some (node bob none (some 0)));
  memory = record {
    grant = λ _. true;
    calls = 4;
    live = 5;
    destroyed = [];
    cleaned = [];
    over_reads = 0;
  };
}

pub two_nodes-Chained : Chained two_nodes (some 0) (some 2) (ann ∷ bob ∷ [])
unfolding update
two_nodes-Chained = record {
  cells = (0, ann) ∷ (2, bob) ∷ [];
  chain = (some 2, refl, refl, ((omega arith), tt), (none, refl, refl, tt, (refl, refl)));
  contents = refl;
  below = λ a h. (omega (arith, h), (omega (arith, h), tt));
}

pub two_nodes-AlwaysGrants : AlwaysGrants two_nodes.memory
two_nodes-AlwaysGrants n = refl
