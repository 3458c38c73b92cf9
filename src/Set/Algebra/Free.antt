-- ===== src/Set/Algebra/Free.antt =====
-- `set_free`.
use c2x_examples.Base.{
  ℕ, ◌+◌, ◌-◌, ◌*◌, ◌≡◌, ◌∙◌, Bool, true, false, some, List, [], ◌∷◌, length, arith, if◌then◌else◌,
  map,
}
use mathlib.Core.List.{reverse_aux}
use c2x_examples.Memory.{Memory}
use c2x_examples.Set.{Set, SetNode}
use c2x_examples.Set.Algebra.{release, free_chain, set_free}

-- Memory after `k` blocks have gone, with the objects of `l` handed to the callback if there is one.
abbrev pub released : Bool → ℕ → List SetNode → Memory → Memory
released destroy k l m = record m {
  live = m.live - k;
  destroyed =
      if destroy then reverse_aux (map (λ (n : SetNode). n.content) l) m.destroyed else m.destroyed;
}

free_chain_lem :
    (destroy : Bool) (l : List SetNode) (m : Memory)
    → (free_chain destroy l m).1 ≡ released destroy (2 * length l) l m
unfolding free_chain release
free_chain_lem destroy [] m = ground arith
free_chain_lem true (n ∷ l) m = free_chain_lem true l ((release true n) m).1 ∙ ground arith
free_chain_lem false (n ∷ l) m = free_chain_lem false l ((release false n) m).1 ∙ ground arith

-- `set_free` gives every block of the set back, two for each node and one for the set itself, and
-- hands each object to the destroy callback once, in chain order, if there is a callback.
pub set_free-released :
    (s : Set) (m : Memory)
    → (set_free (some s) m).1 ≡ released s.destroy (2 * length s.top + 1) s.top m
unfolding set_free
set_free-released s m = rw (free_chain_lem s.destroy s.top m) (ground arith)
