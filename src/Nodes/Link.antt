-- ===== src/Nodes/Link.antt =====
-- The end of a chain: a node is linked behind its last, and its last is cut off and freed.
use c2x_examples.Base.{
  ℕ, ◌-◌, ◌≡◌, ◌≢◌, refl, ◌∙◌, Bool, true, false, Option, none, some, List, [], ◌∷◌, ◌++◌,
  if◌then◌else◌,
}
use c2x_examples.Memory.{Memory}
use c2x_examples.Run.{ok, Returns, value}
use c2x_examples.Nodes.{
  Item, Node, Store, update, join_tail, first_of, cut_next, end_of, release, free_node,
}
use c2x_examples.Nodes.Seg.{
  Outside-last, Seg-none, Seg-some, Cell, node, Outside, Seg, Seg-update, Snoc, Snoc-Seg,
}
use c2x_examples.Nodes.Create.{load-ok, set_next-ok, update_self, update_other}

-- the chain with a node linked behind its last
pub join_tail-Seg :
    (s : Store) (top tail : Option ℕ) (cells : List Cell) (p : ℕ) (x : Item)
    → Seg s.nodes none top cells tail none
    → Outside p cells
    → s.nodes p ≡ some (node x none tail)
    → Returns
        (λ r.
          (r.1.memory ≡ s.memory)
          × Seg r.1.nodes none (first_of tail top p) (cells ++ (p, x) ∷ []) (some p) none)
        (join_tail tail p s)
join_tail-Seg s top none cells p x seg fresh here =
    rw (Seg-none s.nodes top cells none none refl seg)
      (value (refl, (none, refl, here, tt, (refl, refl))))
join_tail-Seg s top (some t) cells p x seg fresh here =
    let (init, y, split, r) = Seg-some s.nodes top cells t (some t) none refl seg in
    let n = node y (some p) r.mid in
    let h = update s.nodes t (some n) in
    let apart : p ≢ t = Outside-last p t y init (rw split at fresh) in
    rw (set_next-ok t s (node y none r.mid) r.here (some p), split)
      (value (
        refl,
        Snoc-Seg h p x (some p) none none top (init ++ (t, y) ∷ []) (record {
          mid = some t;
          front = Snoc-Seg h t y (some t) (some p) none top init (record {
            mid = r.mid;
            front = Seg-update s.nodes none top init r.mid (some t) t (some n) r.fresh r.front;
            here = update_self s.nodes t (some n);
            at_last = refl;
            fresh = r.fresh;
          });
          here = update_other s.nodes t (some n) p apart ∙ here;
          at_last = refl;
          fresh = rw split at fresh;
        }),
      ))

-- the chain without its last node, which keeps its place in the store
pub cut_last :
    (s : Store) (top last : Option ℕ) (init : List Cell) (p : ℕ) (x : Item)
    (r : Snoc s.nodes none top init p x last none)
    → Returns
        (λ out.
          (out.1.memory ≡ s.memory)
          × (out.1.nodes p ≡ s.nodes p)
          × Seg out.1.nodes none (end_of r.mid top) init r.mid none)
        (cut_next r.mid s)
cut_last s top last init p x r = from r.mid r.front r.here
  where
    from :
        (mid : Option ℕ)
        → Seg s.nodes none top init mid (some p)
        → s.nodes p ≡ some (node x none mid)
        → Returns
            (λ out.
              (out.1.memory ≡ s.memory)
              × (out.1.nodes p ≡ s.nodes p)
              × Seg out.1.nodes none (end_of mid top) init mid none)
            (cut_next mid s)
    from none seg here =
        rw (Seg-none s.nodes top init none (some p) refl seg) (value (refl, refl, (refl, refl)))
    from (some q) seg here =
        let (front, y, split, t) = Seg-some s.nodes top init q (some q) (some p) refl seg in
        let n = node y none t.mid in
        let apart : p ≢ q = Outside-last p q y front (rw split at r.fresh) in
        rw (set_next-ok q s (node y (some p) t.mid) t.here none, split)
          (value (
            refl,
            update_other s.nodes q (some n) p apart,
            Snoc-Seg (update s.nodes q (some n)) q y (some q) none none top front (record {
              mid = t.mid;
              front = Seg-update s.nodes none top front t.mid (some q) q (some n) t.fresh t.front;
              here = update_self s.nodes q (some n);
              at_last = refl;
              fresh = t.fresh;
            }),
          ))

-- What `release` does to the memory.
abbrev pub released : Bool → Item → Memory → Memory
released destroy x m = record m {
  live = m.live - 1 - 1;
  destroyed = if destroy then x.data_bytes ∷ m.destroyed else m.destroyed;
}

pub release-ok :
    (destroy : Bool) (p : ℕ) (s : Store) (n : Node)
    → s.nodes p ≡ some n
    → release destroy p s
      ≡ ok (tt, record { nodes = update s.nodes p none; memory = released destroy n.item s.memory })
unfolding release free_node
release-ok false p s n e =
    rw
      (
        load-ok p s n e,
        load-ok p (record s { memory = record s.memory { live = s.memory.live - 1 } }) n e,
      )
      refl
release-ok true p s n e =
    rw
      (
        load-ok p s n e,
        load-ok p
            (record s {
              memory = record s.memory {
                live = s.memory.live - 1;
                destroyed = n.item.data_bytes ∷ s.memory.destroyed;
              };
            })
            n e,
      )
      refl
