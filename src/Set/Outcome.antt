-- ===== src/Set/Outcome.antt =====
-- How an operation that inserts ends: with the whole change made, or short of memory with a chain
-- that is still good. Either way the live blocks are accounted for, two for each node, and no
-- copy reads past the end of an object.
use c2x_examples.Base.{
  ℕ, ◌+◌, ◌*◌, ◌≤◌, ◌≡◌, refl, sym, [], ◌∷◌, ◌∙◌, arith, Bool, true, false, Option, some, List,
  Bytes, length,
}
use c2x_examples.Memory.{Memory, AlwaysGrants}
use c2x_examples.Set.{Set, SetNode, Compare, contains}
use c2x_examples.Set.Chain.{IsChain}

abbrev pub with_chain : Set → List SetNode → Set
with_chain s l = record s { top = l; count = length l }

-- From the chain `k` in memory `m` to the chain `l` of at most `n` nodes in memory `m'`.
pub record Accounted (c : Compare) (n : ℕ) (k : List SetNode) (m : Memory) (l : List SetNode)
    (m' : Memory) : Type 0 where
  pub chain : IsChain c l
  pub bounded : length l ≤ n
  pub balance : m'.live + 2 * length k ≡ m.live + 2 * length l
  pub grants : m'.grant ≡ m.grant
  pub reads : m'.over_reads ≡ m.over_reads

-- `f` says which objects are elements of the set when the operation has succeeded.
pub data Outcome (s : Set) (f : Bytes → Bool) (n : ℕ) (k : List SetNode) (m : Memory)
    (r : (Bool × Option Set) × Memory) : Type 0 where
  done :
      (l : List SetNode)
      → r.0 ≡ (true, some (with_chain s l))
      → Accounted s.compare n k m l r.1
      → ((x : Bytes) → contains s.compare l x ≡ f x)
      → Outcome s f n k m r
  short :
      (l : List SetNode)
      → r.0 ≡ (false, some (with_chain s l))
      → Accounted s.compare n k m l r.1
      → ¬ AlwaysGrants m
      → Outcome s f n k m r

pub AlwaysGrants-congr : (m m' : Memory) → m'.grant ≡ m.grant → AlwaysGrants m → AlwaysGrants m'
AlwaysGrants-congr m m' e all = λ n. rw e (all n)

pub Accounted-trans :
    {c : Compare} {n n' : ℕ} {k l j : List SetNode} {m m1 m2 : Memory}
    → Accounted c n k m l m1
    → Accounted c n' l m1 j m2
    → Accounted c n' k m j m2
Accounted-trans a b = record {
  chain = b.chain;
  bounded = b.bounded;
  balance = omega (arith, a.balance, b.balance);
  grants = b.grants ∙ a.grants;
  reads = b.reads ∙ a.reads;
}

-- An operation goes on from the chain that an earlier one has left.
pub after :
    {s : Set} {f : Bytes → Bool} {n n' : ℕ} {k l : List SetNode} {m m1 : Memory}
    {r : (Bool × Option Set) × Memory}
    → Accounted s.compare n k m l m1
    → Outcome s f n' l m1 r
    → Outcome s f n' k m r
after a (done j e b mem) = done j e (Accounted-trans a b) mem
after {m} {m1} a (short j e b no_room) =
    short j e (Accounted-trans a b) (λ all. no_room (AlwaysGrants-congr m m1 a.grants all))

-- The same, where the first operation was short of memory and ended the whole one.
pub stop :
    {s : Set} {f : Bytes → Bool} {n n' : ℕ} {k l : List SetNode} {m m1 : Memory}
    (r : (Bool × Option Set) × Memory)
    → n ≤ n'
    → Accounted s.compare n k m l m1
    → ¬ AlwaysGrants m
    → r ≡ ((false, some (with_chain s l)), m1)
    → Outcome s f n' k m r
stop {l} r le a no_room e = rw e (
    short l refl
      (record {
        chain = a.chain;
        bounded = omega (arith, a.bounded);
        balance = a.balance;
        grants = a.grants;
        reads = a.reads;
      })
      no_room)

pub relabel :
    {s : Set} {f g : Bytes → Bool} {n : ℕ} {k : List SetNode} {m : Memory}
    {r : (Bool × Option Set) × Memory}
    → ((x : Bytes) → f x ≡ g x)
    → Outcome s f n k m r
    → Outcome s g n k m r
relabel same_elements (done l e a mem) = done l e a (λ x. mem x ∙ same_elements x)
relabel same_elements (short l e a no_room) = short l e a no_room

pub with_chain_self : (s : Set) → s.count ≡ length s.top → with_chain s s.top ≡ s
with_chain_self s e =
    λ i. record { top = s.top; count = sym e i; destroy = s.destroy; compare = s.compare }

pub contains_empty :
    (c : Compare) (l : List SetNode) (x : Bytes) → length l ≡ 0 → contains c l x ≡ false
unfolding contains
contains_empty c [] x e = refl
contains_empty c (n ∷ l) x e = absurd (omega arith)
