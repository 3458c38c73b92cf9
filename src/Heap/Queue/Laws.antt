-- ===== src/Heap/Queue/Laws.antt =====
-- `heap_insert`, `heap_extract` and `heap_peek` implement a priority queue.
use mathlib.Core.List.{Perm}
use mathlib.Core.List.Perm
use c2x_examples.Base.{
  ℕ, zero, suc, ◌+◌, ◌-◌, ◌*◌, ◌^◌, ◌≤◌, ◌<◌, ◌≡◌, refl, Bool, true, false, Option, none, some,
  List, [], ◌∷◌, ◌++◌, ℤ, Bytes, is_pos, ◌==◌, not, length, set, take, if◌then◌else◌, arith, ◌∙◌,
  ap, Bool-cases, inl, inr, ◌⊎◌, ◌||◌, length-set, size_mod, ltb,
}
use c2x_examples.Memory.{M, pure, Memory, AlwaysGrants}
use c2x_examples.Run.{Run, ok, Returns, returns, value, bind, map_run}
use c2x_examples.Array.{get_or, load-ok, length-perm, get_or-take, get_or-set, concat-perm}
use c2x_examples.Heap.{place, take_top}
use c2x_examples.Heap.Sift.{sift-Sifted, IsHeapFrom, DownInv, parent, heap-root}
use c2x_examples.Heap.Order.{IsOrder, larger_first, larger_first-IsBetter}
use c2x_examples.Heap.Queue.{
  Heap, Compare, make_room, regrow, heap_insert, heap_extract, heap_peek, insert_with, extract_with,
  Taken, pointer_size,
}
use c2x_examples.Heap.Queue.Up.{place-Ordered, down_loop-sift}

length-take {ℓ} : {A : Type ℓ} (n : ℕ) (a : List A) → n ≤ length a → length (take n a) ≡ n
length-take zero a h = refl
length-take (suc n) [] h = absurd (omega arith)
length-take (suc n) (x ∷ a) h = ap suc (length-take n a (omega arith))

take-append-last {ℓ} :
    {A : Type ℓ} (d : A) (n : ℕ) (a : List A) → length a ≡ suc n → take n a ++ get_or a n d ∷ [] ≡ a
unfolding get_or
take-append-last d zero (x ∷ []) h = refl
take-append-last d zero (x ∷ y ∷ a) h = absurd (omega arith)
take-append-last d (suc n) (x ∷ a) h = ap (◌∷◌ x) (take-append-last d n a (omega arith))
take-append-last d n [] h = absurd (omega arith)

module _ {A : Type 0} (compare : A → A → ℤ) (order : IsOrder compare) (d : A) where
  abbrev pub IsHeap : List A → Type 0
  IsHeap a = IsHeapFrom (larger_first compare) d (length a) 0 a

  -- an object that none of the array compares greater than, and the rest as a heap
  pub record TopOf (a : List A) (r : A × List A) : Type 0 where
    pub heap : IsHeap r.1
    pub same : Perm (r.0 ∷ r.1) a
    pub largest : (i : ℕ) → i < length a → is_pos (compare (get_or a i d) r.0) ≡ false

  -- the slots with the last object moved to the front
  abbrev cut : List A → List A
  cut a = take (length a - 1) (set a 0 (get_or a (length a - 1) d))

  cut-perm : (a : List A) → 1 < length a → Perm (get_or a 0 d ∷ cut a) a
  unfolding get_or
  cut-perm [] h = absurd (omega arith)
  cut-perm (x ∷ []) h = absurd (omega arith)
  cut-perm (x ∷ y ∷ q) h =
      let size : suc (suc (length q)) - 1 ≡ suc (length q) = omega arith in
      let s = get_or (y ∷ q) (length q) d in
      let t = take (length q) (y ∷ q) in
      rw size (
        Perm.cons x
          (rw (take-append-last d (length q) (y ∷ q) refl) at (Perm.symm (concat-perm t s))))

  length-cut : (a : List A) → 0 < length a → length (cut a) ≡ length a - 1
  length-cut a h = length-take (length a - 1) _ (rw length-set (omega arith))

  get_or-cut : (a : List A) (c : ℕ) → 0 < c → c < length a - 1 → get_or (cut a) c d ≡ get_or a c d
  get_or-cut a c pos h =
      let s = get_or a (length a - 1) d in
      get_or-take (length a - 1) (set a 0 s) c d h ∙ ground (arith, get_or-set d a 0 c s)

  single-perm : (a : List A) → length a ≡ 1 → Perm (get_or a 0 d ∷ []) a
  unfolding get_or
  single-perm [] h = absurd (omega arith)
  single-perm (x ∷ []) h = Perm.refl (x ∷ [])
  single-perm (x ∷ y ∷ a) h = absurd (omega arith)

  cut-DownInv :
      (a : List A) → IsHeap a → DownInv (larger_first compare) d (length a - 1) 0 (cut a) 0
  cut-DownInv a heap = record {
    edges = λ c p q r ne.
        rw (get_or-cut a c p q, get_or-cut a (parent c) (omega arith) (omega arith))
          (heap c p (omega arith) r);
    bridged = λ c p q r s t. absurd (omega arith);
  }

  take_top-TopOf : (a : List A) → IsHeap a → 0 < length a → Returns (TopOf a) (take_top compare a)
  unfolding take_top
  take_top-TopOf a heap h =
      let better = larger_first compare in
      let laws = larger_first-IsBetter order in
      let n = length a - 1 in
      let largest =
        λ (i : ℕ) (lt : i < length a). heap-root better d laws (length a) 0 a i heap lt in
      rw (load-ok d a 0 h, load-ok d a n (omega arith))
        (elim (Bool-cases (n == 0)) [
          | inl e ↦ rw e (
              value (record {
                heap = λ c p q r. absurd (omega arith);
                same = single-perm a (ground arith);
                largest = largest;
              }))
          | inr e ↦
              rw (e, down_loop-sift compare n (n + 1))
                (bind
                  (sift-Sifted better d laws n 0 (n + 1) (cut a) 0 (omega (arith, length-cut a h))
                    (omega arith) (omega arith) (ground arith) (cut-DownInv a heap))
                  λ t s.
                    let size : length t ≡ n = omega (arith, length-perm s.same, length-cut a h) in
                    value (record {
                      heap = λ c p q r. s.heap c p (omega arith) r;
                      same = Perm.trans (Perm.cons _ s.same) (cut-perm a (ground arith));
                      largest = largest;
                    }))
        ])

pub record IsValid (c : Compare) (d : Bytes) (h : Heap) : Type 0 where
  pub compares : h.compare ≡ some c
  pub order : IsOrder c
  pub heap : IsHeap c order d h.tree
  pub within : length h.tree ≤ h.capacity
  pub allocated : h.allocated ≡ true

-- A capacity stays below what twice the objects and the old capacity stay below.
abbrev pub Grown : Heap → ℕ → Type 0
Grown h k = (b : ℕ) → h.capacity ≤ b → 2 * length h.tree + 1 ≤ b → k ≤ b

-- The size of the array in bytes is a `size_t`.
abbrev pub InBytes : ℕ → Type 0
InBytes k = k * pointer_size < size_mod

-- How `heap_insert` ends: the object is added, in an array whose size in bytes is still a `size_t`, or
-- nothing is changed, since a request was refused or the array cannot double. The number of blocks
-- stays the same.
pub data Inserted (c : Compare) (d : Bytes) (h : Heap) (x : Bytes) (m : Memory)
    (r : Run (Bool × Option Heap) × Memory) : Type 0 where
  added :
      (h' : Heap)
      → r.0 ≡ ok (true, some h')
      → IsValid c d h'
      → Perm h'.tree (x ∷ h.tree)
      → r.1.live ≡ m.live
      → Grown h h'.capacity
      → r.1.grant ≡ m.grant
      → (InBytes h.capacity → InBytes h'.capacity)
      → Inserted c d h x m r
  refused :
      r.0 ≡ ok (false, some h)
      → r.1.live ≡ m.live
      → (AlwaysGrants m → 2 ^ 60 ≤ h.capacity)
      → Inserted c d h x m r

module _ (c : Compare) (d : Bytes) (h : Heap) (v : IsValid c d h) where
  add :
      (x : Bytes) (m m' : Memory) (k : ℕ)
      → length h.tree < k
      → m'.live ≡ m.live
      → Grown h k
      → m'.grant ≡ m.grant
      → (InBytes h.capacity → InBytes k)
      → Inserted c d h x m (
        map_run
            (λ t. (true, some (record h { tree = t; capacity = k; allocated = true })))
            (place c h.tree x),
        m',
      )
  add x m m' k room live grown grant fits = elim (place-Ordered c v.order d h.tree x v.heap) [
    | returns t e (heap, same) ↦ rw e (
        added (record h { tree = t; capacity = k; allocated = true }) refl
          (record {
            compares = v.compares;
            order = v.order;
            heap = heap;
            within = omega (arith, length-perm same);
            allocated = refl;
          })
          same live grown grant fits)
  ]

  insert_with-eq : (x : Bytes) → heap_insert (some h) (some x) ≡ insert_with c h x
  unfolding heap_insert
  insert_with-eq x =
      ap {B = M (Run (Bool × Option Heap))}
        (elim [ none ↦ pure (ok (false, some h)) | some compare ↦ insert_with compare h x ])
        v.compares

  extract_with-eq : heap_extract (some h) true ≡ extract_with c h
  unfolding heap_extract
  extract_with-eq =
      ap {B = Run Taken}
        (elim [ none ↦ ok (false, some h, none) | some compare ↦ extract_with compare h ])
        v.compares

  -- the outcomes of the reallocation
  room_cases :
      (m : Memory)
      → ((k : ℕ) × ((make_room h m).0 ≡ some (record h { capacity = k; allocated = true }))
          × (length h.tree < k)
          × Grown h k
          × (InBytes h.capacity → InBytes k))
        ⊎ (((make_room h m).0 ≡ none) × (AlwaysGrants m → 2 ^ 60 ≤ h.capacity))
  unfolding make_room regrow
  room_cases m = elim (Bool-cases (length h.tree == h.capacity)) [
    | inr e ↦
        inl
          (h.capacity, ground (arith, v.allocated), ground (arith, v.within), (λ b p q. p), λ f. f)
    | inl e ↦ elim (Bool-cases (ltb h.capacity (2 ^ 60))) [
      | inl small ↦ elim (Bool-cases (m.grant m.calls)) [
        | inl got ↦ inl (
          if h.capacity == 0 then 1 else h.capacity * 2,
          ground arith,
          ground arith,
          (λ b p q. ground arith),
          λ f. ground arith,
        )
        | inr not_got ↦ inr (ground arith, λ all. ground (arith, all m.calls))
      ]
      | inr big ↦ inr (ground arith, λ all. ground arith)
    ]
  ]

  room_live : (m : Memory) → (make_room h m).1.live ≡ m.live
  unfolding make_room regrow
  room_live m = ground (arith, v.allocated)

  room_grant : (m : Memory) → (make_room h m).1.grant ≡ m.grant
  unfolding make_room regrow
  room_grant m = ground arith

  -- what follows the reallocation
  after_room : Bytes → Option Heap → M (Run (Bool × Option Heap))
  after_room x none = pure (ok (false, some h))
  after_room x (some h') =
      pure (map_run (λ t. (true, some (record h' { tree = t }))) (place c h'.tree x))

  insert_with-after_room :
      (x : Bytes) (m : Memory) (o : Option Heap)
      → (make_room h m).0 ≡ o
      → insert_with c h x m ≡ after_room x o (make_room h m).1
  unfolding insert_with after_room
  insert_with-after_room x m o e = ap (λ room. after_room x room (make_room h m).1) e

  -- `heap_insert` of an object into a valid heap ends within its bounds and keeps the number of blocks:
  -- it adds exactly this object, keeps the heap valid and the size of its array in bytes a `size_t`, or
  -- it reports failure and changes nothing, which happens only where a request was refused or the
  -- capacity is 2^60 or more.
  pub heap_insert-Inserted :
      (x : Bytes) (m : Memory) → Inserted c d h x m (heap_insert (some h) (some x) m)
  unfolding after_room
  heap_insert-Inserted x m = rw (insert_with-eq x) (elim (room_cases m) [
    | inl (k, e, room, grown, fits) ↦
        rw (insert_with-after_room x m _ e)
          (add x m (make_room h m).1 k room (room_live m) grown (room_grant m) fits)
    | inr (e, no_room) ↦ rw (insert_with-after_room x m none e) (refused refl (room_live m) no_room)
  ])

  -- `heap_extract` on a valid heap with an object in it ends within its bounds and hands out an
  -- object that none in the heap compares greater than; the rest stays in a valid heap.
  pub heap_extract-largest :
      0 < length h.tree
      → Returns
          (λ (done, rest, out).
            (top : Bytes) × (h' : Heap) × (done ≡ true)
            × (rest ≡ some h')
            × (out ≡ some top)
            × IsValid c d h'
            × Perm (top ∷ h'.tree) h.tree
            × ((i : ℕ) → i < length h.tree → is_pos (c (get_or h.tree i d) top) ≡ false))
          (heap_extract (some h) true)
  unfolding extract_with
  heap_extract-largest pos =
      let filled : (length h.tree == 0) ≡ false = ground arith in
      rw (extract_with-eq, filled)
        (bind (take_top-TopOf c v.order d h.tree v.heap pos) λ (top, t) s. value (
          top,
          record h { tree = t },
          refl,
          refl,
          refl,
          record {
            compares = v.compares;
            order = v.order;
            heap = s.heap;
            within = omega (arith, v.within, length-perm s.same);
            allocated = v.allocated;
          },
          s.same,
          s.largest,
        ))

  -- `heap_peek` on a valid heap with an object in it reads within its bounds an object that none in
  -- the heap compares greater than.
  pub heap_peek-largest :
      0 < length h.tree
      → Returns
          (λ (done, out).
            (top : Bytes) × (done ≡ true)
            × (out ≡ some top)
            × ((i : ℕ) → i < length h.tree → is_pos (c (get_or h.tree i d) top) ≡ false))
          (heap_peek (some h) true)
  unfolding heap_peek
  heap_peek-largest pos =
      let filled : ((length h.tree == 0) || not h.allocated) ≡ false =
        ground (arith, v.allocated) in
      rw (filled, load-ok d h.tree 0 pos)
        (value (
          get_or h.tree 0 d,
          refl,
          refl,
          λ i lt.
              heap-root (larger_first c) d (larger_first-IsBetter v.order) (length h.tree) 0 h.tree
                i v.heap lt,
        ))
