-- ===== src/Heap.antt =====
-- src/heap/heap.c: a binary heap of pointers, the largest at the root, and two sorts of arrays.
-- `tree` lists the first `size` slots of the array, so that its length is the C field `size`: a
-- slot past them is written before it is read. A loop runs on fuel, and the theorems show that
-- what it is given is enough. Pointers have 8 bytes.
pub mod Sift
pub mod Order
pub mod Sort
pub mod Swap
pub mod Queue
use c2x_examples.Base.{
  ℕ, zero, suc, ◌+◌, ◌-◌, ◌*◌, ◌/◌, ◌^◌, Bool, true, false, Option, none, some, List, [], ◌∷◌, ◌++◌,
  ℤ, is_neg, is_pos, ◌==◌, ltb, leb, not, ◌&&◌, ◌||◌, length, take, set, if◌then◌else◌,
}
use c2x_examples.Run.{Run, ok, out_of_fuel, ◌>>=◌}
use c2x_examples.Array.{load, exchange}

pub heap_parent : ℕ → ℕ
heap_parent npos = if npos == 0 then 0 else (npos - 1) / 2

pub heap_left : ℕ → ℕ
heap_left npos = npos * 2 + 1

pub heap_right : ℕ → ℕ
heap_right npos = npos * 2 + 2

module _ {A : Type 0} (compare : A → A → ℤ) where
  -- The loop of `heap_insert`, from `ipos`.
  pub up_loop : ℕ → List A → ℕ → Run (List A)
  up_loop zero tree ipos = out_of_fuel
  up_loop (suc k) tree ipos =
      let parent = heap_parent ipos in
      let rise = exchange tree parent ipos >>= λ t. up_loop k t parent in
      let step : Run (List A) = do
        p ← load tree parent
        x ← load tree ipos
        if not (is_neg (compare p x)) then ok tree else rise
      in if ltb 0 ipos then step else ok tree

  -- `if (j < heap->size && heap->compare(heap->tree[j], heap->tree[m]) > 0) m = j;`
  pub larger : ℕ → List A → (j m : ℕ) → Run ℕ
  larger size tree j m =
      let test : Run ℕ = do
        x ← load tree j
        y ← load tree m
        ok (if is_pos (compare x y) then j else m)
      in if ltb j size then test else ok m

  -- The loop of `heap_extract`, from `i`.
  pub down_loop : ℕ → ℕ → List A → ℕ → Run (List A)
  unfolding heap_left heap_right
  down_loop size zero tree i = out_of_fuel
  down_loop size (suc k) tree i = do
    l ← larger size tree (heap_left i) i
    m ← larger size tree (heap_right i) l
    let sink = exchange tree m i >>= λ t. down_loop size k t m
    if m == i then ok tree else sink

  -- `if (j <= end && compare(base[i], base[j]) > 0) i = j;`
  pub smaller : ℕ → List A → (j i : ℕ) → Run ℕ
  smaller end base j i =
      let test : Run ℕ = do
        x ← load base i
        y ← load base j
        ok (if is_pos (compare x y) then j else i)
      in if leb j end then test else ok i

  -- The loop of `shift_down`. Its condition is that of the first comparison.
  pub shift_down : ℕ → ℕ → List A → ℕ → Run (List A)
  shift_down end zero base root = out_of_fuel
  shift_down end (suc k) base root =
      let child = root * 2 + 1 in
      let step : Run (List A) = do
        i ← smaller end base child root
        i' ← smaller end base (child + 1) i
        let sink = exchange base root i' >>= λ b. shift_down end k b i'
        if i' == root then ok base else sink
      in if leb child end then step else ok base

  -- The first loop of `heap_sort_t`, from `start` down to 0.
  pub heapify_loop : ℕ → ℕ → List A → Run (List A)
  heapify_loop end zero base = shift_down end (suc end) base 0
  heapify_loop end (suc start) base =
      shift_down end (suc end) base (suc start) >>= heapify_loop end start

  -- The second loop of `heap_sort_t`.
  pub drain_loop : ℕ → List A → Run (List A)
  drain_loop zero base = ok base
  drain_loop (suc end) base = do
    b ← exchange base 0 (suc end)
    c ← shift_down end (suc end) b 0
    drain_loop end c

-- `esize` is not 0 where the array has elements; `ptr` is none for the null pointer.
pub heap_sort_t :
    {A : Type 0} → Option (List A) → (esize : ℕ) → Option (A → A → ℤ) → Run (Bool × Option (List A))
heap_sort_t none esize compare = ok (false, none)
heap_sort_t (some a) esize none = ok (false, some a)
heap_sort_t (some a) esize (some compare) =
    let count = length a in
    let sorted : Run (Bool × Option (List _)) = do
      b ← heapify_loop compare (count - 1) ((count - 2) / 2) a
      c ← drain_loop compare (count - 1) b
      ok (true, some c)
    in if esize == 0 then ok (false, some a) else if leb count 1 then ok (true, some a) else sorted

module _ {A : Type 0} (compare : A → A → ℤ) where
  -- What `heap_insert` does to the slots once there is room.
  pub place : List A → A → Run (List A)
  place tree x = up_loop compare (length tree + 1) (tree ++ x ∷ []) (length tree)

  -- What `heap_extract` does to the slots of a heap that is not empty: the object taken out, and
  -- the slots that are left.
  pub take_top : List A → Run (A × List A)
  take_top tree =
      let last = length tree - 1 in
      let rest : A → A → Run (A × List A) = λ top s.
        down_loop compare last (last + 1) (take last (set tree 0 s)) 0 >>= λ t. ok (top, t) in
      do top ← load tree 0; s ← load tree last; if last == 0 then ok (top, []) else rest top s
