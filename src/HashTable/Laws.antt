-- ===== src/HashTable/Laws.antt =====
-- The hash table of src/hashtable/hashtable.c as a map from keys to nodes: the invariant of the
-- table, and what the exchange of one bucket changes.
use c2x_examples.Base.{
  ℕ, ◌<◌, ◌≡◌, true, false, Option, none, some, List, [], Bytes, ◌∙◌, sym, ap, if◌then◌else◌, arith,
  Bool-cases, inl, inr, length, set, ◌==◌, length-set, ◌*◌, size_mod, refl,
}
use c2x_examples.Strings.{str_eq, eq_of_str_eq}
use c2x_examples.Array.{get_or, get_or-set}
use c2x_examples.HashTable.{
  Node, Link, HashTable, hash, find_node, usable, bucket, set_bucket, links_at, set_links,
  set_chain, hash_lookup, pointer_size,
}
use c2x_examples.HashTable.Find.{All, Distinct}
use c2x_examples.HashTable.Unlink.{Linked}

-- `hash` of any key is the index of a bucket, where there are buckets.
pub hash_bound :
    (key : Option Bytes) (bucket_size : ℕ) → 0 < bucket_size → hash key bucket_size < bucket_size
unfolding hash
hash_bound none size h = h
hash_bound (some key) size h =
    let sized : (size == 0) ≡ false = ground arith in rw sized (ground arith)

-- Every bucket is there and is no larger an array than a `size_t` can say, no key stands twice in one,
-- each stands where its hash says, and the `prev` pointers of a bucket lead back along it.
pub record WellFormed (t : HashTable) : Type 0 where
  pub allocated : t.allocated ≡ true
  pub sized : 0 < t.bucket_size
  pub full : length t.buckets ≡ t.bucket_size
  pub full_links : length t.links ≡ t.bucket_size
  pub fits : t.bucket_size * pointer_size < size_mod
  pub distinct : (i : ℕ) → i < t.bucket_size → Distinct (get_or t.buckets i [])
  pub placed :
      (i : ℕ)
      → i < t.bucket_size
      → All (λ n. hash (some n.text) t.bucket_size ≡ i) (get_or t.buckets i [])
  pub linked :
      (i : ℕ) → i < t.bucket_size → Linked none (get_or t.buckets i []) (get_or t.links i [])

pub usable-true : (t : HashTable) → WellFormed t → usable t ≡ true
usable-true t w =
    let e = w.allocated in
    let s = w.sized in let n : (t.bucket_size == 0) ≡ false = ground arith in rw (e, n)

-- what holds of the new bucket at its index and of the old ones at theirs
at_buckets :
    (P : ℕ → List Node → Type 0) (a : List (List Node)) (i j : ℕ) (c : List Node)
    → i < length a
    → P i c
    → P j (get_or a j [])
    → P j (get_or (set a i c) j [])
at_buckets P a i j c h new old = rw (get_or-set [] a i j c h) (elim (Bool-cases (i == j)) [
  | inl e ↦ let same : i ≡ j = ground arith in rw e (rw same at new)
  | inr e ↦ rw e old
])

module _ (t : HashTable) (w : WellFormed t) where
  pub lookup-find : (k : Bytes) → hash_lookup (some t) (some k) ≡ find_node (bucket t k) k
  unfolding hash_lookup
  lookup-find k = rw (usable-true t w)

  module _ (text : Bytes) (c : List Node) (links : List (List Link)) where
    -- the table with the nodes of one bucket and all links exchanged
    abbrev exchanged : HashTable
    exchanged = record (set_bucket t text c) { links = links }

    bucket-set :
        (k : Bytes)
        → bucket exchanged k ≡ (
            if hash (some text) t.bucket_size == hash (some k) t.bucket_size then c else bucket t k)
    bucket-set k =
        get_or-set [] t.buckets (hash (some text) t.bucket_size) (hash (some k) t.bucket_size) c
          (rw w.full (hash_bound (some text) t.bucket_size w.sized))

    exchanged-WellFormed :
        Distinct c
        → All (λ n. hash (some n.text) t.bucket_size ≡ hash (some text) t.bucket_size) c
        → length links ≡ t.bucket_size
        → Linked none c (get_or links (hash (some text) t.bucket_size) [])
        → ((j : ℕ)
            → (hash (some text) t.bucket_size == j) ≡ false
            → get_or links j [] ≡ get_or t.links j [])
        → WellFormed exchanged
    exchanged-WellFormed distinct placed full_links here others =
        let size = t.bucket_size in
        let i = hash (some text) size in
        let inside : i < length t.buckets = rw w.full (hash_bound (some text) size w.sized) in
        record {
          allocated = w.allocated;
          sized = w.sized;
          full = length-set t.buckets i c ∙ w.full;
          full_links = full_links;
          fits = w.fits;
          distinct =
              λ j h. at_buckets (λ _. Distinct) t.buckets i j c inside distinct (w.distinct j h);
          placed = λ j h.
              at_buckets (λ j. All (λ n. hash (some n.text) size ≡ j)) t.buckets i j c inside placed
                (w.placed j h);
          linked = λ j h. rw (get_or-set [] t.buckets i j c inside) (elim (Bool-cases (i == j)) [
            | inl e ↦ let same : i ≡ j = ground arith in rw e (rw same at here)
            | inr e ↦ rw (e, others j e) (w.linked j h)
          ]);
        }

    -- the table with a bucket that only differs at one key only differs there
    pub lookup-set :
        ((k : Bytes) → str_eq text k ≡ false → find_node c k ≡ find_node (bucket t text) k)
        → (k : Bytes)
        → hash_lookup (some exchanged) (some k)
          ≡ (if str_eq text k then find_node c text else hash_lookup (some t) (some k))
    unfolding hash_lookup
    lookup-set others k =
        let i = hash (some text) t.bucket_size in
        let j = hash (some k) t.bucket_size in
        rw (usable-true t w, bucket-set k)
          (elim (Bool-cases (str_eq text k)) [
            | inl e ↦
                let same = eq_of_str_eq text k e in
                let here : (i == j) ≡ true = rw same (ground arith) in
                rw (e, here) (ap (find_node c) (sym same))
            | inr e ↦ elim (Bool-cases (i == j)) [
              | inl e' ↦
                  let same : i ≡ j = ground arith in
                  rw (e, e') (others k e ∙ ap (λ b. find_node (get_or t.buckets b []) k) same)
              | inr e' ↦ rw (e, e')
            ]
          ])

  module _ (text : Bytes) where
    -- a bucket with a new chain that is linked
    pub set_chain-WellFormed :
        (c : List Node) (links : List Link)
        → Distinct c
        → All (λ n. hash (some n.text) t.bucket_size ≡ hash (some text) t.bucket_size) c
        → Linked none c links
        → WellFormed (set_chain t text (c, links))
    set_chain-WellFormed c links distinct placed v =
        let size = t.bucket_size in
        let i = hash (some text) size in
        let inside : i < length t.links = rw w.full_links (hash_bound (some text) size w.sized) in
        let at = λ (j : ℕ). get_or-set [] t.links i j links inside in
        let self : (i == i) ≡ true = ground arith in
        exchanged-WellFormed text c (set_links t text links) distinct placed
          (length-set t.links i links ∙ w.full_links) (rw (at i, self) v)
          (λ j ne. at j ∙ rw ne refl)

    -- a bucket with new nodes at the same links
    pub set_bucket-WellFormed :
        (c : List Node)
        → Distinct c
        → All (λ n. hash (some n.text) t.bucket_size ≡ hash (some text) t.bucket_size) c
        → Linked none c (links_at t text)
        → WellFormed (set_bucket t text c)
    set_bucket-WellFormed c distinct placed v =
        exchanged-WellFormed text c t.links distinct placed w.full_links v (λ j ne. refl)
