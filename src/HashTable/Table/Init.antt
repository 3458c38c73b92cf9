-- ===== src/HashTable/Table/Init.antt =====
-- `hash_init` of src/hashtable/hashtable.c: an empty map within the invariant.
use c2x_examples.Base.{
  ℕ, zero, suc, ◌<◌, ◌≡◌, refl, true, false, none, some, [], Bytes, ◌∙◌, ap, arith, length, ◌==◌,
  ◌*◌, size_mod,
}
use c2x_examples.Array.{get_or}
use c2x_examples.Memory.{Memory, calloc}
use c2x_examples.HashTable.{HashTable, hash, find_node, hash_lookup, pointer_size}
use c2x_examples.HashTable.Laws.{WellFormed, lookup-find}
use c2x_examples.HashTable.Table.{empty_buckets, empty_links, hash_init}
use c2x_examples.HashTable.Unlink.{Linked}

length-empty_buckets : (n : ℕ) → length (empty_buckets n) ≡ n
unfolding empty_buckets
length-empty_buckets zero = refl
length-empty_buckets (suc n) = ap suc (length-empty_buckets n)

get_or-empty_buckets : (n i : ℕ) → get_or (empty_buckets n) i [] ≡ []
unfolding empty_buckets get_or
get_or-empty_buckets zero i = refl
get_or-empty_buckets (suc n) zero = refl
get_or-empty_buckets (suc n) (suc i) = get_or-empty_buckets n i

length-empty_links : (n : ℕ) → length (empty_links n) ≡ n
unfolding empty_links
length-empty_links zero = refl
length-empty_links (suc n) = ap suc (length-empty_links n)

get_or-empty_links : (n i : ℕ) → get_or (empty_links n) i [] ≡ []
unfolding empty_links get_or
get_or-empty_links zero i = refl
get_or-empty_links (suc n) zero = refl
get_or-empty_links (suc n) (suc i) = get_or-empty_links n i

abbrev pub empty : ℕ → HashTable
empty size = record {
  buckets = empty_buckets size;
  links = empty_links size;
  allocated = true;
  bucket_size = size;
}

pub empty-WellFormed :
    (size : ℕ) → 0 < size → size * pointer_size < size_mod → WellFormed (empty size)
unfolding Linked
empty-WellFormed size h fits = record {
  allocated = refl;
  sized = h;
  full = length-empty_buckets size;
  full_links = length-empty_links size;
  fits = fits;
  distinct = λ i p. rw (get_or-empty_buckets size i) tt;
  placed = λ i p. rw (get_or-empty_buckets size i) tt;
  linked = λ i p. rw (get_or-empty_buckets size i, get_or-empty_links size i) tt;
}

pub lookup-empty :
    (size : ℕ)
    → 0 < size
    → size * pointer_size < size_mod
    → (k : Bytes) → hash_lookup (some (empty size)) (some k) ≡ none
unfolding find_node
lookup-empty size h fits k =
    lookup-find (empty size) (empty-WellFormed size h fits) k
    ∙ ap (λ l. find_node l k) (get_or-empty_buckets size (hash (some k) size))

-- `hash_init` with at least one bucket, where the array of buckets is granted, gives a table within
-- the invariant that has this many buckets and in which no key is found.
pub hash_init-WellFormed :
    (size : ℕ)
    → 0 < size
    → (m : Memory) → (calloc size pointer_size m).0 ≡ true
    → (t : HashTable) × ((hash_init true size m).0 ≡ (true, some t))
      × WellFormed t
      × (t.bucket_size ≡ size)
      × ((k : Bytes) → hash_lookup (some t) (some k) ≡ none)
unfolding hash_init
hash_init-WellFormed size h m granted =
    let sized : (size == 0) ≡ false = ground arith in
    let fits : size * pointer_size < size_mod = ground (arith, granted) in
    let w = empty-WellFormed size h fits in
    rw (sized, granted) (empty size, refl, w, refl, lookup-empty size h fits)
