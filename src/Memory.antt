-- ===== src/Memory.antt =====
-- The C allocator, as the sources use it: `malloc` may fail at any request, `free` gives a block
-- back, and a destroy or cleanup callback is handed an object. A command passes the memory on.
use c2x_examples.Base.{
  ltb, take, length, ◌*◌, ◌&&◌, size_mod, ℕ, ◌+◌, ◌-◌, ◌≡◌, Bool, true, List, ◌∷◌, Bytes,
  if◌then◌else◌,
}

-- `grant n` says whether the n-th request is granted; `live` counts the blocks not yet freed;
-- `destroyed` lists the objects handed to a destroy callback, the latest first, and `cleaned` those
-- handed to the callback of a node of a hash table, with the number of that callback; `over_reads`
-- counts the copies of more bytes than the object has.
pub record Memory : Type 0 where
  pub grant : ℕ → Bool
  pub calls : ℕ
  pub live : ℕ
  pub destroyed : List Bytes
  pub cleaned : List (ℕ × Bytes)
  pub over_reads : ℕ

abbrev pub M {ℓ} : Type ℓ → Type ℓ
M A = Memory → A × Memory

abbrev pub pure {ℓ} : {A : Type ℓ} → A → M A
pure a m = (a, m)

infixl 5 ◌>>=◌ ◌>>◌
abbrev pub ◌>>=◌ {ℓ κ} : {A : Type ℓ} {B : Type κ} → M A → (A → M B) → M B
◌>>=◌ c f m = f (c m).0 (c m).1

abbrev pub ◌>>◌ {ℓ} : {B : Type ℓ} → M (Unit {0}) → M B → M B
c >> k = c >>= λ _. k

-- `malloc(...)`: whether the result is not null.
abbrev pub malloc : M Bool
malloc m = (
  m.grant m.calls,
  record m { calls = m.calls + 1; live = if m.grant m.calls then m.live + 1 else m.live },
)

-- `calloc(count, bytes)`: refused also where the product is no `size_t`.
abbrev pub calloc : ℕ → ℕ → M Bool
calloc count bytes m =
    let got = m.grant m.calls && ltb (count * bytes) size_mod in
    (got, record m { calls = m.calls + 1; live = if got then m.live + 1 else m.live })

-- `realloc(p, ...)`: whether the result is not null; `had` says whether p is not null.
abbrev pub realloc : Bool → M Bool
realloc had m = (
  m.grant m.calls,
  record m {
    calls = m.calls + 1;
    live = if m.grant m.calls then (if had then m.live else m.live + 1) else m.live;
  },
)

-- `free(p)` of a live block.
abbrev pub free : M (Unit {0})
free m = (tt, record m { live = m.live - 1 })

-- `destroy(p)`: the callback takes the object over.
abbrev pub call_destroy : Bytes → M (Unit {0})
call_destroy d m = (tt, record m { live = m.live - 1; destroyed = d ∷ m.destroyed })

-- `cleanup(p)`, where the number `f` stands for the callback.
abbrev pub call_cleanup : ℕ → Bytes → M (Unit {0})
call_cleanup f object m = (tt, record m { live = m.live - 1; cleaned = (f, object) ∷ m.cleaned })

-- `memcpy` of `bytes` bytes from an object.
abbrev pub memcpy : Bytes → ℕ → M Bytes
memcpy object bytes m = (
  take bytes object,
  record m { over_reads = if ltb (length object) bytes then m.over_reads + 1 else m.over_reads },
)

-- No request fails.
abbrev pub AlwaysGrants : Memory → Type 0
AlwaysGrants m = (n : ℕ) → m.grant n ≡ true
