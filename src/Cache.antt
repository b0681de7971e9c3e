-- ===== src/Cache.antt =====
-- `MemoryCache` of cache/pkg/memory.go. Each call gets the clock's reading; where Go's iteration order
-- picks the entry that `Set` evicts, the call gets its position.
pub mod Laws
pub mod Answers
use flowgent.Prelude.{
  ℕ, zero, suc, ◌+◌, String, Bool, false, Option, none, some, List, [], ◌∷◌, leb, ltb, length,
  if◌then◌else◌,
}
use flowgent.Prelude.Int.{ℤ, pos, negsuc}
use flowgent.Prelude.Dict.{Dict, get as lookup, put, remove}

-- entry; the value is its bytes.
pub record Entry : Type 0 where
  pub value : String
  pub expires : ℕ

pub record MemoryCache : Type 0 where
  pub store : Dict Entry
  pub max_cap : ℕ

-- NewMemoryCache: a capacity that is not positive becomes 65535.
unfoldable pub new_cache : ℤ → MemoryCache
new_cache (negsuc n) = record { store = []; max_cap = 65535 }
new_cache (pos zero) = record { store = []; max_cap = 65535 }
new_cache (pos (suc n)) = record { store = []; max_cap = suc n }

-- Get: an entry behind its time is deleted.
unfoldable pub get : MemoryCache → String → ℕ → MemoryCache × Option String
get c key now = elim (lookup c.store key) [
  | none ↦ (c, none)
  | some e ↦
      if ltb e.expires now
      then (record c { store = remove c.store key }, none)
      else (c, some e.value)
]

-- The store without the entry at a position, or without the last one.
unfoldable pub drop_at : ℕ → Dict Entry → Dict Entry
drop_at n [] = []
drop_at zero (x ∷ d) = d
drop_at (suc n) (x ∷ []) = []
drop_at (suc n) (x ∷ y ∷ d) = x ∷ drop_at n (y ∷ d)

-- Set: at the capacity one entry goes, also where the key is there.
unfoldable pub set : MemoryCache → ℕ → String → String → ℕ → ℕ → MemoryCache
unfolding drop_at
set c pick key value ttl now =
    let kept = if leb c.max_cap (length c.store) then drop_at pick c.store else c.store in
    record c { store = put kept key (record { value = value; expires = now + ttl }) }

-- Delete
unfoldable pub delete : MemoryCache → String → MemoryCache
delete c key = record c { store = remove c.store key }

-- Exists
unfoldable pub exists : MemoryCache → String → ℕ → Bool
exists c key now = elim (lookup c.store key) [ none ↦ false | some e ↦ ltb now e.expires ]

-- Clear
unfoldable pub clear : MemoryCache → MemoryCache
clear c = record c { store = [] }

-- One tick of evictLoop.
unfoldable pub drop_expired : ℕ → Dict Entry → Dict Entry
drop_expired now [] = []
drop_expired now ((k, e) ∷ d) =
    let rest = drop_expired now d in if ltb e.expires now then rest else (k, e) ∷ rest

unfoldable pub evict : MemoryCache → ℕ → MemoryCache
unfolding drop_expired
evict c now = record c { store = drop_expired now c.store }
