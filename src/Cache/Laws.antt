-- ===== src/Cache/Laws.antt =====
-- The capacity of a `MemoryCache` (memory.go), and what it may answer.
use flowgent.Prelude.{
  ℕ, zero, suc, ◌+◌, ◌≤◌, String, List, [], ◌∷◌, ◌≡◌, refl, ◌∙◌, arith, length, ltb, Bool-cases,
  Option-cases, inl, inr,
}
use flowgent.Prelude.Int.{ℤ, pos, negsuc}
use flowgent.Prelude.Dict.{Dict, get as lookup, put, remove}
use flowgent.Cache.{
  Entry, MemoryCache, new_cache, get, drop_at, set, delete, clear, drop_expired, evict,
}

-- The calls on a cache, each with what it gets from outside.
pub data Call : Type 0 where
  reads : String → ℕ → Call
  writes : ℕ → String → String → ℕ → ℕ → Call
  deletes : String → Call
  clears : Call
  evicts : ℕ → Call

unfoldable pub call : MemoryCache → Call → MemoryCache
unfolding get set delete clear evict
call c (reads key now) = (get c key now).0
call c (writes pick key value ttl now) = set c pick key value ttl now
call c (deletes key) = delete c key
call c clears = clear c
call c (evicts now) = evict c now

unfoldable pub calls : MemoryCache → List Call → MemoryCache
unfolding call
calls c [] = c
calls c (x ∷ xs) = calls (call c x) xs

length-put : {V : Type 0} (d : Dict V) (k : String) (v : V) → length (put d k v) ≤ suc (length d)
unfolding put
length-put [] k v = omega arith
length-put ((j, w) ∷ d) k v = ground (arith, length-put d k v)

length-remove : {V : Type 0} (d : Dict V) (k : String) → length (remove d k) ≤ length d
unfolding remove
length-remove [] k = omega arith
length-remove ((j, w) ∷ d) k = ground (arith, length-remove d k)

length-drop_at : (n : ℕ) (d : Dict Entry) → 1 ≤ length d → suc (length (drop_at n d)) ≡ length d
unfolding drop_at
length-drop_at n [] h = absurd (omega arith)
length-drop_at zero (x ∷ d) h = omega arith
length-drop_at (suc n) (x ∷ []) h = omega arith
length-drop_at (suc n) (x ∷ y ∷ d) h = omega (arith, length-drop_at n (y ∷ d) (omega arith))

length-drop_expired : (now : ℕ) (d : Dict Entry) → length (drop_expired now d) ≤ length d
unfolding drop_expired
length-drop_expired now [] = omega arith
length-drop_expired now ((k, e) ∷ d) = ground (arith, length-drop_expired now d)

-- The store is within the capacity, which is positive.
pub record IsBounded (c : MemoryCache) : Type 0 where
  pub positive : 1 ≤ c.max_cap
  pub within : length c.store ≤ c.max_cap

get-IsBounded :
    (c : MemoryCache) (key : String) (now : ℕ) → IsBounded c → IsBounded (get c key now).0
unfolding get
get-IsBounded c key now b = elim (Option-cases (lookup c.store key)) [
  | inl e ↦ rw (e, get) b
  | inr (x, e) ↦ elim (Bool-cases (ltb x.expires now)) [
    | inr f ↦ rw (e, f, get) b
    | inl f ↦
        rw (e, f, get)
          (record {
            positive = b.positive;
            within = omega (arith, b.within, length-remove c.store key);
          })
  ]
]

set-IsBounded :
    (c : MemoryCache) (pick : ℕ) (key value : String) (ttl now : ℕ)
    → IsBounded c
    → IsBounded (set c pick key value ttl now)
unfolding set
set-IsBounded c pick key value ttl now b =
    let e : Entry = record { value = value; expires = now + ttl } in
    record {
      positive = b.positive;
      within = ground (
        arith,
        b.within,
        b.positive,
        length-drop_at pick c.store,
        length-put (drop_at pick c.store) key e,
        length-put c.store key e,
      );
    }

call-IsBounded : (c : MemoryCache) (x : Call) → IsBounded c → IsBounded (call c x)
unfolding call
call-IsBounded c (reads key now) b = get-IsBounded c key now b
call-IsBounded c (writes pick key value ttl now) b = set-IsBounded c pick key value ttl now b
call-IsBounded c (deletes key) b = record {
  positive = b.positive;
  within = omega (arith, b.within, length-remove c.store key);
}
call-IsBounded c clears b = record { positive = b.positive; within = omega (arith, b.positive) }
call-IsBounded c (evicts now) b = record {
  positive = b.positive;
  within = omega (arith, b.within, length-drop_expired now c.store);
}

calls-IsBounded : (c : MemoryCache) (xs : List Call) → IsBounded c → IsBounded (calls c xs)
unfolding calls
calls-IsBounded c [] b = b
calls-IsBounded c (x ∷ xs) b = calls-IsBounded (call c x) xs (call-IsBounded c x b)

new-IsBounded : (cap : ℤ) → IsBounded (new_cache cap)
unfolding new_cache
new-IsBounded (negsuc n) = record { positive = omega arith; within = omega arith }
new-IsBounded (pos zero) = record { positive = omega arith; within = omega arith }
new-IsBounded (pos (suc n)) = record { positive = omega arith; within = omega arith }

call-max_cap : (c : MemoryCache) (x : Call) → (call c x).max_cap ≡ c.max_cap
unfolding call get set delete clear evict
call-max_cap c (reads key now) = ground arith
call-max_cap c (writes pick key value ttl now) = refl
call-max_cap c (deletes key) = refl
call-max_cap c clears = refl
call-max_cap c (evicts now) = refl

calls-max_cap : (c : MemoryCache) (xs : List Call) → (calls c xs).max_cap ≡ c.max_cap
unfolding calls
calls-max_cap c [] = refl
calls-max_cap c (x ∷ xs) = calls-max_cap (call c x) xs ∙ call-max_cap c x

-- After any calls on a new cache the number of its entries is at most the configured capacity, or
-- 65535 if that is not positive, whichever entries are evicted.
pub length-calls :
    (cap : ℤ) (xs : List Call) → length (calls (new_cache cap) xs).store ≤ (new_cache cap).max_cap
length-calls cap xs = omega (
  arith,
  (calls-IsBounded (new_cache cap) xs (new-IsBounded cap)).within,
  calls-max_cap (new_cache cap) xs,
)
