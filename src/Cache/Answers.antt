-- ===== src/Cache/Answers.antt =====
-- What a `MemoryCache` (memory.go) may answer to a `Get`.
use mathlib.Core.Bool.{true≢false}
use flowgent.Prelude.{
  ℕ, zero, suc, ◌+◌, ◌≤◌, String, true, Option, none, some, List, [], ◌∷◌, ◌≡◌, refl, sym, ◌∙◌,
  ◌==◌, arith, eq_iff, eq_refl, length, leb, ltb, Bool-cases, Option-cases, inl, inr, if◌then◌else◌,
  subst,
}
use flowgent.Prelude.Int.{ℤ, pos, negsuc}
use flowgent.Prelude.Dict.{Dict, get as lookup, put, remove, get-put, get-remove}
use flowgent.Cache.{
  Entry, MemoryCache, new_cache, get, drop_at, set, delete, clear, drop_expired, evict,
}
use flowgent.Cache.Laws.{Call, reads, writes, deletes, clears, evicts, call, calls}

-- What the last call that writes or removes a key leaves of it, if no entry were ever evicted.
unfoldable pub last_write : String → Call → Option Entry → Option Entry
last_write key (reads k now) e = e
last_write key (writes pick k value ttl now) e =
    if k == key then some (record { value = value; expires = now + ttl }) else e
last_write key (deletes k) e = if k == key then none else e
last_write key clears e = none
last_write key (evicts now) e = e

unfoldable pub last_writes : String → List Call → Option Entry → Option Entry
last_writes key [] e = e
last_writes key (x ∷ xs) e = last_writes key xs (last_write key x e)

-- Each entry of a store under `key` is the only one, and is `e`.
abbrev pub IsLast : String → Option Entry → Dict Entry → Type 0
IsLast key e [] = Unit
IsLast key e ((k, x) ∷ d) =
    ((k == key) ≡ true → (e ≡ some x) × (lookup d key ≡ none)) × IsLast key e d

lookup-IsLast :
    (key : String) (e : Option Entry) (d : Dict Entry) (x : Entry)
    → IsLast key e d
    → lookup d key ≡ some x
    → e ≡ some x
unfolding lookup
lookup-IsLast key e [] x s h = cc
lookup-IsLast key e ((k, y) ∷ d) x s h = elim (Bool-cases (k == key)) [
  | inl q ↦ ground (arith, (s.0 q).0)
  | inr q ↦ lookup-IsLast key e d x s.1 (ground arith)
]

none-drop_at :
    (n : ℕ) (d : Dict Entry) (key : String) → lookup d key ≡ none → lookup (drop_at n d) key ≡ none
unfolding drop_at lookup
none-drop_at n [] key h = h
none-drop_at zero ((k, x) ∷ d) key h = ground arith
none-drop_at (suc n) ((k, x) ∷ []) key h = refl
none-drop_at (suc n) ((k, x) ∷ y ∷ d) key h = ground (arith, none-drop_at n (y ∷ d) key)

none-drop_expired :
    (now : ℕ) (d : Dict Entry) (key : String)
    → lookup d key ≡ none
    → lookup (drop_expired now d) key ≡ none
unfolding drop_expired lookup
none-drop_expired now [] key h = h
none-drop_expired now ((k, x) ∷ d) key h = ground (arith, none-drop_expired now d key)

none-IsLast :
    (key : String) (e : Option Entry) (d : Dict Entry) → lookup d key ≡ none → IsLast key e d
unfolding lookup
none-IsLast key e [] h = record {}
none-IsLast key e ((k, x) ∷ d) h =
    ((λ q. absurd (ground arith)), none-IsLast key e d (ground arith))

module _ (key : String) (e : Option Entry) where
  drop_at-IsLast : (n : ℕ) (d : Dict Entry) → IsLast key e d → IsLast key e (drop_at n d)
  unfolding drop_at
  drop_at-IsLast n [] s = s
  drop_at-IsLast zero (x ∷ d) s = s.1
  drop_at-IsLast (suc n) (x ∷ []) s = record {}
  drop_at-IsLast (suc n) (x ∷ y ∷ d) s =
      ((λ q. ((s.0 q).0, none-drop_at n (y ∷ d) key (s.0 q).1)), drop_at-IsLast n (y ∷ d) s.1)

  drop_expired-IsLast :
      (now : ℕ) (d : Dict Entry) → IsLast key e d → IsLast key e (drop_expired now d)
  unfolding drop_expired
  drop_expired-IsLast now [] s = s
  drop_expired-IsLast now ((k, x) ∷ d) s = elim (Bool-cases (ltb x.expires now)) [
    | inl f ↦ rw (f, drop_expired) (drop_expired-IsLast now d s.1)
    | inr f ↦
        rw (f, drop_expired)
          ((λ q. ((s.0 q).0, none-drop_expired now d key (s.0 q).1)), drop_expired-IsLast now d s.1)
  ]

  remove-IsLast :
      (k : String) (d : Dict Entry)
      → IsLast key e d
      → IsLast key (if k == key then none else e) (remove d k)
  unfolding remove
  remove-IsLast k [] s = record {}
  remove-IsLast k ((j, x) ∷ d) s = elim (Bool-cases (j == k)) [
    | inl f ↦ rw (f, remove) (remove-IsLast k d s.1)
    | inr f ↦
        rw (f, remove)
          (
            (λ q. (
              ground (arith, (s.0 q).0, eq_iff j k, eq_iff k key, eq_iff j key),
              ground (arith, (s.0 q).1, get-remove d k key),
            )),
            remove-IsLast k d s.1,
          )
  ]

  -- A deletion that is no write: an entry behind its time.
  expire-IsLast : (k : String) (d : Dict Entry) → IsLast key e d → IsLast key e (remove d k)
  unfolding remove
  expire-IsLast k [] s = record {}
  expire-IsLast k ((j, x) ∷ d) s = elim (Bool-cases (j == k)) [
    | inl f ↦ rw (f, remove) (expire-IsLast k d s.1)
    | inr f ↦
        rw (f, remove)
          ((λ q. ((s.0 q).0, ground (arith, (s.0 q).1, get-remove d k key))), expire-IsLast k d s.1)
  ]

  put-IsLast :
      (k : String) (v : Entry) (d : Dict Entry)
      → IsLast key e d
      → IsLast key (if k == key then some v else e) (put d k v)
  unfolding put lookup
  put-IsLast k v [] s = ((λ q. (rw q refl, refl)), record {})
  put-IsLast k v ((j, x) ∷ d) s = elim (Bool-cases (j == k)) [
    | inl f ↦
        rw (f, put)
          (elim (Bool-cases (k == key)) [
            | inl q ↦
                let absent = (s.0 (ground (arith, eq_iff j k))).1 in
                ((λ h. (rw q refl, absent)), none-IsLast key _ d absent)
            | inr q ↦
                let same : e ≡ (if k == key then some v else e) = rw q refl in
                ((λ h. absurd (true≢false (sym h ∙ q))), subst (λ o. IsLast key o d) same s.1)
          ])
    | inr f ↦
        rw (f, put)
          (
            (λ q. (
              ground (arith, (s.0 q).0, eq_iff j k, eq_iff k key, eq_iff j key),
              ground (arith, (s.0 q).1, get-put d k v key, eq_iff j k, eq_iff k key, eq_iff j key),
            )),
            put-IsLast k v d s.1,
          )
  ]

  call-IsLast :
      (c : MemoryCache) (x : Call)
      → IsLast key e c.store
      → IsLast key (last_write key x e) (call c x).store
  unfolding call last_write get set delete clear evict
  call-IsLast c (reads k now) s = elim (Option-cases (lookup c.store k)) [
    | inl f ↦ rw (f, call, get) s
    | inr (y, f) ↦ elim (Bool-cases (ltb y.expires now)) [
      | inl g ↦ rw (f, g, call, get) (expire-IsLast k c.store s)
      | inr g ↦ rw (f, g, call, get) s
    ]
  ]
  call-IsLast c (writes pick k value ttl now) s =
      elim (Bool-cases (leb c.max_cap (length c.store))) [
        | inl f ↦
            rw (f, call, set)
              (put-IsLast k _ (drop_at pick c.store) (drop_at-IsLast pick c.store s))
        | inr f ↦ rw (f, call, set) (put-IsLast k _ c.store s)
      ]
  call-IsLast c (deletes k) s = remove-IsLast k c.store s
  call-IsLast c clears s = record {}
  call-IsLast c (evicts now) s = drop_expired-IsLast now c.store s

calls-IsLast :
    (key : String) (e : Option Entry) (c : MemoryCache) (xs : List Call)
    → IsLast key e c.store
    → IsLast key (last_writes key xs e) (calls c xs).store
unfolding calls last_writes
calls-IsLast key e c [] s = s
calls-IsLast key e c (x ∷ xs) s =
    calls-IsLast key (last_write key x e) (call c x) xs (call-IsLast key e c x s)

new-IsLast : (key : String) (cap : ℤ) → IsLast key none (new_cache cap).store
unfolding new_cache
new-IsLast key (negsuc n) = record {}
new-IsLast key (pos zero) = record {}
new-IsLast key (pos (suc n)) = record {}

get-some :
    (c : MemoryCache) (key : String) (now : ℕ) (v : String)
    → (get c key now).1 ≡ some v
    → (x : Entry) × (lookup c.store key ≡ some x) × (x.value ≡ v) × (now ≤ x.expires)
unfolding get
get-some c key now v h = elim (Option-cases (lookup c.store key)) [
  | inl f ↦ absurd (ground arith)
  | inr (x, f) ↦ (x, f, ground arith, ground arith)
]

-- Whatever the cache evicts, a `Get` that finds a value finds the one of the last `Set` of its key,
-- which no `Delete` or `Clear` came behind, and not behind its time.
pub get-last_writes :
    (cap : ℤ) (xs : List Call) (key : String) (now : ℕ) (v : String)
    → (get (calls (new_cache cap) xs) key now).1 ≡ some v
    → (x : Entry) × (last_writes key xs none ≡ some x) × (x.value ≡ v) × (now ≤ x.expires)
unfolding new_cache
get-last_writes cap xs key now v h =
    let c = calls (new_cache cap) xs in
    let (x, f, a, b) = get-some c key now v h in
    (
      x,
      lookup-IsLast key (last_writes key xs none) c.store x
          (calls-IsLast key none (new_cache cap) xs (new-IsLast key cap)) f,
      a,
      b,
    )

-- A `Get` of a key behind its `Set` finds the value until its time, and nothing later.
pub get-set :
    (c : MemoryCache) (pick : ℕ) (key value : String) (ttl now : ℕ) (t : ℕ)
    → (get (set c pick key value ttl now) key t).1
      ≡ (if ltb (now + ttl) t then none else some value)
unfolding get set
get-set c pick key value ttl now t =
    let e : Entry = record { value = value; expires = now + ttl } in
    let kept = if leb c.max_cap (length c.store) then drop_at pick c.store else c.store in
    ground (arith, get-put kept key e key, eq_refl key)
