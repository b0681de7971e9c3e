-- ===== src/Lock/Laws.antt =====
-- Who holds a `MemoryLock` (lock.go), through every call.
use flowgent.Prelude.{
  ℕ, ◌+◌, ◌<◌, String, true, false, none, some, List, [], ◌∷◌, ◌≡◌, ◌≢◌, arith, eq_iff, eq_refl,
  Option-cases, inl, inr,
}
use flowgent.Prelude.Dict.{get, put, get-put, get-remove}
use flowgent.Lock.{LockEntry, MemoryLock, try_lock, own_entry, release, extend, extended}

-- Each entry is that of the last acquisition of its key.
pub record IsValid (m : MemoryLock) : Type 0 where
  pub owned :
      (key : String) (e : LockEntry)
      → get m.locks key ≡ some e
      → get m.lock_values key ≡ some e.value

pub new-IsValid : IsValid (record { locks = []; lock_values = [] })
unfolding get
new-IsValid = record { owned = λ k e h. cc }

pub try_lock-IsValid :
    (uuid : String) (m : MemoryLock) (key : String) (ttl now : ℕ)
    → IsValid m
    → IsValid (try_lock uuid m key ttl now).0
unfolding try_lock
try_lock-IsValid uuid m key ttl now v = record {
  owned = λ k e h. ground (
    arith,
    v.owned k e,
    get-put m.locks key (record { value = uuid; expires_at = now + ttl }) k,
    get-put m.lock_values key uuid k,
  );
}

pub release-IsValid : (m : MemoryLock) (key : String) → IsValid m → IsValid (release m key)
unfolding release
release-IsValid m key v = record {
  owned = λ k e h. ground (
    arith,
    v.owned k e,
    get-remove m.locks key k,
    get-remove m.lock_values key k,
    eq_iff key k,
    eq_refl e.value,
  );
}

pub own_entry-some :
    (m : MemoryLock) (key val : String) (e : LockEntry)
    → own_entry m key val ≡ some e
    → get m.locks key ≡ some e × (e.value ≡ val)
unfolding own_entry
own_entry-some m key val e h = (ground arith, go)
  where
    go : e.value ≡ val
    go = ground (arith, eq_iff e.value val)

pub extend-IsValid :
    (m : MemoryLock) (key : String) (ttl now : ℕ) → IsValid m → IsValid (extend m key ttl now).0
unfolding extend
extend-IsValid m key ttl now v = elim (Option-cases (get m.lock_values key)) [
  | inl e ↦ rw (e, extend) v
  | inr (val, e) ↦ elim (Option-cases (own_entry m key val)) [
    | inl f ↦ rw (e, f, extend) v
    | inr (x, f) ↦
        rw (e, f, extend)
          (record {
            owned = λ k y h.
                let (g, q) = own_entry-some m key val x f in
                ground (
                  arith,
                  v.owned k y,
                  eq_iff key k,
                  get-put m.locks key (record x { expires_at = now + ttl }) k,
                );
          })
  ]
]

-- The calls on a lock, each with what it gets from outside.
pub data Call : Type 0 where
  acquire : String → String → ℕ → ℕ → Call
  free : String → Call
  prolong : String → ℕ → ℕ → Call

unfoldable pub call : MemoryLock → Call → MemoryLock
call m (acquire uuid key ttl now) = (try_lock uuid m key ttl now).0
call m (free key) = release m key
call m (prolong key ttl now) = (extend m key ttl now).0

unfoldable pub calls : MemoryLock → List Call → MemoryLock
calls m [] = m
calls m (c ∷ cs) = calls (call m c) cs

pub call-IsValid : (m : MemoryLock) (c : Call) → IsValid m → IsValid (call m c)
unfolding call
call-IsValid m (acquire uuid key ttl now) v = try_lock-IsValid uuid m key ttl now v
call-IsValid m (free key) v = release-IsValid m key v
call-IsValid m (prolong key ttl now) v = extend-IsValid m key ttl now v

pub calls-IsValid : (m : MemoryLock) (cs : List Call) → IsValid m → IsValid (calls m cs)
unfolding calls
calls-IsValid m [] v = v
calls-IsValid m (c ∷ cs) v = calls-IsValid (call m c) cs (call-IsValid m c v)

-- The call neither frees nor prolongs `key`, and acquires it, if at all, before `deadline`.
abbrev pub IsWithin : String → ℕ → Call → Type 0
IsWithin key deadline (acquire uuid k ttl now) = k ≡ key → now < deadline
IsWithin key deadline (free k) = k ≢ key
IsWithin key deadline (prolong k ttl now) = k ≢ key

abbrev pub AreWithin : String → ℕ → List Call → Type 0
AreWithin key deadline [] = Unit
AreWithin key deadline (c ∷ cs) = IsWithin key deadline c × AreWithin key deadline cs

pub entry-call :
    (m : MemoryLock) (c : Call) (key : String) (e : LockEntry)
    → get m.locks key ≡ some e
    → IsWithin key e.expires_at c
    → get (call m c).locks key ≡ some e
unfolding call try_lock release extend
entry-call m (acquire uuid k ttl now) key e h w =
    ground
      (arith, get-put m.locks k (record { value = uuid; expires_at = now + ttl }) key, eq_iff k key)
entry-call m (free k) key e h w = ground (arith, get-remove m.locks k key, eq_iff k key)
entry-call m (prolong k ttl now) key e h w = elim (Option-cases (get m.lock_values k)) [
  | inl p ↦ rw (p, call, extend) h
  | inr (val, p) ↦ elim (Option-cases (own_entry m k val)) [
    | inl f ↦ rw (p, f, call, extend) h
    | inr (x, f) ↦
        rw (p, f, call, extend)
          (ground
            (arith, get-put m.locks k (record x { expires_at = now + ttl }) key, eq_iff k key))
  ]
]

entry-calls :
    (m : MemoryLock) (cs : List Call) (key : String) (e : LockEntry)
    → get m.locks key ≡ some e
    → AreWithin key e.expires_at cs
    → get (calls m cs).locks key ≡ some e
unfolding calls
entry-calls m [] key e h w = h
entry-calls m (c ∷ cs) key e h w = entry-calls (call m c) cs key e (entry-call m c key e h w.0) w.1

pub entry-try_lock :
    (uuid : String) (m : MemoryLock) (key : String) (ttl now : ℕ)
    → (try_lock uuid m key ttl now).1 ≡ true
    → get (try_lock uuid m key ttl now).0.locks key
      ≡ some (record { value = uuid; expires_at = now + ttl })
unfolding try_lock
entry-try_lock uuid m key ttl now h =
    ground (
      arith,
      get-put m.locks key (record { value = uuid; expires_at = now + ttl }) key,
      eq_refl key,
    )

pub held_until :
    (uuid : String) (m : MemoryLock) (key : String) (ttl t : ℕ) (e : LockEntry)
    → get m.locks key ≡ some e
    → t < e.expires_at
    → (try_lock uuid m key ttl t).1 ≡ false
unfolding try_lock
held_until uuid m key ttl t e h lt = ground arith

-- Mutual exclusion: after `TryLock` acquired a key at `now`, and then any calls of which none frees or
-- prolongs this key and none tries to acquire it after the lease, no `TryLock` on it succeeds before
-- `now + ttl`.
pub try_lock-exclusive :
    (u u' : String) (m : MemoryLock) (key : String) (ttl ttl' now t : ℕ) (cs : List Call)
    → (try_lock u m key ttl now).1 ≡ true
    → AreWithin key (now + ttl) cs
    → t < now + ttl
    → (try_lock u' (calls (try_lock u m key ttl now).0 cs) key ttl' t).1 ≡ false
try_lock-exclusive u u' m key ttl ttl' now t cs h w lt =
    let m' = (try_lock u m key ttl now).0 in
    held_until u' (calls m' cs) key ttl' t (record { value = u; expires_at = now + ttl })
      (entry-calls m' cs key (record { value = u; expires_at = now + ttl })
        (entry-try_lock u m key ttl now h) w)
      lt

release-frees : (m : MemoryLock) (key : String) → IsValid m → get (release m key).locks key ≡ none
unfolding release own_entry
release-frees m key v = elim (Option-cases (get m.locks key)) [
  | inl e ↦ ground (arith, get-remove m.locks key key)
  | inr (x, e) ↦
      ground (arith, v.owned key x, get-remove m.locks key key, eq_refl x.value, eq_refl key)
]

-- `Extend` prolongs the entry of a key that stands, whenever it is called.
pub entry-extend :
    (m : MemoryLock) (key : String) (ttl now : ℕ) (e : LockEntry)
    → IsValid m
    → get m.locks key ≡ some e
    → extend m key ttl now
      ≡ (record m { locks = put m.locks key (record e { expires_at = now + ttl }) }, extended)
unfolding extend own_entry
entry-extend m key ttl now e v h = ground (arith, v.owned key e, eq_refl e.value)

-- `Release` frees the key whoever calls it: after any calls on a new lock, `TryLock` succeeds at any
-- time behind a `Release` of its key, also while the lease of another holder runs.
pub try_lock-release :
    (cs : List Call) (uuid key : String) (ttl now : ℕ)
    → (try_lock uuid
        (release (calls (record { locks = []; lock_values = [] }) cs) key)
        key
        ttl
        now).1
      ≡ true
unfolding try_lock
try_lock-release cs uuid key ttl now = ground (
  arith,
  release-frees (calls (record { locks = []; lock_values = [] }) cs) key
      (calls-IsValid (record { locks = []; lock_values = [] }) cs new-IsValid),
)
