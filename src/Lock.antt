-- ===== src/Lock.antt =====
-- `MemoryLock` of core/pkg/lock/lock.go. Times are nanoseconds; each call gets the clock's reading and
-- `TryLock` the identifier that uuid makes.
pub mod Laws
use flowgent.Prelude.{
  ℕ, ◌+◌, String, Bool, true, false, Option, none, some, ◌==◌, ltb, if◌then◌else◌,
}
use flowgent.Prelude.Dict.{Dict, get, put, remove}

pub record LockEntry : Type 0 where
  pub value : String
  pub expires_at : ℕ

pub record MemoryLock : Type 0 where
  pub locks : Dict LockEntry
  pub lock_values : Dict String

-- time.Now().Before(entry.expiresAt), for the entry of a key
unfoldable pub is_held : MemoryLock → String → ℕ → Bool
is_held m key now = elim (get m.locks key) [ none ↦ false | some e ↦ ltb now e.expires_at ]

-- TryLock
unfoldable pub try_lock : String → MemoryLock → String → ℕ → ℕ → MemoryLock × Bool
unfolding is_held
try_lock uuid m key ttl now = if is_held m key now then (m, false) else (
  record {
    locks = put m.locks key (record { value = uuid; expires_at = now + ttl });
    lock_values = put m.lock_values key uuid;
  },
  true,
)

-- locks[key], if its value is the one that was acquired last
unfoldable pub own_entry : MemoryLock → String → String → Option LockEntry
own_entry m key val = elim (get m.locks key) [
  | none ↦ none
  | some e ↦ if e.value == val then some e else none
]

-- Release
unfoldable pub release : MemoryLock → String → MemoryLock
unfolding own_entry
release m key = elim (get m.lock_values key) [
  | none ↦ m
  | some val ↦ record {
    locks = elim (own_entry m key val) [ none ↦ m.locks | some e ↦ remove m.locks key ];
    lock_values = remove m.lock_values key;
  }
]

pub data ExtendResult : Type 0 where
  extended not_held lost : ExtendResult

-- Extend
unfoldable pub extend : MemoryLock → String → ℕ → ℕ → MemoryLock × ExtendResult
unfolding own_entry
extend m key ttl now = elim (get m.lock_values key) [
  | none ↦ (m, not_held)
  | some val ↦ elim (own_entry m key val) [
    | none ↦ (m, lost)
    | some e ↦
        (record m { locks = put m.locks key (record e { expires_at = now + ttl }) }, extended)
  ]
]
