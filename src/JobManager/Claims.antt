-- ===== src/JobManager/Claims.antt =====
-- The poller of jobmanager.go dispatches a run only if it claims the run's lock.
use flowgent.Prelude.{
  true-false, ℕ, ◌+◌, String, true, false, some, List, [], ◌∷◌, ◌≡◌, ◌≢◌, sym, ◌∙◌, subst, ltb, All,
  All-map, arith, eq_iff, eq_refl, Bool-cases, inl, inr,
}
use flowgent.Prelude.Dict.{get-put}
use flowgent.Lock.{MemoryLock, is_held, try_lock}
use flowgent.JobManager.{Run, Poller, poll, claim_run, is_eligible, run_lock_key, run_lock_ttl}

-- A key that is held stays held when `TryLock` is called on any key.
is_held-try_lock :
    (uuid : String) (m : MemoryLock) (key : String) (now : ℕ) (k : String)
    → is_held m k now ≡ true
    → is_held (try_lock uuid m key run_lock_ttl now).0 k now ≡ true
unfolding is_held try_lock run_lock_ttl
is_held-try_lock uuid m key now k h = ground (
  arith,
  get-put m.locks key (record { value = uuid; expires_at = now + 120_000_000_000 }) k,
  eq_iff key k,
)

taken :
    (uuid : String) (m : MemoryLock) (key : String) (now : ℕ)
    → (try_lock uuid m key run_lock_ttl now).1 ≡ true
    → (is_held m key now ≡ false)
      × (is_held (try_lock uuid m key run_lock_ttl now).0 key now ≡ true)
unfolding is_held try_lock run_lock_ttl
taken uuid m key now h =
    let e = get-put m.locks key (record { value = uuid; expires_at = now + 120_000_000_000 }) key in
    (ground (arith), ground (arith, e, eq_refl key))

module _ (p : Poller) (now : ℕ) where
  -- No lock is held on the run's key.
  abbrev pub IsFree : MemoryLock → Run → Type 0
  IsFree m r = is_held m (run_lock_key r.id) now ≡ false

  -- The identifiers are different, pair by pair.
  abbrev pub AreDistinct : List Run → Type 0
  AreDistinct [] = Unit
  AreDistinct (r ∷ rs) = All (λ (q : Run). q.id ≢ r.id) rs × AreDistinct rs

  IsFree-before :
      (uuid : String) (m : MemoryLock) (key : String) (r : Run)
      → IsFree (try_lock uuid m key run_lock_ttl now).0 r
      → IsFree m r
  IsFree-before uuid m key r h = elim (Bool-cases (is_held m (run_lock_key r.id) now)) [
    | inl e ↦ absurd (true-false (sym (is_held-try_lock uuid m key now (run_lock_key r.id) e) ∙ h))
    | inr e ↦ e
  ]

  other_id :
      (uuid : String) (m : MemoryLock) (r q : Run)
      → (try_lock uuid m (run_lock_key r.id) run_lock_ttl now).1 ≡ true
      → IsFree (try_lock uuid m (run_lock_key r.id) run_lock_ttl now).0 q
      → q.id ≢ r.id
  other_id uuid m r q h f e = true-false (
      sym (taken uuid m (run_lock_key r.id) now h).1
      ∙ subst
          (λ z.
            is_held (try_lock uuid m (run_lock_key r.id) run_lock_ttl now).0 (run_lock_key z) now
            ≡ false)
          e f)

  abbrev pub IsDispatch : MemoryLock → Run → Type 0
  IsDispatch m r = (is_eligible p r ≡ true) × IsFree m r

  -- Over a MemoryLock, whatever page a tick gets, each run that it dispatches is eligible: pending,
  -- of the namespace that the poller watches, if it watches one, and of a flow with a
  -- specification; the lock on it was free when the tick began; and no two of them have the same
  -- identifier.
  pub poll-AreDistinct :
      (m : MemoryLock) (rs : List Run)
      → All (IsDispatch m) (poll p (some m) now rs).dispatched
        × AreDistinct (poll p (some m) now rs).dispatched
  unfolding poll claim_run
  poll-AreDistinct m [] = (tt, tt)
  poll-AreDistinct m (r ∷ rs) = elim (Bool-cases (is_eligible p r)) [
    | inr e ↦ rw (e, poll) (poll-AreDistinct m rs)
    | inl e ↦ elim (Bool-cases (ltb (p.size r.id) 8)) [
      | inl b ↦ rw (poll, e, b) (tt, tt)
      | inr b ↦
          let key = run_lock_key r.id in
          let (all, distinct) =
            poll-AreDistinct (try_lock (p.uuid r.id) m key run_lock_ttl now).0 rs in
          let weak =
            All-map (IsDispatch (try_lock (p.uuid r.id) m key run_lock_ttl now).0) (IsDispatch m)
              (λ (q : Run) (i, f). (i, IsFree-before (p.uuid r.id) m key q f)) _ all in
          elim (Bool-cases (try_lock (p.uuid r.id) m key run_lock_ttl now).1) [
            | inr c ↦ rw (poll, e, b, c) (weak, distinct)
            | inl c ↦
                rw (poll, e, b, c)
                  (
                    ((e, (taken (p.uuid r.id) m key now c).0), weak),
                    (
                      All-map (IsDispatch (try_lock (p.uuid r.id) m key run_lock_ttl now).0)
                          (λ (q : Run). q.id ≢ r.id)
                          (λ (q : Run) (i, f). other_id (p.uuid r.id) m r q c f) _ all,
                      distinct,
                    ),
                  )
          ]
    ]
  ]
