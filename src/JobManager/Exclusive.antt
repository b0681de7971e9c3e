-- ===== src/JobManager/Exclusive.antt =====
-- No run is executed twice at a time (Lease).
use flowgent.Prelude.{
  ◌+◌, ◌≤◌, ◌<◌, ℕ, String, true, false, some, List, [], ◌∷◌, ◌≡◌, ◌≢◌, refl, subst, ◌∙◌,
  true-false, sym, ap, All, All-map, arith, eq_refl, Bool-cases, inl, inr,
}
use flowgent.Prelude.Dict.{get, get-put}
use flowgent.Prelude.Positions.{
  get_elem?, erase_idx, All-get_elem?, All-erase_idx, All-set, Pairwise, Pairwise-erase_idx,
  Pairwise-others, Pairwise-set, Pairwise-map,
}
use flowgent.Lock.{
  LockEntry, MemoryLock, is_held, try_lock, release, ExtendResult, extended, extend,
}
use flowgent.Lock.Laws.{
  IsValid, acquire, free, prolong, call, entry-call, entry-try_lock, entry-extend, held_until,
  new-IsValid, try_lock-IsValid, release-IsValid, extend-IsValid,
}
use flowgent.JobManager.{claim_run, run_lock_key, run_lock_ttl}
use flowgent.JobManager.Lease.{
  Holder, World, half_ttl, claim, renew, end_run, IsPunctual, ArePunctual, Step, claims, renews,
  ends, passes, Reach, initial, later,
}

-- The lease of a holder outlasts the next tick by half a lease, and the tick is not that late.
record IsClaimed (m : MemoryLock) (now : ℕ) (h : Holder) : Type 0 where
  entry : LockEntry
  stands : get m.locks (run_lock_key h.run_id) ≡ some entry
  lasts : h.tick + half_ttl ≤ entry.expires_at
  in_time : now < h.tick + half_ttl
  ticks : h.ticking ≡ true

abbrev IsApart : Holder → Holder → Type 0
IsApart g h = run_lock_key g.run_id ≢ run_lock_key h.run_id

record IsSafe (w : World) : Type 0 where
  valid : IsValid w.lock
  claimed : All (IsClaimed w.lock w.now) w.holders
  apart : Pairwise IsApart w.holders

-- A call on a key leaves the entries of the others.
IsOthers : MemoryLock → MemoryLock → String → Type 0
IsOthers m m' k =
    (j : String) (e : LockEntry) → k ≢ j → get m.locks j ≡ some e → get m'.locks j ≡ some e

-- So it leaves the claims of the holders of other keys.
IsClaimed-others :
    (m m' : MemoryLock) (now : ℕ) (k : String)
    → IsOthers m m' k
    → (hs : List Holder) → All (λ h. k ≢ run_lock_key h.run_id) hs
    → All (IsClaimed m now) hs
    → All (IsClaimed m' now) hs
unfolding IsOthers
IsClaimed-others m m' now k f [] a c = c
IsClaimed-others m m' now k f (h ∷ hs) (a, rest) (c, cs) = (
  record {
    entry = c.entry;
    stands = f (run_lock_key h.run_id) c.entry a c.stands;
    lasts = c.lasts;
    in_time = c.in_time;
    ticks = c.ticks;
  },
  IsClaimed-others m m' now k f hs rest cs,
)

try_lock-IsOthers :
    (uuid : String) (m : MemoryLock) (k : String) (ttl now : ℕ)
    → IsOthers m (try_lock uuid m k ttl now).0 k
unfolding IsOthers call
try_lock-IsOthers uuid m k ttl now j e a h =
    entry-call m (acquire uuid k ttl now) j e h (λ q. absurd (a q))

release-IsOthers : (m : MemoryLock) (k : String) → IsOthers m (release m k) k
unfolding IsOthers call
release-IsOthers m k j e a h = entry-call m (free k) j e h a

extend-IsOthers : (m : MemoryLock) (k : String) (ttl now : ℕ) → IsOthers m (extend m k ttl now).0 k
unfolding IsOthers call
extend-IsOthers m k ttl now j e a h = entry-call m (prolong k ttl now) j e h a

-- A key that is claimed is none that is free to acquire.
IsClaimed-apart :
    (uuid : String) (m : MemoryLock) (now : ℕ) (k : String) (h : Holder)
    → (try_lock uuid m k run_lock_ttl now).1 ≡ true
    → IsClaimed m now h
    → k ≢ run_lock_key h.run_id
IsClaimed-apart uuid m now k h t c e = true-false (
    sym t
    ∙ held_until uuid m k run_lock_ttl now c.entry (ap (get m.locks) e ∙ c.stands)
        (omega (arith, c.lasts, c.in_time)))

ttl_halves : run_lock_ttl ≡ half_ttl + half_ttl
unfolding run_lock_ttl
ttl_halves = refl

refused :
    (uuid : String) (m : MemoryLock) (k : String) (ttl now : ℕ)
    → (try_lock uuid m k ttl now).1 ≡ false
    → (try_lock uuid m k ttl now).0 ≡ m
unfolding try_lock
refused uuid m k ttl now f = ground arith

claim-IsSafe : (uuid run_id : String) (w : World) → IsSafe w → IsSafe (claim uuid run_id w)
unfolding claim claim_run
claim-IsSafe uuid run_id w s =
    let k = run_lock_key run_id in
    let m = (try_lock uuid w.lock k run_lock_ttl w.now).0 in
    elim (Bool-cases (try_lock uuid w.lock k run_lock_ttl w.now).1) [
      | inl t ↦
          let a = All-map _ _ (λ h. IsClaimed-apart uuid w.lock w.now k h t) w.holders s.claimed in
          rw (t, claim, claim_run)
            (record {
              valid = try_lock-IsValid uuid w.lock k run_lock_ttl w.now s.valid;
              claimed = (
                record {
                  entry = record { value = uuid; expires_at = w.now + run_lock_ttl };
                  stands = entry-try_lock uuid w.lock k run_lock_ttl w.now t;
                  lasts = omega (arith, ttl_halves);
                  in_time = omega arith;
                  ticks = refl;
                },
                IsClaimed-others w.lock m w.now k
                    (try_lock-IsOthers uuid w.lock k run_lock_ttl w.now) w.holders a s.claimed,
              );
              apart = (a, s.apart);
            })
      | inr f ↦
          rw (f, claim, claim_run)
            (record {
              valid = try_lock-IsValid uuid w.lock k run_lock_ttl w.now s.valid;
              claimed =
                  subst (λ m'. All (IsClaimed m' w.now) w.holders)
                    (sym (refused uuid w.lock k run_lock_ttl w.now f)) s.claimed;
              apart = s.apart;
            })
    ]

next : Holder → Holder
next h = record { run_id = h.run_id; ticking = h.ticking; tick = h.tick + half_ttl }

-- The claim of the holder that a tick prolongs.
renewed :
    (m : MemoryLock) (now : ℕ) (h : Holder)
    → IsValid m
    → h.tick ≤ now
    → IsClaimed m now h
    → IsClaimed (extend m (run_lock_key h.run_id) run_lock_ttl now).0 now (next h)
unfolding next
renewed m now h v le c =
    let k = run_lock_key h.run_id in
    let e : LockEntry = record { value = c.entry.value; expires_at = now + run_lock_ttl } in
    record {
      entry = e;
      stands =
          ap (λ (p : MemoryLock × ExtendResult). get p.0.locks k)
            (entry-extend m k run_lock_ttl now c.entry v c.stands)
          ∙ get-put m.locks k e k
          ∙ rw (eq_refl k) refl;
      lasts = omega (arith, ttl_halves, le);
      in_time = omega (arith, c.in_time);
      ticks = c.ticks;
    }

-- Extend does not fail for a holder.
extend-holder :
    (m : MemoryLock) (now : ℕ) (h : Holder)
    → IsValid m
    → IsClaimed m now h
    → (extend m (run_lock_key h.run_id) run_lock_ttl now).1 ≡ extended
extend-holder m now h v c =
    ap (λ (p : MemoryLock × ExtendResult). p.1)
      (entry-extend m (run_lock_key h.run_id) run_lock_ttl now c.entry v c.stands)

renew-IsSafe :
    (n : ℕ) (h : Holder) (w : World)
    → get_elem? w.holders n ≡ some h
    → h.tick ≤ w.now
    → IsSafe w
    → IsSafe (renew n h w)
unfolding next renew
renew-IsSafe n h w e le s =
    let k = run_lock_key h.run_id in
    let m = (extend w.lock k run_lock_ttl w.now).0 in
    let c = All-get_elem? (IsClaimed w.lock w.now) w.holders n h s.claimed e in
    rw (extend-holder w.lock w.now h s.valid c, renew)
      (record {
        valid = extend-IsValid w.lock k run_lock_ttl w.now s.valid;
        claimed =
            All-set (IsClaimed m w.now) w.holders n (next h)
              (IsClaimed-others w.lock m w.now k (extend-IsOthers w.lock k run_lock_ttl w.now)
                (erase_idx w.holders n)
                (Pairwise-others IsApart (λ x y p q. p (sym q)) w.holders n h s.apart e)
                (All-erase_idx (IsClaimed w.lock w.now) w.holders n s.claimed))
              (renewed w.lock w.now h s.valid le c);
        apart = Pairwise-set IsApart w.holders n h (next h) (λ y p. p) (λ y p. p) s.apart e;
      })

end_run-IsSafe :
    (n : ℕ) (h : Holder) (w : World)
    → get_elem? w.holders n ≡ some h
    → IsSafe w
    → IsSafe (end_run n h w)
unfolding end_run
end_run-IsSafe n h w e s = record {
  valid = release-IsValid w.lock (run_lock_key h.run_id) s.valid;
  claimed =
      IsClaimed-others w.lock _ w.now _ (release-IsOthers w.lock (run_lock_key h.run_id))
        (erase_idx w.holders n)
        (Pairwise-others IsApart (λ x y p q. p (sym q)) w.holders n h s.apart e)
        (All-erase_idx _ w.holders n s.claimed);
  apart = Pairwise-erase_idx IsApart w.holders n s.apart;
}

IsClaimed-at :
    (m : MemoryLock) (now t : ℕ) (hs : List Holder)
    → All (λ (h : Holder). t < h.tick + half_ttl) hs
    → All (IsClaimed m now) hs
    → All (IsClaimed m t) hs
IsClaimed-at m now t [] l c = c
IsClaimed-at m now t (h ∷ hs) (l, ls) (c, cs) = (
  record { entry = c.entry; stands = c.stands; lasts = c.lasts; in_time = l; ticks = c.ticks },
  IsClaimed-at m now t hs ls cs,
)

Step-IsSafe : (v w : World) (st : Step v w) → IsPunctual v w st → IsSafe v → IsSafe w
Step-IsSafe _ _ (claims uuid run_id v) p s = claim-IsSafe uuid run_id v s
Step-IsSafe _ _ (renews n h v e t le) p s = renew-IsSafe n h v e le s
Step-IsSafe _ _ (ends n h v e) p s = end_run-IsSafe n h v e s
Step-IsSafe _ _ (passes t v le) p s = record {
  valid = s.valid;
  claimed = IsClaimed-at v.lock v.now t v.holders p s.claimed;
  apart = s.apart;
}

Reach-IsSafe : (w : World) (r : Reach w) → ArePunctual w r → IsSafe w
Reach-IsSafe _ (initial t) p = record {
  valid = new-IsValid;
  claimed = record {};
  apart = record {};
}
Reach-IsSafe w (later v _ r s) (ps, p) = Step-IsSafe v w s p (Reach-IsSafe v r ps)

-- No two holders execute the same run, each holds the lock of its run and prolongs it, and who
-- claims its run gets nothing.
pub record IsExclusive (w : World) : Type 0 where
  pub apart : Pairwise (λ (g h : Holder). g.run_id ≢ h.run_id) w.holders
  pub prolongs : All (λ (h : Holder). h.ticking ≡ true) w.holders
  pub holds : All (λ (h : Holder). is_held w.lock (run_lock_key h.run_id) w.now ≡ true) w.holders
  pub refuses :
      All (λ (h : Holder). (uuid : String) → (claim uuid h.run_id w).holders ≡ w.holders) w.holders

claim-claimed :
    (uuid run_id : String) (w : World)
    → (try_lock uuid w.lock (run_lock_key run_id) run_lock_ttl w.now).1 ≡ false
    → (claim uuid run_id w).holders ≡ w.holders
unfolding claim claim_run
claim-claimed uuid run_id w f = rw (f, claim, claim_run) refl

entry-is_held :
    (m : MemoryLock) (key : String) (now : ℕ) (e : LockEntry)
    → get m.locks key ≡ some e
    → now < e.expires_at
    → is_held m key now ≡ true
unfolding is_held
entry-is_held m key now e h lt = ground arith

-- If no tick of a goroutine that prolongs a run's lock comes half a lease late, then in every
-- state that is reached from a new MemoryLock by claims, ticks, ends of runs and the passing of
-- time, in any order: no two goroutines execute the same run, the lock of each run that is
-- executed is held and is prolonged, and who claims such a run gets nothing.
pub Reach-IsExclusive : (w : World) (r : Reach w) → ArePunctual w r → IsExclusive w
Reach-IsExclusive w r p =
    let s = Reach-IsSafe w r p in
    record {
      apart = Pairwise-map IsApart _ (λ g h a e. a (ap run_lock_key e)) w.holders s.apart;
      prolongs = All-map _ _ (λ h c. c.ticks) w.holders s.claimed;
      holds =
          All-map _ _
            (λ h c.
              entry-is_held w.lock _ w.now c.entry c.stands (omega (arith, c.lasts, c.in_time)))
            w.holders s.claimed;
      refuses =
          All-map _ _
            (λ h c uuid. claim-claimed uuid h.run_id w (
              held_until uuid w.lock _ run_lock_ttl w.now c.entry c.stands
                (omega (arith, c.lasts, c.in_time))))
            w.holders s.claimed;
    }
