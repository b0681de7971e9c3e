-- ===== src/JobManager/Lease.antt =====
-- The claims that job managers of one process hold on the runs that they execute (claimRun of
-- core/pkg/engine/jobmanager/jobmanager.go): the goroutine that prolongs a lock at each tick, and the
-- release behind a run. Any order of their steps is a run of the relation `Step`.
use flowgent.Prelude.{
  ℕ, ◌+◌, ◌≤◌, ◌<◌, String, Bool, true, false, none, some, List, [], ◌∷◌, ◌≡◌, All,
}
use flowgent.Prelude.Positions.{get_elem?, set, erase_idx}
use flowgent.Lock.{MemoryLock, release, extended, extend}
use flowgent.JobManager.{claim_run, run_lock_key, run_lock_ttl}

-- A run that is executed under its lock, whether its goroutine runs, and the time at which its ticker
-- fires next.
pub record Holder : Type 0 where
  pub run_id : String
  pub ticking : Bool
  pub tick : ℕ

pub record World : Type 0 where
  pub lock : MemoryLock
  pub now : ℕ
  pub holders : List Holder

-- runLockTTL / 2
abbrev pub half_ttl : ℕ
half_ttl = 60_000_000_000

-- claimRun, and Submit in a goroutine of its own if the run is claimed.
unfoldable pub claim : String → String → World → World
unfolding claim_run
claim uuid run_id w =
    let (lock', claimed) = claim_run uuid (some w.lock) run_id w.now in
    elim lock' [
      | none ↦ w
      | some m ↦ elim claimed [
        | false ↦ record w { lock = m }
        | true ↦ record w {
          lock = m;
          holders = record { run_id = run_id; ticking = true; tick = w.now + half_ttl } ∷ w.holders;
        }
      ]
    ]

-- A tick of the goroutine of the holder at a position. If Extend fails it cancels the run and ends,
-- and the run is executed until Submit returns.
unfoldable pub renew : ℕ → Holder → World → World
renew n h w =
    let (m, answer) = extend w.lock (run_lock_key h.run_id) run_lock_ttl w.now in
    elim answer [
      | extended ↦ record w {
        lock = m;
        holders = set w.holders n (record h { tick = h.tick + half_ttl });
      }
      | _ ↦ record w { lock = m; holders = set w.holders n (record h { ticking = false }) }
    ]

-- The deferred release, behind Submit.
unfoldable pub end_run : ℕ → Holder → World → World
end_run n h w = record w {
  lock = release w.lock (run_lock_key h.run_id);
  holders = erase_idx w.holders n;
}

-- One step.
pub data Step : World → World → Type 0 where
  claims : (uuid run_id : String) (w : World) → Step w (claim uuid run_id w)
  renews :
      (n : ℕ) (h : Holder) (w : World)
      → get_elem? w.holders n ≡ some h
      → h.ticking ≡ true
      → h.tick ≤ w.now
      → Step w (renew n h w)
  ends : (n : ℕ) (h : Holder) (w : World) → get_elem? w.holders n ≡ some h → Step w (end_run n h w)
  passes : (t : ℕ) (w : World) → w.now ≤ t → Step w (record w { now = t })

-- What is reached from a new lock that nobody holds.
pub data Reach : World → Type 0 where
  initial :
      (t : ℕ)
      → Reach (record { lock = record { locks = []; lock_values = [] }; now = t; holders = [] })
  later : (v w : World) → Reach v → Step v w → Reach w

-- No tick comes half a lease late.
abbrev pub IsPunctual : (v w : World) → Step v w → Type 0
IsPunctual _ _ (passes t v le) = All (λ (h : Holder). t < h.tick + half_ttl) v.holders
IsPunctual _ _ _ = Unit

abbrev pub ArePunctual : (w : World) → Reach w → Type 0
ArePunctual _ (initial t) = Unit
ArePunctual w (later v _ r s) = ArePunctual v r × IsPunctual v w s
