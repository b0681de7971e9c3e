-- ===== src/JobManager.antt =====
-- `StartRunPoller` and `claimRun` of core/pkg/engine/jobmanager/jobmanager.go, over the `MemoryLock` of
-- Lock: one tick of the poller, which claims the runs that it dispatches. Lease has the goroutines
-- that it starts, which execute a run and prolong and release its lock; Claims and Exclusive are
-- proofs.
pub mod Claims
pub mod Lease
pub mod Exclusive
use Prim.Native.String.{◌++◌ as str_append}
use flowgent.Prelude.{
  ℕ, String, Bool, true, false, not, Option, none, some, List, [], ◌∷◌, ◌==◌, ◌&&◌, ◌||◌, ltb,
  is_some, if◌then◌else◌,
}
use flowgent.Prelude.Dict.{Dict, get}
use flowgent.Dag.{Flow, RunStatus, run_pending}
use flowgent.Lock.{MemoryLock, try_lock}

pub record Run : Type 0 where
  pub id : String
  pub agent_flow_id : String
  pub status : RunStatus
  pub k8s_namespace : String

-- runLockTTL, in nanoseconds
unfoldable pub run_lock_ttl : ℕ
run_lock_ttl = 120_000_000_000

unfoldable pub run_lock_key : String → String
run_lock_key run_id = str_append "flow-run:" run_id

-- claimRun, up to the goroutine that prolongs the lock; without a lock every run is claimed.
unfoldable pub claim_run : String → Option MemoryLock → String → ℕ → Option MemoryLock × Bool
claim_run uuid none run_id now = (none, true)
claim_run uuid (some m) run_id now =
    let (m', ok) = try_lock uuid m (run_lock_key run_id) run_lock_ttl now in (some m', ok)

abbrev pub is_pending : RunStatus → Bool
is_pending run_pending = true
is_pending _ = false

-- What the poller gets from outside: the configured flows, GetFlow of the API, the identifiers that
-- uuid makes, and the length of a text in bytes.
pub record Poller : Type 0 where
  pub k8s_namespace : String
  pub flows : Dict Flow
  pub get_flow : String → Option Flow
  pub uuid : String → String
  pub size : String → ℕ

-- The specification of a run's flow: a configured one, or that of the API.
unfoldable pub spec_of : Poller → String → Option Flow
spec_of p flow_id = elim (get p.flows flow_id) [ some spec ↦ some spec | none ↦ p.get_flow flow_id ]

-- The tests before a run is claimed.
unfoldable pub is_eligible : Poller → Run → Bool
unfolding spec_of
is_eligible p r =
    is_pending r.status
    && ((p.k8s_namespace == "" || r.k8s_namespace == p.k8s_namespace)
        && is_some (spec_of p r.agent_flow_id))

-- What a tick leaves: the lock, the runs that it dispatched, in order, and whether it panicked.
pub record Polled : Type 0 where
  pub lock : Option MemoryLock
  pub dispatched : List Run
  pub panicked : Bool

-- The loop over the page of ListRuns. The log line before the claim takes the first 8 bytes of the
-- run's identifier and panics if there are fewer.
unfoldable pub poll : Poller → Option MemoryLock → ℕ → List Run → Polled
poll p lock now [] = record { lock = lock; dispatched = []; panicked = false }
poll p lock now (r ∷ rs) = elim (is_eligible p r) [
  | false ↦ poll p lock now rs
  | true ↦ elim (ltb (p.size r.id) 8) [
    | true ↦ record { lock = lock; dispatched = []; panicked = true }
    | false ↦
        let (lock', claimed) = claim_run (p.uuid r.id) lock r.id now in
        let rest = poll p lock' now rs in
        elim claimed [ false ↦ rest | true ↦ record rest { dispatched = r ∷ rest.dispatched } ]
  ]
]
