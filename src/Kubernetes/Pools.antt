-- ===== src/Kubernetes/Pools.antt =====
-- What the scaling of kubernetes.go works on: the API, the state, and the two pools with the sizes that
-- they are to have.
use flowgent.Prelude.{
  Bool, true, not, ◌%◌, ◌^◌, ℕ, ◌+◌, ◌-◌, ◌/◌, String, Option, ltb, eqb, if◌then◌else◌,
}
use flowgent.Prelude.Dict.{Dict}
use flowgent.Kubernetes.Settings.{Pool, Settings, tm_labels, sandbox_labels}

-- Get of a deployment: missing, another error, or its replicas, where they are set, and the available
-- ones. UpdateScale: done, not found, or another error.
pub data Found : Type 0 where
  missing : Found
  get_error : String → Found
  deployment : Option ℕ → ℕ → Found

pub data Scaled : Type 0 where
  scaled : Scaled
  scale_missing : String → Scaled
  scale_error : String → Scaled

-- What ends a second's wait: the ticker, the context, or the timer of two minutes.
pub data Wake : Type 0 where
  tick : Wake
  cancelled : String → Wake
  deadline : Wake

-- The Kubernetes API for one namespace, the clock and the cache. An error is the text that the manager
-- returns for it. `start` starts the ticker and the timer of a wait. `persist` writes the manager's
-- state to the cache, where there is one; its errors are logged.
pub record Cluster (State : Type 0) : Type 1 where
  pub S : Type 0
  pub find : String → S → S × Found
  pub create : String → Dict String → ℕ → S → S × Option String
  pub update_scale : String → ℕ → S → S × Scaled
  pub start : S → S
  pub wait : S → S × Wake
  pub now : S → ℕ
  pub persist : State → S → S

-- RMState, without what is configured: the sizes and the pending work of the two pools, and the time of
-- the last activity.
pub record State : Type 0 where
  pub current_tms : ℕ
  pub pending_plans : ℕ
  pub sandbox_replicas : ℕ
  pub sandbox_pending : ℕ
  pub last_activity : ℕ

-- desiredTMCount and desiredSandboxCount; the flag is that of the sandboxes, and true for task managers.
unfoldable pub desired_count : Bool → Pool → ℕ → ℕ
desired_count enabled p pending =
    if not enabled
    then 0
    else if eqb pending 0
    then p.least
    else (let needed = (pending + p.slots - 1) / p.slots in
        let at_least = if ltb needed p.least then p.least else needed in
        if ltb p.most at_least then p.most else at_least)

-- The size of one pool in a state, and its pending work.
pub data Kind : Type 0 where
  tms sandboxes : Kind

abbrev pub pool_of : Settings → Kind → Pool
pool_of s tms = s.tms
pool_of s sandboxes = s.sandbox

-- Whether the pool is used.
abbrev pub is_enabled : Settings → Kind → Bool
is_enabled s tms = true
is_enabled s sandboxes = s.sandbox_enabled

abbrev pub labels_of : Settings → Kind → Dict String
labels_of s tms = tm_labels s
labels_of s sandboxes = sandbox_labels s

abbrev pub size_of : Kind → State → ℕ
size_of tms st = st.current_tms
size_of sandboxes st = st.sandbox_replicas

abbrev pub pending_of : Kind → State → ℕ
pending_of tms st = st.pending_plans
pending_of sandboxes st = st.sandbox_pending

abbrev pub resize : Kind → ℕ → State → State
resize tms n st = record st { current_tms = n }
resize sandboxes n st = record st { sandbox_replicas = n }

-- The size that a pool is to have in a state.
abbrev pub desired_of : Settings → Kind → State → ℕ
desired_of s k st = desired_count (is_enabled s k) (pool_of s k) (pending_of k st)

-- int32(target), where 0 stands for a negative value: a target is compared with sizes, which are not
-- negative, and is waited for or set where it is greater than one.
unfoldable pub to_int32 : ℕ → ℕ
to_int32 n = let wrapped = n % 2 ^ 32 in if ltb wrapped (2 ^ 31) then wrapped else 0
