-- ===== src/Kubernetes/Scaling.antt =====
-- The scaling of kubernetes.go. The methods for task managers and for sandboxes are the same up to the
-- deployment and the counters, so each is one function of a `Pool` here; log lines are left out.
use flowgent.Prelude.{
  ℕ, zero, suc, ◌-◌, ◌*◌, String, Option, none, some, ◌&&◌, ltb, leb, eqb, if◌then◌else◌,
}
use flowgent.Prelude.Dict.{get_or}
use flowgent.Kubernetes.Settings.{Settings}
use flowgent.Kubernetes.Pools.{
  Found, Cluster, State, desired_of, to_int32, Kind, pool_of, labels_of, size_of, pending_of,
  resize, missing, get_error, deployment, scaled, scale_missing, scale_error, tick, cancelled,
  deadline, tms, sandboxes,
}

module _ (settings : Settings) (cluster : Cluster State) where
  open cluster use {S, find, create, update_scale, start, wait, now, persist}

  -- scaleDeployment and scaleSandboxDeployment: to scale what is missing to 0 is no error.
  unfoldable pub scale : Kind → ℕ → S → S × Option String
  scale k n s =
      let (s', answer) = update_scale (pool_of settings k).name n s in
      elim answer [
        | scaled ↦ (s', none)
        | scale_missing e ↦ if eqb n 0 then (s', none) else (s', some e)
        | scale_error e ↦ (s', some e)
      ]

  -- ensureDeployment and ensureSandboxDeployment
  unfoldable pub ensure_deployment : Kind → S → S × Option String
  ensure_deployment k s =
      let (s', found) = find (pool_of settings k).name s in
      elim found [
        | deployment replicas available ↦ (s', none)
        | get_error e ↦ (s', some e)
        | missing ↦
            create (pool_of settings k).name (labels_of settings k) (pool_of settings k).least s'
      ]

  -- The replicas that are set, or 0.
  unfoldable pub replicas_of : Found → ℕ
  replicas_of (deployment replicas available) = get_or 0 replicas
  replicas_of _ = 0

  -- Does the pool have so many available replicas, or did the call fail?
  unfoldable pub is_ready : ℕ → Found → Option (Option String)
  is_ready target missing = none
  is_ready target (get_error e) = some (some e)
  is_ready target (deployment replicas available) = if leb target available then some none else none

  -- The loop of waitForReadyTaskManagers and waitForReadySandbox, on fuel: none is out of fuel, and
  -- `not_ready` the text for the deadline.
  unfoldable pub wait_ready : ℕ → Kind → String → ℕ → S → Option (S × Option String)
  unfolding is_ready
  wait_ready zero k not_ready target s = none
  wait_ready (suc fuel) k not_ready target s =
      let (s1, found) = find (pool_of settings k).name s in
      elim (is_ready target found) [
        | some answer ↦ some (s1, answer)
        | none ↦
            let (s2, woken) = wait s1 in
            elim woken [
              | cancelled e ↦ some (s2, some e)
              | deadline ↦ some (s2, some not_ready)
              | tick ↦ wait_ready fuel k not_ready target s2
            ]
      ]

  -- ensureTaskManagerCapacity and ensureSandboxCapacity, up to the wait: the state, and the target to
  -- wait for or an error.
  unfoldable pub grow : Kind → State → S → S × State × Option String
  unfolding scale ensure_deployment replicas_of to_int32
  grow k st s =
      let target = desired_of settings k st in
      let replicas = to_int32 target in
      if eqb target 0
      then (s, st, none)
      else (let (s1, failure) = ensure_deployment k s in
          elim failure [
            | some e ↦ (s1, st, some e)
            | none ↦
                let (s2, found) = find (pool_of settings k).name s1 in
                if ltb (replicas_of found) replicas
                then (let (s3, failed) = scale k replicas s2 in
                    elim failed [
                      | some e ↦ (s3, st, some e)
                      | none ↦ let st' = resize k replicas st in (persist st' s3, st', none)
                    ])
                else if ltb (size_of k st) replicas
                then (let st' = resize k (replicas_of found) st in (persist st' s2, st', none))
                else (s2, st, none)
          ])

  -- With the wait, which ends at once for a target of 0.
  unfoldable pub ensure_capacity :
      ℕ → Kind → String → State → S → Option (S × State × Option String)
  ensure_capacity fuel k not_ready st s =
      let target = to_int32 (desired_of settings k st) in
      let (s', st', failure) = grow k st s in
      elim failure [
        | some e ↦ some (s', st', some e)
        | none ↦
            if eqb target 0
            then some (s', st', none)
            else elim (wait_ready fuel k not_ready target (start s')) [
              | none ↦ none
              | some (s'', answer) ↦ some (s'', st', answer)
            ]
      ]

  -- reconcileTM; reconcileSandbox differs in the pool.
  unfoldable pub reconcile_pool : ℕ → Kind → String → State → S → Option (S × State)
  reconcile_pool fuel k not_ready st s =
      let p = pool_of settings k in
      let current = size_of k st in
      if ltb (current * p.slots) (pending_of k st)
      then (if ltb current (desired_of settings k st)
          then elim (ensure_capacity fuel k not_ready st s) [
            | none ↦ none
            | some (s', st', failure) ↦ some (s', st')
          ]
          else some (s, st))
      else if ltb settings.idle_timeout (now s - st.last_activity) && ltb p.least current
      then (let target = if ltb (current - 1) p.least then p.least else current - 1 in
          let (s', failure) = scale k target s in
          elim failure [
            | some e ↦ some (s', st)
            | none ↦ let st' = resize k target st in some (persist st' s', st')
          ])
      else some (s, st)

  abbrev pub ensure_sandbox_capacity : ℕ → String → State → S → Option (S × State × Option String)
  ensure_sandbox_capacity fuel not_ready st s = ensure_capacity fuel sandboxes not_ready st s

  abbrev pub reconcile_sandbox : ℕ → String → State → S → Option (S × State)
  reconcile_sandbox fuel not_ready st s = reconcile_pool fuel sandboxes not_ready st s

  -- reconcile
  unfoldable pub reconcile : ℕ → String → State → S → Option (S × State)
  reconcile fuel not_ready st s = elim (reconcile_pool fuel tms not_ready st s) [
    | none ↦ none
    | some (s', st') ↦
        if settings.sandbox_enabled
        then reconcile_pool fuel sandboxes not_ready st' s'
        else some (s', st')
  ]

  -- The state of a new manager, and what restore makes of a cached one.
  unfoldable pub new_state : State
  new_state = record {
    current_tms = settings.tms.least;
    pending_plans = 0;
    sandbox_replicas = settings.sandbox.least;
    sandbox_pending = 0;
    last_activity = 0;
  }

  unfoldable pub restore : State → State → State
  restore cached st = record cached {
    last_activity = if eqb cached.last_activity 0 then st.last_activity else cached.last_activity;
  }

  -- Shutdown, behind the cancellation; errors are logged.
  unfoldable pub shutdown : S → S
  unfolding scale
  shutdown s =
      let (s', failure) = scale tms settings.tms.least s in
      if settings.sandbox_enabled then (scale sandboxes settings.sandbox.least s').0 else s'

  -- Deploy a pool with a minimum at that size; errors are logged.
  unfoldable pub start_pool : Kind → S → S
  unfolding ensure_deployment scale
  start_pool k s =
      if ltb 0 (pool_of settings k).least
      then (let (s', missed) = ensure_deployment k s in
          let (s'', failed) = scale k (pool_of settings k).least s' in s'')
      else s

  -- The end of NewKubernetesResourceManager, where `cached` is the state in the cache, if there is one.
  unfoldable pub new_manager : Option State → S → S × State
  unfolding new_state restore start_pool
  new_manager cached s =
      let st : State = elim cached [ none ↦ new_state | some c ↦ restore c new_state ] in
      let s' = start_pool tms s in
      let s'' = if settings.sandbox_enabled then start_pool sandboxes s' else s' in
      (persist st s'', st)
