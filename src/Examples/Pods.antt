-- ===== src/Examples/Pods.antt =====
-- A cluster for the Kubernetes resource manager (core/pkg/engine/resourcemanager/kubernetes.go).
use flowgent.Prelude.{ℕ, zero, suc, ◌<◌, false, none, some, [], ◌∷◌, ◌≡◌, ◌≢◌, refl, arith}
use flowgent.Prelude.Int.{pos}
use flowgent.Kubernetes.Settings.{Config, settings_of, positive_or, at_least_zero, default_if_empty}
use flowgent.Kubernetes.Pools.{
  Cluster, State, tms, pool_of, deployment, scaled, Wake, tick, deadline, desired_count,
}
use flowgent.Kubernetes.Scaling.{
  scale, ensure_deployment, replicas_of, is_ready, wait_ready, grow, ensure_capacity, reconcile,
}
use flowgent.Kubernetes.Sizes.{IsUsed, Suffices, ensure_capacity-Suffices}
use flowgent.Kubernetes.Waits.{IsTimed, reconcile-returns}
use flowgent.Dag.{TaskType}
use flowgent.JobMaster.Execute.{settle}
use flowgent.TaskManager.{Ran, ran}
use flowgent.TaskManager.Worker.{ExecResult}
use flowgent.Kubernetes.Dispatch.{Queue, exchange}
use flowgent.Kubernetes.Settles.{waiter, message_of, settle_answer, exchange-settles}
use flowgent.Examples.Models.{plan}
use flowgent.Examples.Run.{graph}

-- The defaults, with at most three task managers.
abbrev config : Config
config = record {
  slots_per_tm = pos 0;
  min_tms = pos 0;
  max_tms = pos 3;
  idle_timeout = pos 0;
  plan_timeout = pos 0;
  k8s_namespace = "";
  k8s_deployment_name = "";
  sandbox_enabled = false;
  sandbox_deployment_name = "";
  sandbox_slots_per_pod = pos 0;
  sandbox_min_replicas = pos 0;
  sandbox_max_replicas = pos 0;
  owner_namespace_id = "";
  owner_flow_id = "";
  owner_job_manager_name = "";
  owner_job_manager_namespace = "";
}

-- The replicas, those that are available, and the seconds that the timer has left. At each tick all
-- replicas come up.
abbrev World : Type 0
World = ℕ × ℕ × ℕ

unfoldable next : World → World × Wake
next (replicas, available, zero) = ((replicas, available, zero), deadline)
next (replicas, available, suc n) = ((replicas, replicas, n), tick)

abbrev cluster : Cluster State
cluster = record {
  S = World;
  find = λ name s. (s, deployment (some s.0) s.1);
  create = λ name labels replicas s. ((replicas, s.1, s.2), none);
  update_scale = λ name n s. ((n, s.1, s.2), scaled);
  start = λ s. (s.0, s.1, 120);
  wait = λ s. next s;
  now = λ s. 0;
  persist = λ st s. s;
}

-- Nine plans wait, and one task manager runs.
abbrev busy : State
busy = record {
  current_tms = 1;
  pending_plans = 9;
  sandbox_replicas = 0;
  sandbox_pending = 0;
  last_activity = 0;
}

grown :
    ensure_capacity (settings_of config) cluster 121 tms "not ready" busy (1, 1, 0)
    ≡ some ((3, 3, 119), record busy { current_tms = 3 }, none)
unfolding ensure_capacity grow wait_ready is_ready scale ensure_deployment replicas_of desired_count
    settings_of positive_or at_least_zero default_if_empty next
grown = refl

task_managers-IsUsed : IsUsed (settings_of config) tms
unfolding settings_of positive_or at_least_zero
task_managers-IsUsed = record { enabled = refl; least_fits = omega arith; most_fits = omega arith }

ensure_capacity-Suffices_example : Suffices (pool_of (settings_of config) tms) 9 3
ensure_capacity-Suffices_example =
    ensure_capacity-Suffices config cluster 121 tms "not ready" busy (1, 1, 0) (3, 3, 119)
      (record busy { current_tms = 3 }) task_managers-IsUsed grown

next-tick : (s : World) → (next s).1 ≡ tick → (next s).0.2 < s.2
unfolding next
next-tick (replicas, available, zero) h = cc
next-tick (replicas, available, suc n) h = omega arith

cluster-IsTimed : IsTimed cluster 121
cluster-IsTimed = record {
  left = λ s. s.2;
  started = λ s. omega arith;
  found = λ name s. omega arith;
  ticked = λ s h. next-tick s h;
}

reconcile-returns_example :
    (r : World × State) × (reconcile (settings_of config) cluster 121 "not ready" busy (1, 1, 0)
      ≡ some r)
reconcile-returns_example =
    reconcile-returns (settings_of config) cluster 121 "not ready" busy (1, 1, 0) cluster-IsTimed

-- The worker finds that the script failed, and its message comes behind one about another node.
abbrev failure : Ran
failure = ran (record { output = none; error = "exit status 1" })

abbrev of_other : ExecResult
of_other = record (message_of plan failure) { node_id = "other" }

abbrev broker : Queue ℕ
broker = record {
  publish = λ topic p s. (suc s, none);
  results = λ p s. (s, of_other ∷ message_of p failure ∷ []);
}

not_plan : of_other.node_id ≢ plan.node_id
not_plan e = cc

exchange-settles_example :
    (settle "review" TaskType.agent (exchange broker plan [] 0).2 graph
      ≡ settle_answer "review" TaskType.agent plan.plan_id failure graph)
    × (waiter (exchange broker plan [] 0).1 plan.agent_flow_run_id plan.node_id ≡ none)
exchange-settles_example =
    exchange-settles broker plan [] 0 (of_other ∷ []) [] failure "review" TaskType.agent graph refl
      refl (not_plan, tt)
