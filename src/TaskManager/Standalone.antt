-- ===== src/TaskManager/Standalone.antt =====
-- `StandaloneResourceManager` of core/pkg/engine/resourcemanager/standalone.go: a pool of slots over a
-- task manager in the same process.
use flowgent.Prelude.{ℕ, zero, suc, String, none, [], ltb, if◌then◌else◌}
use flowgent.Prelude.Int.{ℤ, pos, negsuc}
use flowgent.Dag.{ExecutionPlan, task_pending}
use flowgent.JobMaster.Execute.{Reply, schedule_error, result}
use flowgent.TaskManager.{Executor, Ran, run_error, ran, Task, execute_plan}

-- The size of the pool that NewStandaloneResourceManager makes.
unfoldable pub pool_size_of : ℤ → ℕ
pool_size_of (negsuc n) = 10
pool_size_of (pos zero) = 10
pool_size_of (pos (suc n)) = suc n

-- The task that Schedule hands to the task manager.
abbrev pub new_task : ExecutionPlan → Task
new_task plan = record {
  agent_flow_run_id = plan.agent_flow_run_id;
  node_id = plan.node_id;
  status = task_pending;
  exec_id = plan.plan_id;
  input = [];
  output = none;
  error = "";
  finished_at = none;
}

-- What Schedule makes of what ExecutePlan returned.
unfoldable pub reply_of : Task → Ran → Reply
reply_of task (run_error e) = result (record { output = none; error = e })
reply_of task (ran r) = result (record { output = task.output; error = "" })

-- Schedule, with the slots in use when it is called; the deferred release frees its own.
unfoldable pub schedule :
    {S : Type 0}
    → Executor S
    → (Task → S → S)
    → (S → ℕ)
    → (ℕ → String)
    → ℕ
    → ℕ
    → ExecutionPlan
    → S
    → S × Reply
unfolding reply_of execute_plan
schedule router save now full pool_size in_use plan s =
    if ltb in_use pool_size
    then (let (s', task, answer) = execute_plan router save now plan (new_task plan) s in
        (s', reply_of task answer))
    else (s, schedule_error (full pool_size))
