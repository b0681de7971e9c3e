-- ===== src/Human/Node.antt =====
-- A human node, from the executor of human.go to the job master.
use flowgent.Prelude.{ℕ, ◌<◌, String, Option, none, some, List, ◌≡◌, refl, sym, subst, lt→ltb}
use flowgent.Prelude.Int.{ℤ}
use flowgent.Prelude.Dict.{get}
use flowgent.Value.{str, Object}
use flowgent.Dag.{ExecutionPlan, TaskType}
use flowgent.JobMaster.Graph.{JobMaster, done}
use flowgent.JobMaster.Execute.{settle, succeed, keep_output}
use flowgent.TaskManager.{Executor, Task, key_of, route, execute_plan}
use flowgent.TaskManager.Standalone.{schedule, reply_of}
use flowgent.Human.{ApprovalInfo, run_human, pending, waiting}

module _ {S : Type 0} (create : ApprovalInfo → S → S × (ApprovalInfo × Option String))
    (show_duration : ℤ → String) where
  runs :
      (executors : List (String × Executor S)) (plan : ExecutionPlan) (s : S)
      → plan.task_type ≡ TaskType.human
      → get executors "human" ≡ some (run_human create show_duration)
      → route executors plan s ≡ run_human create show_duration plan s
  unfolding route
  runs executors plan s is_human registered =
      let at_key =
        subst (λ z. get executors (key_of z) ≡ some (run_human create show_duration)) (sym is_human)
          registered in
      rw (route, at_key) refl

-- A human node that the standalone resource manager schedules on a free slot, and whose approval the
-- store creates, is at once complete for the job master, with an output of status WAITING_HUMAN: the
-- nodes behind it do not wait for the approval.
pub human-settles :
    {S : Type 0} (create : ApprovalInfo → S → S × (ApprovalInfo × Option String))
    (show_duration : ℤ → String) (executors : List (String × Executor S)) (save : Task → S → S)
    (now : S → ℕ) (full : ℕ → String) (pool_size in_use : ℕ) (plan : ExecutionPlan) (s : S)
    (n : String) (jm : JobMaster)
    → in_use < pool_size
    → plan.task_type ≡ TaskType.human
    → get executors "human" ≡ some (run_human create show_duration)
    → (create (pending plan) s).1.1 ≡ none
    → (out : Object) × (get out "status" ≡ some (str "WAITING_HUMAN"))
      × (settle n TaskType.human
            (schedule (route executors) save now full pool_size in_use plan s).1
            jm
          ≡ done (keep_output n (some out) jm) n)
unfolding settle schedule reply_of execute_plan run_human succeed waiting get
human-settles create show_duration executors save now full pool_size in_use plan s n jm free
      is_human registered created =
    let routed = runs create show_duration executors plan s is_human registered in
    (
      waiting create show_duration plan (create (pending plan) s).1.0.token,
      refl,
      rw (lt→ltb in_use pool_size free) (rw (execute_plan, routed) (rw (run_human, created) refl)),
    )
