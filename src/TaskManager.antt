-- ===== src/TaskManager.antt =====
-- The task manager: `TaskExecutorRouter` (executor.go), the executors of condition-free nodes (noop.go,
-- join.go, map.go, subflow.go, tool.go) and `ExecutePlan` of taskmanager.go; Worker has the slot worker
-- (taskworker.go), Standalone the resource manager that calls a task manager in the same process
-- (resourcemanager/standalone.go).
pub mod Worker
pub mod Standalone
pub mod Laws
use Prim.Native.String.{◌++◌ as str_append}
use flowgent.Prelude.{
  ℕ, String, Bool, true, false, Option, none, some, List, [], ◌∷◌, ◌==◌, eqb, length, if◌then◌else◌,
}
use flowgent.Prelude.Dict.{get, put, remove, get_or}
use flowgent.Value.{
  Value, Number, int, bool, number, str, arr, Object, as_string, as_list, to_items,
}
use flowgent.JobMaster.Execute.{put_all}
use flowgent.Dag.{
  ExecutionPlan, TaskResult, TaskStatus, success, failed, TaskType, agent, condition, tool, skill,
  supervisor, subflow, committee, map, join, human, sandbox, noop,
}

-- What an executor returns: an error, or a result.
pub data Ran : Type 0 where
  run_error : String → Ran
  ran : TaskResult → Ran

abbrev pub Executor : Type 0 → Type 0
Executor S = ExecutionPlan → S → S × Ran

-- The key of a task type in the router's map.
abbrev pub key_of : TaskType → String
key_of agent = "agent"
key_of condition = "condition"
key_of tool = "tool"
key_of skill = "skill"
key_of supervisor = "supervisor"
key_of subflow = "subflow"
key_of committee = "committee"
key_of map = "map"
key_of join = "join"
key_of human = "human"
key_of sandbox = "sandbox"
key_of noop = "noop"

-- Execute of the router.
unfoldable pub route : {S : Type 0} → List (String × Executor S) → Executor S
route executors plan s = elim (get executors (key_of plan.task_type)) [
  | none ↦ (
    s,
    run_error (
        str_append "no executor registered for task type \""
          (str_append (key_of plan.task_type) "\"")),
  )
  | some execute ↦ execute plan s
]

abbrev pub output : Object → Ran
output o = ran (record { output = some o; error = "" })

-- NoopExecutor.Execute
unfoldable pub run_noop : {S : Type 0} → Executor S
run_noop plan s = (s, output (put_all plan.input (("result", bool true) ∷ [])))

-- JoinExecutor.Execute
unfoldable pub run_join : {S : Type 0} → Executor S
run_join plan s =
    let results = get_or [] (as_list (get plan.input "results")) in
    (
      s,
      output (
          ("results", arr (to_items results))
          ∷ ("count", number (int false (length results)))
          ∷ []),
    )

-- MapExecutor.Execute and SubflowExecutor.Execute
unfoldable pub run_dispatched : {S : Type 0} → Executor S
run_dispatched plan s = (s, output (("status", str "dispatched") ∷ []))

-- ToolExecutor.Execute; `call_tool` is McpManager.CallTool.
unfoldable pub run_tool : {S : Type 0} → (String → String → Object → S → S × Ran) → Executor S
run_tool call_tool plan s =
    call_tool plan.node_spec.tool (get_or "call" (as_string (get plan.input "action")))
      (remove plan.input "action") s

-- The task that ExecutePlan fills in and saves.
pub record Task : Type 0 where
  pub agent_flow_run_id : String
  pub node_id : String
  pub status : TaskStatus
  pub exec_id : String
  pub input : Object
  pub output : Option Object
  pub error : String
  pub finished_at : Option ℕ

-- ExecutePlan: the task that it leaves, and what it returns. The error of a save is dropped.
unfoldable pub execute_plan :
    {S : Type 0} → Executor S → (Task → S → S) → (S → ℕ) → ExecutionPlan → Task → S → S × Task × Ran
execute_plan router save now plan task s =
    let (s', answer) = router plan s in
    elim answer [
      | run_error e ↦ (s', record task { input = plan.input }, run_error e)
      | ran r ↦
          let saved = record task {
            input = plan.input;
            output = r.output;
            error = r.error;
            status = if r.error == "" then success else failed;
            finished_at = some (now s');
          } in
          (save saved s', saved, ran r)
    ]
