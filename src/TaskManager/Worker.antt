-- ===== src/TaskManager/Worker.antt =====
-- The slot worker of core/pkg/engine/taskmanager/taskworker.go: what the handler of `Loop` does with a
-- plan, and `emitDownstream`. Metrics are left out.
use flowgent.Prelude.{
  ℕ, zero, suc, ◌+◌, String, Bool, true, false, Option, none, some, ◌==◌, if◌then◌else◌,
}
use flowgent.Value.{Object}
use flowgent.Dag.{ExecutionPlan, TaskResult, TaskStatus, success, failed}
use flowgent.Messager.Names.{exec_results_topic}
use flowgent.TaskManager.{Executor, Ran, run_error, ran, Task}

-- The state and the result that the handler puts into the plan.
unfoldable pub result_of : Ran → TaskStatus × TaskResult
result_of (run_error e) = (failed, record { output = none; error = e })
result_of (ran r) = if r.error == "" then (success, r) else (failed, r)

-- The payload that emitDownstream publishes.
pub record ExecResult : Type 0 where
  pub plan_id : String
  pub agent_flow_run_id : String
  pub node_id : String
  pub state : TaskStatus
  pub output : Option Object
  pub error : String

-- The three ways in which emitDownstream ends.
pub data Emission : Type 0 where
  published cancelled given_up : Emission

-- The queue; and the wait of so many seconds, which tells if the context ended first.
pub record Queue (S : Type 0) : Type 0 where
  pub publish : String → ExecResult → S → S × Option String
  pub wait : ℕ → S → S × Bool

module _ {S : Type 0} (queue : Queue S) where
  open queue use {publish, wait}

  -- The loop of emitDownstream, with the attempts that are left.
  unfoldable pub emit : ℕ → ℕ → String → ExecResult → S → S × Emission
  emit zero attempt topic msg s = (s, given_up)
  emit (suc left) attempt topic msg s =
      let (s', err) = publish topic msg s in
      elim err [
        | none ↦ (s', published)
        | some e ↦
            let (s'', is_done) = wait attempt s' in
            elim is_done [ true ↦ (s'', cancelled) | false ↦ emit left (attempt + 1) topic msg s'' ]
      ]

  -- emitDownstream
  unfoldable pub emit_downstream : ExecutionPlan → TaskStatus → TaskResult → S → S × Emission
  unfolding emit
  emit_downstream plan state result s =
      emit 5 1
        (exec_results_topic plan.namespace plan.agent_flow_definition_id plan.agent_flow_run_id)
        (record {
          plan_id = plan.plan_id;
          agent_flow_run_id = plan.agent_flow_run_id;
          node_id = plan.node_id;
          state = state;
          output = result.output;
          error = result.error;
        })
        s

  -- The handler, behind the decoding of the plan. `save` is SaveTask, whose error is dropped, where
  -- there is a state store.
  unfoldable pub handle : Executor S → Option (Task → S → S) → ExecutionPlan → S → S × Emission
  unfolding result_of emit_downstream
  handle router save plan s =
      let (s', answer) = router plan s in
      let (state, result) = result_of answer in
      let task : Task = record {
        agent_flow_run_id = plan.agent_flow_run_id;
        node_id = plan.node_id;
        status = state;
        exec_id = plan.plan_id;
        input = plan.input;
        output = result.output;
        error = result.error;
        finished_at = none;
      } in
      emit_downstream plan state result (elim save [ none ↦ s' | some f ↦ f task s' ])
