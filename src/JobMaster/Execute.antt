-- ===== src/JobMaster/Execute.antt =====
-- `Execute` of jobmaster.go: the waves of ready nodes, and what a run ends with. What the loop calls
-- is the record `Env`: the clock, the context, the state store (`RunStateStore`), the resource
-- manager (`ResourceManager.Schedule`), and the encoders of the standard library.
use Prim.Native.String.{◌++◌ as str_append}
use flowgent.Prelude.{
  ℕ, zero, suc, String, Bool, Option, none, some, List, [], ◌∷◌, ◌==◌, length, if◌then◌else◌,
}
use flowgent.Prelude.Dict.{Dict, get, put, get_or}
use flowgent.Value.{Object, str, as_bool}
use flowgent.Template.{Format}
use flowgent.Dag.{
  Flow, FlowRun, RunStatus, TaskRun, TaskType, TaskResult, ExecutionPlan, run_running,
  run_completed, run_failed,
}
use flowgent.JobMaster.Graph.{
  JobMaster, has_failed, is_complete, ready, done, fail, children_of, set_condition_result,
  skip_children, collect_first_error,
}
use flowgent.JobMaster.Build.{build_execution_graph, apply_supervisor_config}
use flowgent.JobMaster.Input.{prepare_plan}

-- What `Schedule` returns: an error, or a result.
pub data Reply : Type 0 where
  schedule_error : String → Reply
  result : TaskResult → Reply

pub record Env : Type 1 where
  pub S : Type 0
  pub now : S → ℕ
  pub ctx_err : S → Option String
  pub update_run : FlowRun → S → S × Option String
  pub save_task : TaskRun → S → S × Option String
  pub schedule : ExecutionPlan → S → S × Reply
  pub fmt : Format
  pub marshal : Object → Option String
  pub has_writer : Bool

-- The knowledge entry that `postHandle` writes for one node.
pub record KnowledgeEntry : Type 0 where
  pub title : String
  pub content : String
  pub source_ref : String
  pub tags : List String

-- The four places where `Execute` returns.
pub data End : Type 0 where
  cancelled : String → End
  update_failed : String → End
  reported : End
  stalled : End

-- What one turn of the loop does.
pub data Action : Type 0 where
  cancel : String → Action
  report_failed : Action
  report_completed : Action
  stall : Action
  wave : List String → Action

-- taskRunFromPlan
unfoldable pub task_run_from_plan : ExecutionPlan → TaskRun
task_run_from_plan plan = record {
  id = plan.task_id;
  agent_flow_run_id = plan.agent_flow_run_id;
  node_id = plan.node_id;
  status = plan.state;
  input = plan.input;
  exec_id = plan.plan_id;
  max_retries = plan.max_retries;
}

unfoldable pub keep_output : String → Option Object → JobMaster → JobMaster
keep_output n none jm = jm
keep_output n (some o) jm = record jm { node_outputs = put jm.node_outputs n o }

-- Behind a condition node: the Boolean result, if there is one, is kept and skips children.
unfoldable pub apply_condition : Option Bool → String → JobMaster → JobMaster
apply_condition none n jm = jm
apply_condition (some r) n jm = skip_children n r (children_of jm n) (set_condition_result jm n r)

-- A node that succeeded: its output is kept, it is done, and a condition skips children.
unfoldable pub succeed : String → TaskType → Option Object → JobMaster → JobMaster
unfolding keep_output apply_condition
succeed n task_type output jm =
    let jm' = done (keep_output n output jm) n in
    elim task_type [
      | TaskType.condition ↦ apply_condition (as_bool (get (get_or [] output) "result")) n jm'
      | _ ↦ jm'
    ]

-- The branches on what `Schedule` returned.
unfoldable pub settle : String → TaskType → Reply → JobMaster → JobMaster
unfolding succeed
settle n task_type (schedule_error e) jm =
    fail (record jm { node_errors = put jm.node_errors n e }) n
settle n task_type (result r) jm =
    if r.error == ""
    then succeed n task_type r.output jm
    else fail (record jm { node_errors = put jm.node_errors n r.error }) n

-- The entries that the goroutine of `postHandle` hands to the writer, in the order of the outputs.
unfoldable pub entries_of :
    (Object → Option String) → Flow → String → Dict Object → List KnowledgeEntry
entries_of marshal spec run_id [] = []
entries_of marshal spec run_id ((n, o) ∷ outputs) =
    let rest = entries_of marshal spec run_id outputs in
    elim o [
      | [] ↦ rest
      | kv ∷ more ↦ elim (marshal (kv ∷ more)) [
        | none ↦ rest
        | some content ↦
            record {
              title = str_append "Run " (str_append run_id (str_append " / node " n));
              content = content;
              source_ref =
                  str_append spec.id (str_append ":" (str_append run_id (str_append ":" n)));
              tags = spec.id ∷ n ∷ [];
            }
            ∷ rest
      ]
    ]

-- The merge of the flow's variables, the run's and the built-in ones.
unfoldable pub put_all : Object → Object → Object
put_all [] vars = vars
put_all ((k, v) ∷ more) vars = put_all more (put vars k v)

unfoldable pub resolve_vars : Flow → FlowRun → Object
unfolding put_all
resolve_vars spec run =
    put
      (put (put (put_all run.vars (put_all spec.vars [])) "run_id" (str run.id)) "namespace_id"
        (str spec.namespace))
      "flow_id" (str spec.id)

-- The JobMaster as the loop starts with it.
unfoldable pub start : ℕ → FlowRun → Flow → JobMaster → JobMaster
unfolding resolve_vars
start at run spec jm =
    record (apply_supervisor_config spec.nodes (build_execution_graph at spec run.id jm)) {
      resolved_vars = resolve_vars spec run;
    }

module _ (env : Env) where
  open env use {S, now, ctx_err, update_run, save_task, schedule, fmt, marshal, has_writer}

  -- The state of the loop with the outside world, and what `Execute` leaves behind.
  pub record Outcome : Type 0 where
    pub end : End
    pub jm : JobMaster
    pub run : FlowRun
    pub env_state : S
    pub posted : List KnowledgeEntry

  -- The body of the loop over the ready nodes, for a node with its plan.
  unfoldable pub run_plan : String → ExecutionPlan → JobMaster × S → JobMaster × S
  unfolding task_run_from_plan
  run_plan n plan (jm, s) =
      let plan' = prepare_plan fmt jm plan in
      let jm' = record jm { plan_map = put jm.plan_map n plan' } in
      let saved = save_task (task_run_from_plan plan') s in
      let (s', reply) = schedule plan' saved.0 in (settle n plan'.task_type reply jm', s')

  -- A node without a plan is passed over.
  unfoldable pub run_node : String → JobMaster × S → JobMaster × S
  unfolding run_plan
  run_node n (jm, s) = elim (get jm.plan_map n) [
    | none ↦ (jm, s)
    | some plan ↦ run_plan n plan (jm, s)
  ]

  unfoldable pub run_wave : List String → JobMaster × S → JobMaster × S
  run_wave [] st = st
  run_wave (n ∷ ns) st = run_wave ns (run_node n st)

  -- The tests at the head of the loop, in their order.
  unfoldable pub next_action : JobMaster → S → Action
  next_action jm s = elim (ctx_err s) [
    | some e ↦ cancel e
    | none ↦
        if has_failed jm
        then report_failed
        else if is_complete jm
        then report_completed
        else elim (ready jm) [ [] ↦ stall | n ∷ ns ↦ wave (n ∷ ns) ]
  ]

  -- UpdateRun with the final status, and `postHandle` if that works.
  unfoldable pub report : Flow → RunStatus → String → FlowRun → JobMaster → S → Outcome
  unfolding entries_of
  report spec status error run jm s =
      let run' = record run { status = status; error = error; finished_at = some (now s) } in
      let (s', e) = update_run run' s in
      elim e [
        | some err ↦ record {
          end = update_failed err;
          jm = jm;
          run = run';
          env_state = s';
          posted = [];
        }
        | none ↦ record {
          end = reported;
          jm = jm;
          run = run';
          env_state = s';
          posted = if has_writer then entries_of marshal spec run.id jm.node_outputs else [];
        }
      ]

  unfoldable pub execute_loop : ℕ → Flow → FlowRun → JobMaster → S → Option Outcome
  unfolding next_action report run_wave
  execute_loop zero spec run jm s = none
  execute_loop (suc fuel) spec run jm s = elim (next_action jm s) [
    | cancel e ↦ some (record { end = cancelled e; jm = jm; run = run; env_state = s; posted = [] })
    | report_failed ↦ some (report spec run_failed (collect_first_error jm) run jm s)
    | report_completed ↦ some (report spec run_completed run.error run jm s)
    | stall ↦ some (record { end = stalled; jm = jm; run = run; env_state = s; posted = [] })
    | wave ns ↦ let st = run_wave ns (jm, s) in execute_loop fuel spec run st.0 st.1
  ]

  -- Execute. The loop makes at most one turn for each node, and one more.
  unfoldable pub execute : FlowRun → Flow → JobMaster → S → Option Outcome
  unfolding execute_loop start
  execute run spec jm s =
      let run' = record run { status = run_running; started_at = some (now s) } in
      let updated = update_run run' s in
      execute_loop (suc (length spec.nodes)) spec run' (start (now s) run spec jm) updated.0
