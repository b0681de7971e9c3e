-- ===== src/Kubernetes/Dispatch.antt =====
-- Schedule of kubernetes.go: a plan goes to the task managers over the messager, and its result comes
-- back on the topic of its run. A channel is told by its node and the plan that waits on it.
use Prim.Native.String.{◌++◌ as str_append}
use flowgent.Prelude.{
  ℕ, ◌+◌, ◌-◌, String, Bool, true, false, Option, none, some, List, [], ◌∷◌, ◌==◌, ◌&&◌,
  if◌then◌else◌,
}
use flowgent.Prelude.Dict.{Dict, get, put, remove, get_or}
use flowgent.Dag.{ExecutionPlan, TaskType, TaskStatus}
use flowgent.JobMaster.Execute.{Reply, schedule_error, result}
use flowgent.Messager.Names.{exec_plans_topic}
use flowgent.TaskManager.Worker.{ExecResult}
use flowgent.Kubernetes.Settings.{Settings}
use flowgent.Kubernetes.Pools.{Cluster, State, tms}
use flowgent.Kubernetes.Scaling.{ensure_capacity, ensure_sandbox_capacity}

-- runResults: of each run, the nodes whose plans wait.
abbrev pub Waiting : Type 0
Waiting = Dict (Dict String)

-- The registration of a plan.
unfoldable pub register : Waiting → String → String → String → Waiting
register w run node plan = put w run (put (get_or [] (get w run)) node plan)

unfoldable pub unregister : Waiting → String → String → Waiting
unregister w run node = put w run (remove (get_or [] (get w run)) node)

-- The handler of a run's results, with the channel that gets the message.
unfoldable pub receive : Waiting → String → ExecResult → Waiting × Option String
unfolding unregister
receive w run er = elim (get (get_or [] (get w run)) er.node_id) [
  | none ↦ (w, none)
  | some plan ↦ (unregister w run er.node_id, some plan)
]

-- Is it the plan's channel?
abbrev pub is_for : String → Option String → Bool
is_for plan none = false
is_for plan (some c) = c == plan

-- The select at the end of Schedule, over the messages of the run that arrive before the context ends:
-- the first on the plan's channel, or none.
unfoldable pub await :
    Waiting → String → String → String → List ExecResult → Waiting × Option ExecResult
unfolding receive unregister
await w run node plan [] = (unregister w run node, none)
await w run node plan (er ∷ ers) =
    let (w', channel) = receive w run er in
    let rest = await w' run node plan ers in
    if er.node_id == node && is_for plan channel then (w', some er) else rest

abbrev pub is_failed : TaskStatus → Bool
is_failed TaskStatus.failed = true
is_failed _ = false

abbrev pub is_sandbox : TaskType → Bool
is_sandbox TaskType.sandbox = true
is_sandbox _ = false

-- What Schedule returns for a message, or for none.
unfoldable pub reply_to : String → Option ExecResult → Reply
reply_to plan none =
    schedule_error
      (str_append "kubernetes rm: plan " (str_append plan " timed out waiting for TM result"))
reply_to plan (some er) =
    if is_failed er.state
    then schedule_error (str_append "plan " (str_append plan " failed"))
    else result (record { output = er.output; error = "" })

-- The messager: Publish of a plan, and the results of its run that arrive while it waits.
pub record Queue (S : Type 0) : Type 0 where
  pub publish : String → ExecutionPlan → S → S × Option String
  pub results : ExecutionPlan → S → S × List ExecResult

module _ {S : Type 0} (queue : Queue S) where
  open queue use {publish, results}

  -- Schedule behind the scaling.
  unfoldable pub exchange : ExecutionPlan → Waiting → S → S × Waiting × Reply
  exchange plan w s =
      let w1 = register w plan.agent_flow_run_id plan.node_id plan.plan_id in
      let topic =
        exec_plans_topic plan.namespace plan.agent_flow_definition_id plan.agent_flow_run_id in
      let (s1, failure) = publish topic plan s in
      elim failure [
        | some e ↦ (
          s1,
          unregister w1 plan.agent_flow_run_id plan.node_id,
          schedule_error (str_append "kubernetes rm publish: " e),
        )
        | none ↦
            let (s2, messages) = results plan s1 in
            let (w2, message) =
              await w1 plan.agent_flow_run_id plan.node_id plan.plan_id messages in
            (s2, w2, reply_to plan.plan_id message)
      ]

-- The counters that Schedule raises, and lowers when it returns.
abbrev pub enter : ℕ → State → State
enter now st = record st { pending_plans = st.pending_plans + 1; last_activity = now }

abbrev pub leave : State → State
leave st = record st { pending_plans = st.pending_plans - 1 }

abbrev pub enter_sandbox : State → State
enter_sandbox st = record st { sandbox_pending = st.sandbox_pending + 1 }

abbrev pub leave_sandbox : State → State
leave_sandbox st = record st { sandbox_pending = st.sandbox_pending - 1 }

-- What Schedule leaves and returns.
pub record Scheduled (S : Type 0) : Type 0 where
  pub world : S
  pub state : State
  pub waiting : Waiting
  pub reply : Reply

module _ (settings : Settings) (cluster : Cluster State) (queue : Queue cluster.S) where
  open cluster use {S, now}

  -- The part behind the task managers' capacity.
  unfoldable pub schedule_sandbox :
      ℕ → String → ExecutionPlan → State → Waiting → S → Option (Scheduled S)
  unfolding exchange
  schedule_sandbox fuel not_ready plan st w s =
      elim (ensure_sandbox_capacity settings cluster fuel not_ready st s) [
        | none ↦ none
        | some (s', st', some e) ↦ some (record {
          world = s';
          state = st';
          waiting = w;
          reply = schedule_error (str_append "kubernetes rm sandbox capacity: " e);
        })
        | some (s', st', none) ↦
            let (s'', w', reply) = exchange queue plan w s' in
            some (record { world = s''; state = st'; waiting = w'; reply = reply })
      ]

  -- Schedule, on the fuel of its waits: none is out of fuel.
  unfoldable pub schedule : ℕ → String → ExecutionPlan → State → Waiting → S → Option (Scheduled S)
  schedule fuel not_ready plan st w s =
      elim (ensure_capacity settings cluster fuel tms not_ready (enter (now s) st) s) [
        | none ↦ none
        | some (s', st', some e) ↦ some (record {
          world = s';
          state = leave st';
          waiting = w;
          reply = schedule_error (str_append "kubernetes rm capacity: " e);
        })
        | some (s', st', none) ↦
            if is_sandbox plan.task_type
            then (if settings.sandbox_enabled
                then elim (schedule_sandbox fuel not_ready plan (enter_sandbox st') w s') [
                  | none ↦ none
                  | some r ↦ some (record r { state = leave (leave_sandbox r.state) })
                ]
                else (let (s'', w', reply) = exchange queue plan w s' in
                    some (record { world = s''; state = leave st'; waiting = w'; reply = reply })))
            else (let (s'', w', reply) = exchange queue plan w s' in
                some (record { world = s''; state = leave st'; waiting = w'; reply = reply }))
      ]
