-- ===== src/Kubernetes/Settles.antt =====
-- What the job master makes of a node whose plan kubernetes.go sends to a task manager.
use Prim.Native.String.{◌++◌ as str_append}
use flowgent.Prelude.{
  String, true, false, Option, none, some, List, [], ◌∷◌, ◌++◌, ◌==◌, if◌then◌else◌, ◌≡◌, ◌≢◌, inl,
  inr, refl, sym, subst, eq_iff, eq_refl, Bool-cases, Option-cases, All,
}
use flowgent.Prelude.Dict.{get, put, remove, get_or, get-put, get-remove}
use flowgent.Prelude.Text.{eq-false}
use flowgent.Dag.{ExecutionPlan, TaskType, TaskResult, TaskStatus}
use flowgent.JobMaster.Graph.{JobMaster, fail}
use flowgent.JobMaster.Execute.{settle, succeed}
use flowgent.Messager.Names.{exec_plans_topic}
use flowgent.TaskManager.{Ran, run_error, ran}
use flowgent.TaskManager.Worker.{ExecResult, result_of}
use flowgent.Kubernetes.Dispatch.{
  Waiting, register, unregister, receive, await, reply_to, Queue, exchange,
}

-- The plan on whose channel a node of a run waits.
abbrev pub waiter : Waiting → String → String → Option String
waiter w run node = get (get_or [] (get w run)) node

waiter-register :
    (w : Waiting) (run node plan : String) → waiter (register w run node plan) run node ≡ some plan
unfolding register
waiter-register w run node plan =
    rw (get-put w run (put (get_or [] (get w run)) node plan) run, eq_refl run)
      (rw (get-put (get_or [] (get w run)) node plan node, eq_refl node) refl)

waiter-unregister :
    (w : Waiting) (run node other : String)
    → waiter (unregister w run other) run node ≡ (if other == node then none else waiter w run node)
unfolding unregister
waiter-unregister w run node other =
    rw (get-put w run (remove (get_or [] (get w run)) other) run, eq_refl run)
      (get-remove (get_or [] (get w run)) other node)

-- A message of another node leaves this one waiting.
receive-other :
    (w : Waiting) (run node plan : String) (er : ExecResult)
    → er.node_id ≢ node
    → waiter w run node ≡ some plan
    → waiter (receive w run er).0 run node ≡ some plan
unfolding receive
receive-other w run node plan er other h = elim (Option-cases (waiter w run er.node_id)) [
  | inl q ↦ rw (receive, q) h
  | inr (c, q) ↦
      rw (receive, q)
        (rw (waiter-unregister w run node er.node_id, eq-false er.node_id node other) h)
]

await-first :
    (others rest : List ExecResult) (w : Waiting) (run node plan : String) (er : ExecResult)
    → All (λ (o : ExecResult). o.node_id ≢ node) others
    → er.node_id ≡ node
    → waiter w run node ≡ some plan
    → ((await w run node plan (others ++ (er ∷ rest))).1 ≡ some er)
      × (waiter (await w run node plan (others ++ (er ∷ rest))).0 run node ≡ none)
unfolding await
await-first [] rest w run node plan er none_else here h =
    let q : waiter w run er.node_id ≡ some plan =
      subst (λ z. waiter w run z ≡ some plan) (sym here) h in
    let e = (eq_iff er.node_id node).1 here in
    rw (await, receive, q, e, eq_refl plan)
      (refl, rw (waiter-unregister w run node er.node_id, e) refl)
await-first (o ∷ others) rest w run node plan er (other, all) here h =
    rw (eq-false o.node_id node other) (
      await-first others rest (receive w run o).0 run node plan er all here
        (receive-other w run node plan o other h))

-- The message that a task manager's worker publishes about a plan, by what its executor answered.
abbrev pub message_of : ExecutionPlan → Ran → ExecResult
message_of plan answer =
    let (state, r) = result_of answer in
    record {
      plan_id = plan.plan_id;
      agent_flow_run_id = plan.agent_flow_run_id;
      node_id = plan.node_id;
      state = state;
      output = r.output;
      error = r.error;
    }

-- What becomes of a node by its executor's answer: an error, also one that a result reports, fails it
-- with a text that names the plan only, and any other answer completes it with its output.
unfoldable pub settle_answer : String → TaskType → String → Ran → JobMaster → JobMaster
settle_answer n t plan_id (run_error e) jm =
    fail
      (record jm {
        node_errors = put jm.node_errors n (str_append "plan " (str_append plan_id " failed"));
      })
      n
settle_answer n t plan_id (ran r) jm =
    if r.error == ""
    then succeed n t r.output jm
    else fail
        (record jm {
          node_errors = put jm.node_errors n (str_append "plan " (str_append plan_id " failed"));
        })
        n

result_of-error :
    (e : String)
    → result_of (run_error e) ≡ (TaskStatus.failed, record { output = none; error = e })
unfolding result_of
result_of-error e = refl

result_of-good :
    (r : TaskResult) → (r.error == "") ≡ true → result_of (ran r) ≡ (TaskStatus.success, r)
unfolding result_of
result_of-good r h = rw (result_of, h) refl

result_of-bad :
    (r : TaskResult) → (r.error == "") ≡ false → result_of (ran r) ≡ (TaskStatus.failed, r)
unfolding result_of
result_of-bad r h = rw (result_of, h) refl

settle-reply_to :
    (n : String) (t : TaskType) (plan : ExecutionPlan) (answer : Ran) (jm : JobMaster)
    → settle n t (reply_to plan.plan_id (some (message_of plan answer))) jm
      ≡ settle_answer n t plan.plan_id answer jm
unfolding settle reply_to settle_answer
settle-reply_to n t plan (run_error e) jm = rw (reply_to, result_of-error e) refl
settle-reply_to n t plan (ran r) jm = elim (Bool-cases (r.error == "")) [
  | inl e ↦
      rw (reply_to, settle_answer, result_of-good r e, e) (rw (message_of, result_of-good r e) refl)
  | inr e ↦ rw (reply_to, settle_answer, result_of-bad r e, e) refl
]

-- The call that publishes a plan.
abbrev pub published : {S : Type 0} → Queue S → ExecutionPlan → S → S × Option String
published queue plan s =
    queue.publish
      (exec_plans_topic plan.namespace plan.agent_flow_definition_id plan.agent_flow_run_id) plan s

-- Where a plan was published and its worker's message comes before the context ends, behind messages
-- of other nodes at most, the job master settles the node by what the executor answered: it fails the
-- node if there is an error, also one that only the result reports, and completes it with the output
-- if there is none. Then the node no longer waits.
pub exchange-settles :
    {S : Type 0} (queue : Queue S) (plan : ExecutionPlan) (w : Waiting) (s : S)
    (others rest : List ExecResult) (answer : Ran) (n : String) (t : TaskType) (jm : JobMaster)
    → (published queue plan s).1 ≡ none
    → (queue.results plan (published queue plan s).0).1 ≡ others ++ (message_of plan answer ∷ rest)
    → All (λ (o : ExecResult). o.node_id ≢ plan.node_id) others
    → (settle n t (exchange queue plan w s).2 jm ≡ settle_answer n t plan.plan_id answer jm)
      × (waiter (exchange queue plan w s).1 plan.agent_flow_run_id plan.node_id ≡ none)
unfolding exchange
exchange-settles queue plan w s others rest answer n t jm sent arrived all =
    let run = plan.agent_flow_run_id in
    let w1 = register w run plan.node_id plan.plan_id in
    let (first, gone) =
      await-first others rest w1 run plan.node_id plan.plan_id (message_of plan answer) all refl
        (waiter-register w run plan.node_id plan.plan_id) in
    rw (exchange, sent, arrived) (rw first (settle-reply_to n t plan answer jm), gone)
