-- ===== src/Human.antt =====
-- `HumanExecutor` of core/pkg/engine/executor/human.go.
pub mod Node
use Prim.Native.String.{◌++◌ as str_append}
use flowgent.Prelude.{
  String, Bool, true, false, Option, none, some, List, [], ◌∷◌, ◌==◌, ◌||◌, if◌then◌else◌,
}
use flowgent.Prelude.Int.{ℤ, pos, is_positive}
use flowgent.Value.{Object, str}
use flowgent.Dag.{HumanApprovalConfig, ExecutionPlan}
use flowgent.TaskManager.{Executor, output, run_error}

-- The fields of ApprovalInfo that Execute sets or reads.
pub record ApprovalInfo : Type 0 where
  pub task_run_id : String
  pub token : String
  pub status : String
  pub timeout : ℤ

unfoldable pub resolve_action : String → String
resolve_action action =
    if (action == "continue") || ((action == "abort") || (action == "skip"))
    then action
    else "continue"

-- 24 hours, unless the configuration has a positive timeout.
unfoldable pub timeout_of : Option HumanApprovalConfig → ℤ
timeout_of none = pos 86400000000000
timeout_of (some config) = if is_positive config.timeout then config.timeout else pos 86400000000000

-- The actions on an approval and on a rejection.
unfoldable pub actions_of : Option HumanApprovalConfig → String × String
actions_of none = ("continue", "continue")
actions_of (some config) = (config.on_approve, config.on_reject)

-- The record that Execute hands to the store.
unfoldable pub pending : ExecutionPlan → ApprovalInfo
unfolding timeout_of
pending plan = record {
  task_run_id = plan.task_id;
  token = "";
  status = "PENDING";
  timeout = timeout_of plan.node_spec.approval;
}

-- `create` is CreateApproval of the store, with what it makes of the record and its error, and
-- `show_duration` is String of a duration.
module _ {S : Type 0} (create : ApprovalInfo → S → S × (ApprovalInfo × Option String))
    (show_duration : ℤ → String) where
  -- The output, with the token that the store gave.
  unfoldable pub waiting : ExecutionPlan → String → Object
  unfolding timeout_of actions_of resolve_action
  waiting plan token =
      let (on_approve, on_reject) = actions_of plan.node_spec.approval in
      ("approval_token", str token)
      ∷ ("timeout", str (show_duration (timeout_of plan.node_spec.approval)))
      ∷ ("status", str "WAITING_HUMAN")
      ∷ ("on_approve", str (resolve_action on_approve))
      ∷ ("on_reject", str (resolve_action on_reject))
      ∷ []

  -- HumanExecutor.Execute
  unfoldable pub run_human : Executor S
  unfolding pending waiting
  run_human plan s =
      let (s', answer) = create (pending plan) s in
      elim answer.1 [
        | some e ↦ (s', run_error (str_append "create human approval: " e))
        | none ↦ (s', output (waiting plan answer.0.token))
      ]
