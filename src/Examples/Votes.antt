-- ===== src/Examples/Votes.antt =====
-- A committee of three, of whom two approve, under `majority_strict` of committee.go.
use flowgent.Prelude.{
  ℕ, ◌≤◌, Bool, true, false, none, some, [], ◌∷◌, ◌≡◌, refl, ◌↔◌, length, select,
}
use flowgent.Prelude.Int.{pos}
use flowgent.Prelude.Dict.{get}
use flowgent.Value.{Value, field, end, to_items}
use flowgent.Dag.{ExecutionPlan, TaskType, TaskStatus}
use flowgent.Committee.{is_approval, execute}
use flowgent.Committee.Laws.{votes_of, Meets, execute-decides}

abbrev vote : Bool → Value
vote b = Value.obj (field "decision" (Value.bool b) end)

abbrev plan : ExecutionPlan
plan = record {
  plan_id = "plan";
  agent_flow_run_id = "run";
  agent_flow_definition_id = "flow";
  namespace = "default";
  task_id = "task";
  task_type = TaskType.committee;
  node_id = "vote";
  state = TaskStatus.task_pending;
  max_retries = pos 3;
  input = ("votes", Value.arr (to_items (vote true ∷ vote false ∷ vote true ∷ []))) ∷ [];
  node_spec = record {
    id = "vote";
    kind = "committee";
    type = "committee";
    agent = "";
    tool = "";
    expression = "";
    instruction = "";
    strategy = some (("type", Value.str "majority_strict") ∷ []);
    concurrency = pos 0;
    retry = none;
    approval = none;
    supervisor_config = none;
    raw_input = none;
    args = none;
    output_schema = none;
  };
  created_at = 0;
}

two_of_three : (execute plan).decision ≡ true
unfolding execute get
two_of_three = refl

execute-decides_example :
    let d = execute plan in
    (d.approve ≡ length (select is_approval (votes_of plan)))
    × (d.total ≡ length (votes_of plan))
    × (d.approve ≤ d.total)
    × ((d.decision ≡ true) ↔ Meets d.strategy d.approve d.total)
execute-decides_example = execute-decides plan

abbrev two : ℕ
two = 2

abbrev four : ℕ
four = 4
