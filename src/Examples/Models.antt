-- ===== src/Examples/Models.antt =====
-- A schema with values (common/pkg/utils/schema.go), and a language model that fails once and then
-- answers (core/pkg/engine/executor/agent.go, supervisor.go).
use flowgent.Prelude.{
  Option, List, ℕ, zero, suc, String, Bool, false, none, some, [], ◌∷◌, ◌≡◌, ◌↔◌, ◌⊎◌, refl,
}
use flowgent.Prelude.Text.{cut_prefix}
use flowgent.Prelude.Int.{pos}
use flowgent.Prelude.Dict.{get, put}
use flowgent.Value.{Value, field, end, cons, nil, Object, to_fields}
use flowgent.Dag.{ExecutionPlan, TaskType, TaskStatus}
use flowgent.Schema.{
  validate, fits, check_type, check_typed, has_type, node, properties, items, each_item,
  validate_node,
}
use flowgent.Schema.Required.{each_required, check_required}
use flowgent.Schema.Conforms.{Conforms}
use flowgent.Schema.Sound.{validate_iff}
use flowgent.Agent.Extract.{extract_json}
use flowgent.Agent.Services.{Agent, Outside, found, good, bad}
use flowgent.Agent.Prompt.{
  remember, recall, soul_of, instruction_of, with_instruction, with_schema, schema_of,
}
use flowgent.Supervisor.{supervise, decision_of, decide, is_allowed, is_member}
use flowgent.Supervisor.Actions.{IsDecided, supervise-IsDecided}
use flowgent.Agent.{failed, returned, execute, attempts, try_once, judge, check_output}
use flowgent.Agent.Replies.{IsAccepted, IsUnfetched, AreRejected, execute-returned, execute-failed}

-- An object with a text under "name".
abbrev schema : Object
schema =
    ("type", Value.str "object")
    ∷ (
      "properties",
      Value.obj (field "name" (Value.obj (field "type" (Value.str "string") end)) end),
    )
    ∷ ("required", Value.arr (cons (Value.str "name") nil))
    ∷ []

abbrev named : Object
named = ("name", Value.str "x") ∷ []

abbrev show : ℕ → String
show n = "n"

abbrev is_whole : ℕ → Bool
is_whole b = false

validate_iff_example :
    (validate show is_whole (some (to_fields schema)) (Value.obj (to_fields named)) ≡ none)
    ↔ Conforms is_whole (to_fields schema) (Value.obj (to_fields named))
validate_iff_example = validate_iff show is_whole (to_fields schema) (Value.obj (to_fields named))

abbrev pub plan : ExecutionPlan
plan = record {
  plan_id = "plan";
  agent_flow_run_id = "run";
  agent_flow_definition_id = "flow";
  namespace = "default";
  task_id = "task";
  task_type = TaskType.agent;
  node_id = "review";
  state = TaskStatus.task_pending;
  max_retries = pos 3;
  input = [];
  node_spec = record {
    id = "review";
    kind = "agent";
    type = "agent";
    agent = "reviewer";
    tool = "";
    expression = "";
    instruction = "";
    strategy = none;
    concurrency = pos 0;
    retry = none;
    approval = none;
    supervisor_config =
        some (record { max_nodes = pos 3; allowed_actions = "continue" ∷ "stop" ∷ [] });
    raw_input = none;
    args = none;
    output_schema = none;
  };
  created_at = 0;
}

abbrev reviewer : Agent ℕ
reviewer = record {
  soul = "";
  instruction = "";
  model = "m";
  temperature = none;
  max_tokens = pos 100;
  output_schema = some schema;
}

-- The state counts the calls of the model: the first fails.
abbrev outside : (String → Option Object) → Outside
outside parse = record {
  S = ℕ;
  T = ℕ;
  default_temperature = 30;
  get_agent = λ name s. (s, found reviewer);
  generate = λ soul prompt model temperature max_tokens s.
      (suc s, elim s [ zero ↦ bad "busy" | suc n ↦ good "{}" ]);
  has_memory = false;
  get_memory = λ flow_id node_id s. (s, none);
  upsert_memory = λ m s. s;
  has_knowledge = false;
  search_knowledge = λ query s. (s, []);
  marshal = λ o. "";
  marshal_indent = λ o. "";
  unmarshal = λ text. good (parse text);
  show = show;
  quote = λ s. s;
  sprint_map = λ o. "";
  sprint_violation = λ v. "";
  is_space = λ c. false;
  size = λ s. 0;
  prefix = λ n s. s;
  is_whole = is_whole;
}

answered : (execute (outside (λ text. some named)) plan 0).1 ≡ returned (some named)
unfolding execute attempts try_once judge check_output recall soul_of instruction_of
    with_instruction with_schema schema_of validate validate_node node properties items each_item
    check_typed check_type fits has_type each_required check_required get remember
answered = refl

execute-returned_example :
    (agent : Agent ℕ) × (found reviewer ≡ found agent)
    × IsAccepted
        (outside (λ text. some named))
        agent
        (schema_of (outside (λ text. some named)) plan agent)
        (some named)
execute-returned_example =
    execute-returned (outside (λ text. some named)) plan 0 (some named) answered

-- A model whose replies never fit the schema.
rejected :
    (execute (outside (λ text. some [])) plan 0).1 ≡ failed (some "schema validation failed: ")
unfolding execute attempts try_once judge check_output recall soul_of instruction_of
    with_instruction with_schema schema_of validate validate_node node properties items each_item
    check_typed check_type fits has_type each_required check_required get remember
rejected = refl

execute-failed_example :
    ((e : String) × (some "schema validation failed: " ≡ some e))
    × (IsUnfetched (found reviewer)
        ⊎ ((agent : Agent ℕ) × (found reviewer ≡ found agent)
            × ((soul : String) × (prompt : String) × (state : ℕ) × AreRejected
                  (outside (λ text. some []))
                  plan
                  agent
                  soul
                  (schema_of (outside (λ text. some [])) plan agent)
                  4
                  0
                  prompt
                  none
                  state
                  (some "schema validation failed: "))))
execute-failed_example =
    execute-failed (outside (λ text. some [])) plan 0 (some "schema validation failed: ") rejected

-- A supervisor whose model names no action: it is to continue.
abbrev decision : Object
decision = ("name", Value.str "x") ∷ ("action", Value.str "continue") ∷ []

abbrev join : List String → String
join allowed = "allowed"

decided :
    (supervise (outside (λ text. some named)) 20 join plan 1).1
    ≡ some (returned (some (("name", Value.str "x") ∷ ("action", Value.str "continue") ∷ [])))
unfolding supervise decision_of decide is_allowed is_member get put extract_json cut_prefix
decided = refl

-- The reply is null: the write of the default panics.
panics : (supervise (outside (λ text. none)) 20 join plan 1).1 ≡ none
unfolding supervise decision_of decide is_allowed is_member get put extract_json cut_prefix
panics = refl

supervise-IsDecided_example :
    (fields : Object) × (some decision ≡ some fields) × IsDecided plan fields
supervise-IsDecided_example =
    supervise-IsDecided (outside (λ text. some named)) 20 join plan 1 (some decision) decided

-- A reply of null to an agent with no schema: neither an output nor an error.
nil_returned :
    (attempts (outside (λ text. none)) plan reviewer "" none 4 0 "" none 1).1 ≡ returned none
unfolding attempts try_once judge check_output remember
nil_returned = refl
