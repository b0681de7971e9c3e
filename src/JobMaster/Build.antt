-- ===== src/JobMaster/Build.antt =====
-- `BuildGraphNodes`, `buildExecutionGraph`, `applySupervisorConfig`, `NodeToTaskType`, `RetryMax` of
-- jobmaster.go, and `NodeSpecFromNode` of model/pkg/entities/task.go.
use Prim.Native.String.{◌++◌ as str_append}
use flowgent.Prelude.{
  ℕ, String, true, Option, none, some, List, [], ◌∷◌, ◌++◌, ◌==◌, ◌&&◌, map, if◌then◌else◌,
}
use flowgent.Prelude.Dict.{get, put, get_or}
use flowgent.Prelude.Int.{ℤ, pos, is_positive}
use flowgent.Dag.{
  Node, Edge, Flow, RetryPolicy, TaskType, TaskStatus, NodeSpec, ExecutionPlan, agent, condition,
  tool, skill, supervisor, subflow, committee, join, human, sandbox, noop,
}
use flowgent.JobMaster.Graph.{JobMaster, EdgeCondition, set_edge_conditions}

-- NodeToTaskType
unfoldable pub node_to_task_type : String → TaskType
node_to_task_type nt =
    if nt == "agent"
    then agent
    else if nt == "tool"
    then tool
    else if nt == "condition"
    then condition
    else if nt == "committee"
    then committee
    else if nt == "supervisor"
    then supervisor
    else if nt == "map"
    then TaskType.map
    else if nt == "human"
    then human
    else if nt == "agentflow"
    then subflow
    else if nt == "sandbox"
    then sandbox
    else if nt == "skill"
    then skill
    else if nt == "join"
    then join
    else noop

-- RetryMax
unfoldable pub retry_max : Option RetryPolicy → ℤ
retry_max none = pos 3
retry_max (some r) = r.max

-- NodeSpecFromNode, without the child node
unfoldable pub node_spec_from_node : Node → NodeSpec
node_spec_from_node n = record {
  id = n.id;
  kind = if n.kind == "" then n.type else n.kind;
  type = n.type;
  agent = n.agent;
  tool = n.tool;
  expression = n.expression;
  instruction = n.instruction;
  strategy = n.strategy;
  concurrency = n.concurrency;
  retry = n.retry;
  approval = n.approval;
  supervisor_config = n.supervisor_config;
  raw_input = n.input;
  args = n.args;
  output_schema = n.output_schema;
}

-- The two loops that fill the graph: first each node, then each edge.
unfoldable pub add_nodes : List String → JobMaster → JobMaster
add_nodes [] jm = jm
add_nodes (n ∷ ns) jm = add_nodes ns (record jm {
  deps = put jm.deps n [];
  children = put jm.children n [];
  pending = put jm.pending n true;
})

unfoldable pub add_edges : List (String × String) → JobMaster → JobMaster
add_edges [] jm = jm
add_edges ((from, to) ∷ es) jm = add_edges es (record jm {
  deps = put jm.deps to (get_or [] (get jm.deps to) ++ (from ∷ []));
  children = put jm.children from (get_or [] (get jm.children from) ++ (to ∷ []));
})

-- The part that `BuildGraphNodes` and `buildExecutionGraph` share: every map but the edge conditions
-- is made anew, and the variables and the node limit stay.
unfoldable pub build_graph_nodes : List String → List (String × String) → JobMaster → JobMaster
unfolding add_nodes add_edges
build_graph_nodes nodes raw_edges jm = add_edges raw_edges (
    add_nodes nodes (record jm {
      nodes = nodes;
      edges = raw_edges;
      deps = [];
      children = [];
      completed = [];
      skipped = [];
      failed = [];
      pending = [];
      conditions = [];
      node_errors = [];
      node_outputs = [];
      plan_map = [];
    }))

-- The plan of a node. `now` is the time of its creation.
unfoldable pub make_plan : ℕ → Flow → String → Node → ExecutionPlan
unfolding node_to_task_type retry_max node_spec_from_node
make_plan now spec run_id n = record {
  plan_id = str_append "plan-" (str_append run_id (str_append "-" n.id));
  agent_flow_run_id = run_id;
  agent_flow_definition_id = spec.id;
  namespace = spec.namespace;
  task_id = str_append "task-" (str_append run_id (str_append "-" n.id));
  task_type = node_to_task_type n.kind;
  node_id = n.id;
  state = TaskStatus.task_pending;
  max_retries = retry_max n.retry;
  input = [];
  node_spec = node_spec_from_node n;
  created_at = now;
}

unfoldable pub add_plans : ℕ → Flow → String → List Node → JobMaster → JobMaster
unfolding make_plan
add_plans now spec run_id [] jm = jm
add_plans now spec run_id (n ∷ ns) jm =
    add_plans now spec run_id ns
      (record jm { plan_map = put jm.plan_map n.id (make_plan now spec run_id n) })

abbrev pub node_ids : Flow → List String
node_ids spec = map (λ (n : Node). n.id) spec.nodes

abbrev pub edge_pairs : Flow → List (String × String)
edge_pairs spec = map (λ (e : Edge). (e.from, e.to)) spec.edges

abbrev pub edge_conds : Flow → List EdgeCondition
edge_conds spec =
    map (λ (e : Edge). record { from = e.from; to = e.to; condition = e.condition }) spec.edges

-- buildExecutionGraph
unfoldable pub build_execution_graph : ℕ → Flow → String → JobMaster → JobMaster
unfolding build_graph_nodes add_plans
build_execution_graph now spec run_id jm =
    add_plans now spec run_id spec.nodes (
      set_edge_conditions (edge_conds spec)
        (build_graph_nodes (node_ids spec) (edge_pairs spec) jm))

-- applySupervisorConfig: the last supervisor node with a positive limit sets it.
unfoldable pub node_limit : Node → ℤ → ℤ
node_limit n limit = elim n.supervisor_config [
  | none ↦ limit
  | some c ↦ if (n.type == "supervisor") && is_positive c.max_nodes then c.max_nodes else limit
]

unfoldable pub apply_supervisor_config : List Node → JobMaster → JobMaster
unfolding node_limit
apply_supervisor_config [] jm = jm
apply_supervisor_config (n ∷ ns) jm =
    apply_supervisor_config ns (record jm { max_nodes = node_limit n jm.max_nodes })
