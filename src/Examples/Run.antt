-- ===== src/Examples/Run.antt =====
-- A flow with a condition node and a branch on each of its results, run by `Execute` of jobmaster.go.
use mathlib.Core.List.Memᴰ
use flowgent.Prelude.{
  ℕ, suc, ◌<◌, String, Bool, true, false, Option, none, some, List, [], ◌∷◌, ◌≡◌, refl, ◌⊎◌, ◌↔◌,
  Memᴰ, ◌==◌, if◌then◌else◌, is_empty, arith,
}
use flowgent.Prelude.Int.{pos}
use flowgent.Value.{Value}
use flowgent.Template.{Format}
use flowgent.Dag.{Node, Flow, FlowRun, run_pending}
use flowgent.JobMaster.Graph.{JobMaster, deps_of, deps_done, is_satisfied, has_condition}
use flowgent.JobMaster.Build.{node_ids, build_graph_nodes}
use flowgent.JobMaster.Execute.{Env, Outcome, result, execute}
use flowgent.JobMaster.Grows.{has_run}
use flowgent.JobMaster.Start.{HasEdge}
use flowgent.JobMaster.Ready.{Met, SomeSatisfied, deps_done_iff}
use flowgent.JobMaster.Order.{execute-ordered}
use flowgent.JobMaster.Verdict.{Verdict, execute-Verdict}
use flowgent.JobMaster.Progress.{IsAcyclic, Concluded, execute-Concluded}

abbrev node : String → String → Node
node id kind = record {
  id = id;
  kind = kind;
  type = kind;
  agent = "";
  tool = "";
  expression = "";
  instruction = "";
  strategy = none;
  input = none;
  retry = none;
  concurrency = pos 0;
  approval = none;
  supervisor_config = none;
  output_schema = none;
  args = none;
}

abbrev branch : Flow
branch = record {
  id = "flow";
  namespace = "default";
  description = "";
  kind = "";
  triggers = [];
  priority = "";
  k8s_namespace = "";
  vars = [];
  nodes = node "check" "condition" ∷ node "yes" "agent" ∷ node "no" "agent" ∷ [];
  edges =
      record { from = "check"; to = "yes"; condition = some true }
      ∷ record { from = "check"; to = "no"; condition = some false }
      ∷ [];
}

abbrev pending_run : FlowRun
pending_run = record {
  id = "run";
  status = run_pending;
  vars = [];
  error = "";
  started_at = none;
  finished_at = none;
}

abbrev new_master : JobMaster
new_master = record {
  nodes = [];
  edges = [];
  edge_conditions = [];
  deps = [];
  children = [];
  completed = [];
  skipped = [];
  failed = [];
  node_errors = [];
  pending = [];
  conditions = [];
  plan_map = [];
  node_outputs = [];
  resolved_vars = [];
  max_nodes = pos 100;
}

-- A world that counts its calls, in which each node succeeds and the condition is true.
abbrev counting : Env
counting = record {
  S = ℕ;
  now = λ s. s;
  ctx_err = λ s. none;
  update_run = λ run s. (suc s, none);
  save_task = λ task s. (suc s, none);
  schedule = λ plan s.
      (suc s, result (record { output = some (("result", Value.bool true) ∷ []); error = "" }));
  fmt = record { sprint = λ v. ""; sprint_map = λ o. "" };
  marshal = λ o. some "{}";
  has_writer = true;
}

-- The nodes that a run left completed, and those it skipped.
abbrev marks : Option (Outcome counting) → Option (List (String × Bool) × List (String × Bool))
marks none = none
marks (some o) = some (o.jm.completed, o.jm.skipped)

branch-marks :
    marks (execute counting pending_run branch new_master 0)
    ≡ some (("check", true) ∷ ("yes", true) ∷ [], ("no", true) ∷ [])
unfolding execute flowgent.JobMaster.Graph.has_failed
    flowgent.JobMaster.Build.apply_supervisor_config flowgent.JobMaster.Build.build_execution_graph
    flowgent.JobMaster.Graph.set_edge_conditions flowgent.Prelude.Dict.flag
    flowgent.Prelude.Dict.get flowgent.JobMaster.Graph.is_complete
    flowgent.JobMaster.Graph.is_settled flowgent.JobMaster.Graph.ready flowgent.Prelude.select
    deps_done flowgent.JobMaster.Graph.deps_loop deps_of flowgent.Prelude.Dict.put is_satisfied
    has_condition flowgent.JobMaster.Execute.run_node flowgent.JobMaster.Execute.run_wave
    build_graph_nodes flowgent.Template.resolve_fields flowgent.Template.collect_refs
    flowgent.Template.refs_fields flowgent.JobMaster.Graph.children_of
    flowgent.JobMaster.Graph.skip_children flowgent.JobMaster.Graph.set_condition_result
    flowgent.JobMaster.Graph.done flowgent.JobMaster.Execute.settle
    flowgent.JobMaster.Input.prepare_plan
branch-marks = refl

execute-ordered_example :
    (o : Outcome counting) × (execute counting pending_run branch new_master 0 ≡ some o)
    × ((d n : String)
        → HasEdge branch d n
        → has_run o.jm n ≡ true
        → (is_satisfied o.jm d ≡ true) ⊎ (has_condition o.jm d n ≡ true))
execute-ordered_example = execute-ordered counting pending_run branch new_master 0

execute-Verdict_example :
    (o : Outcome counting) × (execute counting pending_run branch new_master 0 ≡ some o)
    × Verdict counting (node_ids branch) o
execute-Verdict_example = execute-Verdict counting pending_run branch new_master 0

abbrev rank : String → ℕ
rank n = if n == "check" then 0 else 1

-- Each edge of the flow comes from its condition node.
from_check : (d n : String) → HasEdge branch d n → (d ≡ "check") × (rank n ≡ 1)
from_check d n (Memᴰ.head q) = (cc, cc)
from_check d n (Memᴰ.tail (Memᴰ.head q)) = (cc, cc)
from_check d n (Memᴰ.tail (Memᴰ.tail m)) = absurd (Memᴰ.not-nil m)

branch-IsAcyclic : IsAcyclic branch rank
branch-IsAcyclic = record {
  closed = λ d n h. Memᴰ.head (from_check d n h).0;
  upward = λ d n h. let (e, r) = from_check d n h in rw (e, r) (omega arith);
}

execute-Concluded_example :
    (o : Outcome counting) × (execute counting pending_run branch new_master 0 ≡ some o)
    × Concluded counting o
execute-Concluded_example =
    execute-Concluded counting branch rank branch-IsAcyclic pending_run new_master 0

-- The graph of the flow before its run.
abbrev pub graph : JobMaster
graph = build_graph_nodes ("check" ∷ "yes" ∷ []) (("check", "yes") ∷ []) new_master

deps_done_iff_example : (deps_done graph "yes" ≡ true) ↔ (
    Met graph "yes" (deps_of graph "yes")
    × ((is_empty (deps_of graph "yes") ≡ true) ⊎ SomeSatisfied graph (deps_of graph "yes")))
deps_done_iff_example = deps_done_iff graph "yes"
