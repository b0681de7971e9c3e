-- ===== src/JobMaster/Graph.antt =====
-- The state of a JobMaster and the methods on its DAG state (jobmaster.go). A nil map of edge
-- conditions reads like an empty one, so both are the empty dictionary.
use Prim.Native.String.{◌++◌ as str_append}
use flowgent.Prelude.{
  String, Bool, true, false, not, Option, none, some, List, [], ◌∷◌, ◌++◌, ◌&&◌, ◌||◌, select,
  is_some, is_empty,
}
use flowgent.Prelude.Dict.{Dict, get, put, get_or, flag}
use flowgent.Prelude.Int.{ℤ}
use flowgent.Value.{Object}
use flowgent.Dag.{ExecutionPlan}

pub record JobMaster : Type 0 where
  pub nodes : List String
  pub edges : List (String × String)
  pub edge_conditions : Dict (Option Bool)
  pub deps : Dict (List String)
  pub children : Dict (List String)
  pub completed : Dict Bool
  pub skipped : Dict Bool
  pub failed : Dict Bool
  pub node_errors : Dict String
  pub pending : Dict Bool
  pub conditions : Dict Bool
  pub plan_map : Dict ExecutionPlan
  pub node_outputs : Dict Object
  pub resolved_vars : Object
  pub max_nodes : ℤ

-- from+"->"+to, the key of an edge condition.
abbrev pub edge_key : String → String → String
edge_key from to = str_append from (str_append "->" to)

pub record EdgeCondition : Type 0 where
  pub from : String
  pub to : String
  pub condition : Option Bool

-- SetEdgeConditions
unfoldable pub set_edge_conditions : List EdgeCondition → JobMaster → JobMaster
set_edge_conditions [] jm = jm
set_edge_conditions (ec ∷ ecs) jm =
    set_edge_conditions ecs
      (record jm { edge_conditions = put jm.edge_conditions (edge_key ec.from ec.to) ec.condition })

-- GetChildCondition: nil for a missing key and for an edge without a condition.
unfoldable pub get_child_condition : JobMaster → String → String → Option Bool
get_child_condition jm from to = get_or none (get jm.edge_conditions (edge_key from to))

-- c, exists := jm.edgeConditions[from+"->"+to]; exists && c != nil
unfoldable pub has_condition : JobMaster → String → String → Bool
unfolding get_child_condition
has_condition jm from to = is_some (get_child_condition jm from to)

-- Deps, Children
unfoldable pub deps_of : JobMaster → String → List String
deps_of jm n = get_or [] (get jm.deps n)

unfoldable pub children_of : JobMaster → String → List String
children_of jm n = get_or [] (get jm.children n)

-- jm.skipped[d] || jm.completed[d]
unfoldable pub is_satisfied : JobMaster → String → Bool
is_satisfied jm d = flag jm.skipped d || flag jm.completed d

-- jm.completed[n] || jm.skipped[n] || jm.failed[n]
unfoldable pub is_settled : JobMaster → String → Bool
is_settled jm n = flag jm.completed n || flag jm.skipped n || flag jm.failed n

-- The loop of `depsDone` over the dependencies that are left, with `anySatisfied`.
unfoldable pub deps_loop : JobMaster → String → Bool → List String → Bool
deps_loop jm n any [] = any
deps_loop jm n any (d ∷ ds) = elim (is_satisfied jm d) [
  | true ↦ deps_loop jm n true ds
  | false ↦ elim (has_condition jm d n) [ true ↦ deps_loop jm n any ds | false ↦ false ]
]

-- depsDone
unfoldable pub deps_done : JobMaster → String → Bool
deps_done jm n = deps_loop jm n (is_empty (deps_of jm n)) (deps_of jm n)

-- Ready
unfoldable pub ready : JobMaster → List String
ready jm = select (λ n. not (is_settled jm n) && deps_done jm n) jm.nodes

-- Done, Skip, Fail
unfoldable pub done : JobMaster → String → JobMaster
done jm n = record jm { completed = put jm.completed n true; pending = put jm.pending n false }

unfoldable pub skip : JobMaster → String → JobMaster
skip jm n = record jm { skipped = put jm.skipped n true; pending = put jm.pending n false }

unfoldable pub fail : JobMaster → String → JobMaster
fail jm n = record jm { failed = put jm.failed n true; pending = put jm.pending n false }

abbrev pub all_of : (String → Bool) → List String → Bool
all_of p [] = true
all_of p (n ∷ ns) = p n && all_of p ns

abbrev pub any_of : (String → Bool) → List String → Bool
any_of p [] = false
any_of p (n ∷ ns) = p n || any_of p ns

-- IsComplete, HasFailed
unfoldable pub is_complete : JobMaster → Bool
is_complete jm = all_of (is_settled jm) jm.nodes

unfoldable pub has_failed : JobMaster → Bool
has_failed jm = any_of (flag jm.failed) jm.nodes

-- SetConditionResult, ConditionResult
unfoldable pub set_condition_result : JobMaster → String → Bool → JobMaster
set_condition_result jm n r = record jm { conditions = put jm.conditions n r }

unfoldable pub condition_result : JobMaster → String → Option Bool
condition_result jm n = get jm.conditions n

-- Inject: a node with its dependencies, and no plan.
unfoldable pub inject : JobMaster → String → List String → JobMaster
inject jm n d = record jm {
  nodes = jm.nodes ++ (n ∷ []);
  deps = put jm.deps n d;
  children = put jm.children n [];
  pending = put jm.pending n true;
}

-- c != nil && *c != r, and then Skip(child)
unfoldable pub skip_child : Option Bool → Bool → String → JobMaster → JobMaster
unfolding skip
skip_child (some true) false child jm = skip jm child
skip_child (some false) true child jm = skip jm child
skip_child _ _ child jm = jm

-- The loop of `Execute` behind a condition node: each child whose edge wants the other result.
unfoldable pub skip_children : String → Bool → List String → JobMaster → JobMaster
unfolding get_child_condition skip_child
skip_children n r [] jm = jm
skip_children n r (child ∷ rest) jm =
    skip_children n r rest (skip_child (get_child_condition jm n child) r child jm)

-- collectFirstError. Go's iteration order is unspecified; here it is the order of the first writes.
unfoldable pub collect_first_error : JobMaster → String
collect_first_error jm = elim jm.node_errors [ [] ↦ "node failed" | (n, e) ∷ rest ↦ e ]
