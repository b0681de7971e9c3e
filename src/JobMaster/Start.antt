-- ===== src/JobMaster/Start.antt =====
-- The state that `Execute` of jobmaster.go starts its loop with: the nodes of the flow, each with a
-- plan, the dependencies that the edges give, and nothing settled.
use mathlib.Core.List.Memᴰ
use flowgent.Prelude.{
  ℕ, ◌≤◌, String, false, List, [], ◌≡◌, refl, sym, ap, subst, inl, inr, Memᴰ, arith, length,
  misses-le-length, length-map,
}
use flowgent.Prelude.Dict.{get, get_or, flag}
use flowgent.Dag.{Node, Flow, FlowRun}
use flowgent.JobMaster.Graph.{JobMaster, deps_of, is_settled}
use flowgent.JobMaster.Build.{
  build_graph_nodes, build_execution_graph, node_ids, edge_pairs, edge_conds,
}
use flowgent.JobMaster.Execute.{start, resolve_vars}
use flowgent.JobMaster.Grows.{has_run, has_plan}
use flowgent.JobMaster.Loop.{HasPlans, unsettled}
use flowgent.JobMaster.Built.{
  SameGraph, SameGraph-trans, SameGraph-set_edge_conditions, SameGraph-add_plans, Fresh,
  Fresh-add_nodes, Fresh-add_edges, Fresh-Same, has_plan-add_plans, deps_of-add_nodes, mem-deps,
  edge_of_dep, supervisor_frame,
}

-- The flow has an edge from `d` to `n`.
abbrev pub HasEdge : Flow → String → String → Type 0
HasEdge spec d n = Memᴰ {A = String × String} (d, n) (edge_pairs spec)

pub record IsStart (spec : Flow) (jm : JobMaster) : Type 0 where
  pub nodes : jm.nodes ≡ node_ids spec
  pub plans : HasPlans jm
  pub unsettled_le : unsettled jm ≤ length spec.nodes
  pub unrun : (n : String) → has_run jm n ≡ false
  pub unskipped : (n : String) → flag jm.skipped n ≡ false
  pub dep_of_edge : (d n : String) → HasEdge spec d n → Memᴰ d (deps_of jm n)
  pub edge_of_dep : (d n : String) → Memᴰ d (deps_of jm n) → HasEdge spec d n

graph-Fresh :
    (ns : List String) (es : List (String × String)) (jm : JobMaster)
    → Fresh ns (build_graph_nodes ns es jm)
unfolding build_graph_nodes
graph-Fresh ns es jm = Fresh-add_edges es ns _ (
    Fresh-add_nodes ns ns _
      (record { nodes = refl; completed = refl; skipped = refl; failed = refl }))

module _ (at : ℕ) (run : FlowRun) (spec : Flow) (jm : JobMaster) where
  built-Same :
      SameGraph
        (build_graph_nodes (node_ids spec) (edge_pairs spec) jm)
        (build_execution_graph at spec run.id jm)
  unfolding build_execution_graph
  built-Same =
      SameGraph-trans (SameGraph-set_edge_conditions (edge_conds spec) _)
        (SameGraph-add_plans at spec run.id spec.nodes _)

  built-Fresh : Fresh (node_ids spec) (build_execution_graph at spec run.id jm)
  built-Fresh = Fresh-Same built-Same (graph-Fresh (node_ids spec) (edge_pairs spec) jm)

  abbrev built : JobMaster
  built = build_execution_graph at spec run.id jm

  built-HasPlans : HasPlans built
  unfolding build_execution_graph
  built-HasPlans n m =
      has_plan-add_plans at spec run.id spec.nodes _ n (subst (λ l. Memᴰ n l) built-Fresh.nodes m)

  built-unsettled : unsettled built ≤ length spec.nodes
  unfolding unsettled
  built-unsettled = omega (
    arith,
    misses-le-length (is_settled built) built.nodes,
    ap length built-Fresh.nodes,
    length-map (λ (n : Node). n.id) spec.nodes,
  )

  built-dep_of_edge : (d n : String) → HasEdge spec d n → Memᴰ d (deps_of built n)
  unfolding deps_of build_graph_nodes
  built-dep_of_edge d n h =
      subst (λ ds. Memᴰ d (get_or [] (get ds n))) (sym built-Same.deps)
        (mem-deps (edge_pairs spec) _ d n h)

  built-edge_of_dep : (d n : String) → Memᴰ d (deps_of built n) → HasEdge spec d n
  unfolding deps_of build_graph_nodes get
  built-edge_of_dep d n m =
      elim (edge_of_dep (edge_pairs spec) _ d n
        (subst (λ ds. Memᴰ d (get_or [] (get ds n))) built-Same.deps m)) [
          | inl old ↦ absurd (
              Memᴰ.not-nil (subst (λ l. Memᴰ d l) (deps_of-add_nodes (node_ids spec) _ n refl) old))
          | inr new ↦ new
        ]

  built-IsStart : IsStart spec built
  unfolding has_run flag get
  built-IsStart = record {
    nodes = built-Fresh.nodes;
    plans = built-HasPlans;
    unsettled_le = built-unsettled;
    unrun = λ n. simp (built-Fresh.completed, built-Fresh.failed);
    unskipped = λ n. simp built-Fresh.skipped;
    dep_of_edge = built-dep_of_edge;
    edge_of_dep = built-edge_of_dep;
  }

  pub start-IsStart : IsStart spec (start at run spec jm)
  unfolding start unsettled has_run has_plan is_settled deps_of
  start-IsStart =
      let b = built-IsStart in
      subst (λ z. IsStart spec (record z { resolved_vars = resolve_vars spec run }))
        (sym (supervisor_frame spec.nodes (build_execution_graph at spec run.id jm)))
        (record {
          nodes = b.nodes;
          plans = b.plans;
          unsettled_le = b.unsettled_le;
          unrun = b.unrun;
          unskipped = b.unskipped;
          dep_of_edge = b.dep_of_edge;
          edge_of_dep = b.edge_of_dep;
        })
