-- ===== src/Api/Routing.antt =====
-- Which job manager polls a run that flow_def.go creates: the API server and the controller compute the
-- namespace of a flow's job manager by two functions.
use flowgent.Prelude.{
  String, true, some, ◌==◌, ◌≡◌, ◌≢◌, ◌↔◌, ◌⊎◌, inl, inr, refl, sym, ◌∙◌, arith, eq_iff, Bool-cases,
  true-false, ◌||◌, ◌&&◌,
}
use flowgent.Prelude.Text.{eq-false, append-nonempty}
use flowgent.Value.{Object}
use flowgent.Dag.{Flow}
use flowgent.Controller.Shard.{dispatch_namespace, default_namespace_prefix, application_namespace}
use flowgent.JobManager.{Run, Poller, spec_of, is_eligible}
use flowgent.Api.Flows.{
  TriggerInfo, NewRun, Handler, namespace_prefix_or_default, coalesce_namespace, handler_namespace,
  run_of,
}

-- The run that the store lists.
abbrev pub stored : String → NewRun → Run
stored id run = record {
  id = id;
  agent_flow_id = run.agent_flow_id;
  status = run.status;
  k8s_namespace = run.k8s_namespace;
}

-- Both find the same namespace.
agree :
    (prefix default : String) (h : Handler) (spec : Flow)
    → h.namespace_prefix ≡ namespace_prefix_or_default prefix
    → h.default_namespace ≡ coalesce_namespace default
    → handler_namespace h spec
      ≡ application_namespace prefix default spec.k8s_namespace spec.namespace
unfolding handler_namespace application_namespace default_namespace_prefix dispatch_namespace
    namespace_prefix_or_default coalesce_namespace
agree prefix default h spec p d = rw (handler_namespace, p, d) refl

namespace-nonempty :
    (prefix default k8s_namespace namespace : String)
    → application_namespace prefix default k8s_namespace namespace ≢ ""
unfolding application_namespace default_namespace_prefix
namespace-nonempty prefix default k8s_namespace namespace =
    elim (Bool-cases (k8s_namespace == "")) [
      | inl e ↦ elim (Bool-cases (prefix == "")) [
        | inl q ↦ rw (application_namespace, e, q) (append-nonempty "flowgent-" _ flowgent)
        | inr q ↦
            rw (application_namespace, e, q)
              (append-nonempty prefix _ (λ z. true-false (sym ((eq_iff prefix "").1 z) ∙ q)))
      ]
      | inr e ↦
          rw (application_namespace, e) (λ z. true-false (sym ((eq_iff k8s_namespace "").1 z) ∙ e))
    ]
  where
    flowgent : ◌≡◌ {A = String} "flowgent-" "" → ⊥
    flowgent z = true-false (sym ((eq_iff "flowgent-" "").1 z))

run_of-namespace :
    (prefix default : String) (h : Handler) (spec : Flow) (flow_id : String) (vars : Object)
    (trigger : TriggerInfo)
    → h.namespace_prefix ≡ namespace_prefix_or_default prefix
    → h.default_namespace ≡ coalesce_namespace default
    → (run_of h spec flow_id vars trigger).k8s_namespace
      ≡ application_namespace prefix default spec.k8s_namespace spec.namespace
unfolding run_of
run_of-namespace prefix default h spec flow_id vars trigger p d =
    let a = agree prefix default h spec p d in
    let e = eq-false _ "" (namespace-nonempty prefix default spec.k8s_namespace spec.namespace) in
    rw (run_of, a, e) refl

-- Where the API server and the controller are configured with the same prefix and default namespace,
-- a run that the API server creates for a flow that a job manager knows is eligible there exactly if
-- the job manager polls every namespace or the one that the controller deploys the flow to.
pub run_of-is_eligible :
    (prefix default : String) (h : Handler) (spec : Flow) (flow_id : String) (vars : Object)
    (trigger : TriggerInfo) (id : String) (p : Poller) (known : Flow)
    → h.namespace_prefix ≡ namespace_prefix_or_default prefix
    → h.default_namespace ≡ coalesce_namespace default
    → spec_of p flow_id ≡ some known
    → (is_eligible p (stored id (run_of h spec flow_id vars trigger)) ≡ true) ↔ (
        (p.k8s_namespace ≡ "")
        ⊎ (p.k8s_namespace
            ≡ application_namespace prefix default spec.k8s_namespace spec.namespace))
unfolding is_eligible run_of
run_of-is_eligible prefix default h spec flow_id vars trigger id p known hp hd hk =
    let e = run_of-namespace prefix default h spec flow_id vars trigger hp hd in
    let namespace : String =
      application_namespace prefix default spec.k8s_namespace spec.namespace in
    rw (is_eligible, e, hk) (tests namespace)
  where
    tests :
        (ns : String)
        → ((((p.k8s_namespace == "") || (ns == p.k8s_namespace)) && true) ≡ true)
          ↔ ((p.k8s_namespace ≡ "") ⊎ (p.k8s_namespace ≡ ns))
    tests ns = (
      λ h. ground (arith, eq_iff p.k8s_namespace "", eq_iff ns p.k8s_namespace),
      λ h. ground (arith, eq_iff p.k8s_namespace "", eq_iff ns p.k8s_namespace),
    )
