-- ===== src/Controller/Gc.antt =====
-- The garbage collections of controller.go: `gcOrphanedJMDeployments`, `gcOrphanedRuntimeDeployments`,
-- `deleteRuntimeDeploymentsForFlow` and `deleteDeployment`. The cluster's API is the record `Cluster`;
-- each function also returns the deletions that it asked the API for, in order.
use flowgent.Prelude.{
  ℕ, String, Bool, true, false, Option, none, some, List, [], ◌∷◌, ◌++◌, ◌==◌, ◌&&◌, ◌||◌,
}
use flowgent.Prelude.Int.{ℤ}
use flowgent.Prelude.Dict.{Dict, get, get_or}
use flowgent.Dag.{Flow}
use flowgent.Discovery.{Peer}
use flowgent.Controller.Cleanup.{Cleanups, clear_cleanup}

pub record Deployment : Type 0 where
  pub namespace : String
  pub name : String
  pub labels : Dict String

-- d.Labels[k]
abbrev pub label : Deployment → String → String
label d k = get_or "" (get d.labels k)

-- The flow that a deployment belongs to.
abbrev pub flow_of : Deployment → String
flow_of d = label d "flowgent.io/flow"

pub data Reason : Type 0 where
  flow_deleted no_active_runs no_active_runs_beyond_window parent_missing : Reason

pub record Deletion : Type 0 where
  pub target : Deployment
  pub reason : Reason

-- What a call of the API returns.
pub data Answer : Type 0 where
  done not_found failed : Answer

-- The API: listings by label, none on an error, and calls on one deployment by namespace and name.
pub record Cluster : Type 1 where
  pub S : Type 0
  pub now : S → ℕ
  pub list_job_managers : S → Option (List Deployment)
  pub list_managed : S → Option (List Deployment)
  pub list_managed_of_flow : String → S → Option (List Deployment)
  pub get_deployment : String → String → S → Answer
  pub delete_deployment : String → String → S → S × Answer

-- One tick's view: the peers, the flows that are defined, those with active runs, and whether the
-- latter is known.
pub record Tick : Type 0 where
  pub self : Peer
  pub peers : List Peer
  pub seen : Dict Flow
  pub active : Dict Bool
  pub snapshot_ok : Bool
  pub timeout : ℤ

-- The filters of deleteRuntimeDeploymentsForFlow: a wanted value that is empty matches everything.
abbrev pub is_wanted : String → String → Bool
is_wanted want have = want == "" || have == want

unfoldable pub is_managed_for : String → String → String → Deployment → Bool
is_managed_for namespace_id parent parent_namespace d =
    is_wanted namespace_id (label d "flowgent.io/namespace")
    && (is_wanted parent (label d "flowgent.io/parent-jobmanager")
        && is_wanted parent_namespace (label d "flowgent.io/parent-jobmanager-namespace"))

module _ (cluster : Cluster) where
  open cluster use {
    S, now, list_job_managers, list_managed, list_managed_of_flow, get_deployment,
    delete_deployment,
  }

  -- What a step of a collection leaves: the marks, the cluster, the deletions.
  abbrev pub Step : Type 0
  Step = Cleanups × S × List Deletion

  -- deleteDeployment: the mark goes if the deployment is gone.
  unfoldable pub remove_deployment : Deployment → Reason → Cleanups → S → Step
  remove_deployment d reason cs s =
      let (s', answer) = delete_deployment d.namespace d.name s in
      (
        elim answer [ failed ↦ cs | _ ↦ clear_cleanup cs d.namespace d.name ],
        s',
        record { target = d; reason = reason } ∷ [],
      )

  unfoldable pub remove_all :
      String → String → String → Reason → List Deployment → Cleanups → S → Step
  remove_all namespace_id parent parent_namespace reason [] cs s = (cs, s, [])
  remove_all namespace_id parent parent_namespace reason (d ∷ ds) cs s =
      elim (is_managed_for namespace_id parent parent_namespace d) [
        | false ↦ remove_all namespace_id parent parent_namespace reason ds cs s
        | true ↦
            let (cs', s', out) = remove_deployment d reason cs s in
            let (cs'', s'', outs) =
              remove_all namespace_id parent parent_namespace reason ds cs' s' in
            (cs'', s'', out ++ outs)
      ]

  -- deleteRuntimeDeploymentsForFlow
  unfoldable pub remove_runtime_of_flow :
      String → String → String → String → Reason → Cleanups → S → Step
  remove_runtime_of_flow namespace_id flow_id parent parent_namespace reason cs s =
      elim (list_managed_of_flow flow_id s) [
        | none ↦ (cs, s, [])
        | some ds ↦ remove_all namespace_id parent parent_namespace reason ds cs s
      ]
