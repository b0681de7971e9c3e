-- ===== src/Controller/Collect.antt =====
-- The loops of `gcOrphanedJMDeployments` and `gcOrphanedRuntimeDeployments` of controller.go, which
-- reconcile runs one after the other.
use flowgent.Prelude.{
  ℕ, ◌-◌, String, Bool, true, false, not, Option, none, some, List, [], ◌∷◌, ◌++◌, ◌==◌, ◌&&◌, ◌||◌,
  is_some, ltb,
}
use flowgent.Prelude.Dict.{get, flag}
use flowgent.Controller.Shard.{owns_flow}
use flowgent.Controller.Cleanup.{Cleanups, mark_cleanup, clear_cleanup, effective_timeout}
use flowgent.Controller.Gc.{
  Deployment, label, flow_of, Reason, flow_deleted, no_active_runs, no_active_runs_beyond_window,
  parent_missing, Deletion, Answer, done, not_found, failed, Cluster, Tick, Step, remove_deployment,
  remove_runtime_of_flow,
}

-- The reason for the deletion of a job manager, before the window.
unfoldable pub reason_of : Tick → String → Option Reason
reason_of t flow_id = elim (is_some (get t.seen flow_id)) [
  | false ↦ some flow_deleted
  | true ↦ elim (t.snapshot_ok && not (flag t.active flow_id)) [
    | true ↦ some no_active_runs
    | false ↦ none
  ]
]

-- Is the age of a mark below the timeout?
unfoldable pub in_window : Tick → ℕ → ℕ → Bool
in_window t now first = ltb (now - first) (effective_timeout t.timeout)

module _ (bytes : String → List ℕ) (cluster : Cluster) where
  open cluster use {S, now, list_job_managers, list_managed, get_deployment, delete_deployment}

  -- The loop's guards: a flow label, and a flow of this shard.
  unfoldable pub is_skipped : Tick → Deployment → Bool
  is_skipped t d = flow_of d == "" || not (owns_flow bytes t.peers t.self (flow_of d))

  -- The deletion of a job manager and, if it succeeds, of the deployments that it managed.
  unfoldable pub remove_job_manager : Deployment → Reason → Cleanups → S → Step cluster
  remove_job_manager d reason cs s =
      let (s', answer) = delete_deployment d.namespace d.name s in
      let asked : Deletion = record { target = d; reason = reason } in
      elim answer [
        | done ↦
            let (cs', s'', out) =
              remove_runtime_of_flow cluster (label d "flowgent.io/namespace") (flow_of d) d.name
                d.namespace reason (clear_cleanup cs d.namespace d.name) s' in
            (cs', s'', asked ∷ out)
        | _ ↦ (cs, s', asked ∷ [])
      ]

  -- The body of the loop of gcOrphanedJMDeployments.
  unfoldable pub collect_job_manager : Tick → Deployment → Cleanups → S → Step cluster
  collect_job_manager t d cs s = elim (is_skipped t d) [
    | true ↦ (cs, s, [])
    | false ↦ elim (reason_of t (flow_of d)) [
      | none ↦ (clear_cleanup cs d.namespace d.name, s, [])
      | some no_active_runs ↦
          let (cs', first) = mark_cleanup cs d.namespace d.name (now s) in
          elim (in_window t (now s) first) [
            | true ↦ (cs', s, [])
            | false ↦ remove_job_manager d no_active_runs_beyond_window cs' s
          ]
      | some reason ↦ remove_job_manager d reason cs s
    ]
  ]

  -- Does the parent's job manager still exist, is it gone, or is that unknown? Without the two labels
  -- it counts as gone.
  unfoldable pub parent_of : Deployment → S → Answer
  parent_of d s =
      let parent = label d "flowgent.io/parent-jobmanager" in
      let parent_namespace = label d "flowgent.io/parent-jobmanager-namespace" in
      elim (parent == "" || parent_namespace == "") [
        | true ↦ not_found
        | false ↦ get_deployment parent_namespace parent s
      ]

  -- What follows a parent that is gone.
  unfoldable pub collect_orphan : Tick → Deployment → Cleanups → S → Step cluster
  collect_orphan t d cs s = elim (reason_of t (flow_of d)) [
    | some reason ↦ remove_deployment cluster d reason cs s
    | none ↦
        let (cs', first) = mark_cleanup cs d.namespace d.name (now s) in
        elim (in_window t (now s) first) [
          | true ↦ (cs', s, [])
          | false ↦ remove_deployment cluster d parent_missing cs' s
        ]
  ]

  -- The body of the loop of gcOrphanedRuntimeDeployments.
  unfoldable pub collect_runtime : Tick → Deployment → Cleanups → S → Step cluster
  collect_runtime t d cs s = elim (is_skipped t d) [
    | true ↦ (cs, s, [])
    | false ↦ elim (parent_of d s) [
      | done ↦ (clear_cleanup cs d.namespace d.name, s, [])
      | failed ↦ (cs, s, [])
      | not_found ↦ collect_orphan t d cs s
    ]
  ]

  -- A loop over a listing.
  unfoldable pub collect_each :
      (Deployment → Cleanups → S → Step cluster) → List Deployment → Cleanups → S → Step cluster
  collect_each f [] cs s = (cs, s, [])
  collect_each f (d ∷ ds) cs s =
      let (cs', s', out) = f d cs s in
      let (cs'', s'', outs) = collect_each f ds cs' s' in (cs'', s'', out ++ outs)

  unfoldable pub collect_listed :
      (Deployment → Cleanups → S → Step cluster)
      → Option (List Deployment)
      → Cleanups
      → S
      → Step cluster
  collect_listed f none cs s = (cs, s, [])
  collect_listed f (some ds) cs s = collect_each f ds cs s

  -- gcOrphanedJMDeployments, then gcOrphanedRuntimeDeployments.
  unfoldable pub collect : Tick → Cleanups → S → Step cluster
  collect t cs s =
      let (cs', s', out) = collect_listed (collect_job_manager t) (list_job_managers s) cs s in
      let (cs'', s'', outs) = collect_listed (collect_runtime t) (list_managed s') cs' s' in
      (cs'', s'', out ++ outs)
