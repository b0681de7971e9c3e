-- ===== src/Controller/Licence.antt =====
-- Why the collections of Collect delete what they delete.
use flowgent.Prelude.{
  ℕ, String, true, false, none, some, List, [], ◌∷◌, is_some, ◌≡◌, ◌≢◌, inl, inr, refl, Bool-cases,
  Option-cases, All, All-append, arith, eq_iff,
}
use flowgent.Prelude.Dict.{get, flag}
use flowgent.Controller.Shard.{owns_flow}
use flowgent.Controller.Cleanup.{Cleanups, mark_cleanup}
use flowgent.Controller.Gc.{
  Deployment, flow_of, Reason, flow_deleted, no_active_runs, no_active_runs_beyond_window,
  parent_missing, Deletion, Cluster, Tick, Step, remove_deployment, remove_runtime_of_flow,
  remove_all, is_managed_for,
}
use flowgent.Controller.Collect.{
  reason_of, in_window, is_skipped, remove_job_manager, collect_job_manager, parent_of,
  collect_orphan, collect_runtime, collect,
}
use flowgent.Controller.Orphans.{Answer-cases, collect_listed-All}

-- What a reason says of the flow.
abbrev pub Holds : Tick → String → Reason → Type 0
Holds t flow_id flow_deleted = get t.seen flow_id ≡ none
Holds t flow_id no_active_runs = (t.snapshot_ok ≡ true) × (flag t.active flow_id ≡ false)
Holds t flow_id no_active_runs_beyond_window =
    (t.snapshot_ok ≡ true) × (flag t.active flow_id ≡ false)
Holds t flow_id parent_missing = is_some (get t.seen flow_id) ≡ true

-- A deletion is of a flow of this shard, for a reason that holds.
pub record IsLicensed (bytes : String → List ℕ) (t : Tick) (x : Deletion) : Type 0 where
  pub labelled : flow_of x.target ≢ ""
  pub owned : owns_flow bytes t.peers t.self (flow_of x.target) ≡ true
  pub reason_holds : Holds t (flow_of x.target) x.reason

-- A listing by flow has only deployments with the label of that flow.
abbrev pub IsSelective : Cluster → Type 0
IsSelective cluster =
    (flow_id : String) (s : cluster.S) (ds : List Deployment)
    → cluster.list_managed_of_flow flow_id s ≡ some ds
    → All (λ d. flow_of d ≡ flow_id) ds

-- The reason that the code finds holds.
reason_of_lem :
    (t : Tick) (flow_id : String) (r : Reason) → reason_of t flow_id ≡ some r → Holds t flow_id r
unfolding reason_of
reason_of_lem t flow_id flow_deleted h = elim (Option-cases (get t.seen flow_id)) [
  | inl e ↦ e
  | inr (f, e) ↦ absurd (ground arith)
]
reason_of_lem t flow_id no_active_runs h = (ground arith, ground arith)
reason_of_lem t flow_id no_active_runs_beyond_window h = (ground arith, ground arith)
reason_of_lem t flow_id parent_missing h = ground arith

-- Where it finds none, the flow is defined.
reason_of-none :
    (t : Tick) (flow_id : String) → reason_of t flow_id ≡ none → is_some (get t.seen flow_id) ≡ true
unfolding reason_of
reason_of-none t flow_id h = ground arith

module _ (bytes : String → List ℕ) (cluster : Cluster) (selective : IsSelective cluster)
    (t : Tick) where
  open cluster use {S, now, list_managed_of_flow, delete_deployment}

  -- The deletions that a step asks for.
  abbrev asked : Step cluster → List Deletion
  asked (cs, s, out) = out

  abbrev AllLicensed : Step cluster → Type 0
  AllLicensed step = All (IsLicensed bytes t) (asked step)

  module _ (flow_id : String) (labelled : flow_id ≢ "")
      (owned : owns_flow bytes t.peers t.self flow_id ≡ true) (reason : Reason)
      (holds : Holds t flow_id reason) where
    licence :
        (d : Deployment)
        → flow_of d ≡ flow_id
        → IsLicensed bytes t (record { target = d; reason = reason })
    licence d e = record { labelled = rw e labelled; owned = rw e owned; reason_holds = rw e holds }

    remove_deployment-AllLicensed :
        (d : Deployment) (cs : Cleanups) (s : S)
        → flow_of d ≡ flow_id
        → AllLicensed (remove_deployment cluster d reason cs s)
    unfolding remove_deployment
    remove_deployment-AllLicensed d cs s e = (licence d e, tt)

    remove_all-AllLicensed :
        (namespace_id parent parent_namespace : String) (ds : List Deployment) (cs : Cleanups)
        (s : S)
        → All (λ d. flow_of d ≡ flow_id) ds
        → AllLicensed (remove_all cluster namespace_id parent parent_namespace reason ds cs s)
    unfolding remove_all remove_deployment
    remove_all-AllLicensed namespace_id parent parent_namespace [] cs s h = tt
    remove_all-AllLicensed namespace_id parent parent_namespace (d ∷ ds) cs s (e, h) =
        let rest = remove_all-AllLicensed namespace_id parent parent_namespace ds in
        elim (Bool-cases (is_managed_for namespace_id parent parent_namespace d)) [
          | inl w ↦ rw (w, remove_all) (licence d e, rest _ _ h)
          | inr w ↦ rw (w, remove_all) (rest cs s h)
        ]

    remove_runtime-AllLicensed :
        (namespace_id parent parent_namespace : String) (cs : Cleanups) (s : S)
        → AllLicensed (
            remove_runtime_of_flow cluster namespace_id flow_id parent parent_namespace reason cs s)
    unfolding remove_runtime_of_flow
    remove_runtime-AllLicensed namespace_id parent parent_namespace cs s =
        elim (Option-cases (list_managed_of_flow flow_id s)) [
          | inl e ↦ rw (e, remove_runtime_of_flow) tt
          | inr (ds, e) ↦
              rw (e, remove_runtime_of_flow)
                (remove_all-AllLicensed namespace_id parent parent_namespace ds cs s
                  (selective flow_id s ds e))
        ]

  module _ (d : Deployment) (labelled : flow_of d ≢ "")
      (owned : owns_flow bytes t.peers t.self (flow_of d) ≡ true) where
    remove_job_manager-AllLicensed :
        (reason : Reason)
        → Holds t (flow_of d) reason
        → (cs : Cleanups) (s : S) → AllLicensed (remove_job_manager bytes cluster d reason cs s)
    unfolding remove_job_manager
    remove_job_manager-AllLicensed reason holds cs s =
        let asked = licence (flow_of d) labelled owned reason holds d refl in
        elim (Answer-cases (delete_deployment d.namespace d.name s).1) [
          | inl e ↦
              rw (e, remove_job_manager)
                (
                  asked,
                  remove_runtime-AllLicensed (flow_of d) labelled owned reason holds _ _ _ _ _,
                )
          | inr (inl e) ↦ rw (e, remove_job_manager) (asked, tt)
          | inr (inr e) ↦ rw (e, remove_job_manager) (asked, tt)
        ]

    collect_orphan-AllLicensed :
        (cs : Cleanups) (s : S) → AllLicensed (collect_orphan bytes cluster t d cs s)
    unfolding collect_orphan
    collect_orphan-AllLicensed cs s =
        let removed = λ (r : Reason) (holds : Holds t (flow_of d) r) (cs' : Cleanups).
          remove_deployment-AllLicensed (flow_of d) labelled owned r holds d cs' s refl in
        elim (Option-cases (reason_of t (flow_of d))) [
          | inl e ↦
              elim (Bool-cases
                (in_window t (now s) (mark_cleanup cs d.namespace d.name (now s)).1)) [
                  | inl w ↦ rw (collect_orphan, e, w) tt
                  | inr w ↦
                      rw (collect_orphan, e, w) (removed parent_missing (reason_of-none t _ e) _)
                ]
          | inr (r, e) ↦ rw (e, collect_orphan) (removed r (reason_of_lem t _ r e) cs)
        ]

  is_skipped-false :
      (d : Deployment)
      → is_skipped bytes cluster t d ≡ false
      → (flow_of d ≢ "") × (owns_flow bytes t.peers t.self (flow_of d) ≡ true)
  unfolding is_skipped
  is_skipped-false d h = (λ e. ground (arith, eq_iff (flow_of d) "", e), ground arith)

  collect_job_manager-AllLicensed :
      (d : Deployment) (cs : Cleanups) (s : S)
      → AllLicensed (collect_job_manager bytes cluster t d cs s)
  unfolding collect_job_manager
  collect_job_manager-AllLicensed d cs s = elim (Bool-cases (is_skipped bytes cluster t d)) [
    | inl k ↦ rw (collect_job_manager, k) tt
    | inr k ↦
        let (labelled, owned) = is_skipped-false d k in
        let removed = remove_job_manager-AllLicensed d labelled owned in
        elim (Option-cases (reason_of t (flow_of d))) [
          | inl e ↦ rw (collect_job_manager, k, e) tt
          | inr (flow_deleted, e) ↦
              rw (collect_job_manager, k, e) (removed flow_deleted (reason_of_lem t _ _ e) cs s)
          | inr (no_active_runs, e) ↦
              elim (Bool-cases
                (in_window t (now s) (mark_cleanup cs d.namespace d.name (now s)).1)) [
                  | inl w ↦ rw (collect_job_manager, k, e, w) tt
                  | inr w ↦
                      rw (collect_job_manager, k, e, w)
                        (removed no_active_runs_beyond_window (reason_of_lem t _ _ e) _ s)
                ]
          | inr (no_active_runs_beyond_window, e) ↦
              rw (collect_job_manager, k, e)
                (removed no_active_runs_beyond_window (reason_of_lem t _ _ e) cs s)
          | inr (parent_missing, e) ↦
              rw (collect_job_manager, k, e) (removed parent_missing (reason_of_lem t _ _ e) cs s)
        ]
  ]

  collect_runtime-AllLicensed :
      (d : Deployment) (cs : Cleanups) (s : S)
      → AllLicensed (collect_runtime bytes cluster t d cs s)
  unfolding collect_runtime
  collect_runtime-AllLicensed d cs s = elim (Bool-cases (is_skipped bytes cluster t d)) [
    | inl k ↦ rw (collect_runtime, k) tt
    | inr k ↦ elim (Answer-cases (parent_of bytes cluster d s)) [
      | inl e ↦ rw (collect_runtime, k, e) tt
      | inr (inl e) ↦
          let (labelled, owned) = is_skipped-false d k in
          rw (collect_runtime, k, e) (collect_orphan-AllLicensed d labelled owned cs s)
      | inr (inr e) ↦ rw (collect_runtime, k, e) tt
    ]
  ]

-- Whatever the two collections of a tick ask the cluster to delete belongs to a flow of this shard,
-- by its label, which is not empty, for a reason that holds: the flow is not defined; or the runs are
-- known and the flow has none that is active; or, for a missing parent, the flow is defined. The
-- cluster lists deployments of a flow by that label.
pub collect-IsLicensed :
    (bytes : String → List ℕ) (cluster : Cluster)
    → IsSelective cluster
    → (t : Tick) (cs : Cleanups) (s : cluster.S)
    → All (IsLicensed bytes t) (collect bytes cluster t cs s).2
unfolding collect
collect-IsLicensed bytes cluster selective t cs s =
    All-append (IsLicensed bytes t) _ _
      (collect_listed-All bytes cluster _ _
        (collect_job_manager-AllLicensed bytes cluster selective t) _ _ _)
      (collect_listed-All bytes cluster _ _ (collect_runtime-AllLicensed bytes cluster selective t)
        _ _ _)
