-- ===== src/Controller/Apart.antt =====
-- What a tick of controller.go creates and what it deletes.
use flowgent.Prelude.{
  String, Bool, true, some, List, [], ◌∷◌, ◌==◌, ◌&&◌, ◌≡◌, ◌≢◌, ◌⊎◌, inl, inr, refl, sym, ◌∙◌,
  subst, All, All-append, All-map, arith, is_some, eq_iff, Bool-cases, Option-cases, true-false,
}
use flowgent.Prelude.Dict.{Dict, get, get_or, flag}
use flowgent.Dag.{Flow}
use flowgent.Discovery.{Peer}
use flowgent.Controller.Shard.{owns_flow, application_namespace, dispatch_namespace}
use flowgent.Controller.Cleanup.{Cleanups}
use flowgent.Controller.Gc.{
  Deployment, flow_of, Reason, flow_deleted, no_active_runs, no_active_runs_beyond_window,
  parent_missing, Deletion, Cluster, Tick,
}
use flowgent.Controller.Licence.{IsLicensed, IsSelective, Holds, collect-IsLicensed}
use flowgent.Controller.View.{Server, FlowVersion, see_all, collect_active}
use flowgent.Controller.Alive.{
  flag-nil, All-get, IsAlive, collect_active-IsAlive, IsNamed, IsUnder, see_all-AllUnder,
}
use flowgent.Controller.Infra.{
  Settings, Kube, ensure_application_infra, build_jm_deployment, ensure_namespace,
}
use flowgent.Controller.Schedule.{ScheduleTrigger}
use flowgent.Controller.Reconcile.{Fixed, Tock, drive, tick_of, act, reconcile}

module _ (settings : Settings) {S : Type 0} (kube : Kube S) where
  -- What is created for a flow has the flow's label.
  ensure_application_infra-flow :
      (spec : Flow) (s : S)
      → All (λ d. flow_of d ≡ spec.id) (ensure_application_infra settings kube spec s).1
  unfolding ensure_application_infra build_jm_deployment get
  ensure_application_infra-flow spec s = elim (Bool-cases (kube.connect s)) [
    | inr c ↦ rw (ensure_application_infra, c) tt
    | inl c ↦
        let namespace =
          application_namespace settings.namespace_prefix settings.namespace spec.k8s_namespace
            spec.namespace in
        let namespace_id = dispatch_namespace settings.namespace spec.namespace in
        elim (Bool-cases (ensure_namespace settings kube namespace namespace_id s).1) [
          | inr n ↦ rw (ensure_application_infra, c, n) tt
          | inl n ↦ rw (ensure_application_infra, c, n) (refl, tt)
        ]
  ]

module _ (fixed : Fixed) (cluster : Cluster) (server : Server cluster.S)
    (kube : Kube cluster.S) where
  open cluster use {S}

  -- A deployment that a tick may create: its flow is defined, of this shard, and known to be active.
  record IsWarranted (t : Tick) (d : Deployment) : Type 0 where
    defined : is_some (get t.seen (flow_of d)) ≡ true
    owned : owns_flow fixed.bytes t.peers fixed.self (flow_of d) ≡ true
    known : t.snapshot_ok ≡ true
    active : flag t.active (flow_of d) ≡ true

  drive-AllWarranted :
      (peers : List Peer) (all : Dict Flow) (active : Dict Bool) (ok : Bool) (seen : Dict Flow)
      (s : S)
      → All (IsUnder server) seen
      → All (λ (e : String × Flow). is_some (get all e.0) ≡ true) seen
      → All
          (IsWarranted (tick_of fixed cluster server kube peers all active ok))
          (drive fixed cluster server kube ok active peers seen s).2
  unfolding drive
  drive-AllWarranted peers all active ok [] s under found = tt
  drive-AllWarranted peers all active ok ((k, spec) ∷ seen) s (u, us) (f, fs) =
      elim (Bool-cases (owns_flow fixed.bytes peers fixed.self k)) [
        | inr o ↦ rw (drive, o) (drive-AllWarranted peers all active ok seen s us fs)
        | inl o ↦ elim (Bool-cases (ok && flag active k)) [
          | inr a ↦ rw (drive, o, a) (drive-AllWarranted peers all active ok seen s us fs)
          | inl a ↦
              rw (drive, o, a)
                (All-append _ _ _
                  (All-map _ _ (λ d q. warranted o a d (q ∙ u)) _
                    (ensure_application_infra-flow fixed.settings kube spec s))
                  (drive-AllWarranted peers all active ok seen _ us fs))
        ]
      ]
    where
      warranted :
          owns_flow fixed.bytes peers fixed.self k ≡ true
          → (ok && flag active k) ≡ true
          → (d : Deployment) → flow_of d ≡ k
          → IsWarranted (tick_of fixed cluster server kube peers all active ok) d
      warranted o a d q = record {
        defined = subst (λ z. is_some (get all z) ≡ true) (sym q) f;
        owned = subst (λ z. owns_flow fixed.bytes peers fixed.self z ≡ true) (sym q) o;
        known = ground (arith, a);
        active = subst (λ z. flag active z ≡ true) (sym q) (ground (arith, a));
      }

  -- They are of two flows, or the deployment that is deleted misses its parent.
  abbrev pub IsApart : Deletion → Deployment → Type 0
  IsApart x d = (flow_of x.target ≢ flow_of d) ⊎ (x.reason ≡ parent_missing)

  apart :
      (t : Tick) (x : Deletion) (d : Deployment)
      → IsLicensed fixed.bytes t x
      → IsWarranted t d
      → IsApart x d
  apart t x d l w = elim (Bool-cases (flow_of x.target == flow_of d)) [
    | inr e ↦ inl (λ q. true-false (sym ((eq_iff (flow_of x.target) (flow_of d)).1 q) ∙ e))
    | inl e ↦
        let q = (eq_iff (flow_of x.target) (flow_of d)).0 e in
        inr (by_reason x.reason (subst (λ z. Holds t z x.reason) q l.reason_holds))
  ]
    where
      by_reason : (r : Reason) → Holds t (flow_of d) r → r ≡ parent_missing
      by_reason flow_deleted h = absurd (ground (arith, w.defined, h))
      by_reason no_active_runs (h, k) = absurd (true-false (sym w.active ∙ k))
      by_reason no_active_runs_beyond_window (h, k) = absurd (true-false (sym w.active ∙ k))
      by_reason parent_missing h = refl

  -- A flow that a tick may create a job manager for, from a list of peers: it is of this shard and has a
  -- run that is not over.
  pub record IsDue (peers : List Peer) (flow_id : String) : Type 0 where
    pub owned : owns_flow fixed.bytes peers fixed.self flow_id ≡ true
    pub alive : IsAlive server flow_id

  -- What a tick asks the cluster for.
  pub record IsConsistent (peers : List Peer) (tock : Tock S) : Type 0 where
    pub due : All (λ d. IsDue peers (flow_of d)) tock.created
    pub apart_all : All (λ x. All (λ d. IsApart x d) tock.created) tock.deleted

  act-IsConsistent :
      IsSelective cluster
      → (peers : List Peer) (vs : List FlowVersion) (schedules : ScheduleTrigger) (cs : Cleanups)
        (s : S)
      → All (IsNamed server) vs
      → IsConsistent peers (act fixed cluster server kube peers vs schedules cs s)
  unfolding act
  act-IsConsistent selective peers vs schedules cs s named =
      let seen = see_all server [] vs in
      let (s1, active, ok) = collect_active server fixed.bytes peers fixed.self seen [] s in
      let t = tick_of fixed cluster server kube peers seen active ok in
      let (s2, owned, created) = drive fixed cluster server kube ok active peers seen s1 in
      let warranted =
        drive-AllWarranted peers seen active ok seen s1 (see_all-AllUnder server vs [] named tt)
          (All-get seen) in
      record {
        due =
            All-map (IsWarranted t) (λ d. IsDue peers (flow_of d))
              (λ d w. record {
                owned = w.owned;
                alive =
                    collect_active-IsAlive server fixed.bytes peers fixed.self seen [] s (flow_of d)
                      (λ h. absurd (flag-nil _ h)) w.active;
              })
              created warranted;
        apart_all =
            All-map (IsLicensed fixed.bytes t) (λ x. All (λ d. IsApart x d) created)
              (λ x l.
                All-map (IsWarranted t) (λ d. IsApart x d) (λ d w. apart t x d l w) created
                  warranted)
              _ (collect-IsLicensed fixed.bytes cluster selective t cs s2);
      }

-- Where each version that the API server lists has a definition with its own identifier, a tick creates
-- deployments only for flows of this shard with a pending, running or paused run; and what it deletes
-- in the same tick is of other flows, except for deployments whose parent is missing. The cluster lists
-- deployments of a flow by that label.
pub reconcile-IsConsistent :
    (fixed : Fixed) (cluster : Cluster) (server : Server cluster.S) (kube : Kube cluster.S)
    → IsSelective cluster
    → (schedules : ScheduleTrigger) (cs : Cleanups) (s : cluster.S)
    → ((vs : List FlowVersion)
        → (server.list_flows (server.discover s).0).1 ≡ some vs
        → All (IsNamed server) vs)
    → IsConsistent fixed cluster server kube
        (get_or [] (server.discover s).1)
        (reconcile fixed cluster server kube schedules cs s)
unfolding reconcile
reconcile-IsConsistent fixed cluster server kube selective schedules cs s named =
    elim (Option-cases (server.list_flows (server.discover s).0).1) [
      | inl q ↦ rw (reconcile, q) (record { due = tt; apart_all = tt })
      | inr (vs, q) ↦
          rw (reconcile, q)
            (act-IsConsistent fixed cluster server kube selective (get_or [] (server.discover s).1)
              vs schedules cs _ (named vs q))
    ]
