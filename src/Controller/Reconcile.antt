-- ===== src/Controller/Reconcile.antt =====
-- `reconcile` of controller.go, one tick of the controller.
use flowgent.Prelude.{
  ℕ, String, Bool, true, false, none, some, List, [], ◌∷◌, ◌++◌, ◌&&◌, if◌then◌else◌,
}
use flowgent.Prelude.Int.{ℤ}
use flowgent.Prelude.Dict.{Dict, get_or, flag}
use flowgent.Dag.{Flow}
use flowgent.Discovery.{Peer}
use flowgent.Controller.Shard.{owns_flow}
use flowgent.Controller.Cleanup.{Cleanups}
use flowgent.Controller.Gc.{Deployment, Deletion, Cluster, Tick}
use flowgent.Controller.Collect.{collect}
use flowgent.Controller.View.{Server, FlowVersion, see_all, collect_active}
use flowgent.Controller.Infra.{Settings, Kube, ensure_application_infra}
use flowgent.Controller.Schedule.{ScheduleTrigger, clear, register_agent_flows, start}

-- What does not change: the configuration, the pod, the timeout of a cleanup, the hash's view of a text,
-- and the expressions that cron takes.
pub record Fixed : Type 0 where
  pub settings : Settings
  pub self : Peer
  pub timeout : ℤ
  pub bytes : String → List ℕ
  pub parses : String → Bool

-- What a tick leaves: the schedules, the marks, the world, and the deployments that it asked the cluster
-- to create and to delete.
pub record Tock (S : Type 0) : Type 0 where
  pub schedules : ScheduleTrigger
  pub cleanups : Cleanups
  pub world : S
  pub created : List Deployment
  pub deleted : List Deletion

module _ (fixed : Fixed) (cluster : Cluster) (server : Server cluster.S)
    (kube : Kube cluster.S) where
  open cluster use {S}
  open server use {discover, list_flows}

  -- The loop over the flows: the ones of this shard, and the deployments that were created.
  unfoldable pub drive :
      Bool → Dict Bool → List Peer → Dict Flow → S → S × List Flow × List Deployment
  drive snapshot_ok active peers [] s = (s, [], [])
  drive snapshot_ok active peers ((flow_id, spec) ∷ seen) s =
      elim (owns_flow fixed.bytes peers fixed.self flow_id) [
        | false ↦ drive snapshot_ok active peers seen s
        | true ↦
            let (s', created) =
              if snapshot_ok && flag active flow_id
              then ensure_application_infra fixed.settings kube spec s
              else (s, []) in
            let (s'', owned, more) = drive snapshot_ok active peers seen s' in
            (s'', spec ∷ owned, created ++ more)
      ]

  abbrev pub tick_of : List Peer → Dict Flow → Dict Bool → Bool → Tick
  tick_of peers seen active snapshot_ok = record {
    self = fixed.self;
    peers = peers;
    seen = seen;
    active = active;
    snapshot_ok = snapshot_ok;
    timeout = fixed.timeout;
  }

  -- The part behind the listing of the flows.
  unfoldable pub act : List Peer → List FlowVersion → ScheduleTrigger → Cleanups → S → Tock S
  unfolding see_all collect_active drive clear register_agent_flows start
  act peers versions schedules cs s =
      let seen = see_all server [] versions in
      let (s1, active, snapshot_ok) =
        collect_active server fixed.bytes peers fixed.self seen [] s in
      let (s2, owned, created) = drive snapshot_ok active peers seen s1 in
      let (cs', s3, deleted) =
        collect fixed.bytes cluster (tick_of peers seen active snapshot_ok) cs s2 in
      record {
        schedules = start (register_agent_flows fixed.parses owned (clear schedules));
        cleanups = cs';
        world = s3;
        created = created;
        deleted = deleted;
      }

  -- reconcile; without peers, every flow is of this shard.
  unfoldable pub reconcile : ScheduleTrigger → Cleanups → S → Tock S
  reconcile schedules cs s =
      let (s', found) = discover s in
      let (s'', versions) = list_flows s' in
      elim versions [
        | none ↦ record {
          schedules = schedules;
          cleanups = cs;
          world = s'';
          created = [];
          deleted = [];
        }
        | some vs ↦ act (get_or [] found) vs schedules cs s''
      ]
