-- ===== src/Examples/Fleet.antt =====
-- A cluster with a job manager whose flow has no runs (controller/pkg/controller.go).
use flowgent.Prelude.{
  ℕ, String, true, none, some, List, [], ◌∷◌, ◌==◌, ◌≡◌, All, subst, some_inj, Bool-cases, inl, inr,
  eq_iff, if◌then◌else◌, Memᴰ,
}
use flowgent.Prelude.Int.{pos}
use flowgent.Prelude.Dict.{get}
use flowgent.Dag.{Flow}
use flowgent.Discovery.{Peer}
use flowgent.Controller.Shard.{owns_flow}
use flowgent.Controller.Gc.{Deployment, flow_of, Cluster, Tick, done, not_found}
use flowgent.Controller.Collect.{collect}
use flowgent.Controller.Licence.{IsLicensed, IsSelective, collect-IsLicensed}
use flowgent.Controller.Owner.{owns_flow_unique}

abbrev pub flow : Flow
flow = record {
  id = "f1";
  namespace = "n";
  description = "";
  kind = "";
  triggers = [];
  priority = "";
  k8s_namespace = "";
  vars = [];
  nodes = [];
  edges = [];
}

abbrev manager : Deployment
manager = record { namespace = "ns"; name = "jm"; labels = ("flowgent.io/flow", "f1") ∷ [] }

abbrev worker : Deployment
worker = record {
  namespace = "ns";
  name = "tm";
  labels = ("flowgent.io/flow", "f1") ∷ ("flowgent.io/parent-jobmanager", "jm") ∷ [];
}

-- The state is the time.
abbrev pub cluster : Cluster
cluster = record {
  S = ℕ;
  now = λ s. s;
  list_job_managers = λ s. some (manager ∷ []);
  list_managed = λ s. some (worker ∷ []);
  list_managed_of_flow = λ flow_id s. if "f1" == flow_id then some (worker ∷ []) else none;
  get_deployment = λ namespace name s. not_found;
  delete_deployment = λ namespace name s. (s, done);
}

pub cluster-IsSelective : IsSelective cluster
unfolding get
cluster-IsSelective flow_id s ds h = elim (Bool-cases ("f1" == flow_id)) [
  | inl e ↦
      subst (All (λ (d : Deployment). flow_of d ≡ flow_id)) (some_inj (rw e at h))
        ((eq_iff "f1" flow_id).0 e, tt)
  | inr e ↦ absurd (none_is_some ds (rw e at h))
]
  where
    none_is_some : (xs : List Deployment) → none ≡ some xs → ⊥
    none_is_some xs k = cc

abbrev pub pod : Peer
pod = record { name = "controller-0"; is_ready = true }

abbrev pub bytes : String → List ℕ
bytes s = 102 ∷ 49 ∷ []

abbrev tick : Tick
tick = record {
  self = pod;
  peers = pod ∷ [];
  seen = ("f1", flow) ∷ [];
  active = [];
  snapshot_ok = true;
  timeout = pos 5;
}

collect-IsLicensed_example :
    All (IsLicensed bytes tick) (collect bytes cluster tick (("ns/jm", 1) ∷ []) 9).2
collect-IsLicensed_example =
    collect-IsLicensed bytes cluster cluster-IsSelective tick (("ns/jm", 1) ∷ []) 9

owns_flow_unique_example :
    (owner : Peer) × Memᴰ owner (pod ∷ [])
    × (owns_flow bytes (pod ∷ []) owner "f1" ≡ true)
    × ((self : Peer) → owns_flow bytes (pod ∷ []) self "f1" ≡ true → owner.name ≡ self.name)
owns_flow_unique_example = owns_flow_unique bytes pod [] "f1"
