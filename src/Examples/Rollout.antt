-- ===== src/Examples/Rollout.antt =====
-- A tick of the controller (controller/pkg/controller.go) for one flow with a run.
use flowgent.Prelude.{
  ℕ, suc, true, some, List, [], ◌∷◌, ◌==◌, ◌≡◌, refl, sym, ap, subst, All, some_inj,
}
use flowgent.Prelude.Int.{pos}
use flowgent.Prelude.Dict.{put}
use flowgent.Dag.{Flow, TriggerDef}
use flowgent.Controller.Gc.{done, not_found}
use flowgent.Controller.View.{Server, FlowVersion}
use flowgent.Controller.Infra.{
  Settings, made, Kube, ensure_application_infra, build_jm_deployment, ensure_namespace,
  copy_config_map, recopy_config_map, ensure_application_config_map, put_grant, ensure_runtime_rbac,
  jm_config_map_name, system_namespace_of,
}
use flowgent.Controller.Schedule.{
  new_schedule_trigger, register_agent_flows, register_triggers, register_trigger,
}
use flowgent.Controller.Shard.{application_namespace, dispatch_namespace, default_namespace_prefix}
use flowgent.Controller.Reconcile.{Fixed, reconcile}
use flowgent.Controller.Alive.{IsNamed}
use flowgent.Controller.Apart.{IsConsistent, reconcile-IsConsistent}
use flowgent.Examples.Fleet.{flow, cluster, cluster-IsSelective, pod, bytes}

abbrev every_night : TriggerDef
every_night = record { type = "schedule"; cron = "0 3 * * *"; provider = ""; events = [] }

abbrev scheduled : Flow
scheduled = record flow { triggers = every_night ∷ [] }

abbrev version : FlowVersion
version = record { flow_id = "f1"; definition = "{}" }

-- One run of the flow is listed for each status.
abbrev server : Server ℕ
server = record {
  discover = λ s. (s, some (pod ∷ []));
  list_flows = λ s. (s, some (version ∷ []));
  list_runs = λ flow_id status s. (s, some 1);
  get_flow = λ flow_id s. (s, some scheduled);
  create_run = λ namespace run s. s;
  unix_nano = λ s. s;
  decode = λ text. some scheduled;
  equal_fold = λ s t. s == t;
  format = λ n. "1";
}

abbrev settings : Settings
settings = record {
  namespace_prefix = "";
  namespace = "default";
  jm_config_map = "";
  system_namespace = "";
  pod_namespace = "";
  k8s_namespace = "";
}

-- A cluster that has nothing yet, and takes all.
abbrev kube : Kube ℕ
kube = record {
  connect = λ s. true;
  get_namespace = λ namespace s. not_found;
  create_namespace = λ namespace labels s. (suc s, made);
  get_config_map = λ namespace name s. (done, []);
  create_config_map = λ namespace name labels data' s. (suc s, made);
  get_grant = λ g namespace s. not_found;
  create_grant = λ g namespace labels s. (suc s, made);
  update_grant = λ g namespace labels s. (s, true);
  create_deployment = λ d s. (suc s, made);
}

abbrev fixed : Fixed
fixed = record {
  settings = settings;
  self = pod;
  timeout = pos 5;
  bytes = bytes;
  parses = λ text. true;
}

created :
    (ensure_application_infra settings kube scheduled 0).1
    ≡ build_jm_deployment "flowgent-n" "n" scheduled ∷ []
unfolding ensure_application_infra build_jm_deployment ensure_namespace copy_config_map
    recopy_config_map ensure_application_config_map put_grant ensure_runtime_rbac jm_config_map_name
    system_namespace_of application_namespace dispatch_namespace default_namespace_prefix
created = refl

nightly :
    (register_agent_flows (λ text. true) (scheduled ∷ []) new_schedule_trigger).entries
    ≡ ("f1", "0 3 * * *") ∷ []
unfolding register_agent_flows register_triggers register_trigger new_schedule_trigger put
nightly = refl

version-IsNamed : IsNamed server version
version-IsNamed spec h = sym (ap (λ (f : Flow). f.id) (some_inj h))

listed :
    (vs : List FlowVersion)
    → (server.list_flows (server.discover 0).0).1 ≡ some vs
    → All (IsNamed server) vs
listed vs h = subst (All (IsNamed server)) (some_inj h) (version-IsNamed, tt)

reconcile-IsConsistent_example :
    IsConsistent fixed cluster server kube
      (pod ∷ [])
      (reconcile fixed cluster server kube new_schedule_trigger [] 0)
reconcile-IsConsistent_example =
    reconcile-IsConsistent fixed cluster server kube cluster-IsSelective new_schedule_trigger [] 0
      listed
