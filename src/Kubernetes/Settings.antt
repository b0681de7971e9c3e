-- ===== src/Kubernetes/Settings.antt =====
-- The configuration that NewKubernetesResourceManager of kubernetes.go takes, and the labels of its
-- deployments. Durations are in nanoseconds; what only fills the pods' templates is left out.
use Prim.Native.String.{◌++◌ as str_append}
use flowgent.Prelude.{ℕ, zero, suc, String, Bool, [], ◌∷◌, ◌==◌, ltb, if◌then◌else◌}
use flowgent.Prelude.Dict.{Dict, put}
use flowgent.Prelude.Int.{ℤ, pos, negsuc}

-- The fields of ResourceManagerConfig that have a default.
pub record Config : Type 0 where
  pub slots_per_tm : ℤ
  pub min_tms : ℤ
  pub max_tms : ℤ
  pub idle_timeout : ℤ
  pub plan_timeout : ℤ
  pub k8s_namespace : String
  pub k8s_deployment_name : String
  pub sandbox_enabled : Bool
  pub sandbox_deployment_name : String
  pub sandbox_slots_per_pod : ℤ
  pub sandbox_min_replicas : ℤ
  pub sandbox_max_replicas : ℤ
  pub owner_namespace_id : String
  pub owner_flow_id : String
  pub owner_job_manager_name : String
  pub owner_job_manager_namespace : String

-- A deployment that is scaled: its name, the slots of a pod, and the bounds of its size.
pub record Pool : Type 0 where
  pub name : String
  pub slots : ℕ
  pub least : ℕ
  pub most : ℕ

-- What a manager keeps of its configuration.
pub record Settings : Type 0 where
  pub namespace : String
  pub tms : Pool
  pub sandbox : Pool
  pub sandbox_enabled : Bool
  pub idle_timeout : ℕ
  pub plan_timeout : ℕ
  pub owner_namespace_id : String
  pub owner_flow_id : String
  pub owner_job_manager_name : String
  pub owner_job_manager_namespace : String

-- A positive value, or the default; a value that is not negative, or 0; a text, or the default.
unfoldable pub positive_or : ℕ → ℤ → ℕ
positive_or default (pos zero) = default
positive_or default (pos (suc n)) = suc n
positive_or default (negsuc n) = default

unfoldable pub at_least_zero : ℤ → ℕ
at_least_zero (pos n) = n
at_least_zero (negsuc n) = 0

unfoldable pub default_if_empty : String → String → String
default_if_empty s fallback = if s == "" then fallback else s

-- The start of NewKubernetesResourceManager.
unfoldable pub settings_of : Config → Settings
unfolding positive_or at_least_zero default_if_empty
settings_of c =
    let least = at_least_zero c.sandbox_min_replicas in
    let most = positive_or 10 c.sandbox_max_replicas in
    record {
      namespace = default_if_empty c.k8s_namespace "default";
      tms = record {
        name = default_if_empty c.k8s_deployment_name "flowgent-taskmanager";
        slots = positive_or 4 c.slots_per_tm;
        least = at_least_zero c.min_tms;
        most = positive_or 10 c.max_tms;
      };
      sandbox = record {
        name = default_if_empty c.sandbox_deployment_name "flowgent-sandbox";
        slots = positive_or 4 c.sandbox_slots_per_pod;
        least = least;
        most = if ltb most least then least else most;
      };
      sandbox_enabled = c.sandbox_enabled;
      idle_timeout = positive_or 300_000_000_000 c.idle_timeout;
      plan_timeout = positive_or 720_000_000_000 c.plan_timeout;
      owner_namespace_id = c.owner_namespace_id;
      owner_flow_id = c.owner_flow_id;
      owner_job_manager_name = c.owner_job_manager_name;
      owner_job_manager_namespace = c.owner_job_manager_namespace;
    }

abbrev put_if : String → String → Dict String → Dict String
put_if k v labels = if v == "" then labels else put labels k v

-- The part that tmLabels and sandboxLabels share.
unfoldable pub owner_labels : Settings → Dict String → Dict String
unfolding default_if_empty
owner_labels s labels =
    if s.owner_flow_id == ""
    then labels
    else put_if "flowgent.io/parent-jobmanager-namespace" s.owner_job_manager_namespace (
        put_if "flowgent.io/parent-jobmanager" s.owner_job_manager_name (
          put
            (put
              (put (put labels "flowgent.io/mode" "application") "flowgent.io/namespace"
                (default_if_empty s.owner_namespace_id "default"))
              "flowgent.io/flow" s.owner_flow_id)
            "flowgent.io/managed-by" "jobmanager"))

unfoldable pub tm_labels : Settings → Dict String
unfolding owner_labels
tm_labels s =
    owner_labels s
      (("app.kubernetes.io/component", "taskmanager") ∷ ("flowgent/role", "worker") ∷ [])

unfoldable pub sandbox_labels : Settings → Dict String
unfolding owner_labels
sandbox_labels s =
    owner_labels s
      (("app.kubernetes.io/component", "sandbox") ∷ ("flowgent/role", "sandbox-worker") ∷ [])

unfoldable pub cache_key : String → String → String
cache_key namespace deploy_name =
    str_append "flowgent:rm:" (str_append namespace (str_append ":" deploy_name))
