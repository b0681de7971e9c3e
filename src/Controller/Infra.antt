-- ===== src/Controller/Infra.antt =====
-- What controller.go creates for a flow that has to run: its run, its namespace, config map, roles and
-- the deployment of its job manager. What fills the objects besides names and labels is left out. Each
-- function also returns the deployments that it asked the API to create.
use Prim.Native.String.{◌++◌ as str_append}
use flowgent.Prelude.{String, Bool, true, false, none, some, List, [], ◌∷◌, ◌==◌, if◌then◌else◌}
use flowgent.Prelude.Dict.{Dict}
use flowgent.Dag.{Flow, run_pending}
use flowgent.Controller.Shard.{application_namespace, dispatch_namespace}
use flowgent.Controller.Gc.{Deployment, Answer, done, not_found, failed}
use flowgent.Controller.View.{Server}

-- The configuration, c.namespace and the variable POD_NAMESPACE.
pub record Settings : Type 0 where
  pub namespace_prefix : String
  pub namespace : String
  pub jm_config_map : String
  pub system_namespace : String
  pub pod_namespace : String
  pub k8s_namespace : String

-- What Create returns.
pub data Made : Type 0 where
  made already_exists refused : Made

-- The objects of ensureRuntimeRBAC.
pub data Grant : Type 0 where
  service_account role role_binding : Grant

-- The API. `connect` is InClusterConfig and NewForConfig; `get_config_map` gives the data.
pub record Kube (S : Type 0) : Type 0 where
  pub connect : S → Bool
  pub get_namespace : String → S → Answer
  pub create_namespace : String → Dict String → S → S × Made
  pub get_config_map : String → String → S → Answer × Dict String
  pub create_config_map : String → String → Dict String → Dict String → S → S × Made
  pub get_grant : Grant → String → S → Answer
  pub create_grant : Grant → String → Dict String → S → S × Made
  pub update_grant : Grant → String → Dict String → S → S × Bool
  pub create_deployment : Deployment → S → S × Made

-- jmConfigMapName and systemNamespace
unfoldable pub jm_config_map_name : Settings → String
jm_config_map_name c = if c.jm_config_map == "" then "flowgent-config" else c.jm_config_map

unfoldable pub system_namespace_of : Settings → String
system_namespace_of c =
    if c.system_namespace == ""
    then (if c.pod_namespace == ""
        then (if c.k8s_namespace == "" then "flowgen-system" else c.k8s_namespace)
        else c.pod_namespace)
    else c.system_namespace

-- The labels of all but the deployment.
abbrev pub shared_labels : String → Dict String
shared_labels namespace_id =
    ("flowgent.io/mode", "application") ∷ ("flowgent.io/namespace", namespace_id) ∷ []

-- buildJMDeployment, with its name.
unfoldable pub build_jm_deployment : String → String → Flow → Deployment
build_jm_deployment namespace namespace_id spec = record {
  namespace = namespace;
  name = str_append "flowgent-jobmanager-" (str_append namespace_id (str_append "-" spec.id));
  labels =
      ("app", "flowgent-jobmanager")
      ∷ ("app.kubernetes.io/component", "jobmanager")
      ∷ ("flowgent.io/namespace", namespace_id)
      ∷ ("flowgent.io/flow", spec.id)
      ∷ ("flowgent.io/mode", "application")
      ∷ [];
}

abbrev pub is_refused : Made → Bool
is_refused refused = true
is_refused _ = false

abbrev pub is_account : Grant → Bool
is_account service_account = true
is_account _ = false

module _ (settings : Settings) {S : Type 0} (kube : Kube S) where
  open kube use {
    connect, get_namespace, create_namespace, get_config_map, create_config_map, get_grant,
    create_grant, update_grant, create_deployment,
  }

  -- The copy of the system's config map, where that can be read; an error is logged.
  unfoldable pub copy_config_map : String → String → S → S
  unfolding jm_config_map_name system_namespace_of
  copy_config_map namespace namespace_id s =
      let (answer, data') =
        get_config_map (system_namespace_of settings) (jm_config_map_name settings) s in
      elim answer [
        | done ↦
            (create_config_map namespace (jm_config_map_name settings) (shared_labels namespace_id)
              data' s).0
        | _ ↦ s
      ]

  -- The block behind a new namespace, on any error of the lookup.
  unfoldable pub recopy_config_map : String → String → S → S
  unfolding copy_config_map
  recopy_config_map namespace namespace_id s =
      elim (get_config_map namespace (jm_config_map_name settings) s).0 [
        | done ↦ s
        | _ ↦ copy_config_map namespace namespace_id s
      ]

  -- ensureApplicationConfigMap
  unfoldable pub ensure_application_config_map : String → String → S → S
  unfolding copy_config_map
  ensure_application_config_map namespace namespace_id s =
      elim (get_config_map namespace (jm_config_map_name settings) s).0 [
        | not_found ↦ copy_config_map namespace namespace_id s
        | _ ↦ s
      ]

  -- The lookup of the namespace, with what follows its creation: may the rest go on?
  unfoldable pub ensure_namespace : String → String → S → S × Bool
  unfolding copy_config_map recopy_config_map
  ensure_namespace namespace namespace_id s = elim (get_namespace namespace s) [
    | done ↦ (s, true)
    | failed ↦ (s, false)
    | not_found ↦
        let (s', answer) = create_namespace namespace (shared_labels namespace_id) s in
        elim (is_refused answer) [
          | true ↦ (s', false)
          | false ↦ (
            recopy_config_map namespace namespace_id (copy_config_map namespace namespace_id s'),
            true,
          )
        ]
  ]

  -- One object of ensureRuntimeRBAC: create or update it; may the rest go on?
  unfoldable pub put_grant : Grant → String → String → S → S × Bool
  put_grant g namespace namespace_id s = elim (get_grant g namespace s) [
    | failed ↦ (s, false)
    | not_found ↦
        let (s', answer) = create_grant g namespace (shared_labels namespace_id) s in
        elim (is_refused answer) [ true ↦ (s', false) | false ↦ (s', true) ]
    | done ↦ elim (is_account g) [
      | true ↦ (s, true)
      | false ↦ update_grant g namespace (shared_labels namespace_id) s
    ]
  ]

  -- ensureRuntimeRBAC
  unfoldable pub ensure_runtime_rbac : String → String → S → S
  unfolding put_grant
  ensure_runtime_rbac namespace namespace_id s =
      let (s1, has_account) = put_grant service_account namespace namespace_id s in
      elim has_account [
        | false ↦ s1
        | true ↦
            let (s2, has_role) = put_grant role namespace namespace_id s1 in
            elim has_role [
              | false ↦ s2
              | true ↦ (put_grant role_binding namespace namespace_id s2).0
            ]
      ]

  -- ensureApplicationInfra
  unfoldable pub ensure_application_infra : Flow → S → S × List Deployment
  unfolding ensure_namespace ensure_application_config_map ensure_runtime_rbac build_jm_deployment
      application_namespace dispatch_namespace
  ensure_application_infra spec s =
      let namespace =
        application_namespace settings.namespace_prefix settings.namespace spec.k8s_namespace
          spec.namespace in
      let namespace_id = dispatch_namespace settings.namespace spec.namespace in
      elim (connect s) [
        | false ↦ (s, [])
        | true ↦
            let (s1, goes_on) = ensure_namespace namespace namespace_id s in
            elim goes_on [
              | false ↦ (s1, [])
              | true ↦
                  let s2 = ensure_application_config_map namespace namespace_id s1 in
                  let s3 = ensure_runtime_rbac namespace namespace_id s2 in
                  let deployment = build_jm_deployment namespace namespace_id spec in
                  ((create_deployment deployment s3).0, deployment ∷ [])
            ]
      ]

  module _ (server : Server S) where
    open server use {get_flow, create_run, unix_nano, format}

    -- createApplicationRun
    unfoldable pub create_application_run : Flow → S → S
    create_application_run spec s =
        let namespace_id = dispatch_namespace settings.namespace spec.namespace in
        create_run namespace_id
          (record {
            id = str_append spec.id (str_append "-" (format (unix_nano s)));
            namespace = namespace_id;
            agent_flow_id = spec.id;
            version = 1;
            status = run_pending;
            priority = "high";
            k8s_namespace =
                application_namespace settings.namespace_prefix settings.namespace
                  spec.k8s_namespace spec.namespace;
            vars = spec.vars;
            trigger = record { type = "schedule"; source = "controller"; payload = [] };
          })
          s

    -- triggerScheduledRun
    unfoldable pub trigger_scheduled_run : String → S → S × List Deployment
    unfolding create_application_run
    trigger_scheduled_run flow_id s =
        let (s', found) = get_flow flow_id s in
        elim found [
          | none ↦ (s', [])
          | some spec ↦ ensure_application_infra spec (create_application_run spec s')
        ]
