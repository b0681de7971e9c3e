-- ===== src/Api/Flows.antt =====
-- `FlowDefHandler` of api/pkg/handler/flow_def.go. A handler takes the decoded body, where none is a
-- body that does not decode, and returns a response. The channels that wait are numbers; one method is
-- one step.
use Prim.Native.String.{◌++◌ as str_append}
use flowgent.Prelude.{
  ℕ, ◌+◌, String, Bool, true, false, Option, List, [], ◌∷◌, ◌++◌, ◌==◌, ltb, if◌then◌else◌,
}
use flowgent.Prelude.Dict.{Dict, put, get_or}
use flowgent.Value.{Object}
use flowgent.Dag.{Flow, Node, Edge, RunStatus, run_pending}
use flowgent.Agent.Services.{Fallible, bad, good}

-- TriggerInfo
pub record TriggerInfo : Type 0 where
  pub type : String
  pub source : String
  pub payload : Object

-- The fields of FlowRunInfo that CreateRunFromTrigger sets.
pub record NewRun : Type 0 where
  pub agent_flow_id : String
  pub version : ℕ
  pub status : RunStatus
  pub vars : Object
  pub priority : String
  pub namespace : String
  pub k8s_namespace : String
  pub trigger : TriggerInfo

-- The fields of a body of Update that it reads; none is a missing list or map.
pub record Updates : Type 0 where
  pub description : String
  pub nodes : Option (List Node)
  pub edges : Option (List Edge)
  pub priority : String
  pub vars : Option Object

pub data Response : Type 0 where
  error : ℕ → String → Response
  flow : ℕ → Flow → Response
  no_content : Response
  started : String → String → String → Response

-- The handler's fields.
pub record Handler : Type 0 where
  pub agent_flows : Dict Flow
  pub namespace_prefix : String
  pub default_namespace : String
  pub watch_version : ℕ
  pub watch_chs : List ℕ

-- The stores of flows and runs, the MQTT publisher and the clock behind a state. `get_spec` is GetSpec,
-- none for an error or a nil flow, `create_run` gives the run its identifier. An error of the publisher
-- is logged.
pub record Services : Type 1 where
  pub S : Type 0
  pub get_spec : String → S → S × Option Flow
  pub save_spec : Flow → String → String → S → S × Option String
  pub delete_flow : String → S → S × Option String
  pub create_run : NewRun → S → S × Fallible String
  pub has_mqtt : Bool
  pub publish : String → Object → S → S

unfoldable pub namespace_prefix_or_default : String → String
namespace_prefix_or_default prefix = if prefix == "" then "flowgent-" else prefix

unfoldable pub coalesce_namespace : String → String
coalesce_namespace namespace = if namespace == "" then "default" else namespace

-- afMap: the flows under their identifiers, then the sub-flows under their keys.
unfoldable pub put_flows : Dict Flow → List Flow → Dict Flow
put_flows d [] = d
put_flows d (f ∷ fs) = put_flows (put d f.id f) fs

unfoldable pub put_sub_flows : Dict Flow → Dict Flow → Dict Flow
put_sub_flows d [] = d
put_sub_flows d ((k, f) ∷ fs) = put_sub_flows (put d k f) fs

-- NewFlowDefHandler
unfoldable pub new_handler : List Flow → Dict Flow → String → String → Handler
unfolding put_flows put_sub_flows namespace_prefix_or_default coalesce_namespace
new_handler flows sub_flows prefix namespace = record {
  agent_flows = put_sub_flows (put_flows [] flows) sub_flows;
  namespace_prefix = namespace_prefix_or_default prefix;
  default_namespace = coalesce_namespace namespace;
  watch_version = 1;
  watch_chs = [];
}

unfoldable pub normalize_priority : (String → String) → String → Fallible String
normalize_priority quote p =
    if p == ""
    then good "high"
    else if p == "high"
    then good p
    else bad (
        str_append "priority " (
          str_append (quote p)
            " is not supported (Session mode is disabled; only \"high\" is currently accepted)"))

-- notifyWatchers, with the channels that it closes.
unfoldable pub notify_watchers : Handler → Handler × List ℕ
notify_watchers h = (record h { watch_version = h.watch_version + 1; watch_chs = [] }, h.watch_chs)

-- The start of Watch: list at once, or wait on the new channel `ch`.
unfoldable pub watch : Handler → ℕ → ℕ → Handler × Bool
watch h since ch =
    if ltb since h.watch_version
    then (h, true)
    else (record h { watch_chs = h.watch_chs ++ (ch ∷ []) }, false)

-- Reload
unfoldable pub reload : List Flow → Dict Flow → Handler → Handler × List ℕ
unfolding put_flows put_sub_flows notify_watchers
reload flows sub_flows h =
    notify_watchers (record h { agent_flows = put_sub_flows (put_flows [] flows) sub_flows })

-- The filter of List; `decode` gives the kind of a version's definition, and `equal_fold` is
-- strings.EqualFold.
unfoldable pub without_skills :
    {A : Type 0} → (String → String → Bool) → (A → Option String) → List A → List A
without_skills equal_fold decode [] = []
without_skills equal_fold decode (a ∷ items) =
    let rest = without_skills equal_fold decode items in
    if equal_fold (get_or "" (decode a)) "skill" then rest else a ∷ rest

unfoldable pub handler_namespace : Handler → Flow → String
handler_namespace h spec =
    if spec.k8s_namespace == ""
    then str_append h.namespace_prefix
        (if spec.namespace == "" then h.default_namespace else spec.namespace)
    else spec.k8s_namespace

-- The run of CreateRunFromTrigger.
unfoldable pub run_of : Handler → Flow → String → Object → TriggerInfo → NewRun
unfolding handler_namespace
run_of h spec flow_id vars trigger =
    let namespace = handler_namespace h spec in
    let namespace' = if namespace == "" then spec.namespace else namespace in
    record {
      agent_flow_id = flow_id;
      version = 1;
      status = run_pending;
      vars = vars;
      priority = spec.priority;
      namespace = namespace';
      k8s_namespace = namespace';
      trigger = trigger;
    }

-- The assignments of Update to the flow that is stored.
unfoldable pub overlay : Updates → Flow → Flow
overlay u f = record f {
  description = if u.description == "" then f.description else u.description;
  nodes = get_or f.nodes u.nodes;
  edges = get_or f.edges u.edges;
  vars = get_or f.vars u.vars;
}

-- Update's new priority: what the body names, checked, or the one that is stored.
unfoldable pub new_priority : (String → String) → Updates → Flow → Fallible String
unfolding normalize_priority
new_priority quote u f =
    if u.priority == "" then good f.priority else normalize_priority quote u.priority
