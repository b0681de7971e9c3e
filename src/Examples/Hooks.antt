-- ===== src/Examples/Hooks.antt =====
-- A flow that runs on pushes, behind the API server (api/pkg/handler: flow_def.go and webhook.go).
use flowgent.Prelude.{ℕ, suc, true, false, none, some, [], ◌∷◌, ◌==◌, ◌≡◌, ◌↔◌, ◌⊎◌, refl}
use flowgent.Prelude.Dict.{put, get}
use flowgent.Prelude.Int.{pos}
use flowgent.Value.{str}
use flowgent.Dag.{Flow, TriggerDef}
use flowgent.Controller.Shard.{application_namespace}
use flowgent.JobManager.{Poller, spec_of, is_eligible}
use flowgent.Agent.Services.{bad, good}
use flowgent.Api.Flows.{
  TriggerInfo, Handler, Services, Updates, flow, new_handler, put_flows, put_sub_flows,
  namespace_prefix_or_default, coalesce_namespace, run_of, handler_namespace, overlay, new_priority,
  notify_watchers,
}
use flowgent.Api.Handlers.{
  create_run_from_trigger, spec_of_trigger, publish_run_created, update_flow, publish_flow_event,
}
use flowgent.Api.Events.{
  WebhookEvent, GithubBody, Codec, is_supported_provider, provider_event, parse_event,
  of_github_like, inferred_event,
}
use flowgent.Api.Webhook.{
  rejected, accepted, has_event, fires, some_fires, matches_webhook_trigger, webhook_vars,
  trigger_of, dispatch_to, handle,
}
use flowgent.Api.Routing.{stored, run_of-is_eligible}
use flowgent.Api.Triggers.{IsDispatch, dispatch_to-IsDispatch}

abbrev on_push : TriggerDef
on_push = record { type = "webhook"; cron = ""; provider = "github"; events = "push" ∷ [] }

abbrev review : Flow
review = record {
  id = "review";
  namespace = "team";
  description = "";
  kind = "";
  triggers = on_push ∷ [];
  priority = "high";
  k8s_namespace = "";
  vars = [];
  nodes = [];
  edges = [];
}

abbrev nightly : Flow
nightly = record review { id = "nightly"; triggers = [] }

abbrev handler : Handler
handler = new_handler (nightly ∷ review ∷ []) [] "" ""

-- The state counts the runs.
abbrev services : Services
services = record {
  S = ℕ;
  get_spec = λ id s. (s, none);
  save_spec = λ spec user note s. (s, none);
  delete_flow = λ id s. (s, none);
  create_run = λ run s. (suc s, good "run-1");
  has_mqtt = false;
  publish = λ topic payload s. s;
}

abbrev body : GithubBody
body = record {
  ref = "refs/heads/main";
  after = "abc";
  number = pos 0;
  full_name = "team/app";
  head_commit = none;
  pull_request = none;
  sender = "ada";
}

abbrev codec : Codec
codec = record {
  equal_fold = λ s t. s == t;
  to_lower = λ s. s;
  trim_space = λ s. s;
  snake_case = λ s. s;
  github_body = λ s. good body;
  gitlab_body = λ s. bad "no body";
  of_int = λ n. str "0";
}

abbrev push : WebhookEvent
push = record {
  provider = "github";
  event = "push";
  repo = "team/app";
  ref = "refs/heads/main";
  commit_sha = "abc";
  pr_number = pos 0;
  sender = "ada";
}

-- A push without a header starts the one flow that asks for pushes.
pushed :
    handle codec services "github" (λ name. "") (some "{}") handler 0
    ≡ (1, accepted push ("run-1" ∷ []))
unfolding handle is_supported_provider provider_event parse_event of_github_like inferred_event
    dispatch_to matches_webhook_trigger some_fires fires has_event create_run_from_trigger
    spec_of_trigger publish_run_created run_of handler_namespace webhook_vars trigger_of new_handler
    put_flows put_sub_flows namespace_prefix_or_default coalesce_namespace put get
pushed = refl

unknown : handle codec services "svn" (λ name. "") (some "{}") handler 0 ≡ (0, rejected 400)
unfolding handle is_supported_provider
unknown = refl

dispatch_to-IsDispatch_example :
    IsDispatch codec services push handler
      (nightly ∷ review ∷ [])
      0
      (dispatch_to codec services (nightly ∷ review ∷ []) push handler 0).0
      (dispatch_to codec services (nightly ∷ review ∷ []) push handler 0).1
dispatch_to-IsDispatch_example =
    dispatch_to-IsDispatch codec services (nightly ∷ review ∷ []) push handler 0

-- The poller of the job manager that the controller deploys for the flow.
abbrev poller : Poller
poller = record {
  k8s_namespace = "flowgent-team";
  flows = ("review", review) ∷ [];
  get_flow = λ id. none;
  uuid = λ s. s;
  size = λ s. 8;
}

abbrev manual : TriggerInfo
manual = record { type = "manual"; source = "api"; payload = [] }

run_of-is_eligible_example :
    (is_eligible poller (stored "run-1" (run_of handler review "review" [] manual)) ≡ true) ↔ (
      (poller.k8s_namespace ≡ "")
      ⊎ (poller.k8s_namespace ≡ application_namespace "" "" review.k8s_namespace review.namespace))
unfolding new_handler spec_of get
run_of-is_eligible_example =
    run_of-is_eligible "" "" handler review "review" [] manual "run-1" poller review refl refl refl

-- An update without a priority keeps the one that is stored, also one that Create would refuse.
abbrev rename : Updates
rename = record {
  description = "nightly build";
  nodes = none;
  edges = none;
  priority = "";
  vars = none;
}

abbrev one_flow : Services
one_flow = record services { get_spec = λ id s. (s, some (record nightly { priority = "low" })) }

renamed :
    (update_flow one_flow (λ s. s) "nightly" "ada" (some rename) handler 0).2
    ≡ flow 200 (record nightly { priority = "low"; description = "nightly build" })
unfolding update_flow overlay new_priority notify_watchers publish_flow_event
renamed = refl
