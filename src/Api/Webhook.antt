-- ===== src/Api/Webhook.antt =====
-- `WebhookHandler` of api/pkg/handler/webhook.go: the triggers and the dispatch, over the events of
-- Events.
use flowgent.Prelude.{
  ℕ, String, Bool, true, false, Option, none, some, List, [], ◌∷◌, ◌==◌, is_empty, if◌then◌else◌,
}
use flowgent.Prelude.Dict.{Dict, put}
use flowgent.Value.{Object, str}
use flowgent.Dag.{Flow, TriggerDef}
use flowgent.Agent.Services.{bad, good}
use flowgent.Api.Flows.{TriggerInfo, Handler, Services}
use flowgent.Api.Handlers.{created, create_run_from_trigger}
use flowgent.Api.Events.{
  WebhookEvent, is_zero, is_supported_provider, Codec, provider_event, parse_event,
}

module _ (codec : Codec) where
  open codec use {equal_fold, to_lower, of_int}

  -- The loop over the events of a trigger.
  unfoldable pub has_event : List String → String → Bool
  has_event [] event = false
  has_event (e ∷ events) event = if equal_fold e event then true else has_event events event

  -- The body of the loop over the triggers.
  unfoldable pub fires : TriggerDef → WebhookEvent → Bool
  unfolding has_event
  fires t evt =
      if equal_fold t.type "webhook"
      then (if equal_fold t.provider evt.provider
          then (if is_empty t.events then true else has_event t.events evt.event)
          else false)
      else false

  -- The loop of matchesWebhookTrigger.
  unfoldable pub some_fires : List TriggerDef → WebhookEvent → Bool
  some_fires [] evt = false
  some_fires (t ∷ ts) evt = if fires t evt then true else some_fires ts evt

  unfoldable pub matches_webhook_trigger : Flow → WebhookEvent → Bool
  matches_webhook_trigger spec evt = some_fires spec.triggers evt

  abbrev pub put_text : String → String → Object → Object
  put_text k t d = if t == "" then d else put d k (str t)

  unfoldable pub webhook_vars : Flow → WebhookEvent → Object
  webhook_vars spec evt =
      let vars =
        put (put spec.vars "webhook_provider" (str evt.provider)) "webhook_event" (str evt.event) in
      let vars' =
        put_text "commit_sha" evt.commit_sha
          (put_text "ref" evt.ref (put_text "webhook_repo" evt.repo vars)) in
      if is_zero evt.pr_number then vars' else put vars' "pr_number" (of_int evt.pr_number)

  unfoldable pub trigger_of : WebhookEvent → TriggerInfo
  trigger_of evt = record {
    type = "webhook";
    source = evt.provider;
    payload =
        ("provider", str evt.provider)
        ∷ ("event", str evt.event)
        ∷ ("repo", str evt.repo)
        ∷ ("ref", str evt.ref)
        ∷ ("commit_sha", str evt.commit_sha)
        ∷ ("pr_number", of_int evt.pr_number)
        ∷ ("sender", str evt.sender)
        ∷ [];
  }

  module _ (services : Services) where
    open services use {S}

    -- The loop of dispatch over the cached flows, with the identifiers of the runs.
    unfoldable pub dispatch_to : List Flow → WebhookEvent → Handler → S → S × List String
    dispatch_to [] evt h s = (s, [])
    dispatch_to (spec ∷ flows) evt h s = elim (matches_webhook_trigger spec evt) [
      | false ↦ dispatch_to flows evt h s
      | true ↦
          let (s', made) =
            create_run_from_trigger services spec.id (webhook_vars spec evt) (trigger_of evt) h s in
          let (s'', ids) = dispatch_to flows evt h s' in
          elim made [ created id ↦ (s'', id ∷ ids) | _ ↦ (s'', ids) ]
    ]

    abbrev pub values : Dict Flow → List Flow
    values [] = []
    values ((k, f) ∷ d) = f ∷ values d

    -- The response of Handle: a status with a text, or the event and the runs.
    pub data Reply : Type 0 where
      rejected : ℕ → Reply
      accepted : WebhookEvent → List String → Reply

    -- Handle; the path's provider, the headers, and the body if it could be read.
    unfoldable pub handle : String → (String → String) → Option String → Handler → S → S × Reply
    unfolding is_supported_provider provider_event parse_event dispatch_to
    handle path_provider header body h s =
        let provider = to_lower path_provider in
        if is_supported_provider provider
        then elim body [
          | none ↦ (s, rejected 400)
          | some text ↦
              elim (parse_event codec provider (provider_event codec provider header) text) [
                | bad e ↦ (s, rejected 400)
                | good evt ↦
                    let (s', ids) = dispatch_to (values h.agent_flows) evt h s in
                    (s', accepted evt ids)
              ]
        ]
        else (s, rejected 400)
