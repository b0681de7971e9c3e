-- ===== src/Api/Handlers.antt =====
-- The methods of `FlowDefHandler` (api/pkg/handler/flow_def.go) that call the stores. `namespace` is the
-- path's, `user` the one in the request's context.
use Prim.Native.String.{◌++◌ as str_append}
use flowgent.Prelude.{String, true, false, Option, none, some, [], ◌∷◌, ◌==◌, if◌then◌else◌}
use flowgent.Prelude.Dict.{get, put, remove}
use flowgent.Value.{Object, str}
use flowgent.Dag.{Flow}
use flowgent.Agent.Services.{bad, good}
use flowgent.Api.Flows.{
  TriggerInfo, NewRun, Updates, Response, error, flow, no_content, started, Handler, Services,
  normalize_priority, notify_watchers, run_of, overlay, new_priority,
}

-- The results of CreateRunFromTrigger: errFlowNotFound, the store's error, and a run's identifier.
pub data Created : Type 0 where
  no_flow : Created
  failed : String → Created
  created : String → Created

module _ (services : Services) where
  open services use {S, get_spec, save_spec, delete_flow, create_run, has_mqtt, publish}

  -- publishFlowEvent
  unfoldable pub publish_flow_event : String → String → String → S → S
  publish_flow_event event_type flow_id namespace s =
      if has_mqtt
      then publish
          (str_append "flowgent/v1/" (
            str_append namespace (
              str_append "/flows/" (
                str_append flow_id (
                  if event_type == "DELETED"
                  then "/ctrl/flow/deleted"
                  else "/ctrl/flow/updated")))))
          (("event_type", str event_type)
            ∷ ("flow_id", str flow_id)
            ∷ ("namespace_id", str namespace)
            ∷ [])
          s
      else s

  -- Create
  unfoldable pub create_flow :
      (String → String) → String → String → Option Flow → Handler → S → Handler × S × Response
  unfolding normalize_priority notify_watchers publish_flow_event
  create_flow quote namespace user none h s = (h, s, error 400 "invalid body")
  create_flow quote namespace user (some body) h s = elim (body.id == "") [
    | true ↦ (h, s, error 400 "id required")
    | false ↦ elim (normalize_priority quote body.priority) [
      | bad e ↦ (h, s, error 400 e)
      | good priority ↦
          let spec = record body { priority = priority; namespace = namespace } in
          let (s', failure) = save_spec spec user "API create" s in
          elim failure [
            | some e ↦ (h, s', error 500 "internal")
            | none ↦
                let (h', closed) =
                  notify_watchers (record h { agent_flows = put h.agent_flows spec.id spec }) in
                (h', publish_flow_event "CREATED" spec.id namespace s', flow 201 spec)
          ]
    ]
  ]

  -- Get: the cache, then the store.
  unfoldable pub show_flow : String → Handler → S → Handler × S × Response
  show_flow id h s = elim (get h.agent_flows id) [
    | some cached ↦ (h, s, flow 200 cached)
    | none ↦
        let (s', found) = get_spec id s in
        elim found [
          | none ↦ (h, s', error 404 "not found")
          | some spec ↦ (record h { agent_flows = put h.agent_flows id spec }, s', flow 200 spec)
        ]
  ]

  -- Update
  unfoldable pub update_flow :
      (String → String) → String → String → Option Updates → Handler → S → Handler × S × Response
  unfolding overlay new_priority notify_watchers publish_flow_event
  update_flow quote id user body h s =
      let (s', found) = get_spec id s in
      elim found [
        | none ↦ (h, s', error 404 "not found")
        | some existing ↦ elim body [
          | none ↦ (h, s', error 400 "invalid body")
          | some updates ↦ elim (new_priority quote updates existing) [
            | bad e ↦ (h, s', error 400 e)
            | good priority ↦
                let spec = record (overlay updates existing) { priority = priority } in
                let (s'', failure) = save_spec spec user "API update" s' in
                elim failure [
                  | some e ↦ (h, s'', error 500 "internal")
                  | none ↦
                      let (h', closed) =
                        notify_watchers (record h { agent_flows = put h.agent_flows id spec }) in
                      (h', publish_flow_event "UPDATED" id spec.namespace s'', flow 200 spec)
                ]
          ]
        ]
      ]

  -- Delete
  unfoldable pub remove_flow : String → String → Handler → S → Handler × S × Response
  unfolding notify_watchers publish_flow_event
  remove_flow namespace id h s =
      let (s', failure) = delete_flow id s in
      elim failure [
        | some e ↦ (h, s', error 500 "internal")
        | none ↦
            let (h', closed) =
              notify_watchers (record h { agent_flows = remove h.agent_flows id }) in
            (h', publish_flow_event "DELETED" id namespace s', no_content)
      ]

  -- publishRunCreatedEvent
  unfoldable pub publish_run_created : Handler → Flow → String → String → NewRun → S → S
  publish_run_created h spec flow_id run_id run s =
      if has_mqtt
      then (let namespace = if spec.namespace == "" then h.default_namespace else spec.namespace in
          publish
            (str_append "flowgent/v1/" (
              str_append namespace (
                str_append "/flows/" (
                  str_append flow_id
                    (str_append "/runs/" (str_append run_id "/ctrl/run/created"))))))
            (("action", str "created")
              ∷ ("run_id", str run_id)
              ∷ ("agentflow_id", str flow_id)
              ∷ ("namespace_id", str namespace)
              ∷ ("namespace", str run.k8s_namespace)
              ∷ ("trigger_type", str run.trigger.type)
              ∷ [])
            s)
      else s

  -- The specification that CreateRunFromTrigger takes.
  unfoldable pub spec_of_trigger : String → Handler → S → S × Option Flow
  spec_of_trigger flow_id h s = elim (get h.agent_flows flow_id) [
    | some spec ↦ (s, some spec)
    | none ↦ get_spec flow_id s
  ]

  -- CreateRunFromTrigger
  unfoldable pub create_run_from_trigger : String → Object → TriggerInfo → Handler → S → S × Created
  unfolding run_of publish_run_created spec_of_trigger
  create_run_from_trigger flow_id vars trigger h s =
      let (s', found) = spec_of_trigger flow_id h s in
      elim found [
        | none ↦ (s', no_flow)
        | some spec ↦
            let run = run_of h spec flow_id vars trigger in
            let (s'', made) = create_run run s' in
            elim made [
              | bad e ↦ (s'', failed e)
              | good run_id ↦ (publish_run_created h spec flow_id run_id run s'', created run_id)
            ]
      ]

  -- TriggerWithVars, behind Trigger and TriggerByID, which decode a body.
  unfoldable pub trigger_with_vars :
      String → String → Object → TriggerInfo → Handler → S → S × Response
  unfolding create_run_from_trigger
  trigger_with_vars namespace flow_id vars trigger h s =
      let (s', made) = create_run_from_trigger flow_id vars trigger h s in
      elim made [
        | created run_id ↦ (s', started run_id namespace flow_id)
        | no_flow ↦ (s', error 404 "agentflow not found")
        | failed e ↦ (s', error 500 "internal")
      ]
