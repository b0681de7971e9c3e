-- ===== src/Supervisor.antt =====
-- `SupervisorExecutor.Execute` of core/pkg/engine/executor/supervisor.go, over what the agent executor
-- uses too. The model is asked once, at temperature 0.2.
pub mod Actions
use flowgent.Prelude.{
  ℕ, String, Bool, true, false, Option, none, some, List, [], ◌∷◌, ◌==◌, leb, if◌then◌else◌,
}
use flowgent.Prelude.Dict.{get, put, get_or}
use flowgent.Value.{Value, str, Object, as_string}
use flowgent.Dag.{ExecutionPlan, SupervisorConfig}
use flowgent.Agent.Services.{
  Agent, Fetched, fetch_error, not_found, found, Fallible, bad, good, Outside, ◌+++◌,
}
use flowgent.Agent.Prompt.{instruction_of, with_instruction, with_schema, schema_of}
use flowgent.Agent.Extract.{extract_json}
use flowgent.Agent.{Outcome, failed, returned}

-- The action, "continue" where there is none, which is then written to the decision: to write to a
-- nil map panics (none).
unfoldable pub decide : Option Object → Option (Object × String)
decide parsed =
    let decision = get_or [] parsed in
    let action = get_or "" (as_string (get decision "action")) in
    if action == ""
    then elim parsed [
      | none ↦ none
      | some fields ↦ some (put fields "action" (str "continue"), "continue")
    ]
    else some (decision, action)

-- The loop over the allowed actions.
unfoldable pub is_member : List String → String → Bool
is_member [] action = false
is_member (a ∷ allowed) action = if a == action then true else is_member allowed action

-- The test on the configuration: without allowed actions everything is allowed.
unfoldable pub is_allowed : Option SupervisorConfig → String → Bool
unfolding is_member
is_allowed none action = true
is_allowed (some config) action = elim config.allowed_actions [
  | [] ↦ true
  | a ∷ allowed ↦ is_member (a ∷ allowed) action
]

abbrev pub allowed_of : Option SupervisorConfig → List String
allowed_of none = []
allowed_of (some config) = config.allowed_actions

-- `sprint_list` is fmt's %v of a list.
module _ (outside : Outside) (temperature : outside.T) (sprint_list : List String → String) where
  open outside use {S, T, get_agent, generate, marshal, unmarshal, quote, is_space, size, prefix}

  -- What a reply leads to, unless it panics (none).
  unfoldable pub decision_of : ExecutionPlan → String → Option Outcome
  unfolding decide is_allowed
  decision_of plan response = elim (unmarshal (extract_json is_space response)) [
    | bad e ↦ some (
        failed (
          some (
            "supervisor output invalid JSON: "
            +++ e
            +++ " (raw: "
            +++ (if leb (size response) 200 then response else prefix 200 response)
            +++ ")")))
    | good parsed ↦ elim (decide parsed) [
      | none ↦ none
      | some (decision, action) ↦
          if is_allowed plan.node_spec.supervisor_config action
          then some (returned (some decision))
          else some (
              failed (
                some (
                  "supervisor action "
                  +++ quote action
                  +++ " not in allowed_actions: "
                  +++ sprint_list (allowed_of plan.node_spec.supervisor_config))))
    ]
  ]

  -- Execute
  unfoldable pub supervise : ExecutionPlan → S → S × Option Outcome
  unfolding decision_of
  supervise plan s =
      let (s1, fetched) = get_agent plan.node_spec.agent s in
      elim fetched [
        | fetch_error e ↦ (
          s1,
          some (
              failed (
                some
                  ("supervisor agent not found " +++ quote plan.node_spec.agent +++ ": " +++ e))),
        )
        | not_found ↦
            (s1, some (failed (some ("supervisor agent not found: " +++ plan.node_spec.agent))))
        | found agent ↦
            let prompt =
              with_schema outside (schema_of outside plan agent) (
                with_instruction outside (instruction_of outside plan agent)
                  (marshal plan.input)) in
            let (s2, reply) =
              generate agent.soul prompt agent.model temperature agent.max_tokens s1 in
            elim reply [
              | bad e ↦ (s2, some (failed (some ("supervisor LLM call failed: " +++ e))))
              | good response ↦ (s2, decision_of plan response)
            ]
      ]
