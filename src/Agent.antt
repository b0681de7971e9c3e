-- ===== src/Agent.antt =====
-- `AgentExecutor.Execute` of core/pkg/engine/executor/agent.go: the prompt, the calls of the language
-- model, and the checks of its replies. The agent's definition, the model, the memory and knowledge
-- stores, encoding/json and fmt are the record `Outside`.
pub mod Extract
pub mod Services
pub mod Prompt
pub mod Cases
pub mod Replies
use Prim.Native.Char.{Char}
use Prim.Native.String.{◌++◌ as str_append}
use flowgent.Prelude.{
  ℕ, zero, suc, ◌+◌, String, Bool, true, false, not, Option, none, some, List, [], ◌∷◌, ◌==◌,
  is_empty, if◌then◌else◌,
}
use flowgent.Prelude.Int.{ℤ}
use flowgent.Prelude.Dict.{get_or}
use flowgent.Value.{Value, obj, Object, to_fields}
use flowgent.Dag.{ExecutionPlan}
use flowgent.Schema.{validate}
use flowgent.Schema.Required.{Violation}
use flowgent.Agent.Extract.{extract_json, truncate}
use flowgent.Agent.Services.{
  Agent, Memory, Fetched, fetch_error, not_found, found, Fallible, bad, good, Outside, ◌+++◌,
}
use flowgent.Agent.Prompt.{
  cut, remember, recall, instruction_of, with_instruction, soul_of, schema_of, with_schema,
}

-- What Execute returns: an error, nil if there is none, or the output, which may be a nil map.
pub data Outcome : Type 0 where
  failed : Option String → Outcome
  returned : Option Object → Outcome

-- One round of the loop: the output, or the error and the prompt for the next round.
pub data Round : Type 0 where
  done : Option Object → Round
  again : String → String → Round

-- NewAgentExecutor: maxRetries
abbrev pub max_retries : ℕ
max_retries = 3

module _ (outside : Outside) where
  open outside use {
    S, T, default_temperature, get_agent, generate, has_memory, get_memory, upsert_memory,
    has_knowledge, search_knowledge, marshal, marshal_indent, unmarshal, show, quote, sprint_map,
    sprint_violation, is_space, size, prefix, is_whole,
  }

  -- The check of an output against the schema; a nil map has no fields.
  unfoldable pub check_output : Option Object → Option Object → Option Violation
  check_output none out = none
  check_output (some schema) out =
      validate show is_whole (some (to_fields schema)) (obj (to_fields (get_or [] out)))

  -- What a reply leads to, and the error text that is remembered with it.
  unfoldable pub judge : Option Object → String → String → Round × String
  judge schema prompt response = elim (unmarshal (extract_json is_space response)) [
    | bad e ↦
        let err = "agent output JSON: " +++ e in
        (
          again err (
              prompt
              +++ "\n\nYour previous output was not valid JSON. Output ONLY a valid JSON object. Error: "
              +++ e),
          err,
        )
    | good out ↦ elim (check_output schema out) [
      | none ↦ (done out, "")
      | some v ↦
          let err = "schema validation failed: " +++ sprint_violation v in
          (
            again err (
                prompt
                +++ "\n\nOutput did not match schema. Fix it. Schema: "
                +++ sprint_map (get_or [] schema)
                +++ "\nError: "
                +++ sprint_violation v),
            err,
          )
    ]
  ]

  module _ (plan : ExecutionPlan) (agent : Agent T) (soul : String) (schema : Option Object) where
    -- The body of the loop.
    unfoldable pub try_once : ℕ → String → S → S × Round
    try_once attempt prompt s =
        let (s', reply) =
          generate soul prompt agent.model (get_or default_temperature agent.temperature)
            agent.max_tokens s in
        elim reply [
          | bad e ↦
              let err = "LLM call failed: " +++ e in
              (remember outside plan prompt "" attempt err s', again err prompt)
          | good response ↦
              let (round, err) = judge schema prompt response in
              (remember outside plan prompt response attempt err s', round)
        ]

    -- The loop, with the rounds that are left and the last error. The prompt of a round that follows
    -- the last one is not used.
    unfoldable pub attempts : ℕ → ℕ → String → Option String → S → S × Outcome
    unfolding try_once
    attempts zero attempt prompt last s = (s, failed last)
    attempts (suc left) attempt prompt last s =
        let (s', round) = try_once attempt prompt s in
        elim round [
          | done out ↦ (s', returned out)
          | again err prompt' ↦ attempts left (attempt + 1) prompt' (some err) s'
        ]

  -- Execute
  unfoldable pub execute : ExecutionPlan → S → S × Outcome
  execute plan s =
      let (s1, fetched) = get_agent plan.node_spec.agent s in
      elim fetched [
        | fetch_error e ↦
            (s1, failed (some ("agent not found " +++ quote plan.node_spec.agent +++ ": " +++ e)))
        | not_found ↦ (s1, failed (some ("agent not found: " +++ plan.node_spec.agent)))
        | found agent ↦
            let (s2, recalled) = recall outside plan s1 in
            let instruction = instruction_of outside plan agent in
            let prompt = with_instruction outside instruction recalled in
            let (s3, soul) = soul_of outside instruction agent prompt s2 in
            let schema = schema_of outside plan agent in
            attempts plan agent soul schema (suc max_retries) 0 (with_schema outside schema prompt)
              none s3
      ]
