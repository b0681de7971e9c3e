-- ===== src/Agent/Prompt.antt =====
-- The prompt of `AgentExecutor.Execute` in core/pkg/engine/executor/agent.go, with upsertMemory and
-- formatKnowledgeContext.
use flowgent.Prelude.{
  ℕ, String, Bool, true, false, Option, none, some, List, [], ◌∷◌, ◌==◌, is_empty, if◌then◌else◌,
}
use flowgent.Prelude.Dict.{get_or}
use flowgent.Value.{Object}
use flowgent.Dag.{ExecutionPlan}
use flowgent.Agent.Extract.{truncate}
use flowgent.Agent.Services.{Agent, Outside, ◌+++◌}

module _ (outside : Outside) where
  open outside use {
    S, T, default_temperature, get_agent, generate, has_memory, get_memory, upsert_memory,
    has_knowledge, search_knowledge, marshal, marshal_indent, unmarshal, show, quote, sprint_map,
    sprint_violation, is_space, size, prefix, is_whole,
  }

  abbrev pub cut : String → ℕ → String
  cut s n = truncate size prefix s n

  -- upsertMemory
  unfoldable pub remember : ExecutionPlan → String → String → ℕ → String → S → S
  remember plan prompt response attempt err s = elim has_memory [
    | false ↦ s
    | true ↦
        let (s', existing) = get_memory plan.agent_flow_definition_id plan.node_id s in
        let text =
          cut
            ("attempt="
              +++ show attempt
              +++ " prompt="
              +++ cut prompt 300
              +++ " response="
              +++ cut response 300)
            2000 in
        let entry = if err == "" then text else text +++ " error=" +++ err in
        upsert_memory
          (record {
            flow_id = plan.agent_flow_definition_id;
            node_id = plan.node_id;
            content = elim existing [ none ↦ entry | some old ↦ old +++ "\n" +++ entry ];
            retry_count = attempt;
            last_error = err;
          })
          s'
  ]

  -- The plan's input, and what the node remembers of earlier runs.
  unfoldable pub recall : ExecutionPlan → S → S × String
  recall plan s =
      let input = marshal plan.input in
      elim has_memory [
        | false ↦ (s, input)
        | true ↦
            let (s', prior) = get_memory plan.agent_flow_definition_id plan.node_id s in
            let content = get_or "" prior in
            (
              s',
              if content == ""
                  then input
                  else input
                    +++ "\n\n[Prior executions of this node (flow="
                    +++ plan.agent_flow_definition_id
                    +++ ", node="
                    +++ plan.node_id
                    +++ "):]\n"
                    +++ cut content 500,
            )
      ]

  unfoldable pub instruction_of : ExecutionPlan → Agent T → String
  instruction_of plan agent =
      if plan.node_spec.instruction == "" then agent.instruction else plan.node_spec.instruction

  unfoldable pub with_instruction : String → String → String
  with_instruction instruction prompt =
      if instruction == "" then prompt else instruction +++ "\n\n" +++ prompt

  -- formatKnowledgeContext, from the entries that are left.
  unfoldable pub knowledge_lines : Bool → List (String × String) → String
  knowledge_lines is_first [] = ""
  knowledge_lines is_first ((title, content) ∷ entries) =
      (if is_first then "" else "\n")
      +++ "- "
      +++ title
      +++ ": "
      +++ cut content 300
      +++ knowledge_lines false entries

  -- The system prompt, with what the knowledge store finds.
  unfoldable pub soul_of : String → Agent T → String → S → S × String
  unfolding knowledge_lines
  soul_of instruction agent prompt s = elim has_knowledge [
    | false ↦ (s, agent.soul)
    | true ↦
        let (s', entries) = search_knowledge (cut (instruction +++ " " +++ prompt) 512) s in
        (
          s',
          if is_empty entries
              then agent.soul
              else "[Relevant cross-workflow knowledge:]\n"
                +++ knowledge_lines true entries
                +++ "\n\n"
                +++ agent.soul,
        )
  ]

  unfoldable pub schema_of : ExecutionPlan → Agent T → Option Object
  schema_of plan agent = elim plan.node_spec.output_schema [
    | some schema ↦ some schema
    | none ↦ agent.output_schema
  ]

  unfoldable pub with_schema : Option Object → String → String
  with_schema none prompt = prompt
  with_schema (some schema) prompt =
      prompt
      +++ "\n\nYou MUST output a valid JSON object matching this schema:\n```json\n"
      +++ marshal_indent schema
      +++ "\n```\nOutput ONLY the JSON, no other text."
