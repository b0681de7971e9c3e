-- ===== src/Agent/Replies.antt =====
-- Which replies of the language model `AgentExecutor.Execute` (agent.go) accepts.
use flowgent.Prelude.{
  [], ℕ, zero, suc, ◌+◌, String, Option, none, some, ◌≡◌, ◌⊎◌, inl, inr, refl, sym, ◌∙◌, subst,
  Option-cases,
}
use flowgent.Prelude.Dict.{get_or}
use flowgent.Value.{obj, Object, to_fields}
use flowgent.Dag.{ExecutionPlan}
use flowgent.Schema.Conforms.{Conforms}
use flowgent.Schema.Sound.{validate_iff}
use flowgent.Agent.Services.{Agent, Outside, Fetched, fetch_error, not_found, found, good}
use flowgent.Agent.Prompt.{schema_of}
use flowgent.Agent.{failed, returned, done, again, check_output, judge, try_once, attempts, execute}
use flowgent.Agent.Extract.{extract_json}
use flowgent.Agent.Cases.{
  Fallible-cases, Fetched-cases, Round-cases, again_done, done_inj, returned_inj, failed_inj,
  failed_returned,
}

-- No agent was fetched.
abbrev pub IsUnfetched : {T : Type 0} → Fetched T → Type 0
IsUnfetched (fetch_error e) = Unit
IsUnfetched not_found = Unit
IsUnfetched (found agent) = ⊥

module _ (outside : Outside) where
  open outside use {
    S, T, default_temperature, get_agent, generate, unmarshal, show, is_space, is_whole,
  }

  -- The model gave a reply whose JSON is the output, which conforms to the schema, where there is one.
  pub record IsAccepted (agent : Agent T) (schema : Option Object) (out : Option Object)
      : Type 0 where
    pub soul : String
    pub prompt : String
    pub state : S
    pub response : String
    pub replied :
        (generate soul prompt agent.model
          (get_or default_temperature agent.temperature)
          agent.max_tokens
          state).1
        ≡ good response
    pub parsed : unmarshal (extract_json is_space response) ≡ good out
    pub checked :
        (fields : Object)
        → schema ≡ some fields
        → Conforms is_whole (to_fields fields) (obj (to_fields (get_or [] out)))

  judge-done :
      (schema : Option Object) (prompt response : String) (out : Option Object)
      → (judge outside schema prompt response).0 ≡ done out
      → (unmarshal (extract_json is_space response) ≡ good out)
        × (check_output outside schema out ≡ none)
  unfolding judge
  judge-done schema prompt response out h =
      elim (Fallible-cases (unmarshal (extract_json is_space response))) [
        | inl (e, q) ↦ absurd (again_done _ _ out (rw (judge, q) at h))
        | inr (a, q) ↦ elim (Option-cases (check_output outside schema a)) [
          | inl c ↦
              let r : a ≡ out = done_inj a out (rw (judge, q, c) at h) in
              (
                subst (λ z. unmarshal (extract_json is_space response) ≡ good z) r q,
                subst (λ z. check_output outside schema z ≡ none) r c,
              )
          | inr (v, c) ↦ absurd (again_done _ _ out (rw (judge, q, c) at h))
        ]
      ]

  check_output-Conforms :
      (schema : Option Object) (out : Option Object)
      → check_output outside schema out ≡ none
      → (fields : Object) → schema ≡ some fields
      → Conforms is_whole (to_fields fields) (obj (to_fields (get_or [] out)))
  unfolding check_output
  check_output-Conforms schema out h fields e =
      (validate_iff show is_whole (to_fields fields) (obj (to_fields (get_or [] out)))).0
        (subst (λ z. check_output outside z out ≡ none) e h)

  module _ (plan : ExecutionPlan) (agent : Agent T) (soul : String) (schema : Option Object) where
    try_once-done :
        (attempt : ℕ) (prompt : String) (s : S) (out : Option Object)
        → (try_once outside plan agent soul schema attempt prompt s).1 ≡ done out
        → IsAccepted agent schema out
    unfolding try_once
    try_once-done attempt prompt s out h =
        let call =
          generate soul prompt agent.model (get_or default_temperature agent.temperature)
            agent.max_tokens s in
        elim (Fallible-cases call.1) [
          | inl (e, q) ↦ absurd (again_done _ _ out (rw (try_once, q) at h))
          | inr (response, q) ↦
              let (p, c) = judge-done schema prompt response out (rw (try_once, q) at h) in
              record {
                soul = soul;
                prompt = prompt;
                state = s;
                response = response;
                replied = q;
                parsed = p;
                checked = check_output-Conforms schema out c;
              }
        ]

    attempts-returned :
        (left attempt : ℕ) (prompt : String) (last : Option String) (s : S) (out : Option Object)
        → (attempts outside plan agent soul schema left attempt prompt last s).1 ≡ returned out
        → IsAccepted agent schema out
    unfolding attempts
    attempts-returned zero attempt prompt last s out h = absurd (failed_returned last out h)
    attempts-returned (suc left) attempt prompt last s out h =
        elim (Round-cases (try_once outside plan agent soul schema attempt prompt s).1) [
          | inl (a, q) ↦
              let r : a ≡ out = returned_inj a out (rw (attempts, q) at h) in
              subst (IsAccepted agent schema) r (try_once-done attempt prompt s a q)
          | inr (e, p, q) ↦
              attempts-returned left (attempt + 1) p (some e) _ out (rw (attempts, q) at h)
        ]

    -- So many rounds in a row reject, behind a last error, and leave an error.
    pub data AreRejected : ℕ → ℕ → String → Option String → S → Option String → Type 0 where
      stop :
          {attempt : ℕ} {prompt : String} {last : Option String} {s : S} {err : Option String}
          → last ≡ err
          → AreRejected zero attempt prompt last s err
      round :
          {n attempt : ℕ} {prompt : String} {last : Option String} {s : S} {err : Option String}
          {e p : String}
          → (try_once outside plan agent soul schema attempt prompt s).1 ≡ again e p
          → AreRejected n
              (attempt + 1)
              p
              (some e)
              (try_once outside plan agent soul schema attempt prompt s).0
              err
          → AreRejected (suc n) attempt prompt last s err

    attempts-failed :
        (left attempt : ℕ) (prompt : String) (last : Option String) (s : S) (err : Option String)
        → (attempts outside plan agent soul schema left attempt prompt last s).1 ≡ failed err
        → AreRejected left attempt prompt last s err
    unfolding attempts
    attempts-failed zero attempt prompt last s err h = stop (failed_inj last err h)
    attempts-failed (suc left) attempt prompt last s err h =
        elim (Round-cases (try_once outside plan agent soul schema attempt prompt s).1) [
          | inl (a, q) ↦ absurd (failed_returned err a (sym (rw (attempts, q) at h)))
          | inr (e, p, q) ↦
              round q (attempts-failed left (attempt + 1) p (some e) _ err (rw (attempts, q) at h))
        ]

    -- With an error at hand there is one at the end.
    AreRejected-some :
        {n attempt : ℕ} {prompt e : String} {s : S} {last err : Option String}
        → AreRejected n attempt prompt last s err
        → last ≡ some e
        → (e' : String) × (err ≡ some e')
    AreRejected-some {e = e} (stop q) h = (e, sym q ∙ h)
    AreRejected-some (round q r) h = AreRejected-some r refl

    AreRejected-error :
        {n attempt : ℕ} {prompt : String} {s : S} {last err : Option String}
        → AreRejected (suc n) attempt prompt last s err
        → (e : String) × (err ≡ some e)
    AreRejected-error (round q r) = AreRejected-some r refl

-- An output that Execute returns for a plan comes from a reply of the model to the agent that was
-- fetched: it is the JSON that the reply contains, and it conforms to the output schema of the node, or
-- else of the agent, where there is one. Where the JSON is null, the output is a nil map.
pub execute-returned :
    (outside : Outside) (plan : ExecutionPlan) (s : outside.S) (out : Option Object)
    → (execute outside plan s).1 ≡ returned out
    → (agent : Agent outside.T) × ((outside.get_agent plan.node_spec.agent s).1 ≡ found agent)
      × IsAccepted outside agent (schema_of outside plan agent) out
unfolding execute
execute-returned outside plan s out h =
    elim (Fetched-cases (outside.get_agent plan.node_spec.agent s).1) [
      | inl (e, q) ↦ absurd (failed_returned _ out (rw (execute, q) at h))
      | inr (inl q) ↦ absurd (failed_returned _ out (rw (execute, q) at h))
      | inr (inr (agent, q)) ↦
          (agent, q, attempts-returned outside plan agent _ _ _ _ _ _ _ out (rw (execute, q) at h))
    ]

-- Execute fails in two cases: the agent could not be fetched, or four rounds in a row rejected, which
-- is all that it tries. Either way there is an error.
pub execute-failed :
    (outside : Outside) (plan : ExecutionPlan) (s : outside.S) (err : Option String)
    → (execute outside plan s).1 ≡ failed err
    → ((e : String) × (err ≡ some e))
      × (IsUnfetched (outside.get_agent plan.node_spec.agent s).1
          ⊎ ((agent : Agent outside.T) × ((outside.get_agent plan.node_spec.agent s).1
                ≡ found agent)
              × ((soul : String) × (prompt : String) × (state : outside.S) × AreRejected outside
                    plan agent soul
                    (schema_of outside plan agent)
                    4
                    0
                    prompt
                    none
                    state
                    err)))
unfolding execute
execute-failed outside plan s err h =
    elim (Fetched-cases (outside.get_agent plan.node_spec.agent s).1) [
      | inl (e, q) ↦ ((_, sym (failed_inj _ err (rw (execute, q) at h))), inl (rw q tt))
      | inr (inl q) ↦ ((_, sym (failed_inj _ err (rw (execute, q) at h))), inl (rw q tt))
      | inr (inr (agent, q)) ↦
          let rejected =
            attempts-failed outside plan agent _ (schema_of outside plan agent) 4 0 _ none _ err
              (rw (execute, q) at h) in
          (AreRejected-error outside plan agent _ _ rejected, inr (agent, q, (_, _, _, rejected)))
    ]
