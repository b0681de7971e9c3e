-- ===== src/Supervisor/Actions.antt =====
-- The actions that `SupervisorExecutor.Execute` (supervisor.go) returns.
use flowgent.Prelude.{
  true-false, none-some, String, true, false, Option, none, some, List, [], ◌∷◌, ◌==◌, ◌≡◌, ◌≢◌,
  ◌⊎◌, inl, inr, refl, sym, subst, ap, ◌∙◌, Memᴰ, eq_iff, Bool-cases, Option-cases, some_inj,
}
use flowgent.Prelude.Dict.{get, put, get_or, get-put}
use flowgent.Value.{Value, str, Object, as_string}
use flowgent.Dag.{ExecutionPlan, SupervisorConfig}
use flowgent.Agent.Services.{Outside}
use flowgent.Agent.{returned}
use flowgent.Agent.Prompt.{instruction_of, with_instruction, with_schema, schema_of}
use flowgent.Agent.Extract.{extract_json}
use flowgent.Agent.Cases.{Fallible-cases, Fetched-cases, failed_returned, returned_inj}
use flowgent.Schema.Loops.{as_string-some}
use flowgent.Supervisor.{decide, is_member, is_allowed, decision_of, supervise}

-- An action that the configuration allows: any, where it lists none.
abbrev pub Allows : Option SupervisorConfig → String → Type 0
Allows none action = Unit
Allows (some config) action = (config.allowed_actions ≡ []) ⊎ Memᴰ action config.allowed_actions

-- The decision names an action, which is allowed.
abbrev pub IsDecided : ExecutionPlan → Object → Type 0
IsDecided plan out =
    (action : String) × (action ≢ "")
    × (get out "action" ≡ some (str action))
    × Allows plan.node_spec.supervisor_config action

is_member-Memᴰ :
    (allowed : List String) (action : String)
    → is_member allowed action ≡ true
    → Memᴰ action allowed
unfolding is_member
is_member-Memᴰ [] action h = cc
is_member-Memᴰ (a ∷ allowed) action h = elim (Bool-cases (a == action)) [
  | inl e ↦ Memᴰ.head (sym ((eq_iff a action).0 e))
  | inr e ↦ Memᴰ.tail (is_member-Memᴰ allowed action (rw (is_member, e) at h))
]

is_allowed-Allows :
    (config : Option SupervisorConfig) (action : String)
    → is_allowed config action ≡ true
    → Allows config action
unfolding is_allowed
is_allowed-Allows none action h = tt
is_allowed-Allows (some config) action h = allow config.allowed_actions refl
  where
    allow :
        (l : List String)
        → config.allowed_actions ≡ l
        → (config.allowed_actions ≡ []) ⊎ Memᴰ action config.allowed_actions
    allow [] e = inl e
    allow (a ∷ l) e =
        inr (subst (Memᴰ action) (sym e) (is_member-Memᴰ (a ∷ l) action (rw (e, is_allowed) at h)))

pair_inj :
    {o q : Object} {a b : String}
    → ◌≡◌ {A = Option (Object × String)} (some (o, a)) (some (q, b))
    → (o ≡ q) × (a ≡ b)
pair_inj {o} {q} {a} {b} h =
    let e : ◌≡◌ {A = Object × String} (o, a) (q, b) = some_inj h in
    (ap (λ p. p.0) e, ap (λ p. p.1) e)

-- The action is kept, or written.
kept :
    (parsed : Object) (out : Object) (action : String)
    → (get_or "" (as_string (get parsed "action")) == "") ≡ false
    → ◌≡◌ {A = Option (Object × String)}
        (some (parsed, get_or "" (as_string (get parsed "action"))))
        (some (out, action))
    → (action ≢ "") × (get out "action" ≡ some (str action))
kept parsed out action e h =
    let x : get_or "" (as_string (get parsed "action")) ≡ action = (pair_inj h).1 in
    let y : parsed ≡ out = (pair_inj h).0 in
    let k : (get_or "" (as_string (get parsed "action")) ≡ "" → ⊥) =
      λ q. true-false (sym ((eq_iff _ "").1 q) ∙ e) in
    (
      λ q. k (x ∙ q),
      subst (λ o. get o "action" ≡ some (str action)) y
          (named (get parsed "action") k ∙ ap (λ t. some (str t)) x),
    )
  where
    named :
        (o : Option Value)
        → (get_or "" (as_string o) ≡ "" → ⊥)
        → o ≡ some (str (get_or "" (as_string o)))
    named o k = elim (Option-cases (as_string o)) [
      | inl q ↦ absurd (k (rw q refl))
      | inr (t, q) ↦ rw q (as_string-some o t q)
    ]

written :
    (parsed : Object) (out : Object) (action : String)
    → ◌≡◌ {A = Option (Object × String)}
        (some (put parsed "action" (str "continue"), "continue"))
        (some (out, action))
    → (action ≢ "") × (get out "action" ≡ some (str action))
written parsed out action h =
    let x : "continue" ≡ action = (pair_inj h).1 in
    (
      λ q. true-false (sym ((eq_iff "continue" "").1 (x ∙ q))),
      subst (λ o. get o "action" ≡ some (str action)) (pair_inj h).0
          (get-put parsed "action" (str "continue") "action" ∙ ap (λ t. some (str t)) x),
    )

decide-named :
    (parsed : Option Object) (out : Object) (action : String)
    → decide parsed ≡ some (out, action)
    → (action ≢ "") × (get out "action" ≡ some (str action))
unfolding decide get
decide-named none out action h = absurd (none-some h)
decide-named (some parsed) out action h =
    elim (Bool-cases (get_or "" (as_string (get parsed "action")) == "")) [
      | inl e ↦ written parsed out action (rw (e, decide) at h)
      | inr e ↦ kept parsed out action e (rw (e, decide) at h)
    ]

module _ (outside : Outside) (temperature : outside.T) (sprint_list : List String → String) where
  decision_of-IsDecided :
      (plan : ExecutionPlan) (response : String) (out : Option Object)
      → decision_of outside temperature sprint_list plan response ≡ some (returned out)
      → (fields : Object) × (out ≡ some fields) × IsDecided plan fields
  unfolding decision_of
  decision_of-IsDecided plan response out h =
      elim (Fallible-cases (outside.unmarshal (extract_json outside.is_space response))) [
        | inl (e, q) ↦ absurd (failed_returned _ out (some_inj (rw (decision_of, q) at h)))
        | inr (parsed, q) ↦ elim (Option-cases (decide parsed)) [
          | inl d ↦ absurd (none-some (rw (decision_of, q, d) at h))
          | inr ((decision, action), d) ↦
              elim (Bool-cases (is_allowed plan.node_spec.supervisor_config action)) [
                | inl a ↦
                    let r : some decision ≡ out =
                      returned_inj (some decision) out
                        (some_inj (rw (decision_of, q, d, a) at h)) in
                    let (named, at_action) = decide-named parsed decision action d in
                    (
                      decision,
                      sym r,
                      (
                        action,
                        named,
                        at_action,
                        is_allowed-Allows plan.node_spec.supervisor_config action a,
                      ),
                    )
                | inr a ↦ absurd (failed_returned _ out (some_inj (rw (decision_of, q, d, a) at h)))
              ]
        ]
      ]

-- A decision that the supervisor's Execute returns names an action that is not empty and that the
-- node's configuration allows: any action if it lists none, and else one of its list.
pub supervise-IsDecided :
    (outside : Outside) (temperature : outside.T) (sprint_list : List String → String)
    (plan : ExecutionPlan) (s : outside.S) (out : Option Object)
    → (supervise outside temperature sprint_list plan s).1 ≡ some (returned out)
    → (fields : Object) × (out ≡ some fields) × IsDecided plan fields
unfolding supervise
supervise-IsDecided outside temperature sprint_list plan s out h =
    elim (Fetched-cases (outside.get_agent plan.node_spec.agent s).1) [
      | inl (e, q) ↦ absurd (failed_returned _ out (some_inj (rw (supervise, q) at h)))
      | inr (inl q) ↦ absurd (failed_returned _ out (some_inj (rw (supervise, q) at h)))
      | inr (inr (agent, q)) ↦
          elim (Fallible-cases
            (outside.generate agent.soul
              (with_schema outside (schema_of outside plan agent) (
                with_instruction outside (instruction_of outside plan agent)
                  (outside.marshal plan.input)))
              agent.model temperature agent.max_tokens
              (outside.get_agent plan.node_spec.agent s).0).1) [
                | inl (e, r) ↦ absurd (failed_returned _ out (some_inj (rw (supervise, q, r) at h)))
                | inr (response, r) ↦
                    decision_of-IsDecided outside temperature sprint_list plan response out
                      (rw (supervise, q, r) at h)
              ]
    ]
