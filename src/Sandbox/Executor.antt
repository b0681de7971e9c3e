-- ===== src/Sandbox/Executor.antt =====
-- `SandboxExecutor.Execute` of core/pkg/engine/executor/sandbox.go: the script's folder, the trigger that
-- is published, and the wait for a result.
use Prim.Native.Char.{code}
use Prim.Native.String.{[], ◌∷◌, ◌++◌ as str_append}
use mathlib.Core.List as L
use flowgent.Prelude.{
  ℕ, zero, suc, String, Bool, true, false, Option, none, some, List, ◌==◌, eqb, if◌then◌else◌,
}
use flowgent.Prelude.Dict.{Dict, get_or}
use flowgent.Value.{Object}
use flowgent.Dag.{ExecutionPlan, TaskResult}
use flowgent.Messager.Names.{sandbox_trigger_topic, sandbox_result_topic}
use flowgent.TaskManager.{Ran, run_error, ran}
use flowgent.Sandbox.Policy.{NetworkPolicy}
use flowgent.Sandbox.Manager.{SandboxPolicy}

-- strings.ReplaceAll of one character, by its code, and of two dots, by an underscore. The flag says that
-- a dot was read and not written.
unfoldable pub replace_code : ℕ → String → String
replace_code n [] = []
replace_code n (c ∷ s) = (if eqb (code c) n then "_" else c) ∷ replace_code n s

unfoldable pub replace_dots : Bool → String → String
replace_dots false [] = []
replace_dots true [] = "."
replace_dots false (c ∷ s) = elim (eqb (code c) b'.') [
  | true ↦ replace_dots true s
  | false ↦ c ∷ replace_dots false s
]
replace_dots true (c ∷ s) = elim (eqb (code c) b'.') [
  | true ↦ "_" ∷ replace_dots false s
  | false ↦ "." ∷ (c ∷ replace_dots false s)
]

-- sanitize, behind strings.TrimSpace.
unfoldable pub sanitize_trimmed : String → String
unfolding replace_code replace_dots
sanitize_trimmed s =
    if s == "" then "default" else replace_dots false (replace_code b'\\' (replace_code b'/' s))

-- The fields of NodeSpec that Execute reads, and the plan's input, where none is nil.
pub record Script : Type 0 where
  pub script : String
  pub runtime : String
  pub timeout : String
  pub workspace : String
  pub network_policy : Option NetworkPolicy
  pub input : Option Object

-- model.SandboxTrigger, without the resources.
pub record SandboxTrigger : Type 0 where
  pub namespace : String
  pub flow_id : String
  pub run_id : String
  pub plan_id : String
  pub script_path : String
  pub runtime : String
  pub timeout : String
  pub network_policy : Option NetworkPolicy
  pub workspace : String
  pub span_id : String
  pub env : Dict String

-- What ends a turn of the wait: a message on the topic of the results, the ticker, or the context.
pub data Event : Type 0 where
  message : TaskResult → Event
  polled expired : Event

-- The file system, the messager and the rest: `write_script` is writeScript in a folder with a suffix,
-- `snapshot` snapshotOriginals, `start_wait` starts the ticker and the timeout, `read_result` is
-- readResultFile.
pub record Host (S : Type 0) : Type 0 where
  pub trim_space : String → String
  pub join : List String → String
  pub span_id : S → S × String
  pub write_script : String → String → String → S → S × Option String
  pub write_input : String → Object → S → S × Option String
  pub snapshot : String → String → S → S × Option String
  pub credentials : String → String → S → Dict String
  pub subscribe : String → S → S × Option String
  pub publish : String → SandboxTrigger → S → S × Option String
  pub start_wait : S → S
  pub next : S → S × Event
  pub read_result : String → S → Option TaskResult

-- The suffix that writeScript takes; extForRuntime of sandboxmanager.go is the same.
unfoldable pub ext_for_runtime : String → String
ext_for_runtime runtime =
    if runtime == "python3" then "py" else if runtime == "node" then "js" else "sh"

module _ {S : Type 0} (host : Host S) where
  open host use {
    trim_space, join, span_id, write_script, write_input, snapshot, credentials, subscribe, publish,
    start_wait, next, read_result,
  }

  unfoldable pub sanitize : String → String
  unfolding sanitize_trimmed
  sanitize s = sanitize_trimmed (trim_space s)

  unfoldable pub build_path : String → ExecutionPlan → String
  unfolding sanitize
  build_path workspace plan = join (
      L.◌∷◌ workspace (
        L.◌∷◌ (sanitize plan.namespace) (
          L.◌∷◌ (sanitize plan.agent_flow_definition_id)
            (L.◌∷◌ (sanitize plan.agent_flow_run_id) (L.◌∷◌ (sanitize plan.plan_id) L.[])))))

  -- The loop at the end, on fuel: none is out of fuel.
  unfoldable pub wait_result : ℕ → String → S → Option (S × TaskResult)
  wait_result zero path s = none
  wait_result (suc fuel) path s =
      let (s', event) = next s in
      elim event [
        | message r ↦ some (s', r)
        | polled ↦ elim (read_result path s') [
          | some r ↦ some (s', r)
          | none ↦ wait_result fuel path s'
        ]
        | expired ↦ some (
          s',
          get_or (record { output = none; error = "sandbox execution timeout" })
              (read_result path s'),
        )
      ]

  abbrev pub write_if :
      {A : Type 0} → (A → S → S × Option String) → Option A → S → S × Option String
  write_if f none s = (s, none)
  write_if f (some a) s = f a s

  abbrev pub nonempty : String → Option String
  nonempty s = if s == "" then none else some s

  unfoldable pub trigger_of :
      Option SandboxPolicy → Script → String → String → ExecutionPlan → S → SandboxTrigger
  trigger_of policy node path span plan s = record {
    namespace = plan.namespace;
    flow_id = plan.agent_flow_definition_id;
    run_id = plan.agent_flow_run_id;
    plan_id = plan.plan_id;
    script_path = path;
    runtime = node.runtime;
    timeout = node.timeout;
    network_policy = elim node.network_policy [
      | some p ↦ some p
      | none ↦ elim policy [ none ↦ none | some q ↦ some q.network ]
    ];
    workspace = node.workspace;
    span_id = span;
    env = credentials plan.namespace plan.agent_flow_definition_id s;
  }

  -- From the subscription on.
  unfoldable pub exchange_trigger : ℕ → SandboxTrigger → S → Option (S × Ran)
  unfolding wait_result
  exchange_trigger fuel t s =
      let (s1, unsubscribed) = subscribe (sandbox_result_topic t.namespace t.flow_id t.run_id) s in
      elim unsubscribed [
        | some e ↦ some (s1, run_error (str_append "sandbox subscribe: " e))
        | none ↦
            let (s2, unpublished) =
              publish (sandbox_trigger_topic t.namespace t.flow_id t.run_id) t s1 in
            elim unpublished [
              | some e ↦ some (s2, run_error (str_append "sandbox publish: " e))
              | none ↦ elim (wait_result fuel t.script_path (start_wait s2)) [
                | none ↦ none
                | some (s3, r) ↦ some (s3, ran r)
              ]
            ]
      ]

  -- Execute, on the fuel of its wait.
  unfoldable pub run_sandbox :
      ℕ → Option SandboxPolicy → String → Script → ExecutionPlan → S → Option (S × Ran)
  unfolding build_path ext_for_runtime trigger_of exchange_trigger
  run_sandbox fuel policy workspace node plan s =
      let path = build_path workspace plan in
      let (s1, span) = span_id s in
      let (s2, unwritten) = write_script path (ext_for_runtime node.runtime) node.script s1 in
      elim unwritten [
        | some e ↦ some (s2, run_error (str_append "sandbox write script: " e))
        | none ↦
            let (s3, no_input) = write_if (λ i. write_input path i) node.input s2 in
            elim no_input [
              | some e ↦ some (s3, run_error (str_append "sandbox write input: " e))
              | none ↦
                  let (s4, no_copy) =
                    write_if (λ w. snapshot path w) (nonempty node.workspace) s3 in
                  elim no_copy [
                    | some e ↦ some (s4, run_error (str_append "sandbox snapshot: " e))
                    | none ↦ exchange_trigger fuel (trigger_of policy node path span plan s4) s4
                  ]
            ]
      ]
