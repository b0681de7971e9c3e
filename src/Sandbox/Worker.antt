-- ===== src/Sandbox/Worker.antt =====
-- The slot worker of sandbox/pkg/sandboxmanager.go: the subscription, one trigger, and the publishing of
-- its result. `run` stands for executeInDocker and executeInProcess.
use Prim.Native.Char.{code}
use Prim.Native.String.{[], ◌∷◌, ◌++◌ as str_append}
use mathlib.Core.List as L
use flowgent.Prelude.{
  ℕ, zero, suc, ◌-◌, String, Bool, true, false, Option, none, some, List, is_some, ◌==◌, ◌&&◌, ◌||◌,
  eqb, leb, if◌then◌else◌,
}
use flowgent.Prelude.Dict.{get, put}
use flowgent.Value.{Object}
use flowgent.Dag.{TaskResult}
use flowgent.Messager.Names.{sandbox_result_topic}
use flowgent.Sandbox.Manager.{Manager, Trigger, Launch, refused, Strings, launch}
use flowgent.Sandbox.Executor.{SandboxTrigger, ext_for_runtime}

-- The characters that sanitizeShareGroup keeps.
unfoldable pub is_plain : ℕ → Bool
is_plain n =
    leb b'a' n && leb n b'z'
    || (leb b'A' n && leb n b'Z' || (leb b'0' n && leb n b'9' || (eqb n b'-' || eqb n b'_')))

unfoldable pub dash_others : String → String
dash_others [] = []
dash_others (c ∷ s) = (if is_plain (code c) then c else "-") ∷ dash_others s

-- sanitizeShareGroup, behind strings.TrimSpace.
unfoldable pub sanitize_share_group : String → String
unfolding dash_others is_plain
sanitize_share_group v = if v == "" then "default" else dash_others v

-- subscriptionTopic, of a manager's scope.
unfoldable pub subscription_topic : (String → String) → Bool → String → String → String
unfolding sanitize_share_group
subscription_topic trim_space distributed namespace_id flow_id =
    let scoped = if namespace_id == "" then false else if flow_id == "" then false else true in
    let filter =
      if scoped
      then str_append "flowgent/v1/" (
          str_append namespace_id
            (str_append "/flows/" (str_append flow_id "/runs/+/sandbox/trigger")))
      else "flowgent/v1/+/flows/+/runs/+/sandbox/trigger" in
    let group =
      if scoped
      then str_append "sandbox-pool-" (
          str_append (sanitize_share_group (trim_space namespace_id))
            (str_append "-" (sanitize_share_group (trim_space flow_id))))
      else "sandbox-pool" in
    if distributed then str_append "$share/" (str_append group (str_append "/" filter)) else filter

-- attachParsedOutput, of what tryParseJSON finds.
unfoldable pub attach_missing : Object → Object → Object
attach_missing output L.[] = output
attach_missing output (L.◌∷◌ (k, v) parsed) =
    attach_missing (if is_some (get output k) then output else put output k v) parsed

-- tryParseJSON: the whole text, or else its last line that is an object; `parse_object` is parseJSONObject
-- and `lines` the lines from the last on.
unfoldable pub last_object :
    (String → String) → (String → Option Object) → List String → Option Object
last_object trim_space parse_object L.[] = none
last_object trim_space parse_object (L.◌∷◌ l lines) = elim (parse_object (trim_space l)) [
  | some v ↦ some v
  | none ↦ last_object trim_space parse_object lines
]

-- The messager, the files and the waits of a worker. `wait` waits for so many seconds, and gives the
-- context's error if that ends before.
pub record Post (S : Type 0) : Type 0 where
  pub read_script : String → String → S → S × Option String × String
  pub set_status : String → String → S → S
  pub run : Launch → SandboxTrigger → String → S → S × TaskResult
  pub publish : String → SandboxTrigger → TaskResult → S → S × Option String
  pub wait : ℕ → S → S × Option String

module _ {S : Type 0} (post : Post S) where
  open post use {read_script, set_status, run, publish, wait}

  -- The loop of publishResult, with the attempts that are left of 5 and the last error.
  unfoldable pub publish_from :
      ℕ → String → SandboxTrigger → TaskResult → Option String → S → S × Option String
  publish_from zero topic t r last s = (s, last)
  publish_from (suc left) topic t r last s =
      let (s1, failure) = publish topic t r s in
      elim failure [
        | none ↦ (s1, none)
        | some e ↦
            let (s2, ended) = wait (5 - left) s1 in
            elim ended [ some c ↦ (s2, some c) | none ↦ publish_from left topic t r (some e) s2 ]
      ]

  -- publishResult
  unfoldable pub publish_result : SandboxTrigger → TaskResult → S → S × Option String
  unfolding publish_from
  publish_result t r s =
      let namespace_id = if t.namespace == "" then "default" else t.namespace in
      publish_from 5 (sandbox_result_topic namespace_id t.flow_id t.run_id) t r none s

  abbrev pub request_of : SandboxTrigger → Trigger
  request_of t = record {
    runtime = t.runtime;
    timeout = t.timeout;
    network_policy = t.network_policy;
  }

  -- The result of execute.
  unfoldable pub finish : Launch → SandboxTrigger → String → S → S × TaskResult
  finish (refused e) t script s = (s, record { output = none; error = e })
  finish l t script s = run l t script s

  -- handleTrigger, where none is a payload that does not decode. An error of publishResult is logged.
  unfoldable pub handle_trigger : Strings → Manager → Option SandboxTrigger → S → S
  unfolding publish_result finish
  handle_trigger strings w none s = s
  handle_trigger strings w (some t) s =
      let (s1, unread, script) = read_script t.script_path (ext_for_runtime t.runtime) s in
      elim unread [
        | some e ↦
            (publish_result t (record { output = none; error = str_append "read script: " e }) s1).0
        | none ↦
            let s2 = set_status t.script_path "RUNNING" s1 in
            let (s3, r) = finish (launch strings w (request_of t) script) t script s2 in
            (publish_result t r s3).0
      ]
