-- ===== src/Sandbox/Manager.antt =====
-- `execute` of sandbox/pkg/sandboxmanager.go, up to its calls of executeInProcess and executeInDocker,
-- which may still refuse the script (its file, its filter, its process).
use Prim.Native.String.{◌++◌ as str_append}
use flowgent.Prelude.{
  String, Bool, true, false, Option, List, [], ◌∷◌, ◌==◌, is_empty, if◌then◌else◌,
}
use flowgent.Prelude.Dict.{get_or}
use flowgent.Prelude.Int.{ℤ, pos}
use flowgent.Sandbox.Policy.{NetworkPolicy}

-- model.SandboxPolicy, without the resources and the maximal timeout, which nothing here reads
pub record SandboxPolicy : Type 0 where
  pub network : NetworkPolicy
  pub allowed_runtimes : List String
  pub banned_commands : List String
  pub default_timeout : String

-- The manager's image and policy.
pub record Manager : Type 0 where
  pub image : String
  pub policy : SandboxPolicy

-- The fields of model.SandboxTrigger that execute reads, but for those that it passes on as they are.
pub record Trigger : Type 0 where
  pub runtime : String
  pub timeout : String
  pub network_policy : Option NetworkPolicy

-- What execute comes to: a result with an error, or a call of executeInDocker or executeInProcess with
-- the runtime, the policy and the timeout in nanoseconds.
pub data Launch : Type 0 where
  refused : String → Launch
  docker in_process : String → NetworkPolicy → ℤ → Launch

-- strings.ToLower, strings.Contains, %q of fmt, and time.ParseDuration.
pub record Strings : Type 0 where
  pub to_lower : String → String
  pub contains : String → String → Bool
  pub quote : String → String
  pub parse_duration : String → Option ℤ

-- The loop of isRuntimeAllowed.
unfoldable pub has_runtime : List String → String → Bool
has_runtime [] r = false
has_runtime (a ∷ runtimes) r = if a == r then true else has_runtime runtimes r

-- isRuntimeAllowed
unfoldable pub is_runtime_allowed : SandboxPolicy → String → Bool
unfolding has_runtime
is_runtime_allowed policy r =
    if is_empty policy.allowed_runtimes then true else has_runtime policy.allowed_runtimes r

module _ (strings : Strings) where
  open strings use {to_lower, contains, quote, parse_duration}

  -- The loop of checkBanned, on the script in lower case.
  unfoldable pub first_banned : String → List String → String
  first_banned lower [] = ""
  first_banned lower (p ∷ patterns) =
      if contains lower (to_lower p) then p else first_banned lower patterns

  -- checkBanned
  unfoldable pub check_banned : SandboxPolicy → String → String
  unfolding first_banned
  check_banned policy script = first_banned (to_lower script) policy.banned_commands

  -- The runtime, bash where there is none.
  unfoldable pub runtime_of : Trigger → String
  runtime_of trigger = if trigger.runtime == "" then "bash" else trigger.runtime

  -- The trigger's timeout or the default one, and 120 seconds where it does not parse.
  unfoldable pub timeout_of : Manager → Trigger → ℤ
  timeout_of w trigger =
      get_or (pos 120000000000) (
        parse_duration
          (if trigger.timeout == "" then w.policy.default_timeout else trigger.timeout))

  -- execute
  unfoldable pub launch : Manager → Trigger → String → Launch
  unfolding is_runtime_allowed check_banned runtime_of timeout_of
  launch w trigger script =
      let runtime = runtime_of trigger in
      let banned = check_banned w.policy script in
      let network = get_or w.policy.network trigger.network_policy in
      if is_runtime_allowed w.policy runtime
      then (if banned == ""
          then (if w.image == ""
              then in_process runtime network (timeout_of w trigger)
              else docker runtime network (timeout_of w trigger))
          else refused (str_append "banned pattern: " (quote banned)))
      else refused (str_append "runtime " (str_append (quote runtime) " not allowed"))
