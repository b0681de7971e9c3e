-- ===== src/Examples/Launch.antt =====
-- Scripts for the sandbox manager (sandbox/pkg/sandboxmanager.go).
use Prim.Native.String.{◌++◌ as str_append}
use flowgent.Prelude.{
  ℕ, suc, some, String, true, false, none, List, [], ◌∷◌, ◌==◌, ◌≡◌, ◌↔◌, refl, eq_iff,
  if◌then◌else◌,
}
use flowgent.Prelude.Int.{pos}
use flowgent.Sandbox.Policy.{NetworkPolicy}
use flowgent.Sandbox.Manager.{
  Manager, Trigger, refused, in_process, Strings, has_runtime, is_runtime_allowed, first_banned,
  check_banned, runtime_of, timeout_of, launch,
}
use flowgent.Sandbox.Executor.{
  Host, Script, polled, replace_code, replace_dots, sanitize_trimmed, sanitize, build_path,
  ext_for_runtime, trigger_of, exchange_trigger, wait_result, run_sandbox,
}
use flowgent.Sandbox.Confined.{IsComponent, sanitize-IsComponent}
use flowgent.Sandbox.Worker.{subscription_topic, sanitize_share_group, dash_others, is_plain}
use flowgent.TaskManager.{ran}
use flowgent.Examples.Models.{plan}
use flowgent.Sandbox.Launches.{IsPassedOn, AllowsRuntime, AreAbsent, launch_iff}

-- A test of equality stands for strings.Contains.
abbrev strings : Strings
strings = record {
  to_lower = λ s. s;
  contains = λ s p. s == p;
  quote = λ s. s;
  parse_duration = λ s. none;
}

abbrev closed : NetworkPolicy
closed = record { mode = "none"; allowed = []; denied = [] }

abbrev manager : List String → Manager
manager banned = record {
  image = "";
  policy = record {
    network = closed;
    allowed_runtimes = "bash" ∷ "python3" ∷ [];
    banned_commands = banned;
    default_timeout = "120s";
  };
}

abbrev trigger : Trigger
trigger = record { runtime = ""; timeout = ""; network_policy = none }

started :
    launch strings (manager ("mkfs" ∷ [])) trigger "ls"
    ≡ in_process "bash" closed (pos 120000000000)
unfolding launch is_runtime_allowed has_runtime check_banned first_banned runtime_of timeout_of
started = refl

stopped : launch strings (manager ("mkfs" ∷ [])) trigger "mkfs" ≡ refused "banned pattern: mkfs"
unfolding launch is_runtime_allowed has_runtime check_banned first_banned runtime_of timeout_of
stopped = refl

-- An empty pattern, which every text contains, ends the search for the patterns behind it.
abbrev containing : Strings
containing = record strings { contains = λ s p. if p == "" then true else s == p }

slips :
    launch containing (manager ("" ∷ "mkfs" ∷ [])) trigger "mkfs"
    ≡ in_process "bash" closed (pos 120000000000)
unfolding launch is_runtime_allowed has_runtime check_banned first_banned runtime_of timeout_of
slips = refl

not_empty : ◌≡◌ {A = String} "mkfs" "" → ⊥
not_empty e = absurd_of ((eq_iff "mkfs" "").1 e)
  where
    absurd_of : false ≡ true → ⊥
    absurd_of q = cc

launch_iff_example : IsPassedOn (launch strings (manager ("mkfs" ∷ [])) trigger "ls") ↔ (
    AllowsRuntime (manager ("mkfs" ∷ [])).policy (runtime_of strings trigger)
    × AreAbsent strings "ls" ("mkfs" ∷ []))
launch_iff_example = launch_iff strings (manager ("mkfs" ∷ [])) trigger "ls" (not_empty, tt)

abbrev echo : Script
echo = record {
  script = "ls";
  runtime = "bash";
  timeout = "";
  workspace = "";
  network_policy = none;
  input = none;
}

unfoldable joined : List String → String
joined (a ∷ b ∷ rest) = str_append a (str_append "/" (str_append b "/"))
joined _ = ""

-- A host whose task managers write nothing and whose result is there at once.
abbrev host : Host ℕ
host = record {
  trim_space = λ s. s;
  join = λ parts. joined parts;
  span_id = λ s. (s, "0a");
  write_script = λ path ext text s. (suc s, none);
  write_input = λ path input s. (suc s, none);
  snapshot = λ path workspace s. (suc s, none);
  credentials = λ namespace flow_id s. [];
  subscribe = λ topic s. (s, none);
  publish = λ topic t s. (suc s, none);
  start_wait = λ s. s;
  next = λ s. (s, polled);
  read_result = λ path s. some (record { output = none; error = path });
}

-- A namespace that would lead out of the workspace becomes one folder of it.
kept_in :
    run_sandbox host 1 none "/work" echo (record plan { namespace = "../../etc"; plan_id = "p" }) 0
    ≡ some (2, ran (record { output = none; error = "/work/____etc/" }))
unfolding run_sandbox build_path sanitize sanitize_trimmed replace_code replace_dots ext_for_runtime
    trigger_of exchange_trigger wait_result joined
kept_in = refl

-- A single dot is kept, which filepath.Join drops.
dot_kept : sanitize host "." ≡ "."
unfolding sanitize sanitize_trimmed replace_code replace_dots
dot_kept = refl

sanitize-IsComponent_example : IsComponent (sanitize host "../../etc")
sanitize-IsComponent_example = sanitize-IsComponent host "../../etc"

grouped :
    subscription_topic (λ s. s) true "team a" "f1"
    ≡ "$share/sandbox-pool-team-a-f1/flowgent/v1/team a/flows/f1/runs/+/sandbox/trigger"
unfolding subscription_topic sanitize_share_group dash_others is_plain
grouped = refl
