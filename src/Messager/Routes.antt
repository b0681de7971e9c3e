-- ===== src/Messager/Routes.antt =====
-- Which topics of messager.go the shared subscriptions get, by the matching of standalone.go.
use Prim.Native.String.{[], ◌∷◌, ◌++◌}
use Prim.Native.Char.{Char, code}
use flowgent.Prelude.{
  select, Bool-cases, inl, inr, String, Bool, true, false, List, ◌≡◌, refl, ap, eqb, ◌&&◌, not,
  arith, ◌∙◌,
}
use mathlib.Core.List as L
use text.Mathlib.TextLemmas.{nil-append, cons-append}
use flowgent.Prelude.Text.{cut_prefix}
use flowgent.Messager.Topic.{
  split_slash, split_topic, parts_match, topic_match, strip_share_prefix, after_slash,
}
use flowgent.Messager.Names.{
  run_topic, exec_plans_topic, exec_results_topic, shared_exec_plans, shared_sandbox_trigger,
  shared_notify_event, shared_sign_request, sandbox_trigger_topic, sandbox_result_topic,
  notify_event_topic, notify_result_topic, sign_request_topic, sign_response_topic,
  ctrl_run_created_topic, ctrl_run_status_topic,
}

-- A text is one level of a topic: no slash in it.
abbrev pub is_level : String → Bool
is_level [] = true
is_level (c ∷ s) = not (eqb (code c) b'/') && is_level s

slash_lem : (rest : String) → split_slash ("/" ++ rest) ≡ L.◌∷◌ "" (split_slash rest)
unfolding split_slash
slash_lem rest = rw (cons-append) (rw (nil-append rest) refl)

split_level :
    (c : Char) (s : String)
    → is_level (c ∷ s) ≡ true
    → (eqb (code c) b'/' ≡ false) × (is_level s ≡ true)
split_level c s h = (ground arith, ground arith)

split_slash-level :
    (s rest : String)
    → is_level s ≡ true
    → split_slash (s ++ ("/" ++ rest)) ≡ L.◌∷◌ s (split_slash rest)
unfolding split_slash
split_slash-level [] rest h = rw (nil-append ("/" ++ rest)) (slash_lem rest)
split_slash-level (c ∷ s) rest h =
    let (e, k) = split_level c s h in
    rw (cons-append c s ("/" ++ rest)) (rw (split_slash-level s rest k) (rw e refl))

split-run_topic :
    (n f r path : String)
    → is_level n ≡ true
    → is_level f ≡ true
    → is_level r ≡ true
    → split_topic (run_topic n f r path)
      ≡ L.◌∷◌ "flowgent" (
          L.◌∷◌ "v1"
            (L.◌∷◌ n (L.◌∷◌ "flows" (L.◌∷◌ f (L.◌∷◌ "runs" (L.◌∷◌ r (split_slash path)))))))
unfolding split_topic run_topic
split-run_topic n f r path hn hf hr =
    let at_run : String = r ++ ("/" ++ path) in
    let at_runs : String = "runs" ++ ("/" ++ at_run) in
    let at_flow : String = f ++ ("/" ++ at_runs) in
    let at_flows : String = "flows" ++ ("/" ++ at_flow) in
    let at_namespace : String = n ++ ("/" ++ at_flows) in
    let at_version : String = "v1" ++ ("/" ++ at_namespace) in
    whole ("/" ++ at_version)
    ∙ level "flowgent" at_version refl (
        level "v1" at_namespace refl (
          level n at_flows hn (
            level "flows" at_flow refl
              (level f at_runs hf (level "runs" at_run refl (level r path hr refl))))))
  where
    whole : (rest : String) → split_topic ("flowgent" ++ rest) ≡ split_slash ("flowgent" ++ rest)
    whole rest = rw (cons-append) refl

    level :
        (s rest : String) {parts : List String}
        → is_level s ≡ true
        → split_slash rest ≡ parts
        → split_slash (s ++ ("/" ++ rest)) ≡ L.◌∷◌ s parts
    level s rest h e = split_slash-level s rest h ∙ ap (L.◌∷◌ s) e

-- The pools that share a subscription among their pods.
pub data Group : Type 0 where
  tm_pool sandbox_pool notify_pool wallet_pool : Group

unfoldable pub subscription : Group → String
subscription tm_pool = shared_exec_plans
subscription sandbox_pool = shared_sandbox_trigger
subscription notify_pool = shared_notify_event
subscription wallet_pool = shared_sign_request

-- The topic of a run that a pool works on.
unfoldable pub work_of : Group → String → String → String → String
work_of tm_pool = exec_plans_topic
work_of sandbox_pool = sandbox_trigger_topic
work_of notify_pool = notify_event_topic
work_of wallet_pool = sign_request_topic

-- All topics of a run.
unfoldable pub topics_of : String → String → String → List String
topics_of n f r = L.◌∷◌ (exec_plans_topic n f r) (
    L.◌∷◌ (exec_results_topic n f r) (
      L.◌∷◌ (sandbox_trigger_topic n f r) (
        L.◌∷◌ (sandbox_result_topic n f r) (
          L.◌∷◌ (notify_event_topic n f r) (
            L.◌∷◌ (notify_result_topic n f r) (
              L.◌∷◌ (sign_request_topic n f r) (
                L.◌∷◌ (sign_response_topic n f r) (
                  L.◌∷◌ (ctrl_run_created_topic n f r)
                    (L.◌∷◌ (ctrl_run_status_topic n f r) L.[])))))))))

abbrev is_for : Group → String → Bool
is_for p topic = topic_match (strip_share_prefix (subscription p)) (split_topic topic)

-- Whether the path of a run's topic is that of the pool's pattern.
is_for-run_topic :
    (p : Group) (n f r path : String)
    → is_level n ≡ true
    → is_level f ≡ true
    → is_level r ≡ true
    → is_for p (run_topic n f r path) ≡ is_for p (run_topic "n" "f" "r" path)
unfolding topic_match strip_share_prefix after_slash split_topic parts_match split_slash cut_prefix
    subscription shared_exec_plans shared_sandbox_trigger shared_notify_event shared_sign_request
is_for-run_topic tm_pool n f r path hn hf hr =
    rw (split-run_topic n f r path hn hf hr, split-run_topic "n" "f" "r" path refl refl refl) refl
is_for-run_topic sandbox_pool n f r path hn hf hr =
    rw (split-run_topic n f r path hn hf hr, split-run_topic "n" "f" "r" path refl refl refl) refl
is_for-run_topic notify_pool n f r path hn hf hr =
    rw (split-run_topic n f r path hn hf hr, split-run_topic "n" "f" "r" path refl refl refl) refl
is_for-run_topic wallet_pool n f r path hn hf hr =
    rw (split-run_topic n f r path hn hf hr, split-run_topic "n" "f" "r" path refl refl refl) refl

select-run_topic :
    (p : Group) (n f r : String)
    → is_level n ≡ true
    → is_level f ≡ true
    → is_level r ≡ true
    → (paths : List String)
    → select (is_for p) (L.map (run_topic n f r) paths)
      ≡ L.map (run_topic n f r) (select (λ path. is_for p (run_topic "n" "f" "r" path)) paths)
unfolding select
select-run_topic p n f r hn hf hr L.[] = refl
select-run_topic p n f r hn hf hr (L.◌∷◌ path paths) =
    elim (Bool-cases (is_for p (run_topic "n" "f" "r" path))) [
      | inl e ↦
          rw (is_for-run_topic p n f r path hn hf hr, e)
            (ap (L.◌∷◌ (run_topic n f r path)) (select-run_topic p n f r hn hf hr paths))
      | inr e ↦
          rw (is_for-run_topic p n f r path hn hf hr, e) (select-run_topic p n f r hn hf hr paths)
    ]

abbrev run_paths : List String
run_paths = L.◌∷◌ "exec/plans" (
    L.◌∷◌ "exec/results" (
      L.◌∷◌ "sandbox/trigger" (
        L.◌∷◌ "sandbox/result" (
          L.◌∷◌ "notify/event" (
            L.◌∷◌ "notify/result" (
              L.◌∷◌ "sign/request" (
                L.◌∷◌ "sign/response"
                  (L.◌∷◌ "ctrl/run/created" (L.◌∷◌ "ctrl/run/status" L.[])))))))))

-- Where no identifier of a run has a slash, each of the four pools gets exactly its own of the ten
-- topics of the run by its shared subscription: the task managers the plans, the sandboxes the
-- triggers, the notifiers the events and the wallets the requests for a signature.
pub select-topics_of :
    (p : Group) (n f r : String)
    → is_level n ≡ true
    → is_level f ≡ true
    → is_level r ≡ true
    → select (is_for p) (topics_of n f r) ≡ L.◌∷◌ (work_of p n f r) L.[]
unfolding select topics_of work_of subscription topic_match strip_share_prefix after_slash
    split_topic parts_match split_slash cut_prefix shared_exec_plans shared_sandbox_trigger
    shared_notify_event shared_sign_request exec_plans_topic exec_results_topic
    sandbox_trigger_topic sandbox_result_topic notify_event_topic notify_result_topic
    sign_request_topic sign_response_topic ctrl_run_created_topic ctrl_run_status_topic run_topic
select-topics_of tm_pool n f r hn hf hr = select-run_topic tm_pool n f r hn hf hr run_paths
select-topics_of sandbox_pool n f r hn hf hr =
    select-run_topic sandbox_pool n f r hn hf hr run_paths
select-topics_of notify_pool n f r hn hf hr = select-run_topic notify_pool n f r hn hf hr run_paths
select-topics_of wallet_pool n f r hn hf hr = select-run_topic wallet_pool n f r hn hf hr run_paths
