-- ===== src/Messager/Names.antt =====
-- The topics of messager/pkg/messager.go.
use Prim.Native.String.{◌++◌}
use flowgent.Prelude.{String}

-- The topic of a run with a path, below TopicPrefix.
unfoldable pub run_topic : String → String → String → String → String
run_topic namespace_id flow_id run_id path =
    "flowgent"
    ++ ("/"
        ++ ("v1"
            ++ ("/"
                ++ (namespace_id
                    ++ ("/"
                        ++ ("flows"
                            ++ ("/"
                                ++ (flow_id
                                    ++ ("/"
                                        ++ ("runs" ++ ("/" ++ (run_id ++ ("/" ++ path)))))))))))))

unfoldable pub exec_plans_topic : String → String → String → String
unfolding run_topic
exec_plans_topic n f r = run_topic n f r "exec/plans"

unfoldable pub exec_results_topic : String → String → String → String
unfolding run_topic
exec_results_topic n f r = run_topic n f r "exec/results"

unfoldable pub sandbox_trigger_topic : String → String → String → String
unfolding run_topic
sandbox_trigger_topic n f r = run_topic n f r "sandbox/trigger"

unfoldable pub sandbox_result_topic : String → String → String → String
unfolding run_topic
sandbox_result_topic n f r = run_topic n f r "sandbox/result"

unfoldable pub notify_event_topic : String → String → String → String
unfolding run_topic
notify_event_topic n f r = run_topic n f r "notify/event"

unfoldable pub notify_result_topic : String → String → String → String
unfolding run_topic
notify_result_topic n f r = run_topic n f r "notify/result"

unfoldable pub shared_exec_plans : String
shared_exec_plans = "$share/tm-pool/flowgent/v1/+/flows/+/runs/+/exec/plans"

unfoldable pub shared_sandbox_trigger : String
shared_sandbox_trigger = "$share/sandbox-pool/flowgent/v1/+/flows/+/runs/+/sandbox/trigger"

unfoldable pub shared_notify_event : String
shared_notify_event = "$share/notify-pool/flowgent/v1/+/flows/+/runs/+/notify/event"

unfoldable pub sign_request_topic : String → String → String → String
unfolding run_topic
sign_request_topic n f r = run_topic n f r "sign/request"

unfoldable pub sign_response_topic : String → String → String → String
unfolding run_topic
sign_response_topic n f r = run_topic n f r "sign/response"

unfoldable pub sign_response_subscription : String → String → String → String
unfolding run_topic
sign_response_subscription n f r = run_topic n f r "sign/response"

unfoldable pub ctrl_run_created_topic : String → String → String → String
unfolding run_topic
ctrl_run_created_topic n f r = run_topic n f r "ctrl/run/created"

unfoldable pub ctrl_run_status_topic : String → String → String → String
unfolding run_topic
ctrl_run_status_topic n f r = run_topic n f r "ctrl/run/status"

unfoldable pub shared_sign_request : String
shared_sign_request = "$share/wallet-pool/flowgent/v1/+/flows/+/runs/+/sign/request"

unfoldable pub notify_queue_wildcard : String
notify_queue_wildcard = "$share/notify-pool/flowgent/v1/+/flows/+/runs/+/notify/event"

-- The topic of a flow with a path, below TopicPrefix.
unfoldable pub flow_topic : String → String → String → String
flow_topic namespace_id flow_id path =
    "flowgent"
    ++ ("/"
        ++ ("v1"
            ++ ("/"
                ++ (namespace_id ++ ("/" ++ ("flows" ++ ("/" ++ (flow_id ++ ("/" ++ path)))))))))

unfoldable pub ctrl_jm_create_topic : String → String → String
unfolding flow_topic
ctrl_jm_create_topic n f = flow_topic n f "ctrl/jm/create"

unfoldable pub ctrl_flow_updated_topic : String → String → String
unfolding flow_topic
ctrl_flow_updated_topic n f = flow_topic n f "ctrl/flow/updated"

unfoldable pub ctrl_flow_deleted_topic : String → String → String
unfolding flow_topic
ctrl_flow_deleted_topic n f = flow_topic n f "ctrl/flow/deleted"

unfoldable pub shared_ctrl_events : String
shared_ctrl_events = "$share/ctrl-pool/flowgent/v1/+/flows/+/ctrl/#"

unfoldable pub heartbeat_topic : String → String
heartbeat_topic tm_id = "flowgent/v1/heartbeat/" ++ tm_id

unfoldable pub heartbeat_wildcard : String
heartbeat_wildcard = "flowgent/v1/heartbeat/+"

unfoldable pub notify_pod_ws_topic : String → String → String
notify_pod_ws_topic pod_id ws_id = "flowgent/v1/notify/pod/" ++ (pod_id ++ ("/ws/" ++ ws_id))

unfoldable pub notify_pod_ws_wildcard : String → String
notify_pod_ws_wildcard pod_id = "flowgent/v1/notify/pod/" ++ (pod_id ++ "/ws/+")
