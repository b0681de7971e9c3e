-- ===== src/Examples/Workers.antt =====
-- A task that fails in the process of its job master, a queue that fails three times, a topic and a
-- poller (taskmanager, resourcemanager/standalone.go, messager.go, jobmanager.go).
use flowgent.Prelude.{
  inr, Option, ℕ, suc, String, true, false, none, some, List, [], ◌∷◌, ◌≡◌, ◌==◌, refl, arith, leb,
  All, if◌then◌else◌,
}
use flowgent.Prelude.Dict.{get}
use flowgent.Value.{Value, Object}
use flowgent.Template.{Format}
use flowgent.Condition.{Texts, run_condition}
use flowgent.Condition.Node.{Branches, condition-Branches}
use flowgent.Dag.{ExecutionPlan, TaskResult, TaskStatus, TaskType, RunStatus}
use flowgent.JobMaster.Graph.{done}
use flowgent.JobMaster.Execute.{settle, succeed, keep_output}
use flowgent.Prelude.Int.{ℤ}
use flowgent.Human.{ApprovalInfo, run_human, waiting}
use flowgent.Human.Node.{human-settles}
use flowgent.TaskManager.{output, Executor, route, ran, Task, execute_plan}
use flowgent.TaskManager.Standalone.{schedule, reply_of}
use flowgent.TaskManager.Worker.{ExecResult, Queue}
use flowgent.TaskManager.Laws.{IsSettled, schedule-IsSettled}
use flowgent.Lock.{MemoryLock}
use flowgent.JobManager.{Run, Poller, poll}
use flowgent.JobManager.Claims.{IsDispatch, AreDistinct, poll-AreDistinct}
use flowgent.Examples.Models.{plan}
use flowgent.Examples.Fleet.{flow}
use flowgent.Examples.Run.{graph}

abbrev timeout : TaskResult
timeout = record { output = none; error = "sandbox execution timeout" }

abbrev router : Executor ℕ
router p s = (s, ran timeout)

abbrev save : Task → ℕ → ℕ
save t s = suc s

schedule-IsSettled_example :
    IsSettled router save
      (λ s. s)
      (λ n. "full")
      4
      1
      plan
      "review"
      TaskType.agent
      graph
      0
      (schedule router save (λ s. s) (λ n. "full") 4 1 plan 0).0
      (settle "review" TaskType.agent
        (schedule router save (λ s. s) (λ n. "full") 4 1 plan 0).1
        graph)
schedule-IsSettled_example =
    schedule-IsSettled router save (λ s. s) (λ n. "full") 4 1 plan "review" TaskType.agent graph 0

-- The job master completes the node, although the saved task is failed.
completed_in_error :
    settle "review" TaskType.agent (schedule router save (λ s. s) (λ n. "full") 4 1 plan 0).1 graph
    ≡ succeed "review" TaskType.agent none graph
unfolding schedule execute_plan reply_of settle
completed_in_error = refl

-- The queue fails until the fourth call.
abbrev queue : Queue ℕ
queue = record {
  publish = λ topic msg s. (suc s, if leb s 2 then some "offline" else none);
  wait = λ seconds s. (s, false);
}

abbrev message : ExecResult
message = record {
  plan_id = "plan";
  agent_flow_run_id = "run";
  node_id = "review";
  state = TaskStatus.success;
  output = none;
  error = "";
}

abbrev poller : Poller
poller = record {
  k8s_namespace = "";
  flows = ("f1", flow) ∷ [];
  get_flow = λ flow_id. none;
  uuid = λ run_id. run_id;
  size = λ s. 36;
}

abbrev pending : String → Run
pending id = record {
  id = id;
  agent_flow_id = "f1";
  status = RunStatus.run_pending;
  k8s_namespace = "";
}

abbrev no_locks : MemoryLock
no_locks = record { locks = []; lock_values = [] }

-- The page names one run twice.
abbrev page : List Run
page = pending "r1" ∷ pending "r2" ∷ pending "r1" ∷ []

poll-AreDistinct_example :
    All (IsDispatch poller 7 no_locks) (poll poller (some no_locks) 7 page).dispatched
    × AreDistinct poller 7 (poll poller (some no_locks) 7 page).dispatched
poll-AreDistinct_example = poll-AreDistinct poller 7 no_locks page

-- Every value reads as "true", and no text is a number.
abbrev fmt : Format
fmt = record { sprint = λ v. "true"; sprint_map = λ o. "map" }

abbrev texts : Texts
texts = record {
  is_space = λ c. false;
  equal_fold = λ s t. s == t;
  F = ℕ;
  parse_float = λ s. none;
  lt = λ a b. false;
  le = λ a b. false;
  eq = λ a b. false;
}

abbrev executors : List (String × Executor ℕ)
executors = ("condition", run_condition fmt texts) ∷ []

abbrev check : ExecutionPlan
check = record plan { task_type = TaskType.condition; input = ("result", Value.bool true) ∷ [] }

registered : get executors "condition" ≡ some (run_condition fmt texts)
unfolding get
registered = refl

check_result : get check.input "result" ≡ some (Value.bool true)
unfolding get
check_result = refl

condition-Branches_example : Branches "check" true graph (
    settle "check" TaskType.condition
      (schedule (route executors) save (λ s. s) (λ n. "full") 4 1 check 0).1
      graph)
condition-Branches_example =
    condition-Branches fmt texts executors save (λ s. s) (λ n. "full") 4 1 check 0 "check" graph
      "result" (Value.bool true) (omega arith) refl registered (λ c low high. refl) refl
      (inr (refl, refl)) check_result

-- An approval that the store creates with the token "t".
abbrev create : ApprovalInfo → ℕ → ℕ × (ApprovalInfo × Option String)
create approval s = (suc s, (record approval { token = "t" }, none))

abbrev show_duration : ℤ → String
show_duration d = "24h0m0s"

abbrev approve : ExecutionPlan
approve = record plan { task_type = TaskType.human }

abbrev gates : List (String × Executor ℕ)
gates = ("human", run_human create show_duration) ∷ []

gated : get gates "human" ≡ some (run_human create show_duration)
unfolding get
gated = refl

token_kept :
    (run_human create show_duration approve 0).1 ≡ output (waiting create show_duration approve "t")
unfolding run_human
token_kept = refl

human-settles_example :
    (out : Object) × (get out "status" ≡ some (Value.str "WAITING_HUMAN"))
    × (settle "check" TaskType.human
          (schedule (route gates) save (λ s. s) (λ n. "full") 4 1 approve 0).1
          graph
        ≡ done (keep_output "check" (some out) graph) "check")
human-settles_example =
    human-settles create show_duration gates save (λ s. s) (λ n. "full") 4 1 approve 0 "check" graph
      (omega arith) refl gated refl
