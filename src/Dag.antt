-- ===== src/Dag.antt =====
-- model/pkg/entities: the nodes, edges and flows of a DAG (dag.go, flow.go), execution plans and task
-- runs (task.go) and flow runs (flowrun.go). Fields that no modelled code reads are left out. A
-- `NodeType` is a string, which users write; a `TaskType` is one of the twelve that the engine makes.
use flowgent.Prelude.{ℕ, String, Bool, List, Option}
use flowgent.Prelude.Int.{ℤ}
use flowgent.Value.{Object}

pub record RetryPolicy : Type 0 where
  pub max : ℤ

pub record SupervisorConfig : Type 0 where
  pub max_nodes : ℤ
  pub allowed_actions : List String

-- HumanApprovalConfig; the timeout is in nanoseconds.
pub record HumanApprovalConfig : Type 0 where
  pub timeout : ℤ
  pub on_approve : String
  pub on_reject : String

pub record Node : Type 0 where
  pub id : String
  pub kind : String
  pub type : String
  pub agent : String
  pub tool : String
  pub expression : String
  pub instruction : String
  pub strategy : Option Object
  pub input : Option Object
  pub retry : Option RetryPolicy
  pub concurrency : ℤ
  pub approval : Option HumanApprovalConfig
  pub supervisor_config : Option SupervisorConfig
  pub output_schema : Option Object
  pub args : Option Object

pub record Edge : Type 0 where
  pub from : String
  pub to : String
  pub condition : Option Bool

-- TriggerDef
pub record TriggerDef : Type 0 where
  pub type : String
  pub cron : String
  pub provider : String
  pub events : List String

pub record Flow : Type 0 where
  pub id : String
  pub namespace : String
  pub description : String
  pub kind : String
  pub triggers : List TriggerDef
  pub priority : String
  pub k8s_namespace : String
  pub vars : Object
  pub nodes : List Node
  pub edges : List Edge

pub data TaskType : Type 0 where
  agent condition tool skill supervisor subflow committee map join human sandbox noop : TaskType

pub data TaskStatus : Type 0 where
  task_pending running success failed waiting_human skipped task_retrying : TaskStatus

pub record NodeSpec : Type 0 where
  pub id : String
  pub kind : String
  pub type : String
  pub agent : String
  pub tool : String
  pub expression : String
  pub instruction : String
  pub strategy : Option Object
  pub concurrency : ℤ
  pub retry : Option RetryPolicy
  pub approval : Option HumanApprovalConfig
  pub supervisor_config : Option SupervisorConfig
  pub raw_input : Option Object
  pub args : Option Object
  pub output_schema : Option Object

pub record TaskResult : Type 0 where
  pub output : Option Object
  pub error : String

pub record ExecutionPlan : Type 0 where
  pub plan_id : String
  pub agent_flow_run_id : String
  pub agent_flow_definition_id : String
  pub namespace : String
  pub task_id : String
  pub task_type : TaskType
  pub node_id : String
  pub state : TaskStatus
  pub max_retries : ℤ
  pub input : Object
  pub node_spec : NodeSpec
  pub created_at : ℕ

pub record TaskRun : Type 0 where
  pub id : String
  pub agent_flow_run_id : String
  pub node_id : String
  pub status : TaskStatus
  pub input : Object
  pub exec_id : String
  pub max_retries : ℤ

pub data RunStatus : Type 0 where
  run_pending run_running run_completed run_failed run_paused run_cancelled : RunStatus

pub record FlowRun : Type 0 where
  pub id : String
  pub status : RunStatus
  pub vars : Object
  pub error : String
  pub started_at : Option ℕ
  pub finished_at : Option ℕ
