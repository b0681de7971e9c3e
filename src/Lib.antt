-- ===== src/Lib.antt =====
-- Flowgent runs flows: directed graphs of nodes, each of which an executor works on. This library
-- models the core of the engine and of its payment client.
--
-- The parts and how they interact. A JobMaster (pkg/core/pkg/engine/jobmanager/jobmaster.go) takes
-- a flow and a run, builds the graph and an execution plan for each node, and then loops: it asks
-- which nodes are ready, resolves the templates in each one's input, hands its plan to a resource
-- manager and settles the node by the answer. A committee node
-- (pkg/core/pkg/engine/executor/committee.go) counts votes. The payment client
-- (pkg/core/pkg/client) answers a 402 response: a policy engine decides, a human may be asked, a
-- facilitator authorizes, and a ledger records the spending. The memory lock
-- (pkg/core/pkg/lock/lock.go) is the lock of a single process. The in-process messager
-- (pkg/messager/pkg/standalone.go) hands messages to the handlers of matching topics, the memory
-- cache (pkg/cache/pkg/memory.go) keeps a bounded number of entries, and discovery
-- (pkg/core/pkg/engine/discovery) elects a leader among pods and spreads keys over them. The
-- heartbeat monitor (pkg/core/pkg/engine/taskmanager/heartbeat.go) tells live task managers. The
-- poller of a job manager (pkg/core/pkg/engine/jobmanager/jobmanager.go) claims pending runs by
-- the lock. A task manager (pkg/core/pkg/engine/taskmanager) routes a plan to the executor of its
-- type, in the process of the job master (resourcemanager/standalone.go) or behind the messager.
-- The agent executor (pkg/core/pkg/engine/executor/agent.go) asks a language model until a reply
-- fits the output schema (pkg/common/pkg/utils/schema.go). The sandbox (pkg/sandbox/pkg/seccomp)
-- turns a network policy into a filter on system calls and a notifier. The controller
-- (pkg/controller/pkg/controller.go) shards flows over its pods by discovery and deletes the
-- deployments that no run needs. In a cluster a job master hands its plans to the Kubernetes
-- resource manager (pkg/core/pkg/engine/resourcemanager/kubernetes.go), which scales two
-- deployments and routes results back. The API server (pkg/api/pkg) lets requests through its
-- authentication (auth/auth.go), keeps the flows (handler/flow_def.go) and creates the runs that a
-- job manager polls, also for the webhooks of code hosts (handler/webhook.go).
--
-- The files. Prelude has what all share: Go's maps as association lists (Dict), `int` (Int),
-- Boolean tests (Tests), lemmas on lists (Lists), positions (Positions), string functions (Text).
-- Value is Go's `any` as JSON and YAML give it. Dag is pkg/model/pkg/entities: dag.go, task.go,
-- flow.go and flowrun.go. Template is `Resolve` of pkg/common/pkg/utils/eval.go with `resolveDeep`
-- and `collectRefs` of jobmaster.go; Template/Scan is what these ask of the standard library's
-- string functions. JobMaster: Graph has the state and the graph methods (BuildGraphNodes is
-- build_graph_nodes in Build, Ready is ready, depsDone is deps_done, and so on), Build has
-- buildExecutionGraph, NodeSpecFromNode and applySupervisorConfig, Input has resolveInput and the
-- merge of arguments, Execute has Execute: start is the part before the loop, next_action the
-- tests at the loop's head, run_wave the loop over the ready nodes, settle and succeed the
-- branches on an answer, report the two ends of a run. The other files of JobMaster are proofs:
-- Grows (what only grows during a run), Settle (one node), Waves (one wave), Ready, Loop (the rule
-- for the loop), Built and Start (the graph before the loop), Ends (the last turn), Order, Nodes,
-- Verdict and Progress. Committee is `CommitteeExecutor.Execute`. Payment/Domain and
-- Payment/Policy are pkg/core/pkg/client/policy/policy.go, Payment/Policy/Hosts says what its
-- patterns cover, Payment/Client is `Parse` of x402.go and `Do` of x402_httpclient.go. Lock is
-- `MemoryLock`. Cache is `MemoryCache`. Heartbeat is `HeartbeatMonitor`. Messager is
-- `LocalMessager`, with the functions on topics in Messager/Topic. Discovery is discovery.go,
-- static.go and IsLeader of k8s.go, with Go's order of strings in Discovery/Order. A file Laws,
-- Guard, Budget, Answers or Delivery has the proofs of the part it stands under. Schema is
-- schema.go: the recursion through schemas is `node` over the loops of a mutual block, and
-- Schema/Required the check of required keys; Schema/Conforms says what conforms, and Loops, Node
-- and Sound prove it. Agent is agent.go, with its records in Agent/Services, its prompt in
-- Agent/Prompt, extractJSON and truncate in Agent/Extract, and its proofs in Agent/Cases and
-- Agent/Replies. Supervisor is supervisor.go, and Supervisor/Actions its proofs. Human is
-- human.go, and Human/Node what the job master makes of the node. TaskManager is the router, five
-- executors and ExecutePlan, TaskManager/Worker the slot worker, TaskManager/Standalone the
-- standalone resource manager. Condition is EvalCondition of eval.go and the executor of condition
-- nodes, Condition/Reference and Template/Lookup prove what a reference gives, Condition/Node what
-- the job master makes of the node. JobManager is a tick of StartRunPoller with claimRun,
-- JobManager/Claims its proofs; JobManager/Lease has the goroutines that it starts and
-- JobManager/Exclusive their proofs. Messager/Names has topics of messager.go, and Messager/Routes
-- which subscription gets them. Sandbox: Bpf is bpf.go, Policy is BuildFilter, Notifier is
-- checkTarget, Wire the program on its way to the child; Verdict, RoundTrip, Isolation and
-- Launches are proofs; Manager is execute of sandboxmanager.go and Worker its slot worker,
-- Executor is pkg/core/pkg/engine/executor/sandbox.go and Confined its proofs. Controller: Shard
-- is ownsFlow, View what a tick reads, Infra what it creates, Schedule is
-- pkg/core/pkg/engine/trigger, Cleanup the marks, Gc the deletions, Collect the two collections,
-- Reconcile the tick; Owner, Orphans, Licence, Alive and Apart are proofs. Kubernetes: Settings is
-- the start of NewKubernetesResourceManager, Pools the sizes, Scaling what keeps the deployments,
-- Dispatch is Schedule; Sizes, Waits and Settles are proofs. Api: Flows and Handlers are
-- FlowDefHandler, Events and Webhook are webhook.go, Auth is AuthService and TokenService; Routing
-- (which job manager polls a run), Triggers, Access and Tokens are proofs. Examples runs the code
-- and the theorems at concrete inputs.
--
-- State and effects. A method on a struct is a function from a record to a record; what it calls
-- outside of the modelled code (the clock, the context, stores, the resource manager, network,
-- signer, facilitator, approver, decimals, fmt and encoding/json) is a field of a record that the
-- definitions take: Env, Format, Wire, Money, Outside, Queue, Poller, Net, Strings, Unix, Cluster,
-- Services, Codec, Jwt, Server, Kube, Host and Post. Nothing is assumed of these fields. Six
-- things are assumed where a theorem says so, each as documented: Machine says how the kernel runs
-- four instructions of classic BPF, Base64 that decoding inverts encoding, IsSelective that the
-- cluster lists deployments by the label asked for, IsSound that a signed token reads as itself
-- and verifies in its time, IsTimed that a ticker's ticks before a timer fires are bounded, and
-- IsTight that unicode.IsSpace holds of no printable character of ASCII but the space. Of the
-- order of steps, ArePunctual says that the ticks of JobManager/Lease are not half a lease late.
--
-- Fuel. The loop of Execute has no bound in Go. execute_loop takes fuel, and execute gives it one
-- turn for each node of the flow and one more. That is enough: each turn that goes on settles at
-- least one node, since a ready node has a plan, is not settled, and is done or failed afterwards.
-- The rounds of the agent executor and the attempts of the slot worker count down what is left of
-- a number that the source fixes, 4 and 5. The waits for pods and for the result of a script take
-- fuel, which bounds the ticks of a second before their timers fire.
--
-- Bounds. Go's `int` is unbounded here: the modelled code adds one for each vote and doubles the
-- number of votes, far from 2^63. The hash of a key wraps at 2^64, as in Go. Times and leases are
-- natural numbers. A size that the Kubernetes manager aims at wraps as int32 does (to_int32); the
-- bounds of a configuration, which it sets as they are at the start, are taken to fit.
--
-- Not modelled: mutexes, and goroutines but for those of JobManager/Lease (Execute runs on one
-- goroutine, and each method is one step), tracing, metrics and logging, the order of Go's map
-- iteration (a list's order stands for it), YAML decoding, and the other parts of the repository:
-- stores, notifier, wallet, console, configuration, the MQTT messager, the redis cache and lock,
-- and the other handlers of the API server. The input map that a plan shares with the flow's node
-- is copied here, so the merge of arguments does not write to the flow. Of the controller, what
-- fills pods and roles, and the package cron, are left out; of the sandbox, the system calls that
-- install a filter, the splitting of a policy's entries (a field of Net) and executeInProcess and
-- executeInDocker of the sandbox manager; of the job manager, the context that ends its poller; of
-- the executors, the stub for skills; of the Kubernetes resource manager, the pods' templates; of
-- the API server, keys and the backends for OIDC and LDAP.
pub mod Prelude
pub mod Value
pub mod Dag
pub mod Schema
pub mod Agent
pub mod Supervisor
pub mod Human
pub mod TaskManager
pub mod Condition
pub mod Template
pub mod JobMaster
pub mod JobManager
pub mod Payment
pub mod Committee
pub mod Lock
pub mod Cache
pub mod Controller
pub mod Heartbeat
pub mod Discovery
pub mod Messager
pub mod Sandbox
pub mod Kubernetes
pub mod Api
pub mod Examples
