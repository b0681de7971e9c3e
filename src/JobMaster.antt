-- ===== src/JobMaster.antt =====
-- core/pkg/engine/jobmanager/jobmaster.go: the orchestrator of one run. `JobMaster` is its state;
-- Graph has the methods on the DAG state, Build makes the graph and the plans of a flow, Input
-- resolves a node's input, Execute is the scheduling loop. The mutex is not modelled: one goroutine
-- runs `Execute`, and each method is one step of it.
pub mod Graph
pub mod Build
pub mod Input
pub mod Execute
pub mod Grows
pub mod Settle
pub mod Waves
pub mod Ready
pub mod Loop
pub mod Built
pub mod Start
pub mod Ends
pub mod Order
pub mod Nodes
pub mod Verdict
pub mod Progress
