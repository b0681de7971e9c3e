-- ===== src/Examples.antt =====
-- Concrete inputs for the modelled code, and the theorems at them: Run for jobmaster.go, Pay for the
-- payment client and its policy, Votes for committee.go, Lease for lock.go, Store
-- for the memory cache, Broker for the messager of one process, Peers for discovery, Beats for
-- heartbeat.go, Filter for the sandbox, Launch for sandboxmanager.go, Fleet for controller.go, Models for schema.go and agent.go,
-- Workers for the task manager, conditions, the topics and jobmanager.go, Hooks and Server for the API
-- server, Pods for kubernetes.go, Rollout
-- for a tick of the controller.
mod Run
mod Pay
mod Votes
mod Lease
mod Store
mod Broker
mod Peers
mod Beats
mod Filter
mod Fleet
mod Models
mod Workers
mod Launch
mod Server
mod Hooks
mod Pods
mod Rollout
