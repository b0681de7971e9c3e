-- ===== src/Controller.antt =====
-- controller/pkg/controller.go: the driver that shards flows over controller pods. Shard has the
-- ownership of flows, View what a tick reads, Infra what it creates, Schedule the schedules of
-- core/pkg/engine/trigger, Cleanup the observation window before a deletion, Gc and Collect the two
-- garbage collections, Reconcile the tick. Licence, Owner, Orphans, Alive and Apart are
-- proofs.
pub mod Shard
pub mod Cleanup
pub mod Gc
pub mod Collect
pub mod Licence
pub mod Owner
pub mod Orphans
pub mod View
pub mod Schedule
pub mod Infra
pub mod Reconcile
pub mod Alive
pub mod Apart
