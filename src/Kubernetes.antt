-- ===== src/Kubernetes.antt =====
-- `KubernetesResourceManager` of core/pkg/engine/resourcemanager/kubernetes.go: Settings normalizes the
-- configuration and makes the labels, Pools has the sizes, Scaling keeps the two deployments, of task managers and of
-- sandboxes, at the size that the pending work asks for, Dispatch is Schedule. Sizes, Waits and
-- Settles are proofs.
pub mod Settings
pub mod Pools
pub mod Scaling
pub mod Dispatch
pub mod Sizes
pub mod Waits
pub mod Settles
