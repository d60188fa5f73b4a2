-- ===== src/KubernetesExecutor.antt =====
-- KubernetesImportExecutor of internal/worker/kubernetes_executor.go: one import task becomes one
-- Kubernetes Job. Storage is the size of its volume, Checks the inputs that may reach a Job, Driver
-- the calls of Execute in their order.
pub mod Storage
pub mod Sizes
pub mod Driver
pub mod Cleanup
pub mod Watching
pub mod Ending
