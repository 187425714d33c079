-- ===== src/Multicluster.antt =====
-- pkg/multicluster: the provider of workload clusters, and the manager that runs it.
pub mod Secrets
pub mod Provider
pub mod Manager
