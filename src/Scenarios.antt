-- ===== src/Scenarios.antt =====
-- Concrete resources, clusters and a small API server, on which the operations are run.
mod Resources
mod Workflows
mod Choices
mod Clusters
mod Server
mod Deletion
mod Updates
mod Rounds
mod Texts
mod Stores
mod Tofus
mod Locks
mod Environments
mod Caching
mod Composed
mod Pods
mod Reaping
