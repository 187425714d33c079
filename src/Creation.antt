-- ===== src/Creation.antt =====
-- pkg/controllers/tf_controller.go: what a stage creates in the cluster before its pod, and the pod.
pub mod Cluster
pub mod Kinds
pub mod Run
pub mod Store
pub mod Does
pub mod Places
pub mod Replaced
pub mod Refines
pub mod Started
pub mod Quiet
pub mod Checked
pub mod Git
pub mod Setup
pub mod Outcome
pub mod Prepared
pub mod Granted
pub mod Installed
pub mod Tasks
pub mod Composed
