-- ===== src/Controller.antt =====
-- pkg/controllers/tf_controller.go: the reconciler of Terraform resources.
pub mod Api
pub mod Settings
pub mod Finalizers
pub mod Secrets
pub mod Updates
pub mod Plugins
pub mod Reconcile
pub mod Finalized
pub mod Locking
pub mod Retries
pub mod Writes
pub mod Approval
pub mod Unconfirmed
pub mod Dispatch
