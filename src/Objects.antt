-- ===== src/Objects.antt =====
-- pkg/controllers/tf_controller.go: the Kubernetes objects that a task brings along, as the generate
-- functions of TaskOptions put them together.
mod Types
pub mod Volumes
pub mod Pods
pub mod Closed
pub mod Distinct
pub mod Secrecy
pub mod Access
pub use Types.*
pub mod Jobs
