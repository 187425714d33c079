-- ===== src/Tofu.antt =====
-- pkg/controllers/tofu_controller.go: the controller of Tofu resources, a copy of that of Terraform
-- resources in which the names of labels and variables differ and the objects of a task are created
-- by one function for every kind.
mod Types
pub use Types.*
pub mod Creation
pub mod Controller
pub mod Refines
pub mod Starts
