-- ===== src/Options.antt =====
-- pkg/controllers/tf_controller.go: TaskOptions, what a task runs with, as `newTaskOptions` gathers
-- it from the resource and the controller's settings.
mod Types
mod Gather
mod New
pub mod Laws
pub use Types.*
unfoldable pub use Gather.*
unfoldable pub use New.*
