-- ===== src/Addresses.antt =====
-- pkg/controllers/tf_controller.go: the addresses of modules and downloads.
pub mod Patterns
pub mod Parse
pub mod Forms
